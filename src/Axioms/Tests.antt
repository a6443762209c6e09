-- ===== src/Axioms/Tests.antt =====
-- A vocabulary of three relations.
use neuron_kg.Prelude.{String, ◌≡◌, refl, Bool, true, false, none, some, List, [], ◌∷◌}
use neuron_kg.Axioms.{
  RelationAxiom, allow_all, build, is_allowed, swapped, resolve_direction, for_relation,
  adopted_batch_for, temporal_of, transitive_relations, inverse_pairs,
}
use neuron_kg.Axioms.Allowed.{resolve_direction-build}

abbrev row : String → String → String → Bool → String → RelationAxiom
row relation subject object extractable temporal = record {
  relation = relation;
  subject_kind = subject;
  object_kind = object;
  extractable = extractable;
  functional = false;
  is_transitive = true;
  is_symmetric = false;
  is_asymmetric = false;
  inverse_of = some "X";
  sub_property_of = none;
  temporal = temporal;
  adopted_batch = none;
}

abbrev rows : List RelationAxiom
rows =
    row "OWNS" "Person" "System" true "state"
    ∷ row "IMPLEMENTS" "PullRequest" "Decision" true "event"
    ∷ row "AUTHORED_BY" "Commit" "Person" false "event"
    ∷ row "OWNS" "Team" "System" true "event"
    ∷ []

allows : is_allowed "Person" "OWNS" "System" (build rows) ≡ true
unfolding is_allowed build allow_all
allows = refl

refuses_structural : resolve_direction "Commit" "AUTHORED_BY" "Person" (build rows) ≡ none
unfolding resolve_direction is_allowed build allow_all
refuses_structural = refl

swaps : resolve_direction "System" "OWNS" "Team" (build rows) ≡ some swapped
unfolding resolve_direction is_allowed build allow_all
swaps = refl

no_agreement : temporal_of "OWNS" (build rows) ≡ "state"
unfolding temporal_of for_relation build allow_all
no_agreement = refl

sorted_once : transitive_relations (build rows) ≡ "AUTHORED_BY" ∷ "IMPLEMENTS" ∷ "OWNS" ∷ []
unfolding transitive_relations build allow_all
sorted_once = refl

pairs : inverse_pairs (build rows) ≡ ("AUTHORED_BY", "X") ∷ ("IMPLEMENTS", "X") ∷ ("OWNS", "X") ∷ []
unfolding inverse_pairs build allow_all
pairs = refl

seeded : adopted_batch_for "Person" "OWNS" "System" (build rows) ≡ none
unfolding adopted_batch_for build allow_all
seeded = refl

resolve_direction-build_example :
    resolve_direction "System" "OWNS" "Team" (build rows) ≡ some swapped
resolve_direction-build_example = resolve_direction-build "System" "OWNS" "Team" rows
