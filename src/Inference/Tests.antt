-- ===== src/Inference/Tests.antt =====
-- A chain of two edges, closed.
use neuron_kg.Prelude.{
  ℕ, ◌≡◌, ◌≢◌, ◌||◌, refl, true, false, none, some, List, [], ◌∷◌, All, Any, here, there, arith,
  eq_iff,
}
use neuron_kg.Inference.{
  Edge, Derivation, intersect_validity, latest_start, earliest_end, min_confidence, conclude,
  is_asserted, is_derived, starts_of, sweep, visit, add_conclusion, levels, transitive_closure,
  symmetric_closure, inverse_edges, sub_property_edges,
}
use neuron_kg.Inference.Sound.{IsCarried, transitive_closure-IsCarried}
use neuron_kg.Inference.Complete.{pair, transitive_closure_complete}
use neuron_kg.Inference.Rules.{Reverses, Repeats, HoldsAt, IsNew, rules_cover}

program : Unit {0}
unfolding intersect_validity latest_start earliest_end min_confidence conclude starts_of sweep visit
    add_conclusion levels transitive_closure
program = tt

abbrev ab : Edge
ab = record {
  from_uid = "a";
  to_uid = "b";
  from_label = "WorkItem";
  to_label = "WorkItem";
  fact_uid = some "f1";
  valid_at = some 1;
  invalid_at = some 10;
  confidence = 900;
  source_record_keys = "r2" ∷ "r1" ∷ [];
}

abbrev bc : Edge
bc = record {
  from_uid = "b";
  to_uid = "c";
  from_label = "WorkItem";
  to_label = "WorkItem";
  fact_uid = some "f2";
  valid_at = some 5;
  invalid_at = none;
  confidence = 800;
  source_record_keys = "r1" ∷ [];
}

abbrev edges : List Edge
edges = ab ∷ bc ∷ []

abbrev ac : Derivation
ac = record {
  relation = "PARENT_OF";
  rule = "axiom_transitive";
  from_uid = "a";
  to_uid = "c";
  from_label = "WorkItem";
  to_label = "WorkItem";
  premises = "f1" ∷ "f2" ∷ [];
  valid_at = some 5;
  invalid_at = some 10;
  confidence = 800;
  source_record_keys = "r1" ∷ "r2" ∷ [];
}

closed : transitive_closure "PARENT_OF" edges 8 20_000 ≡ (ac ∷ [], false)
unfolding program
closed = refl

stopped_by_cap : (transitive_closure "PARENT_OF" edges 8 1).1 ≡ true
unfolding program
stopped_by_cap = refl

transitive_closure-IsCarried_example :
    All (IsCarried edges) (transitive_closure "PARENT_OF" edges 8 20_000).0
transitive_closure-IsCarried_example = transitive_closure-IsCarried "PARENT_OF" edges 8 20_000

holds_together : intersect_validity edges ≢ none
unfolding program
holds_together e = cc

transitive_closure_complete_example :
    (is_asserted edges "a" "c"
      || is_derived (transitive_closure "PARENT_OF" edges 8 20_000).0 "a" "c")
    ≡ true
transitive_closure_complete_example =
    transitive_closure_complete "PARENT_OF" edges 8 20_000 {e = ab} {f = bc} {chain = edges}
      (unfold program in refl)
      (pair (here refl) (there (here refl)) refl (λ e. absurd (ground (arith, eq_iff "a" "c"))))
      holds_together

rules_cover_example :
    All
      (λ e.
        (t : ℕ)
        → HoldsAt t e
        → Any (Reverses "CHILD_OF" "axiom_inverse" e) (inverse_edges "CHILD_OF" edges))
      edges
    × All
        (λ e.
          (t : ℕ)
          → HoldsAt t e
          → Any
              (Repeats "RELATED_TO" "axiom_sub_property" e)
              (sub_property_edges "RELATED_TO" edges))
        edges
    × All
        (λ e.
          (t : ℕ)
          → HoldsAt t e
          → e.from_uid ≢ e.to_uid
          → is_asserted edges e.to_uid e.from_uid ≡ false
          → Any (Reverses "SAME_AS" "axiom_symmetric" e) (symmetric_closure "SAME_AS" edges))
        edges
    × All
        (λ d. Any (λ e. Reverses "CHILD_OF" "axiom_inverse" e d) edges)
        (inverse_edges "CHILD_OF" edges)
    × All
        (λ d. Any (λ e. Repeats "RELATED_TO" "axiom_sub_property" e d) edges)
        (sub_property_edges "RELATED_TO" edges)
    × All
        (λ d. Any (λ e. Reverses "SAME_AS" "axiom_symmetric" e d) edges × IsNew "SAME_AS" edges d)
        (symmetric_closure "SAME_AS" edges)
rules_cover_example = rules_cover "SAME_AS" "CHILD_OF" "RELATED_TO" edges
