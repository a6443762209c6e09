-- ===== src/Reviews/Tests.antt =====
-- Reviews and candidate links at small inputs.
use neuron_kg.Prelude.{ℕ, ◌≡◌, refl, Option, none, some, [], ◌∷◌}
use neuron_kg.Reviews.{
  Review, ReviewState, pending, approved, rejected, Queue, Candidates, LinkCandidate, create_review,
  approve_review, reject_review, decided, new_review, create_link_candidate, reject_link_candidate,
  approve_link_candidate,
}
use neuron_kg.Reviews.Deciding.{Run, stay, further, created, accepted}
use neuron_kg.Reviews.Proposing.{rejected_stays}
use neuron_kg.Reviews.Outcomes.{empty, Below, AreSound, Run-AreSound, Answer, decisions-Answer}
use neuron_kg.Reviews.Linking.{candidate_decided_once, candidate_stays}
use neuron_kg.Reviews.Linking

program : Unit {0}
unfolding create_review approve_review reject_review create_link_candidate reject_link_candidate
    approve_link_candidate
program = tt

abbrev proposal : Review
proposal = new_review 1 "duplicate_pair" "{}" (some "a:b") 5

abbrev queue1 : Queue
queue1 = record { reviews = proposal ∷ []; rejections = []; next_id = 2 }

abbrev queue2 : Queue
queue2 = record {
  reviews = decided rejected "ann" 6 proposal ∷ [];
  rejections =
      record { identity = "a:b"; type = "duplicate_pair"; review_id = 1; rejected_at = 6 } ∷ [];
  next_id = 2;
}

reject_first : reject_review 1 "ann" 6 queue1 ≡ (queue2, some (decided rejected "ann" 6 proposal))
unfolding program
reject_first = refl

Run-queue1 : Run empty queue1
unfolding program
Run-queue1 = further stay (created "duplicate_pair" "{}" (some "a:b") 5)

Run-queue2 : Run queue2 queue2
unfolding program
Run-queue2 = further stay (accepted 1 "bob" 7)

rejected_stays_example : create_review "duplicate_pair" "{}" (some "a:b") 9 queue2 ≡ (queue2, none)
rejected_stays_example =
    rejected_stays queue1 {p = queue2} 1 "ann" 6 (decided rejected "ann" 6 proposal) "a:b"
      (unfold program in refl) refl (unfold program in Run-queue2) "duplicate_pair" "{}" 9

Run-AreSound_example : Below 2 queue1.reviews × AreSound queue1.reviews
Run-AreSound_example = Run-AreSound Run-queue1

decisions-Answer_example :
    Answer approved 1 "ann" 6 queue1 (approve_review 1 "ann" 6 queue1)
    × Answer rejected 1 "ann" 6 queue1 (reject_review 1 "ann" 6 queue1)
decisions-Answer_example = decisions-Answer 1 "ann" 6 Run-queue1

abbrev link : ReviewState → Option ℕ → LinkCandidate
link state decided_at = record {
  id = 1;
  from_uid = "a";
  to_uid = "b";
  relation = "RELATES_TO";
  confidence = 700;
  derived_rule = "two_hop";
  state = state;
  created_at = 5;
  decided_at = decided_at;
}

abbrev links : ReviewState → Option ℕ → Candidates
links state decided_at = record { rows = link state decided_at ∷ []; next_id = 2 }

Run-links : Linking.Run (links pending none) (links rejected (some 6))
unfolding program
Run-links = Linking.further Linking.stay (Linking.declined 1 6)

Run-rejected : Linking.Run (links rejected (some 6)) (links rejected (some 6))
unfolding program
Run-rejected = Linking.further Linking.stay (Linking.accepted 1 7)
