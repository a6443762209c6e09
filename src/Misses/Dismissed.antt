-- ===== src/Misses/Dismissed.antt =====
-- A term that was dismissed.
use mathlib.Core.Bool.{true≢false, false≢true}
use neuron_kg.Prelude.{
  ℕ, String, ◌≡◌, refl, sym, ap, ◌∙◌, Bool, true, false, ◌&&◌, ◌||◌, not, is_some, Option, List, [],
  ◌∷◌, ◌++◌, map, All, All-map, All-append, eq_iff, arith, ◌==◌, inl, inr, Bool-cases,
  if◌then◌else◌,
}
use neuron_kg.Prelude.Table.{select, find, update, order_by, insert_sorted, All-update, All-select}
use neuron_kg.Misses.{
  Miss, is_miss, new_miss, seen_again, record_miss, misses, is_miss_before, row_of, is_undecided,
  dismiss, dismiss_miss,
}

-- A call of record_miss or of dismiss_miss.
pub data Call : Type 0 where
  recorded : String → String → Option String → ℕ → Call
  dismissed : String → String → ℕ → Call

abbrev pub called : Call → List Miss → List Miss
called (recorded kind key example now) ms = record_miss kind key example now ms
called (dismissed kind key now) ms = dismiss_miss kind key now ms

pub run : List Call → List Miss → List Miss
run [] ms = ms
run (c ∷ cs) ms = run cs (called c ms)

-- The row of the term is there and dismissed.
abbrev pub is_dismissed : String → String → Miss → Bool
is_dismissed kind key m = not (is_miss kind key m) || is_some m.dismissed_at

abbrev pub IsDismissed : String → String → List Miss → Type 0
IsDismissed kind key ms =
    (is_some (find (is_miss kind key) ms) ≡ true) × All (λ m. is_dismissed kind key m ≡ true) ms

find-update :
    (p q : Miss → Bool) (f : Miss → Miss) (ms : List Miss)
    → ((m : Miss) → p (f m) ≡ p m)
    → is_some (find p (update q f ms)) ≡ is_some (find p ms)
find-update p q f [] h = refl
find-update p q f (m ∷ ms) h = elim (Bool-cases (q m)) [
  | inl u ↦
      rw (u, h m)
        (elim (Bool-cases (p m)) [ inl v ↦ rw v refl | inr v ↦ rw v (find-update p q f ms h) ])
  | inr u ↦
      rw u (elim (Bool-cases (p m)) [ inl v ↦ rw v refl | inr v ↦ rw v (find-update p q f ms h) ])
]

find-append :
    (p : Miss → Bool) (x : Miss) (ms : List Miss)
    → is_some (find p ms) ≡ true
    → is_some (find p (ms ++ x ∷ [])) ≡ true
find-append p x [] h = absurd (false≢true h)
find-append p x (m ∷ ms) h = elim (Bool-cases (p m)) [
  | inl u ↦ rw u refl
  | inr u ↦ rw u (find-append p x ms (rw u at h))
]

-- A term without a row is not the one that has a row.
other :
    (kind key kind' key' : String) (ms : List Miss)
    → is_some (find (is_miss kind key) ms) ≡ true
    → is_some (find (is_miss kind' key') ms) ≡ false
    → (kind' == kind && key' == key) ≡ false
other kind key kind' key' ms h u = elim (Bool-cases (kind' == kind && key' == key)) [
  | inl v ↦
      let a = (eq_iff kind' kind).0 (ground arith) in
      let b = (eq_iff key' key).0 (ground arith) in
      let m = ap (λ z. is_some (find (is_miss z key') ms)) a in
      let n = ap (λ z. is_some (find (is_miss kind z) ms)) b in
      absurd (true≢false (sym h ∙ (sym n ∙ (sym m ∙ u))))
  | inr v ↦ v
]

called-IsDismissed :
    (kind key : String) (c : Call) (ms : List Miss)
    → IsDismissed kind key ms
    → IsDismissed kind key (called c ms)
unfolding record_miss dismiss_miss
called-IsDismissed kind key (dismissed kind' key' now) ms h = (
  find-update (is_miss kind key) (is_miss kind' key') (dismiss now) ms (λ m. refl) ∙ h.0,
  All-update (λ m. is_dismissed kind key m ≡ true) (is_miss kind' key') (dismiss now) ms
      (λ m u v. ground arith) h.1,
)
called-IsDismissed kind key (recorded kind' key' example now) ms h =
    elim (Bool-cases (is_some (find (is_miss kind' key') ms))) [
      | inl u ↦ rw u (
        find-update (is_miss kind key) (is_miss kind' key') (seen_again example now) ms (λ m. refl)
            ∙ h.0,
        All-update (λ m. is_dismissed kind key m ≡ true) (is_miss kind' key')
            (seen_again example now) ms (λ m u v. v) h.1,
      )
      | inr u ↦ rw u (
        find-append (is_miss kind key) (new_miss kind' key' example now) ms h.0,
        All-append (λ m. is_dismissed kind key m ≡ true) ms (new_miss kind' key' example now ∷ [])
            h.1 (ap (λ z. not z || false) (other kind key kind' key' ms h.0 u), tt),
      )
    ]

run-IsDismissed :
    (kind key : String) (cs : List Call) (ms : List Miss)
    → IsDismissed kind key ms
    → IsDismissed kind key (run cs ms)
unfolding run
run-IsDismissed kind key [] ms h = h
run-IsDismissed kind key (c ∷ cs) ms h =
    run-IsDismissed kind key cs (called c ms) (called-IsDismissed kind key c ms h)

All-insert_sorted :
    (q : Miss → Bool) (m : Miss) (ms : List Miss)
    → q m ≡ false
    → All (λ n. q n ≡ false) ms
    → All (λ n. q n ≡ false) (insert_sorted is_miss_before m ms)
All-insert_sorted q m [] h k = (h, tt)
All-insert_sorted q m (n ∷ ms) h k = placed (is_miss_before n m) (All-insert_sorted q m ms h k.1)
  where
    placed :
        (b : Bool)
        → All (λ x. q x ≡ false) (insert_sorted is_miss_before m ms)
        → All (λ x. q x ≡ false) (if b then n ∷ insert_sorted is_miss_before m ms else m ∷ n ∷ ms)
    placed true ih = (k.0, ih)
    placed false ih = (h, k)

All-order_by :
    (q : Miss → Bool) (ms : List Miss)
    → All (λ n. q n ≡ false) ms
    → All (λ n. q n ≡ false) (order_by is_miss_before ms)
All-order_by q [] h = tt
All-order_by q (m ∷ ms) h =
    All-insert_sorted q m (order_by is_miss_before ms) h.0 (All-order_by q ms h.1)

-- The row of a list of misses is the term's.
abbrev pub is_row : String → String → String × (String × (ℕ × Option String)) → Bool
is_row kind key t = t.0 == kind && t.1.0 == key

All-row_of :
    (kind key : String) (ms : List Miss)
    → All (λ m. is_miss kind key m ≡ false) ms
    → All (λ t. is_row kind key t ≡ false) (map row_of ms)
All-row_of kind key [] h = tt
All-row_of kind key (m ∷ ms) h = (h.0, All-row_of kind key ms h.1)

-- A dismissed term stays dismissed: however often it is recorded afterwards, and whatever else is
-- recorded or dismissed, the list of open misses never has it again.
pub dismissed_stays :
    (kind key : String) (cs : List Call) (ms : List Miss)
    → IsDismissed kind key ms
    → All (λ t. is_row kind key t ≡ false) (misses false (run cs ms))
unfolding misses
dismissed_stays kind key cs ms h =
    let k = run-IsDismissed kind key cs ms h in
    All-row_of kind key (order_by is_miss_before (select is_undecided (run cs ms))) (
      All-order_by (is_miss kind key) (select is_undecided (run cs ms)) (
        All-map (λ m c. ground arith) (select is_undecided (run cs ms))
          (All-select (λ m. is_dismissed kind key m ≡ true) is_undecided (run cs ms) k.1)))
