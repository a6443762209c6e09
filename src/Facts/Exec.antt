-- ===== src/Facts/Exec.antt =====
-- Code that reads and writes the graph and the review queue by separate queries, and may raise an
-- error or be stopped between any two: the states that it passes through are part of its run.
use neuron_kg.Prelude.{Option, none, some, List, [], ◌∷◌, ◌++◌, All, All-append, All-map}
use neuron_kg.Facts.{Graph}
use neuron_kg.Reviews.{Queue}

pub record World : Type 0 where
  pub graph : Graph
  pub queue : Queue

-- The state after each write in their order, the last state, and what is returned.
pub data Run {ℓ} (A : Type ℓ) : Type ℓ where
  returned : List World → World → A → Run A
  raised : List World → World → Run A

abbrev pub Exec {ℓ} : Type ℓ → Type ℓ
Exec A = World → Run A

abbrev pub after {κ} : {B : Type κ} → List World → Run B → Run B
after ws (returned vs w b) = returned (ws ++ vs) w b
after ws (raised vs w) = raised (ws ++ vs) w

module _ {ℓ κ} {A : Type ℓ} {B : Type κ} where
  abbrev pub continue : Run A → (A → Exec B) → Run B
  continue (returned ws w a) f = after ws (f a w)
  continue (raised ws w) f = raised ws w

  infixl 5 ◌>>=◌
  abbrev pub ◌>>=◌ : Exec A → (A → Exec B) → Exec B
  ◌>>=◌ m f w = continue (m w) f

abbrev pub pure {ℓ} : {A : Type ℓ} → A → Exec A
pure a w = returned [] w a

-- A query that writes.
abbrev pub write : (Graph → Graph) → Exec (Unit {0})
write f w = let v = record w { graph = f w.graph } in returned (v ∷ []) v tt

abbrev pub answer {ℓ} : {A : Type ℓ} → Option A → Exec A
answer none w = raised [] w
answer (some a) w = returned [] w a

-- A query that reads, with its check.
abbrev pub read {ℓ} : {A : Type ℓ} → (Graph → Option A) → Exec A
read f w = answer (f w.graph) w

-- A call of the ledger, which is one transaction.
abbrev pub on_queue {ℓ} : {A : Type ℓ} → (Queue → Queue × A) → Exec A
on_queue f w = let r = f w.queue in let v = record w { queue = r.0 } in returned (v ∷ []) v r.1

-- P holds of every state that the run passes through, and Q of a returned value and the last
-- state.
abbrev pub Safe {ℓ} : {A : Type ℓ} → (World → Type 0) → (A → World → Type 0) → Run A → Type 0
Safe P Q (returned ws w a) = All P ws × Q a w
Safe P Q (raised ws w) = All P ws

Safe-after {κ} :
    {B : Type κ} (P : World → Type 0) (Q : B → World → Type 0) (ws : List World) (r : Run B)
    → All P ws
    → Safe P Q r
    → Safe P Q (after ws r)
Safe-after P Q ws (returned vs w b) h k = (All-append P ws vs h k.0, k.1)
Safe-after P Q ws (raised vs w) h k = All-append P ws vs h k

-- The rule of consequence.
pub Safe-map {ℓ} :
    {A : Type ℓ} {P P' : World → Type 0} {Q Q' : A → World → Type 0}
    → ((w : World) → P w → P' w)
    → ((a : A) (w : World) → Q a w → Q' a w)
    → (r : Run A) → Safe P Q r
    → Safe P' Q' r
Safe-map f g (returned ws w a) h = (All-map f ws h.0, g a w h.1)
Safe-map f g (raised ws w) h = All-map f ws h

module _ {ℓ κ} {A : Type ℓ} {B : Type κ} (P : World → Type 0) where
  -- The rule of sequence.
  pub Safe-bind :
      (R : A → World → Type 0) (Q : B → World → Type 0) (r : Run A) (f : A → Exec B)
      → Safe P R r
      → ((a : A) (w : World) → R a w → Safe P Q (f a w))
      → Safe P Q (continue r f)
  Safe-bind R Q (returned ws w a) f h k = Safe-after P Q ws (f a w) h.0 (k a w h.1)
  Safe-bind R Q (raised ws w) f h k = h
