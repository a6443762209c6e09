-- ===== src/Reviews.antt =====
-- The review half of connectors/core/ledger.py: reviews with the cache of rejected identities,
-- and candidate links. Payloads are the stored JSON texts, a confidence is in thousandths, and
-- times are microseconds. AUTOINCREMENT gives each row an id above all earlier ones, so its counter
-- is part of the state.
pub mod Deciding
pub mod Proposing
pub mod Outcomes
pub mod Linking
mod Tests
use neuron_kg.Prelude.{
  ℕ, suc, String, Bool, true, false, ◌&&◌, ◌||◌, Option, none, some, List, [], ◌∷◌, ◌++◌, take, eqb,
  ltb, is_some, if◌then◌else◌, ◌==◌,
}
use neuron_kg.Prelude.Table.{select, find, update, rowcount, order_by}

pub data ReviewState : Type 0 where
  pending approved rejected : ReviewState

pub record Review : Type 0 where
  pub id : ℕ
  pub type : String
  pub payload : String
  pub identity : Option String
  pub state : ReviewState
  pub decided_by : Option String
  pub decided_at : Option ℕ
  pub created_at : ℕ

-- A row of review_rejections.
pub record Rejection : Type 0 where
  pub identity : String
  pub type : String
  pub review_id : ℕ
  pub rejected_at : ℕ

pub record Queue : Type 0 where
  pub reviews : List Review
  pub rejections : List Rejection
  pub next_id : ℕ

abbrev pub names : String → Rejection → Bool
names i r = r.identity == i

pub is_identity_rejected : String → Queue → Bool
is_identity_rejected i q = is_some (find (names i) q.rejections)

abbrev pub is_declined : Option String → Queue → Bool
is_declined none q = false
is_declined (some i) q = is_some (find (names i) q.rejections)

abbrev new_review : ℕ → String → String → Option String → ℕ → Review
new_review i type payload identity now = record {
  id = i;
  type = type;
  payload = payload;
  identity = identity;
  state = pending;
  decided_by = none;
  decided_at = none;
  created_at = now;
}

pub create_review : String → String → Option String → ℕ → Queue → Queue × Option ℕ
create_review type payload identity now q = if is_declined identity q then (q, none) else (
  record q {
    reviews = q.reviews ++ new_review q.next_id type payload identity now ∷ [];
    next_id = suc q.next_id;
  },
  some q.next_id,
)

abbrev pub has_review_id : ℕ → Review → Bool
has_review_id i r = eqb r.id i

unfoldable pub get_review : ℕ → Queue → Option Review
get_review i q = find (has_review_id i) q.reviews

abbrev pub is_pending : ReviewState → Bool
is_pending pending = true
is_pending _ = false

abbrev pub same_state : ReviewState → ReviewState → Bool
same_state pending pending = true
same_state approved approved = true
same_state rejected rejected = true
same_state _ _ = false

-- An absent filter lets every row through.
abbrev in_state : Option ReviewState → ReviewState → Bool
in_state none s = true
in_state (some t) s = same_state s t

abbrev has_text : Option String → String → Bool
has_text none s = true
has_text (some t) s = s == t

-- ORDER BY created_at DESC, id DESC
abbrev is_later : Review → Review → Bool
is_later r s = ltb s.created_at r.created_at || (eqb r.created_at s.created_at && ltb s.id r.id)

pub list_reviews : Option ReviewState → Option String → ℕ → Queue → List Review
list_reviews state type limit q =
    take limit
      (order_by is_later (select (λ r. in_state state r.state && has_text type r.type) q.reviews))

-- WHERE id = ? AND state = 'pending'
abbrev pub is_open : ℕ → Review → Bool
is_open i r = eqb r.id i && is_pending r.state

abbrev pub decided : ReviewState → String → ℕ → Review → Review
decided state by now r = record r { state = state; decided_by = some by; decided_at = some now }

pub approve_review : ℕ → String → ℕ → Queue → Queue × Option Review
approve_review i by now q =
    let after = update (is_open i) (decided approved by now) q.reviews in
    if eqb (rowcount (is_open i) q.reviews) 0
    then (q, none)
    else (record q { reviews = after }, find (has_review_id i) after)

-- INSERT … ON CONFLICT(identity) DO UPDATE
abbrev pub put_rejection : Rejection → List Rejection → List Rejection
put_rejection r [] = r ∷ []
put_rejection r (s ∷ rs) = if s.identity == r.identity then r ∷ rs else s ∷ put_rejection r rs

abbrev pub cache_rejection : Review → ℕ → List Rejection → List Rejection
cache_rejection r now rs = elim r.identity [
  | none ↦ rs
  | some i ↦
      put_rejection (record { identity = i; type = r.type; review_id = r.id; rejected_at = now }) rs
]

-- `_review_row` is called on the row that the update has just met, which is there.
pub reject_review : ℕ → String → ℕ → Queue → Queue × Option Review
reject_review i by now q =
    let after = update (is_open i) (decided rejected by now) q.reviews in
    if eqb (rowcount (is_open i) q.reviews) 0
    then (q, none)
    else elim (find (has_review_id i) after) [
      | none ↦ (q, none)
      | some r ↦
          (record q { reviews = after; rejections = cache_rejection r now q.rejections }, some r)
    ]

-- A row of link_candidates.
pub record LinkCandidate : Type 0 where
  pub id : ℕ
  pub from_uid : String
  pub to_uid : String
  pub relation : String
  pub confidence : ℕ
  pub derived_rule : String
  pub state : ReviewState
  pub created_at : ℕ
  pub decided_at : Option ℕ

pub record Candidates : Type 0 where
  pub rows : List LinkCandidate
  pub next_id : ℕ

abbrev pub is_link : String → String → String → LinkCandidate → Bool
is_link from to relation c = c.from_uid == from && c.to_uid == to && c.relation == relation

pub create_link_candidate : String → String → String → ℕ → String → ℕ → Candidates → Candidates × ℕ
create_link_candidate from to relation confidence rule now cs =
    let found = find (is_link from to relation) cs.rows in
    elim found [
      | some c ↦ (cs, c.id)
      | none ↦ (
        record {
          rows =
              cs.rows
              ++ record {
                id = cs.next_id;
                from_uid = from;
                to_uid = to;
                relation = relation;
                confidence = confidence;
                derived_rule = rule;
                state = pending;
                created_at = now;
                decided_at = none;
              }
                ∷ [];
          next_id = suc cs.next_id;
        },
        cs.next_id,
      )
    ]

abbrev pub has_candidate_id : ℕ → LinkCandidate → Bool
has_candidate_id i c = eqb c.id i

pub get_link_candidate : ℕ → Candidates → Option LinkCandidate
get_link_candidate i cs = find (has_candidate_id i) cs.rows

abbrev is_later_candidate : LinkCandidate → LinkCandidate → Bool
is_later_candidate c d =
    ltb d.created_at c.created_at || (eqb c.created_at d.created_at && ltb d.id c.id)

pub list_link_candidates : Option ReviewState → Option String → ℕ → Candidates → List LinkCandidate
list_link_candidates state rule limit cs = take limit (
    order_by is_later_candidate
      (select (λ c. in_state state c.state && has_text rule c.derived_rule) cs.rows))

abbrev pub is_open_candidate : ℕ → LinkCandidate → Bool
is_open_candidate i c = eqb c.id i && is_pending c.state

-- approve_link_candidate and reject_link_candidate differ in the state alone.
abbrev pub decide_link_candidate :
    ReviewState → ℕ → ℕ → Candidates → Candidates × Option LinkCandidate
decide_link_candidate state i now cs =
    let after =
      update (is_open_candidate i) (λ c. record c { state = state; decided_at = some now })
        cs.rows in
    if eqb (rowcount (is_open_candidate i) cs.rows) 0
    then (cs, none)
    else (record cs { rows = after }, find (has_candidate_id i) after)

pub approve_link_candidate : ℕ → ℕ → Candidates → Candidates × Option LinkCandidate
approve_link_candidate i now cs = decide_link_candidate approved i now cs

pub reject_link_candidate : ℕ → ℕ → Candidates → Candidates × Option LinkCandidate
reject_link_candidate i now cs = decide_link_candidate rejected i now cs
