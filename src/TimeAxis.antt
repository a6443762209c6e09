-- ===== src/TimeAxis.antt =====
-- graph/semantics/time_axis.py (parse_iso, holds_at, held_at), freshness.py and
-- fact_predicates.py (is_live_fact): when a fact holds in the world, when the graph held it to be
-- true, and when it is stale. A stored time is what datetime.fromisoformat makes of its text, in
-- microseconds; `none` as a result is the ValueError on a text that is no time. Confidences are
-- in thousandths, an effective one in ten-thousandths.
pub mod Windows
pub mod Handover
pub mod Ageing
mod Tests
use neuron_kg.Prelude.{
  ℕ, ◌+◌, ◌*◌, String, Bool, true, false, not, ◌&&◌, ◌||◌, Option, none, some, ltb, leb,
  if◌then◌else◌, ◌==◌, ◌>>=◌,
}

-- A stored text: absent or empty, no time, or a time.
pub data Stamp : Type 0 where
  blank garbled : Stamp
  moment : ℕ → Stamp

pub parse_iso : Stamp → Option (Option ℕ)
parse_iso blank = some none
parse_iso garbled = none
parse_iso (moment t) = some (some t)

-- parse_iso(a) or parse_iso(b): the second is read only where the first is absent.
pub parse_or : Stamp → Stamp → Option (Option ℕ)
unfolding parse_iso
parse_or blank b = parse_iso b
parse_or garbled b = none
parse_or (moment t) b = some (some t)

-- at <= start, start < at_end and the like, on times that may be absent.
abbrev pub starts_by : Option ℕ → ℕ → Bool
starts_by none at = true
starts_by (some s) at = leb s at

abbrev pub starts_before : Option ℕ → ℕ → Bool
starts_before none at = true
starts_before (some s) at = ltb s at

abbrev pub ends_after : Option ℕ → ℕ → Bool
ends_after none at = true
ends_after (some e) at = ltb at e

abbrev pub is_undated : Option ℕ → Option ℕ → Bool
is_undated none none = true
is_undated _ _ = false

-- start is not None and at <= start < at_end
abbrev pub falls_in : Option ℕ → ℕ → ℕ → Bool
falls_in none at at_end = false
falls_in (some s) at at_end = leb at s && ltb s at_end

-- The read of a window once both ends are parsed.
pub holds_in : Option ℕ → Option ℕ → ℕ → ℕ → String → Bool
holds_in start end at at_end temporal =
    if temporal == "eternal"
    then true
    else if temporal == "event"
    then falls_in start at at_end
    else if is_undated start end
    then false
    else ends_after end at && starts_before start at_end

-- The read of one moment once both ends are parsed.
unfoldable pub holds_point : Option ℕ → Option ℕ → ℕ → Bool
holds_point start end at =
    if not (starts_by start at)
    then false
    else if not (ends_after end at)
    then false
    else not (is_undated start end)

abbrev pub read_parsed : ℕ → Option ℕ → String → Option ℕ → Option ℕ → Bool
read_parsed at none temporal start end = holds_point start end at
read_parsed at (some at_end) temporal start end = holds_in start end at at_end temporal

-- ended_unknown ends the fact at the attesting moment.
pub end_of : Stamp → Stamp → Bool → Option (Option ℕ)
unfolding parse_or parse_iso
end_of valid_to attested_from ended_unknown =
    if ended_unknown then parse_or valid_to attested_from else parse_iso valid_to

pub holds_at : Stamp → Stamp → Option ℕ → Option ℕ → String → Stamp → Bool → Option Bool
holds_at valid_from valid_to none at_end temporal attested_from ended_unknown = some true
holds_at valid_from valid_to (some at) at_end temporal attested_from ended_unknown = do
  start ← parse_or valid_from attested_from
  end ← end_of valid_to attested_from ended_unknown
  some (read_parsed at at_end temporal start end)

abbrev pub is_none : Option ℕ → Bool
is_none none = true
is_none (some t) = false

pub observed : Option ℕ → Option ℕ → Option ℕ → Bool
observed start end none = is_none end
observed start end (some as_of) =
    if not (starts_by start as_of)
    then false
    else if not (ends_after end as_of)
    then false
    else true

pub held_at : Stamp → Stamp → Option ℕ → Option Bool
held_at observed_from observed_to as_of = do
  start ← parse_iso observed_from
  end ← parse_iso observed_to
  some (observed start end as_of)

-- The properties of an edge that decide whether it answers.
pub record FactState : Type 0 where
  pub invalid_at : Option ℕ
  pub assertion_status : Option String
  pub projection_status : Option String

-- s or "live": an absent and an empty status read as 'live'.
abbrev or_live : Option String → String
or_live none = "live"
or_live (some s) = if s == "" then "live" else s

pub is_live_fact : FactState → Bool
is_live_fact e =
    if not (is_none e.invalid_at)
    then false
    else if or_live e.assertion_status == "corrected"
    then false
    else if not (or_live e.projection_status == "live")
    then false
    else true

-- coalesce(s, 'live')
abbrev pub coalesce_live : Option String → String
coalesce_live none = "live"
coalesce_live (some s) = s

-- LIVE_FACT_CYPHER, which live_fact_cypher writes for another variable.
unfoldable pub live_fact_cypher : FactState → Bool
live_fact_cypher e =
    is_none e.invalid_at
    && not (coalesce_live e.assertion_status == "corrected")
    && coalesce_live e.projection_status == "live"

pub data Freshness : Type 0 where
  fresh stale : Freshness

abbrev pub day : ℕ
day = 86_400_000_000

-- Days; "task" is decided by its work item, before the window is looked up.
pub window_days : String → ℕ
window_days decay = if decay == "fast" then 21 else if decay == "durable" then 365 else 180

-- parse_iso(now) if now else datetime.now(UTC)
abbrev now_of : Stamp → ℕ → Option (Option ℕ)
now_of blank clock = some (some clock)
now_of garbled clock = none
now_of (moment t) clock = some (some t)

-- now_dt - confirmed_dt >= timedelta(days=window_days)
pub aged : ℕ → String → ℕ → Freshness
unfolding window_days
aged confirmed decay now = if leb (confirmed + window_days decay * day) now then stale else fresh

pub freshness_class : String → Stamp → Stamp → ℕ → Bool → Option Freshness
freshness_class decay last_confirmed_at now clock work_item_closed =
    if decay == "task"
    then some (if work_item_closed then stale else fresh)
    else freshness_of last_confirmed_at
  where
    at_now : ℕ → Option (Option ℕ) → Option Freshness
    at_now confirmed none = none
    at_now confirmed (some none) = none
    at_now confirmed (some (some t)) = some (aged confirmed decay t)

    freshness_of : Stamp → Option Freshness
    freshness_of blank = some stale
    freshness_of garbled = none
    freshness_of (moment confirmed) = at_now confirmed (now_of now clock)

pub effective_confidence : ℕ → Freshness → Bool → ℕ
effective_confidence confidence f true = confidence * 10
effective_confidence confidence fresh false = confidence * 10
effective_confidence confidence stale false = confidence * 7
