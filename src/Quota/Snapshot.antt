-- ===== src/Quota/Snapshot.antt =====
-- `Snapshot` of internal/quota/snapshot.go: the rule set and its index from a seat to its groups.
--
-- Subject kinds and metrics are the texts of the source. A time is a number of nanoseconds; `none`
-- is Go's zero time.
pub mod Index
pub mod Lookup
use aikey_proxy.Prelude.{
  ℕ, ◌-◌, String, Bool, true, false, Option, none, some, List, [], ◌∷◌, ◌++◌, Map, empty_map, ◌==◌,
  ltb, if◌then◌else◌,
}
use aikey_proxy.Prelude.Maps.{insert}
use aikey_proxy.Quota.Amount.{Amount}

abbrev pub metric_tokens : String
metric_tokens = "tokens"

abbrev pub metric_usd : String
metric_usd = "usd"

abbrev pub kind_group : String
kind_group = "group"

module _ (m : Amount) where
  open m use {Carrier, zero, add, scale}

  -- The thresholds of a rule are carried and never read by the proxy.
  pub record Rule : Type 0 where
    pub metric : String
    pub period : String
    pub limit_amount : Carrier

  pub record Baseline : Type 0 where
    pub metric : String
    pub period : String
    pub used : Carrier

  pub record Subject : Type 0 where
    pub subject_id : String
    pub subject_kind : String
    pub members : List String
    pub rules : List Rule
    pub baselines : List Baseline

  pub record ModelUnitPrices : Type 0 where
    pub input : Carrier
    pub output : Carrier
    pub cache_creation : Carrier
    pub cache_read : Carrier
    pub reasoning : Carrier

  abbrev pub PriceSummary : Type 0
  PriceSummary = Map ModelUnitPrices

  pub record Snapshot : Type 0 where
    pub last_reachable_at : Option ℕ
    pub subjects : Map Subject
    pub seat_to_groups : Map (List String)
    pub price_summary : Option PriceSummary

  pub new_snapshot : Snapshot
  new_snapshot = record {
    last_reachable_at = none;
    subjects = empty_map;
    seat_to_groups = empty_map;
    price_summary = none;
  }

  -- The list under a key; an absent key reads as the empty list.
  abbrev pub groups_at : Option (List String) → List String
  groups_at none = []
  groups_at (some gs) = gs

  -- for _, seatID := range sub.Members
  add_members : String → List String → Map (List String) → Map (List String)
  add_members sid [] rev = rev
  add_members sid (seat ∷ seats) rev =
      add_members sid seats (insert seat (groups_at (rev seat) ++ sid ∷ []) rev)

  abbrev pub Loaded : Type 0
  Loaded = Map Subject × Map (List String)

  load_subject : Subject → Loaded → Loaded
  unfolding add_members
  load_subject sub (subj_map, rev) = (
    insert sub.subject_id sub subj_map,
    if sub.subject_kind == kind_group then add_members sub.subject_id sub.members rev else rev,
  )

  pub load_all : List Subject → Loaded → Loaded
  unfolding load_subject
  load_all [] l = l
  load_all (sub ∷ subs) l = load_all subs (load_subject sub l)

  pub replace_all : Snapshot → List Subject → Snapshot
  unfolding load_all
  replace_all s subs =
      let l = load_all subs (empty_map, empty_map) in
      record s { subjects = l.0; seat_to_groups = l.1 }

  pub set_price_summary : Snapshot → Option PriceSummary → Snapshot
  set_price_summary s ps = record s { price_summary = ps }

  pub set_last_reachable_at : Snapshot → Option ℕ → Snapshot
  set_last_reachable_at s t = record s { last_reachable_at = t }

  -- A time before `last_reachable_at` gives a negative difference, which is not above a threshold.
  unfoldable pub budget_stale : Snapshot → ℕ → ℕ → Bool
  budget_stale s now max_staleness = elim s.last_reachable_at [
    | none ↦ false
    | some t ↦ ltb max_staleness (now - t)
  ]

  unfoldable pub listed : Option Subject → List Subject → List Subject
  listed none rest = rest
  listed (some sub) rest = sub ∷ rest

  unfoldable pub group_subjects : Map Subject → List String → List Subject
  unfolding listed
  group_subjects subjects [] = []
  group_subjects subjects (gid ∷ gids) = listed (subjects gid) (group_subjects subjects gids)

  unfoldable pub subjects_for_seat : Snapshot → String → List Subject
  unfolding group_subjects
  subjects_for_seat s seat_id =
      listed (s.subjects seat_id) (group_subjects s.subjects (groups_at (s.seat_to_groups seat_id)))

  -- `PriceSummary.Cost` of internal/quota/pricer.go, on a summary that is there.
  priced : ℕ → ℕ → ℕ → ℕ → ℕ → Option ModelUnitPrices → Carrier × Bool
  priced input_pure output cache_read cache_creation reasoning none = (zero, false)
  priced input_pure output cache_read cache_creation reasoning (some mp) = (
    add
        (add
          (add (add (scale input_pure mp.input) (scale cache_read mp.cache_read))
            (scale cache_creation mp.cache_creation))
          (scale output mp.output))
        (scale reasoning mp.reasoning),
    true,
  )

  unfoldable pub cost : PriceSummary → String → ℕ → ℕ → ℕ → ℕ → ℕ → Carrier × Bool
  unfolding priced
  cost ps model input_pure output cache_read cache_creation reasoning =
      priced input_pure output cache_read cache_creation reasoning (ps model)
