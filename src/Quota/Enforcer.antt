-- ===== src/Quota/Enforcer.antt =====
-- `Enforcer` of internal/quota/enforce.go: the gate that a request passes, and the accrual of what
-- it used. A nil enforcer behaves as one that is not enabled.
pub mod Check
use aikey_proxy.Prelude.{
  ℕ, String, Bool, true, false, Option, none, some, List, [], ◌∷◌, ◌==◌, ◌&&◌, ◌||◌, not, eqb, leb,
  if◌then◌else◌,
}
use aikey_proxy.Quota.Amount.{Amount}
use aikey_proxy.Quota.Counter.{Counter, get, accrue, set_baseline}
use aikey_proxy.Quota.Snapshot.{
  Baseline, Subject, Snapshot, PriceSummary, budget_stale, cost, metric_tokens, metric_usd,
}
use aikey_proxy.Quota.Buckets.{
  Calendar, TokenBucket, period_key, token_buckets_for_seat, usd_buckets_for_seat,
}

module _ (m : Amount) where
  open m use {Carrier, zero, le}

  pub record Violation : Type 0 where
    pub metric : String
    pub subject_id : String
    pub period : String
    pub period_key : String
    pub limit : Carrier
    pub used : Carrier
    pub fail_closed_stale : Bool

  -- Where usd usage is read: the enforcer's own counter, or another source.
  pub data UsdUsedSource : Type 0 where
    counter_usd_source : UsdUsedSource
    other_source : (String → String → Carrier) → UsdUsedSource

  pub record Enforcer : Type 0 where
    pub snapshot : Option (Snapshot m)
    pub counter : Option (Counter m)
    pub usd_source : Option UsdUsedSource
    pub enabled : Bool
    pub budget_mode : Bool
    pub max_staleness : ℕ

  source_for : Option (Counter m) → Option UsdUsedSource
  source_for none = none
  source_for (some c) = some counter_usd_source

  pub new_enforcer : Option (Snapshot m) → Option (Counter m) → Bool → Enforcer
  unfolding source_for
  new_enforcer snapshot counter enabled = record {
    snapshot = snapshot;
    counter = counter;
    usd_source = source_for counter;
    enabled = enabled;
    budget_mode = false;
    max_staleness = 0;
  }

  -- A threshold that is not positive changes nothing.
  pub set_budget_mode : Enforcer → ℕ → Enforcer
  set_budget_mode e max_staleness =
      if eqb max_staleness 0
      then e
      else record e { budget_mode = true; max_staleness = max_staleness }

  unfoldable pub source_used : Counter m → Option UsdUsedSource → String → String → Carrier
  source_used c none sid pk = zero
  source_used c (some counter_usd_source) sid pk = get m c sid metric_usd pk
  source_used c (some (other_source f)) sid pk = f sid pk

  abbrev violation : String → TokenBucket m → Carrier → Bool → Violation
  violation metric b used stale = record {
    metric = metric;
    subject_id = b.subject_id;
    period = b.period;
    period_key = b.period_key;
    limit = b.limit;
    used = used;
    fail_closed_stale = stale;
  }

  -- The loop over the token buckets; the rest of `Check` is passed in.
  unfoldable pub check_tokens :
      Counter m → List (TokenBucket m) → Option Violation → Option Violation
  check_tokens c [] next = next
  check_tokens c (b ∷ bs) next =
      let used = get m c b.subject_id metric_tokens b.period_key in
      let rest = check_tokens c bs next in
      if le b.limit used then some (violation metric_tokens b used false) else rest

  -- The loop over the usd buckets; `stale` is the test of budget mode.
  unfoldable pub check_usd :
      (String → String → Carrier) → Bool → List (TokenBucket m) → Option Violation
  check_usd usd_used stale [] = none
  check_usd usd_used stale (b ∷ bs) =
      let used = usd_used b.subject_id b.period_key in
      let rest = check_usd usd_used stale bs in
      if le b.limit used
      then some (violation metric_usd b used false)
      else if stale
      then some (violation metric_usd b used true)
      else rest

  unfoldable pub check_live :
      Calendar
      → Enforcer
      → Snapshot m
      → Counter m
      → String
      → ℕ
      → List (TokenBucket m) × Option Violation
  unfolding check_tokens check_usd source_used
  check_live cal e s c seat now =
      let buckets = token_buckets_for_seat m cal s seat now in
      (
        buckets,
        check_tokens c buckets (
            check_usd (source_used c e.usd_source)
              (e.budget_mode && budget_stale m s now e.max_staleness)
              (usd_buckets_for_seat m cal s seat now)),
      )

  unfoldable pub check_wired :
      Calendar
      → Enforcer
      → Option (Snapshot m)
      → Option (Counter m)
      → String
      → ℕ
      → List (TokenBucket m) × Option Violation
  unfolding check_live
  check_wired cal e none o seat now = ([], none)
  check_wired cal e (some s) none seat now = ([], none)
  check_wired cal e (some s) (some c) seat now =
      if not e.enabled || seat == "" then ([], none) else check_live cal e s c seat now

  unfoldable pub check : Calendar → Enforcer → String → ℕ → List (TokenBucket m) × Option Violation
  unfolding check_wired
  check cal e seat now = check_wired cal e e.snapshot e.counter seat now

  pub accrue_buckets : String → List (TokenBucket m) → Carrier → Counter m → Counter m
  accrue_buckets metric [] delta c = c
  accrue_buckets metric (b ∷ bs) delta c =
      accrue_buckets metric bs delta (accrue m c b.subject_id metric b.period_key delta).0

  with_counter : Enforcer → Option (Counter m) → (Counter m → Counter m) → Enforcer
  with_counter e none f = e
  with_counter e (some c) f = record e { counter = some (f c) }

  -- `Enforcer.Add`
  pub add_usage : Enforcer → List (TokenBucket m) → Carrier → Enforcer
  unfolding with_counter accrue_buckets
  add_usage e buckets delta =
      if not e.enabled || le delta zero
      then e
      else with_counter e e.counter (accrue_buckets metric_tokens buckets delta)

  add_for_snapshot : Calendar → Enforcer → Option (Snapshot m) → String → Carrier → ℕ → Enforcer
  unfolding add_usage
  add_for_snapshot cal e none seat delta now = e
  add_for_snapshot cal e (some s) seat delta now =
      if seat == "" then e else add_usage e (token_buckets_for_seat m cal s seat now) delta

  pub add_for_seat : Calendar → Enforcer → String → Carrier → ℕ → Enforcer
  unfolding add_for_snapshot
  add_for_seat cal e seat delta now = add_for_snapshot cal e e.snapshot seat delta now

  seed_baseline : Calendar → ℕ → String → List (Baseline m) → Counter m → Counter m
  seed_baseline cal now sid [] c = c
  seed_baseline cal now sid (b ∷ bs) c =
      seed_baseline cal now sid bs
        (set_baseline m c sid b.metric (period_key cal b.period now) b.used)

  pub seed_baselines : Calendar → Counter m → List (Subject m) → ℕ → Counter m
  unfolding seed_baseline
  seed_baselines cal c [] now = c
  seed_baselines cal c (sub ∷ subs) now =
      seed_baselines cal (seed_baseline cal now sub.subject_id sub.baselines c) subs now

  pub set_usd_source : Enforcer → Option UsdUsedSource → Enforcer
  set_usd_source e none = e
  set_usd_source e (some src) = record e { usd_source = some src }

  -- The usd, whether the model has a price, and whether a summary is loaded.
  abbrev pub Accrual : Type 0
  Accrual = Enforcer × Carrier × Bool × Bool

  accrue_priced :
      Calendar → Enforcer → Snapshot m → Counter m → String → ℕ → Carrier × Bool → Accrual
  accrue_priced cal e s c seat now (usd, priced) =
      if not priced || le usd zero then (e, usd, priced, true) else (
        record e {
          counter = some (accrue_buckets metric_usd (usd_buckets_for_seat m cal s seat now) usd c);
        },
        usd,
        true,
        true,
      )

  accrue_summary :
      Calendar
      → Enforcer
      → Snapshot m
      → Counter m
      → String
      → ℕ
      → (PriceSummary m → Carrier × Bool)
      → Option (PriceSummary m)
      → Accrual
  unfolding accrue_priced
  accrue_summary cal e s c seat now price none = (e, zero, false, false)
  accrue_summary cal e s c seat now price (some ps) = accrue_priced cal e s c seat now (price ps)

  accrue_wired :
      Calendar
      → Enforcer
      → Option (Snapshot m)
      → Option (Counter m)
      → String
      → ℕ
      → (PriceSummary m → Carrier × Bool)
      → Accrual
  unfolding accrue_summary
  accrue_wired cal e none o seat now price = (e, zero, false, false)
  accrue_wired cal e (some s) none seat now price = (e, zero, false, false)
  accrue_wired cal e (some s) (some c) seat now price =
      if not e.enabled || seat == ""
      then (e, zero, false, false)
      else accrue_summary cal e s c seat now price s.price_summary

  pub accrue_usd_for_seat : Calendar → Enforcer → String → String → ℕ → ℕ → ℕ → ℕ → ℕ → ℕ → Accrual
  unfolding accrue_wired
  accrue_usd_for_seat cal e seat model input_total output cache_read cache_creation reasoning now =
      accrue_wired cal e e.snapshot e.counter seat now
        λ ps. cost m ps model input_total output cache_read cache_creation reasoning
