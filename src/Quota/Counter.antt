-- ===== src/Quota/Counter.antt =====
-- `Counter` of internal/quota/counter.go, and the flush and the seeding of local_usage.go.
pub mod Monotone
pub mod Restart
use Prim.Native.String.{◌++◌}
use aikey_proxy.Prelude.{
  map, zero, ◌&&◌, String, Bool, true, false, Option, none, some, List, [], ◌∷◌, Map, empty_map,
  ◌==◌, not, if◌then◌else◌,
}
use aikey_proxy.Prelude.Maps.{insert}
use aikey_proxy.Quota.Amount.{Amount}

-- The three parts joined by bars are the key of a cell.
unfoldable pub counter_key : String → String → String → String
counter_key subject_id metric period_key = subject_id ++ "|" ++ metric ++ "|" ++ period_key

module _ (m : Amount) where
  open m use {Carrier, zero, add, sub, le, same}

  pub record Cell : Type 0 where
    pub subject_id : String
    pub metric : String
    pub period_key : String
    pub baseline : Carrier
    pub increment : Carrier

  -- A row of `quota_local_usage`.
  pub record LocalUsageRow : Type 0 where
    pub subject_id : String
    pub metric : String
    pub period_key : String
    pub increment : Carrier

  abbrev pub Counter : Type 0
  Counter = Map Cell

  abbrev pub new_counter : Counter
  new_counter = empty_map

  unfoldable pub found_or_new : String → String → String → Option Cell → Cell
  found_or_new subject_id metric period_key (some x) = x
  found_or_new subject_id metric period_key none = record {
    subject_id = subject_id;
    metric = metric;
    period_key = period_key;
    baseline = zero;
    increment = zero;
  }

  -- The cell that `at` finds or makes.
  unfoldable pub at : Counter → String → String → String → Cell
  unfolding found_or_new
  at c subject_id metric period_key =
      found_or_new subject_id metric period_key (c (counter_key subject_id metric period_key))

  abbrev pub total : Cell → Carrier
  total x = add x.baseline x.increment

  unfoldable pub used_of : Option Cell → Carrier
  used_of none = zero
  used_of (some x) = total x

  unfoldable pub get : Counter → String → String → String → Carrier
  unfolding used_of
  get c subject_id metric period_key = used_of (c (counter_key subject_id metric period_key))

  unfoldable pub accrue : Counter → String → String → String → Carrier → Counter × Carrier
  unfolding at
  accrue c subject_id metric period_key delta =
      let x = at c subject_id metric period_key in
      let y = record x { increment = add x.increment delta } in
      (insert (counter_key subject_id metric period_key) y c, total y)

  -- The cell with the new baseline: the increment keeps what the baseline does not cover.
  reconcile : Cell → Carrier → Cell
  reconcile x baseline =
      if same x.baseline baseline
      then x
      else if le (total x) baseline
      then record x { baseline = baseline; increment = zero }
      else record x { baseline = baseline; increment = sub (total x) baseline }

  pub set_baseline : Counter → String → String → String → Carrier → Counter
  unfolding at reconcile
  set_baseline c subject_id metric period_key baseline =
      insert (counter_key subject_id metric period_key)
        (reconcile (at c subject_id metric period_key) baseline) c

  pub seed_increment : Counter → String → String → String → Carrier → Counter
  unfolding at
  seed_increment c subject_id metric period_key increment =
      insert (counter_key subject_id metric period_key)
        (record (at c subject_id metric period_key) { increment = increment }) c

  row_of : Cell → LocalUsageRow
  row_of x = record {
    subject_id = x.subject_id;
    metric = x.metric;
    period_key = x.period_key;
    increment = x.increment;
  }

  rows_with : Option Cell → List LocalUsageRow → List LocalUsageRow
  unfolding row_of
  rows_with none rest = rest
  rows_with (some x) rest = if same x.increment zero then rest else row_of x ∷ rest

  -- `keys` is the order in which the map is walked.
  pub increment_rows : Counter → List String → List LocalUsageRow
  unfolding rows_with
  increment_rows c [] = []
  increment_rows c (k ∷ ks) = rows_with (c k) (increment_rows c ks)

  pub seed_local_increments : Counter → List LocalUsageRow → Counter
  unfolding seed_increment
  seed_local_increments c [] = c
  seed_local_increments c (r ∷ rs) =
      seed_local_increments (seed_increment c r.subject_id r.metric r.period_key r.increment) rs

  -- The same primary key.
  same_row : LocalUsageRow → LocalUsageRow → Bool
  same_row r q =
      r.subject_id == q.subject_id && r.metric == q.metric && r.period_key == q.period_key

  -- `INSERT ... ON CONFLICT ... DO UPDATE`, with the row that is written in the last place: the
  -- order of a table matters only for rows whose parts join to one key.
  upsert : LocalUsageRow → List LocalUsageRow → List LocalUsageRow
  unfolding same_row
  upsert r [] = r ∷ []
  upsert r (q ∷ qs) = let rest = upsert r qs in if same_row r q then rest else q ∷ rest

  upserts : List LocalUsageRow → List LocalUsageRow → List LocalUsageRow
  unfolding upsert
  upserts [] table = table
  upserts (r ∷ rs) table = upserts rs (upsert r table)

  -- The batch is one transaction: a failure of the database (or no table) leaves the rows there were.
  pub write_local_usage : Bool → List LocalUsageRow → List LocalUsageRow → List LocalUsageRow
  unfolding upserts
  write_local_usage fails rows table = if fails then table else upserts rows table
