-- ===== src/Quota/Buckets.antt =====
-- The limits that apply to a seat: `bucketsForSeat` of internal/quota/enforce.go, and the period
-- keys of internal/quota/period.go.
pub mod Strictest
pub mod Attained
use Prim.Native.String.{◌++◌}
use aikey_proxy.Prelude.{ℕ, String, Bool, List, [], ◌∷◌, ◌==◌, ◌&&◌, ◌||◌, not, if◌then◌else◌}
use aikey_proxy.Quota.Amount.{Amount}
use aikey_proxy.Quota.Snapshot.{
  Rule, Subject, Snapshot, subjects_for_seat, metric_tokens, metric_usd,
}

-- The windows that a time falls in, as package `time` formats them in UTC: the day as 2006-01-02,
-- the ISO week as %04d-W%02d and the month as 2006-01.
pub record Calendar : Type 0 where
  pub day : ℕ → String
  pub week : ℕ → String
  pub month : ℕ → String

unfoldable pub period_key : Calendar → String → ℕ → String
period_key cal period now =
    if period == "daily"
    then "daily:" ++ cal.day now
    else if period == "weekly"
    then "weekly:" ++ cal.week now
    else if period == "monthly"
    then "monthly:" ++ cal.month now
    else period ++ ":all"

module _ (m : Amount) where
  open m use {Carrier, zero, le}

  pub record TokenBucket : Type 0 where
    pub subject_id : String
    pub period : String
    pub period_key : String
    pub limit : Carrier

  -- One rule of a subject, with the key of its window.
  pub record Limit : Type 0 where
    pub subject_id : String
    pub period : String
    pub period_key : String
    pub amount : Carrier

  abbrev pub same_bucket : Limit → TokenBucket → Bool
  same_bucket l b = l.subject_id == b.subject_id && l.period_key == b.period_key

  -- The bucket of the rule's key is tightened, or a new one goes to the end. The source's index
  -- map gives the position of a key in `out`.
  unfoldable pub add_limit : Limit → List TokenBucket → List TokenBucket
  add_limit l [] =
      record {
        subject_id = l.subject_id;
        period = l.period;
        period_key = l.period_key;
        limit = l.amount;
      }
      ∷ []
  add_limit l (b ∷ bs) =
      if same_bucket l b
      then (if le b.limit l.amount then b else record b { limit = l.amount }) ∷ bs
      else b ∷ add_limit l bs

  -- The rules of one metric with a positive limit.
  unfoldable pub subject_limits : Calendar → ℕ → String → String → List (Rule m) → List Limit
  subject_limits cal now metric sid [] = []
  subject_limits cal now metric sid (r ∷ rs) =
      let rest = subject_limits cal now metric sid rs in
      if not (r.metric == metric) || le r.limit_amount zero
      then rest
      else record {
        subject_id = sid;
        period = r.period;
        period_key = period_key cal r.period now;
        amount = r.limit_amount;
      }
        ∷ rest

  -- for … { for … { add } }: the pairs of a subject and a rule, in the order of the loops
  unfoldable pub add_limits : List Limit → List TokenBucket → List TokenBucket
  unfolding add_limit
  add_limits [] out = out
  add_limits (l ∷ ls) out = add_limits ls (add_limit l out)

  unfoldable pub add_subjects :
      Calendar → ℕ → String → List (Subject m) → List TokenBucket → List TokenBucket
  unfolding add_limits subject_limits
  add_subjects cal now metric [] out = out
  add_subjects cal now metric (sub ∷ subs) out =
      add_subjects cal now metric subs
        (add_limits (subject_limits cal now metric sub.subject_id sub.rules) out)

  unfoldable pub buckets_for_seat : Calendar → Snapshot m → String → ℕ → String → List TokenBucket
  unfolding add_subjects
  buckets_for_seat cal s seat_id now metric =
      add_subjects cal now metric (subjects_for_seat m s seat_id) []

  unfoldable pub token_buckets_for_seat : Calendar → Snapshot m → String → ℕ → List TokenBucket
  token_buckets_for_seat cal s seat_id now = buckets_for_seat cal s seat_id now metric_tokens

  unfoldable pub usd_buckets_for_seat : Calendar → Snapshot m → String → ℕ → List TokenBucket
  usd_buckets_for_seat cal s seat_id now = buckets_for_seat cal s seat_id now metric_usd
