-- ===== src/Events/Reporter/Reconcile.antt =====
-- `ReconcileGaps` against one collector: `reconcileAgainst`, `walSeqSet` and `resendWALSeqs` of
-- internal/events/reconcile.go.
--
-- `posted` and `delivered` of the result are traces: the numbers sent to `confirm-lost` with their
-- org, and those whose resend was delivered.
pub mod Classify
pub mod Delivered
pub mod Steps
pub mod Loss
use aikey_proxy.Prelude.{
  Bool, List, Option, String, [], eqb, false, if◌then◌else◌, leb, ltb, none, not, some, suc, true,
  zero, ℕ, ◌&&◌, ◌++◌, ◌+◌, ◌==◌, ◌||◌, ◌∷◌,
}
use aikey_proxy.Prelude.Lists.{length}
use aikey_proxy.Events.Lanes.{pending_floor, LaneAllocator}
use aikey_proxy.Events.Wal.{Event, WalEntry, read_all_wal, wire_event}
use aikey_proxy.Events.Reporter.{
  GroupResult, Reporter, World, assign, group_done, group_retry_later, ticked, upload_group_to,
  url_for_route_source,
}
use aikey_proxy.Events.Reporter.Drain.{mark_processed}

abbrev pub terminal_resend_attempts : ℕ
terminal_resend_attempts = 3

abbrev pub max_reconcile_windows : ℕ
max_reconcile_windows = 100

pub record ReconcileResult : Type 0 where
  pub sources : ℕ
  pub resent : ℕ
  pub confirmed_lost : ℕ
  pub gave_up : ℕ
  pub still_missing : ℕ
  pub posted : List (String × ℕ)
  pub delivered : List ℕ

abbrev pub no_result : ReconcileResult
no_result = record {
  sources = 0;
  resent = 0;
  confirmed_lost = 0;
  gave_up = 0;
  still_missing = 0;
  posted = [];
  delivered = [];
}

pub member : ℕ → List ℕ → Bool
member a [] = false
member a (b ∷ bs) = eqb a b || member a bs

in_log : WalEntry → String → ℕ → Bool
in_log e source seq = e.source_id == source && ltb 0 e.source_seq && eqb e.source_seq seq

-- The log is open (`r.wal` is not nil).
unfoldable pub wal_seq_set : List WalEntry → String → ℕ → Bool
unfolding in_log
wal_seq_set [] source seq = false
wal_seq_set (e ∷ entries) source seq = in_log e source seq || wal_seq_set entries source seq

-- The missing numbers of one answer, sorted by what is done with them.
pub record Window : Type 0 where
  pub held_back : List ℕ
  pub not_in_wal : List ℕ
  pub gave_up : List ℕ
  pub in_wal : List ℕ

classify_seq : ℕ → (ℕ → Bool) → (ℕ → ℕ) → ℕ → Window → Window
classify_seq owed_floor wal tracked seq v =
    if ltb 0 owed_floor && leb seq owed_floor
    then record v { held_back = seq ∷ v.held_back }
    else if not (wal seq)
    then record v { not_in_wal = seq ∷ v.not_in_wal }
    else if leb terminal_resend_attempts (tracked seq)
    then record v { gave_up = seq ∷ v.gave_up }
    else record v { in_wal = seq ∷ v.in_wal }

pub classify : ℕ → (ℕ → Bool) → (ℕ → ℕ) → List ℕ → Window
unfolding classify_seq
classify owed_floor wal tracked [] = record {
  held_back = [];
  not_in_wal = [];
  gave_up = [];
  in_wal = [];
}
classify owed_floor wal tracked (seq ∷ missing) =
    classify_seq owed_floor wal tracked seq (classify owed_floor wal tracked missing)

owed_floor_of : Option LaneAllocator → String → ℕ
owed_floor_of none org = 0
owed_floor_of (some l) org = pending_floor l org

-- A number that is no longer missing has its budget back.
pub pruned_budget : List ℕ → (ℕ → ℕ) → ℕ → ℕ
pruned_budget missing tracked seq = if member seq missing then tracked seq else 0

resend_event : String → (ℕ → Bool) → WalEntry → Bool
resend_event source want e = e.source_id == source && ltb 0 e.source_seq && want e.source_seq

done_with : ℕ → (ℕ → Bool) → ℕ → Bool
done_with seq want j = if eqb seq j then false else want j

-- The events to send again, each number once, of the routes that have a destination.
resend_events : Reporter → String → (ℕ → Bool) → List WalEntry → List Event
unfolding resend_event done_with
resend_events r source want [] = []
resend_events r source want (e ∷ entries) =
    (if resend_event source want e && not (url_for_route_source r e.event.route_source == "")
      then wire_event e ∷ []
      else [])
    ++ resend_events r source
        (if resend_event source want e then done_with e.source_seq want else want) entries

of_route : String → List Event → List Event
of_route route [] = []
of_route route (ev ∷ events) =
    (if ev.route_source == route then ev ∷ [] else []) ++ of_route route events

seq_list : Option ℕ → List ℕ
seq_list none = []
seq_list (some seq) = seq ∷ []

seqs_of : List Event → List ℕ
unfolding seq_list
seqs_of [] = []
seqs_of (ev ∷ events) = elim ev.source_seq [ none ↦ [] | some seq ↦ seq ∷ [] ] ++ seqs_of events

pub count_delivered : List ℕ → (ℕ → ℕ) → ℕ → ℕ
count_delivered [] tracked seq = tracked seq
count_delivered (d ∷ delivered) tracked seq =
    count_delivered delivered tracked seq + (if eqb d seq then 1 else 0)

abbrev pub with_budget : String → (ℕ → ℕ) → Reporter → Reporter
with_budget source tracked r = record r {
  resend_delivered = assign source tracked r.resend_delivered;
}

pub data Ending : Type 0 where
  failed finished more : Ending

abbrev pub Reconciling : Type 0
Reconciling = Reporter × ReconcileResult × Ending

module _ (join : String → String → String) (dir : String) (w : World) where
  resent_group : List Event → List ℕ → Reporter × GroupResult → Reporter × List ℕ
  resent_group group sent (r, group_done) = (mark_processed group r, sent ++ seqs_of group)
  resent_group group sent (r, group_retry_later) = (r, sent)

  resend_group : String → List Event → Reporter × List ℕ → Reporter × List ℕ
  unfolding resent_group seqs_of
  resend_group route [] (r, sent) = (r, sent)
  resend_group route (ev ∷ group) (r, sent) =
      resent_group (ev ∷ group) sent
        (upload_group_to join dir w (url_for_route_source r route) (ev ∷ group) r)

  resend_groups : List String → List Event → Reporter × List ℕ → Reporter × List ℕ
  unfolding resend_group of_route
  resend_groups [] events x = x
  resend_groups (route ∷ routes) events x =
      resend_groups routes events (resend_group route (of_route route events) x)

  resend_wal_seqs : String → List ℕ → Reporter → Reporter × List ℕ
  unfolding resend_groups resend_events member
  resend_wal_seqs source [] r = (r, [])
  resend_wal_seqs source (seq ∷ seqs) r =
      let entries = read_all_wal (w.log_reads r.tick) (w.log r.tick) in
      let events = resend_events r source (λ j. member j (seq ∷ seqs)) entries in
      resend_groups (w.routes r.tick) events (ticked r, [])

  resent : String → ReconcileResult → Reporter × List ℕ → Reporter × ReconcileResult
  unfolding count_delivered
  resent source res (r, delivered) = (
    with_budget source (count_delivered delivered (r.resend_delivered source)) r,
    record res { resent = res.resent + length delivered; delivered = delivered ++ res.delivered },
  )

  posted_for : String → List ℕ → List (String × ℕ)
  posted_for org [] = []
  posted_for org (seq ∷ seqs) = (org, seq) ∷ posted_for org seqs

  -- POST confirm-lost; `given_up` of the numbers were delivered often enough.
  confirmed : ℕ → Option ℕ → Reporter → ReconcileResult → Reconciling
  confirmed given_up none r res = (r, res, failed)
  confirmed given_up (some promoted) r res = (
    r,
    record res { confirmed_lost = res.confirmed_lost + promoted; gave_up = res.gave_up + given_up },
    more,
  )

  confirm_lost : String → List ℕ → ℕ → Reporter × ReconcileResult → Reconciling
  unfolding confirmed posted_for
  confirm_lost org [] given_up (r, res) = (r, res, more)
  confirm_lost org (seq ∷ seqs) given_up (r, res) =
      confirmed given_up (w.promoted r.tick) (ticked r)
        (record res { posted = posted_for org (seq ∷ seqs) ++ res.posted })

  -- What was given up is confirmed unless the confirmation before failed.
  confirm_gave_up : String → List ℕ → Reconciling → Reconciling
  unfolding confirm_lost
  confirm_gave_up org seqs (r, res, failed) = (r, res, failed)
  confirm_gave_up org seqs (r, res, finished) = (r, res, finished)
  confirm_gave_up org seqs (r, res, more) = confirm_lost org seqs (length seqs) (r, res)

  last_window : Bool → Reconciling → Reconciling
  last_window truncated (r, res, failed) = (r, res, failed)
  last_window truncated (r, res, finished) = (r, res, finished)
  last_window truncated (r, res, more) = (r, res, if truncated then more else finished)

  settle_window : String → String → Window → Reporter → ReconcileResult → Reconciling
  unfolding resend_wal_seqs resent confirm_lost confirm_gave_up
  settle_window org source v r res =
      confirm_gave_up org v.gave_up
        (confirm_lost org v.not_in_wal 0 (resent source res (resend_wal_seqs source v.in_wal r)))

  classified : String → String → List ℕ → Reporter → Window
  unfolding owed_floor_of wal_seq_set classify
  classified org source missing r =
      let entries = read_all_wal (w.log_reads r.tick) (w.log r.tick) in
      classify (owed_floor_of r.seq_alloc org) (wal_seq_set entries source)
        (pruned_budget missing (r.resend_delivered source)) missing

  counted : Bool → ReconcileResult → ReconcileResult
  counted first res = record res { sources = res.sources + (if first then 1 else 0) }

  window :
      Bool → String → String → Option (List ℕ × Bool) → Reporter → ReconcileResult → Reconciling
  unfolding classified settle_window last_window pruned_budget counted
  window first org source none r res = (r, res, failed)
  window first org source (some ([], truncated)) r res = (r, res, finished)
  window first org source (some (seq ∷ seqs, truncated)) r res =
      let missing = seq ∷ seqs in
      let budget = pruned_budget missing (r.resend_delivered source) in
      last_window truncated (
        settle_window org source (classified org source missing r)
          (with_budget source budget (ticked r)) (counted first res))

  go_on : (Reporter → ReconcileResult → Reconciling) → Reconciling → Reconciling
  go_on next (r, res, failed) = (r, res, failed)
  go_on next (r, res, finished) = (r, res, finished)
  go_on next (r, res, more) = next r res

  -- At most so many windows of one lane; an answer that is still truncated then is counted.
  pub windows : ℕ → Bool → String → String → Reporter → ReconcileResult → Reconciling
  unfolding window go_on
  windows zero first org source r res =
      (r, record res { still_missing = res.still_missing + 1 }, finished)
  windows (suc n) first org source r res =
      go_on (λ r' res'. windows n false org source r' res')
        (window first org source (w.gaps r.tick) (ticked r) res)

  lane_pass : String → String → Reporter → ReconcileResult → Ending → Reconciling
  lane_pass org source r res failed = (r, res, failed)
  lane_pass org source r res finished = windows max_reconcile_windows true org source r res
  lane_pass org source r res more = (r, res, more)

  -- The lanes of this source; an error ends the pass.
  lanes : List (String × String) → Reconciling → Reconciling
  unfolding lane_pass
  lanes [] x = x
  lanes ((org, source) ∷ rest) (r, res, ending) =
      lanes rest
        (if source == r.source_id then lane_pass org source r res ending else (r, res, ending))

  of_completeness : Option (List (String × String)) → Reporter → ReconcileResult → Reconciling
  unfolding lanes
  of_completeness none r res = (r, res, failed)
  of_completeness (some sources) r res = lanes sources (r, res, finished)

  pub reconcile_against : Reporter → Reconciling
  unfolding of_completeness
  reconcile_against r = of_completeness (w.completeness r.tick) (ticked r) no_result
