-- ===== src/Events/Reporter/Drain.antt =====
-- `drainOnce`, `uploadPending`, `markProcessed` and `pruneConfirmedWAL` of
-- internal/events/reporter.go.
pub mod Advance
pub mod Grows
pub mod Prune
pub mod Complete
use aikey_proxy.Prelude.{
  ℕ, ◌+◌, String, Bool, true, false, not, Option, none, some, List, [], ◌∷◌, ◌++◌, ◌==◌, ◌&&◌, ◌||◌,
  ltb, leb, eqb, if◌then◌else◌,
}
use aikey_proxy.Prelude.Lists.{length}
use aikey_proxy.Events.Lanes.{lane_of_org}
use aikey_proxy.Events.Wal.{Event, WalEntry, WalFile, Reads, is_v2, wire_event, read_wal_file}
use aikey_proxy.Events.Reporter.{
  Reporter, World, GroupKey, GroupResult, group_done, group_retry_later, assign, raise, ticked,
  url_for_route_source, upload_group_to, backoff_for_failures,
}

-- The cursors after one event: its number, or its id where it has no number.
mark_seen : Event → Reporter → Reporter
mark_seen ev r =
    if ev.event_id == "" then r else record r { seen_v1 = assign ev.event_id true r.seen_v1 }

pub mark_event : Event → Option ℕ → Reporter → Reporter
unfolding mark_seen
mark_event ev (some seq) r = record r { sent_seq = raise ev.source_id seq r.sent_seq }
mark_event ev none r = mark_seen ev r

pub mark_processed : List Event → Reporter → Reporter
unfolding mark_event
mark_processed [] r = r
mark_processed (ev ∷ group) r = mark_processed group (mark_event ev ev.source_seq r)

-- The event that the pass would upload for an entry, if it is not handled yet.
unfoldable pub selected : Reporter → WalEntry → Option Event
selected r e =
    if is_v2 e
    then (if leb e.source_seq (r.sent_seq e.source_id) then none else some (wire_event e))
    else if r.seen_v1 e.event.event_id || e.event.event_id == ""
    then none
    else some e.event

in_group : Reporter → GroupKey → Event → Bool
in_group r k ev =
    not (url_for_route_source r ev.route_source == "")
    && (ev.route_source == k.route_source && lane_of_org ev.org_id == k.lane)

group_of : Reporter → GroupKey → List Event → List Event
unfolding in_group
group_of r k [] = []
group_of r k (ev ∷ batch) = (if in_group r k ev then ev ∷ [] else []) ++ group_of r k batch

-- One pass over the groups: the reporter, whether one must be tried again, whether the context ended.
pub record Passing : Type 0 where
  pub reporter : Reporter
  pub retryable : Bool
  pub stopped : Bool

-- The events of a group that is locally done are marked.
pub grouped : List Event → Bool → Reporter × GroupResult → Passing
unfolding mark_processed
grouped group retryable (r, group_done) = record {
  reporter = mark_processed group r;
  retryable = retryable;
  stopped = false;
}
grouped group retryable (r, group_retry_later) = record {
  reporter = r;
  retryable = true;
  stopped = false;
}

module _ (join : String → String → String) (dir : String) (w : World) where
  -- A map has no key without an event.
  pub upload_group : GroupKey → List Event → Passing → Passing
  unfolding grouped
  upload_group k [] p = p
  upload_group k (ev ∷ group) p =
      if w.expired p.reporter.tick
      then record { reporter = ticked p.reporter; retryable = true; stopped = true }
      else grouped (ev ∷ group) p.retryable (
          upload_group_to join dir w (url_for_route_source p.reporter k.route_source) (ev ∷ group)
            (ticked p.reporter))

  pub upload_groups : List GroupKey → List Event → Passing → Passing
  unfolding group_of upload_group
  upload_groups [] batch p = p
  upload_groups (k ∷ keys) batch p =
      upload_groups keys batch
        (if p.stopped then p else upload_group k (group_of p.reporter k batch) p)

  unfoldable pub upload_pending : List Event → Reporter → Passing
  unfolding upload_groups
  upload_pending batch r =
      upload_groups (w.order r.tick) batch
        (record { reporter = ticked r; retryable = false; stopped = false })

  -- The loop over the entries of the log.
  pub record Draining : Type 0 where
    pub reporter : Reporter
    pub pending : List Event
    pub retryable : Bool
    pub stopped : Bool

  sent_batch : Bool → Passing → Draining
  sent_batch retryable p = record {
    reporter = p.reporter;
    pending = [];
    retryable = retryable || p.retryable;
    stopped = false;
  }

  flush : Draining → Draining
  unfolding sent_batch upload_pending
  flush d =
      if w.expired d.reporter.tick
      then record d { reporter = ticked d.reporter; retryable = true; stopped = true }
      else sent_batch d.retryable (upload_pending d.pending (ticked d.reporter))

  take_event : Option Event → Draining → Draining
  unfolding flush
  take_event none d = d
  take_event (some ev) d =
      let held = record d { pending = d.pending ++ (ev ∷ []) } in
      if leb d.reporter.batch_size (length held.pending) then flush held else held

  drain_entries : List WalEntry → Draining → Draining
  unfolding take_event selected
  drain_entries [] d = d
  drain_entries (e ∷ entries) d =
      drain_entries entries (if d.stopped then d else take_event (selected d.reporter e) d)

  last_batch : Draining → Draining
  unfolding sent_batch upload_pending
  last_batch d =
      if eqb (length d.pending) 0
      then d
      else if w.expired d.reporter.tick
      then record d { reporter = ticked d.reporter }
      else sent_batch d.retryable (upload_pending d.pending (ticked d.reporter))

  unfoldable pub drain_wal : List WalEntry → Reporter → Draining
  unfolding drain_entries last_batch
  drain_wal entries r = last_batch (
      drain_entries entries
        (record { reporter = r; pending = []; retryable = false; stopped = false }))

-- The entry no longer needs the log.
is_confirmed : Reporter → WalEntry → Bool
is_confirmed r e =
    if is_v2 e
    then leb e.source_seq (r.confirmed_seq e.source_id)
    else not (e.event.event_id == "") && r.seen_v1 e.event.event_id

-- The loop over a file's entries, with whether one of them took part in the numbering.
prunable : Reporter → Bool → List WalEntry → Bool
unfolding is_confirmed
prunable r saw_v2 [] = saw_v2
prunable r saw_v2 (e ∷ entries) = is_confirmed r e && prunable r (saw_v2 || is_v2 e) entries

is_prunable : Reporter → Option ℕ → WalFile → List WalEntry × Bool → Bool
unfolding prunable
is_prunable r current f (entries, false) = false
is_prunable r current f (entries, true) = prunable r false entries

pub is_current : Option ℕ → WalFile → Bool
is_current none f = false
is_current (some hour) f = eqb f.hour hour

-- `keep` holds for a file that cannot be removed from the disk.
unfoldable pub prune_confirmed_wal :
    Reporter → Option ℕ → Reads → (WalFile → Bool) → List WalFile → List WalFile
unfolding is_current is_prunable
prune_confirmed_wal r current reads keep [] = []
prune_confirmed_wal r current reads keep (f ∷ files) =
    (if not (is_current current f)
        && is_prunable r current f (read_wal_file reads f)
        && not (keep f)
      then []
      else f ∷ [])
    ++ prune_confirmed_wal r current reads keep files

unfoldable pub arm : Bool → ℕ → Reporter → Reporter
arm false now r = record r { next_upload_attempt = none }
arm true now r = record r {
  next_upload_attempt = some (now + backoff_for_failures r.consecutive_failures);
}

unfoldable pub gated : Option ℕ → ℕ → Bool
gated none now = false
gated (some at) now = ltb now at
