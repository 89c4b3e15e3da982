-- ===== src/Events/Reporter/Drain/Grows.antt =====
-- Every step of a pass advances the cursors.
use aikey_proxy.Prelude.Lists.{length}
use aikey_proxy.Events.Wal.{Event, WalEntry}
use aikey_proxy.Events.Reporter.{
  GroupKey, GroupResult, Reporter, World, group_done, group_retry_later, ticked, upload_group_to,
  url_for_route_source,
}
use aikey_proxy.Events.Reporter.Cursors.{upload_group_to-Settled}
use aikey_proxy.Events.Reporter.Drain.{
  Draining, Passing, drain_entries, drain_wal, flush, group_of, grouped, last_batch, mark_event,
  mark_processed, mark_seen, selected, sent_batch, take_event, upload_group, upload_groups,
  upload_pending,
}
use aikey_proxy.Prelude.{
  if◌then◌else◌, true, Bool, Bool-cases, List, Option, [], arith, eqb, false, inl, inr, leb, none,
  some, ℕ, ◌++◌, ◌==◌, ◌∷◌, String, refl,
}
use aikey_proxy.Events.Reporter.Drain.Advance.{
  Settled-Advances, le-raise, stays-Advances, trans-Advances, Advances,
}

module _ (w : World) where
  mark_seen-Advances : (ev : Event) (r : Reporter) → Advances w r (mark_seen ev r)
  unfolding mark_seen
  mark_seen-Advances ev r = elim (Bool-cases (ev.event_id == "")) [
    | inl e ↦ rw e (stays-Advances w r)
    | inr e ↦ rw e (λ s. omega arith, λ i h. ground (arith, h), λ s. inl refl, refl)
  ]

  mark_event-Advances :
      (ev : Event) (seq : Option ℕ) (r : Reporter) → Advances w r (mark_event ev seq r)
  unfolding mark_event
  mark_event-Advances ev none r = mark_seen-Advances ev r
  mark_event-Advances ev (some seq) r =
      (λ s. le-raise ev.source_id seq r.sent_seq s, λ i h. h, λ s. inl refl, refl)

  pub mark_processed-Advances :
      (group : List Event) (r : Reporter) → Advances w r (mark_processed group r)
  unfolding mark_processed
  mark_processed-Advances [] r = stays-Advances w r
  mark_processed-Advances (ev ∷ group) r =
      trans-Advances w r (mark_event ev ev.source_seq r)
        (mark_processed group (mark_event ev ev.source_seq r))
        (mark_event-Advances ev ev.source_seq r)
        (mark_processed-Advances group (mark_event ev ev.source_seq r))

  grouped-Advances :
      (group : List Event) (retryable : Bool) (r : Reporter) (x : Reporter × GroupResult)
      → Advances w r x.0
      → Advances w r (grouped group retryable x).reporter
  unfolding grouped
  grouped-Advances group retryable r (r', group_done) h =
      trans-Advances w r r' (mark_processed group r') h (mark_processed-Advances group r')
  grouped-Advances group retryable r (r', group_retry_later) h = h

module _ (join : String → String → String) (dir : String) (w : World) where
  pub upload_group_to-Advances :
      (url : String) (batch : List Event) (r : Reporter)
      → Advances w r (upload_group_to join dir w url batch r).0
  upload_group_to-Advances url batch r =
      let s = upload_group_to-Settled join dir w url batch r in
      Settled-Advances w batch s.0 (w.answer s.0) r (upload_group_to join dir w url batch r) refl
        s.1

  pub upload_group-Advances :
      (k : GroupKey) (group : List Event) (p : Passing)
      → Advances w p.reporter (upload_group join dir w k group p).reporter
  unfolding upload_group
  upload_group-Advances k [] p = stays-Advances w p.reporter
  upload_group-Advances k (ev ∷ group) p = elim (Bool-cases (w.expired p.reporter.tick)) [
    | inl e ↦ rw e (stays-Advances w p.reporter)
    | inr e ↦
        let url = url_for_route_source p.reporter k.route_source in
        rw e (
          grouped-Advances w (ev ∷ group) p.retryable p.reporter
            (upload_group_to join dir w url (ev ∷ group) (ticked p.reporter))
            (upload_group_to-Advances url (ev ∷ group) (ticked p.reporter)))
  ]

  pub passing_either :
      (b : Bool) (r : Reporter) (p q : Passing)
      → Advances w r p.reporter
      → Advances w r q.reporter
      → Advances w r (if b then p else q).reporter
  passing_either true r p q h k = h
  passing_either false r p q h k = k

  draining_either :
      (b : Bool) (r : Reporter) (p q : Draining join dir w)
      → Advances w r p.reporter
      → Advances w r q.reporter
      → Advances w r (if b then p else q).reporter
  draining_either true r p q h k = h
  draining_either false r p q h k = k

  pub upload_groups-Advances :
      (keys : List GroupKey) (batch : List Event) (p : Passing)
      → Advances w p.reporter (upload_groups join dir w keys batch p).reporter
  unfolding upload_groups
  upload_groups-Advances [] batch p = stays-Advances w p.reporter
  upload_groups-Advances (k ∷ keys) batch p =
      let group = group_of p.reporter k batch in
      let q = if p.stopped then p else upload_group join dir w k group p in
      trans-Advances w p.reporter q.reporter (upload_groups join dir w keys batch q).reporter
        (passing_either p.stopped p.reporter p (upload_group join dir w k group p)
          (stays-Advances w p.reporter) (upload_group-Advances k group p))
        (upload_groups-Advances keys batch q)

  upload_pending-Advances :
      (batch : List Event) (r : Reporter)
      → Advances w r (upload_pending join dir w batch r).reporter
  unfolding upload_pending
  upload_pending-Advances batch r =
      upload_groups-Advances (w.order r.tick) batch
        (record { reporter = ticked r; retryable = false; stopped = false })

  flush-Advances : (d : Draining join dir w) → Advances w d.reporter (flush join dir w d).reporter
  unfolding flush sent_batch
  flush-Advances d = elim (Bool-cases (w.expired d.reporter.tick)) [
    | inl e ↦ rw e (stays-Advances w d.reporter)
    | inr e ↦ rw e (upload_pending-Advances d.pending (ticked d.reporter))
  ]

  take_event-Advances :
      (ev : Option Event) (d : Draining join dir w)
      → Advances w d.reporter (take_event join dir w ev d).reporter
  unfolding take_event
  take_event-Advances none d = stays-Advances w d.reporter
  take_event-Advances (some ev) d =
      let held : Draining join dir w = record d { pending = d.pending ++ (ev ∷ []) } in
      elim (Bool-cases (leb d.reporter.batch_size (length held.pending))) [
        | inl e ↦ rw e (flush-Advances held)
        | inr e ↦ rw e (stays-Advances w d.reporter)
      ]

  drain_entries-Advances :
      (entries : List WalEntry) (d : Draining join dir w)
      → Advances w d.reporter (drain_entries join dir w entries d).reporter
  unfolding drain_entries
  drain_entries-Advances [] d = stays-Advances w d.reporter
  drain_entries-Advances (e ∷ entries) d =
      let taken = take_event join dir w (selected d.reporter e) d in
      let d' = if d.stopped then d else taken in
      trans-Advances w d.reporter d'.reporter (drain_entries join dir w entries d').reporter
        (draining_either d.stopped d.reporter d taken (stays-Advances w d.reporter)
          (take_event-Advances (selected d.reporter e) d))
        (drain_entries-Advances entries d')

  last_batch-Advances :
      (d : Draining join dir w) → Advances w d.reporter (last_batch join dir w d).reporter
  unfolding last_batch sent_batch
  last_batch-Advances d = elim (Bool-cases (eqb (length d.pending) 0)) [
    | inl q ↦ rw q (stays-Advances w d.reporter)
    | inr q ↦ elim (Bool-cases (w.expired d.reporter.tick)) [
      | inl e ↦ rw (q, e) (stays-Advances w d.reporter)
      | inr e ↦ rw (q, e) (upload_pending-Advances d.pending (ticked d.reporter))
    ]
  ]

  pub drain_wal-Advances :
      (entries : List WalEntry) (r : Reporter)
      → Advances w r (drain_wal join dir w entries r).reporter
  unfolding drain_wal
  drain_wal-Advances entries r =
      let start : Draining join dir w = record {
        reporter = r;
        pending = [];
        retryable = false;
        stopped = false;
      } in
      let read = drain_entries join dir w entries start in
      trans-Advances w r read.reporter (last_batch join dir w read).reporter
        (drain_entries-Advances entries start) (last_batch-Advances read)
