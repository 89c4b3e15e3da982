-- ===== src/Events/Reporter/Drain/Complete.antt =====
-- A pass over the groups that leaves nothing to be tried again has handled every event.

-- The event's number is at or below the mark handed over for its source; or it has none, and it was
-- seen, or has no id to be seen by.
use aikey_proxy.Events.Reporter.Cursors.{config, Config}
use aikey_proxy.Prelude.{
  Bool, Bool-cases, List, Option, String, [], ap, arith, eq_iff, false, if◌then◌else◌, inl, inr,
  none, refl, some, subst, sym, true, ℕ, ◌==◌, ◌∙◌, ◌∷◌, ◌≡◌, ◌≢◌, ◌≤◌, ◌⊎◌,
}
use aikey_proxy.Prelude.Lists.{Any}
use aikey_proxy.Events.Lanes.{lane_of_org}
use aikey_proxy.Events.Wal.{Event}
use aikey_proxy.Events.Reporter.{
  GroupKey, GroupResult, Reporter, World, group_done, group_retry_later, ticked, upload_group_to,
  url_for_route_source,
}
use aikey_proxy.Events.Reporter.Drain.{
  Passing, group_of, grouped, in_group, mark_event, mark_processed, mark_seen, upload_group,
  upload_groups, upload_pending,
}
use aikey_proxy.Events.Reporter.Drain.Advance.{Advances, raised, stays-Advances}
use aikey_proxy.Events.Reporter.Drain.Grows.{
  mark_processed-Advances, passing_either, upload_group-Advances, upload_groups-Advances,
}

abbrev pub Handled : Reporter → Event → Option ℕ → Type 0
Handled r ev (some seq) = seq ≤ r.sent_seq ev.source_id
Handled r ev none = (ev.event_id ≡ "") ⊎ (r.seen_v1 ev.event_id ≡ true)

Handled-later :
    (w : World) (a b : Reporter) (ev : Event) (seq : Option ℕ)
    → Advances w a b
    → Handled a ev seq
    → Handled b ev seq
Handled-later w a b ev (some seq) adv h = omega (arith, adv.0 ev.source_id)
Handled-later w a b ev none adv (inl empty) = inl empty
Handled-later w a b ev none adv (inr seen) = inr (adv.1 ev.event_id seen)

mark_event-Handled :
    (ev : Event) (seq : Option ℕ) (r : Reporter) → Handled (mark_event ev seq r) ev seq
unfolding mark_event mark_seen
mark_event-Handled ev (some seq) r = raised ev.source_id seq r.sent_seq
mark_event-Handled ev none r = elim (Bool-cases (ev.event_id == "")) [
  | inl e ↦ rw e (inl ((eq_iff ev.event_id "").0 e))
  | inr e ↦ rw e (inr (ground (arith, eq_iff ev.event_id ev.event_id)))
]

mark_processed-Handled :
    (w : World) (group : List Event) (r : Reporter) (ev : Event)
    → Any (λ g. ev ≡ g) group
    → Handled (mark_processed group r) ev ev.source_seq
unfolding mark_processed
mark_processed-Handled w [] r ev m = absurd m
mark_processed-Handled w (g ∷ group) r ev (inr later) =
    mark_processed-Handled w group (mark_event g g.source_seq r) ev later
mark_processed-Handled w (g ∷ group) r ev (inl here) =
    let marked = mark_event g g.source_seq r in
    subst (λ (x : Event). Handled (mark_processed group marked) x x.source_seq) (sym here)
      (Handled-later w marked (mark_processed group marked) g g.source_seq
        (mark_processed-Advances w group marked) (mark_event-Handled g g.source_seq r))

-- What a clean result of one group says.
abbrev Clean : List Event → Passing → Passing → Type 0
Clean group p q =
    (q.retryable ≡ false)
    → (p.retryable ≡ false)
      × ((ev : Event) → Any (λ g. ev ≡ g) group → Handled q.reporter ev ev.source_seq)

grouped-Clean :
    (w : World) (group : List Event) (p : Passing) (x : Reporter × GroupResult)
    → Clean group p (grouped group p.retryable x)
unfolding grouped
grouped-Clean w group p (r, group_done) clean =
    (clean, λ ev m. mark_processed-Handled w group r ev m)
grouped-Clean w group p (r, group_retry_later) clean = cc

group_of-member :
    (r : Reporter) (k : GroupKey) (batch : List Event) (ev : Event)
    → Any (λ g. ev ≡ g) batch
    → in_group r k ev ≡ true
    → Any (λ g. ev ≡ g) (group_of r k batch)
unfolding group_of
group_of-member r k [] ev m h = absurd m
group_of-member r k (g ∷ batch) ev (inl here) h =
    rw (subst (λ (x : Event). in_group r k x ≡ true) here h) (inl here)
group_of-member r k (g ∷ batch) ev (inr later) h = elim (Bool-cases (in_group r k g)) [
  | inl e ↦ rw e (inr (group_of-member r k batch ev later h))
  | inr e ↦ rw e (group_of-member r k batch ev later h)
]

in_group-config :
    (a b : Reporter) (k : GroupKey) (ev : Event)
    → config b ≡ config a
    → in_group b k ev ≡ in_group a k ev
unfolding in_group url_for_route_source
in_group-config a b k ev e = rw (ap (λ (c : Config). c.0) e, ap (λ (c : Config). c.1) e) refl

own_group :
    (r : Reporter) (ev : Event)
    → url_for_route_source r ev.route_source ≢ ""
    → in_group r (record { route_source = ev.route_source; lane = lane_of_org ev.org_id }) ev ≡ true
unfolding in_group
own_group r ev has_url = ground (
  arith,
  eq_iff (url_for_route_source r ev.route_source) "",
  eq_iff ev.route_source ev.route_source,
  eq_iff (lane_of_org ev.org_id) (lane_of_org ev.org_id),
  has_url,
)

module _ (join : String → String → String) (dir : String) (w : World) where
  upload_group-Clean :
      (k : GroupKey) (group : List Event) (p : Passing)
      → Clean group p (upload_group join dir w k group p)
  unfolding upload_group
  upload_group-Clean k [] p = λ clean. (clean, λ ev m. absurd m)
  upload_group-Clean k (ev ∷ group) p = elim (Bool-cases (w.expired p.reporter.tick)) [
    | inl e ↦ rw e (λ clean. cc)
    | inr e ↦
        let url = url_for_route_source p.reporter k.route_source in
        rw e (
          grouped-Clean w (ev ∷ group) p
            (upload_group_to join dir w url (ev ∷ group) (ticked p.reporter)))
  ]

  either-Clean :
      (b : Bool) (group : List Event) (p q : Passing)
      → (b ≡ true → p.retryable ≡ true)
      → Clean group p q
      → Clean group p (if b then p else q)
  either-Clean true group p q stops clean h = cc (stops refl)
  either-Clean false group p q stops clean h = clean h

  -- A pass that stopped leaves something to be tried again.
  abbrev Stops : Passing → Type 0
  Stops p = p.stopped ≡ true → p.retryable ≡ true

  grouped-Stops :
      (group : List Event) (retryable : Bool) (x : Reporter × GroupResult)
      → Stops (grouped group retryable x)
  unfolding grouped
  grouped-Stops group retryable (r, group_done) s = cc
  grouped-Stops group retryable (r, group_retry_later) s = refl

  upload_group-Stops :
      (k : GroupKey) (group : List Event) (p : Passing)
      → Stops p
      → Stops (upload_group join dir w k group p)
  unfolding upload_group
  upload_group-Stops k [] p s = s
  upload_group-Stops k (ev ∷ group) p s = elim (Bool-cases (w.expired p.reporter.tick)) [
    | inl e ↦ rw e (λ _. refl)
    | inr e ↦
        let url = url_for_route_source p.reporter k.route_source in
        rw e (
          grouped-Stops (ev ∷ group) p.retryable
            (upload_group_to join dir w url (ev ∷ group) (ticked p.reporter)))
  ]

  either-Stops : (b : Bool) (p q : Passing) → Stops p → Stops q → Stops (if b then p else q)
  either-Stops true p q s t = s
  either-Stops false p q s t = t

  upload_groups-Clean :
      (keys : List GroupKey) (batch : List Event) (p : Passing)
      → Stops p
      → (upload_groups join dir w keys batch p).retryable ≡ false
      → (p.retryable ≡ false)
        × ((k : GroupKey) (ev : Event)
            → Any (λ j. k ≡ j) keys
            → Any (λ g. ev ≡ g) batch
            → in_group p.reporter k ev ≡ true
            → Handled (upload_groups join dir w keys batch p).reporter ev ev.source_seq)
  unfolding upload_groups
  upload_groups-Clean [] batch p s clean = (clean, λ k ev m. absurd m)
  upload_groups-Clean (k ∷ keys) batch p s clean =
      let group = group_of p.reporter k batch in
      let q = if p.stopped then p else upload_group join dir w k group p in
      let s' =
        either-Stops p.stopped p (upload_group join dir w k group p) s
          (upload_group-Stops k group p s) in
      let rest = upload_groups-Clean keys batch q s' clean in
      let mine =
        either-Clean p.stopped group p (upload_group join dir w k group p) s
          (upload_group-Clean k group p) rest.0 in
      (
        mine.0,
        λ j ev m b h. elim m [
          | inl here ↦
              Handled-later w q.reporter (upload_groups join dir w keys batch q).reporter ev
                ev.source_seq (upload_groups-Advances join dir w keys batch q)
                (mine.1 ev (
                  group_of-member p.reporter k batch ev b
                    (subst (λ (x : GroupKey). in_group p.reporter x ev ≡ true) here h)))
          | inr later ↦ rest.1 j ev later b (
              in_group-config p.reporter q.reporter j ev
                (passing_either join dir w p.stopped p.reporter p
                  (upload_group join dir w k group p) (stays-Advances w p.reporter)
                  (upload_group-Advances join dir w k group p)).3
              ∙ h)
        ],
      )

  -- If an upload of pending events leaves nothing to be tried again, then every one of them whose route has a destination and whose group is walked is handled: the mark handed over for its source is at or above its number, or, where it has no number, its id was seen or it has none. So an event that is not handled arms the backoff.
  pub clean_upload_handles :
      (batch : List Event) (r : Reporter) (ev : Event)
      → (upload_pending join dir w batch r).retryable ≡ false
      → Any (λ g. ev ≡ g) batch
      → url_for_route_source r ev.route_source ≢ ""
      → Any
          (λ k. record { route_source = ev.route_source; lane = lane_of_org ev.org_id } ≡ k)
          (w.order r.tick)
      → Handled (upload_pending join dir w batch r).reporter ev ev.source_seq
  unfolding upload_pending url_for_route_source
  clean_upload_handles batch r ev clean m has_url walked =
      let k : GroupKey = record { route_source = ev.route_source; lane = lane_of_org ev.org_id } in
      (upload_groups-Clean (w.order r.tick) batch
          (record { reporter = ticked r; retryable = false; stopped = false }) (λ s. s) clean).1
        k ev walked m (own_group (ticked r) ev has_url)
