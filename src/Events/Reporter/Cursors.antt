-- ===== src/Events/Reporter/Cursors.antt =====
-- What one upload does to the reporter, on every answer.
use aikey_proxy.Prelude.{
  subst, ◌⊎◌, ℕ, ◌+◌, ◌≡◌, refl, ◌∙◌, String, Bool, true, false, Option, none, some, List, ◌++◌,
  ◌||◌, Bool-cases, inl, inr, eqb, ◌==◌,
}
use aikey_proxy.Events.StateFile.{Fs}
use aikey_proxy.Events.Lanes.{pending_floor, allocated_lane, LaneAllocator}
use aikey_proxy.Events.Wal.{Event}
use aikey_proxy.Events.Reporter.{
  lane_of_batch, still_waiting, high_water, Map, Reporter, World, Answer, marshal_failed, uploaded,
  upload_failed, Marks, GroupResult, group_done, group_retry_later, ticked, is_terminal,
  note_routed, stamp_of, with_alloc, declared_switch, switch_of, declare_stream_switch, prepare,
  confirm_all, settle, upload_group_to, on_upload_fail,
}

-- The configuration, and what the reconciliation counts.
abbrev pub Config : Type 0
Config = Map String × String × ℕ × String × (String → ℕ → ℕ)

abbrev pub config : Reporter → Config
config r = (r.collector_routes, r.collector_url, r.batch_size, r.source_id, r.resend_delivered)

-- What neither routing, nor the stamp, nor the declaration of a stream switch touches.
abbrev pub Cursors : Type 0
Cursors = Marks × Marks × (String → Bool) × List Event × ℕ × Config

abbrev pub cursors : Reporter → Cursors
cursors r =
    (r.sent_seq, r.confirmed_seq, r.seen_v1, r.dead_letters, r.consecutive_failures, config r)

abbrev pub Kept : Reporter → Reporter → Type 0
Kept a b = cursors b ≡ cursors a

note_routed-Kept :
    (url : String) (batch : List Event) (r : Reporter) → Kept r (note_routed url batch r)
unfolding note_routed
note_routed-Kept url batch r = elim (Bool-cases (url == "" || eqb (high_water 0 batch) 0)) [
  | inl e ↦ rw e refl
  | inr e ↦ rw e refl
]

module _ (join : String → String → String) (dir : String) (w : World) where
  with_alloc-Kept : (r : Reporter) (o : ℕ × LaneAllocator × Fs) → Kept r (with_alloc (ticked r) o)
  unfolding with_alloc
  with_alloc-Kept r (n, l, fs) = refl

  stamp_of-Kept :
      (lane : String) (l : Option LaneAllocator) (r : Reporter)
      → Kept r (stamp_of join dir w lane l r)
  unfolding stamp_of
  stamp_of-Kept lane none r = refl
  stamp_of-Kept lane (some l) r =
      with_alloc-Kept r (allocated_lane join dir (w.opening r.tick) l lane r.fs)

  declared-Kept :
      (lane : String) (l : LaneAllocator) (b : Bool) (now : ℕ) (r : Reporter)
      → Kept r (declared_switch lane l b now (ticked r))
  unfolding declared_switch
  declared-Kept lane l true now r = refl
  declared-Kept lane l false now r = refl

  switch_of-Kept :
      (lane : String) (l : Option LaneAllocator) (r : Reporter) → Kept r (switch_of w lane l r)
  unfolding switch_of
  switch_of-Kept lane none r = refl
  switch_of-Kept lane (some l) r =
      elim (Bool-cases
        (eqb (pending_floor l lane) 0 || still_waiting (r.switch_retry_at lane) (w.now r.tick))) [
          | inl e ↦ rw e refl
          | inr e ↦ rw e (declared-Kept lane l (w.declared r.tick) (w.now (r.tick + 1)) r)
        ]

  prepare-Kept :
      (url lane : String) (batch : List Event) (r : Reporter)
      → Kept r (prepare join dir w url lane batch r)
  unfolding prepare declare_stream_switch
  prepare-Kept url lane batch r = elim (Bool-cases (lane == "")) [
    | inl e ↦ rw e (note_routed-Kept url batch r)
    | inr e ↦
        let noted = note_routed url batch r in
        let stamped = stamp_of join dir w lane noted.seq_alloc noted in
        rw e (
          switch_of-Kept lane stamped.seq_alloc stamped
          ∙ stamp_of-Kept lane noted.seq_alloc noted
          ∙ note_routed-Kept url batch r)
  ]

-- What an answer makes of the cursors: the upload is tried again exactly after a failure that is
-- not terminal.
abbrev pub Settled : List Event → Answer → Cursors → Reporter × GroupResult → Type 0
Settled batch marshal_failed c (r, res) = (res ≡ group_done) × (cursors r ≡ c)
Settled batch (uploaded contiguous) (sent, confirmed, seen, dead, failures, settings) (r, res) =
    (res ≡ group_done)
    × (cursors r ≡ (sent, confirm_all contiguous confirmed, seen, dead, 0, settings))
Settled batch (upload_failed status) (sent, confirmed, seen, dead, failures, settings) (r, res) =
    ((is_terminal status ≡ true)
      × (res ≡ group_done)
      × (cursors r ≡ (sent, confirmed, seen, dead ++ batch, failures + 1, settings)))
    ⊎ ((is_terminal status ≡ false)
        × (res ≡ group_retry_later)
        × (cursors r ≡ (sent, confirmed, seen, dead, failures + 1, settings)))

settle-Settled :
    (batch : List Event) (a : Answer) (r : Reporter)
    → Settled batch a (cursors r) (settle batch a r)
unfolding settle on_upload_fail
settle-Settled batch marshal_failed r = (refl, refl)
settle-Settled batch (uploaded contiguous) r = (refl, refl)
settle-Settled batch (upload_failed status) r = elim (Bool-cases (is_terminal status)) [
  | inl e ↦ rw e (inl (refl, refl, refl))
  | inr e ↦ rw e (inr (refl, refl, refl))
]

module _ (join : String → String → String) (dir : String) (w : World) where
  -- Some answer of the collector settles the cursors.
  pub upload_group_to-Settled :
      (url : String) (batch : List Event) (r : Reporter)
      → (t : ℕ) × Settled batch (w.answer t) (cursors r) (upload_group_to join dir w url batch r)
  unfolding upload_group_to
  upload_group_to-Settled url batch r =
      let ready = prepare join dir w url (lane_of_batch batch) batch r in
      (
        ready.tick,
        subst
            (λ (c : Cursors).
              Settled batch (w.answer ready.tick) c
                (settle batch (w.answer ready.tick) (ticked ready)))
            (prepare-Kept join dir w url (lane_of_batch batch) batch r)
            (settle-Settled batch (w.answer ready.tick) (ticked ready)),
      )
