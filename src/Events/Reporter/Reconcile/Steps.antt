-- ===== src/Events/Reporter/Reconcile/Steps.antt =====
-- Every step of one window accounts for the numbers that it reports as lost.

use aikey_proxy.Prelude.{
  Bool, List, Option, String, [], ap, arith, eq_refl, false, inl, inr, none, refl, some, suc, true,
  zero, ℕ, ◌++◌, ◌∙◌, ◌∷◌, ◌≡◌, ◌≤◌,
}
use aikey_proxy.Prelude.Lists.{All, All-append, All-map, Any, length}
use aikey_proxy.Events.Wal.{Event, read_all_wal}
use aikey_proxy.Events.Reporter.{
  GroupResult, Reporter, World, group_done, group_retry_later, ticked, upload_group_to,
  url_for_route_source,
}
use aikey_proxy.Events.Reporter.Cursors.{Config, config}
use aikey_proxy.Events.Reporter.Drain.Grows.{mark_processed-Advances, upload_group_to-Advances}
use aikey_proxy.Events.Reporter.Reconcile.{
  resent, ReconcileResult, Reconciling, Window, classified, classify, confirm_gave_up, confirm_lost,
  confirmed, counted, failed, finished, go_on, last_window, member, more, of_route, owed_floor_of,
  posted_for, pruned_budget, resend_events, resend_group, resend_groups, resend_wal_seqs,
  resent_group, settle_window, wal_seq_set, window, windows, with_budget,
}
use aikey_proxy.Events.Reporter.Reconcile.Classify.{Owed, classify-Sorted}
use aikey_proxy.Events.Reporter.Reconcile.Delivered.{
  read_all_wal-Unseen, Accounted, All-both, Lost, Lost-more, all_members, classify-All,
  deliveries-append, count_delivered_lem, le_of_budget, pruned_le,
}

resent_group-config :
    (join : String → String → String) (dir : String) (w : World) (group : List Event)
    (sent : List ℕ) (x : Reporter × GroupResult)
    → config (resent_group join dir w group sent x).0 ≡ config x.0
unfolding resent_group
resent_group-config join dir w group sent (r, group_done) = (mark_processed-Advances w group r).3
resent_group-config join dir w group sent (r, group_retry_later) = refl

module _ (join : String → String → String) (dir : String) (w : World) (source : String)
    (r0 : Reporter) where
  -- The lists of one window that are confirmed as lost.
  abbrev Losses : ReconcileResult → Window → Type 0
  Losses res v =
      All (Lost w source r0 res.delivered) v.not_in_wal
      × All (Lost w source r0 res.delivered) v.gave_up

  classified-Losses :
      (org : String) (t : ℕ) (missing : List ℕ) (truncated : Bool) (r : Reporter)
      (res : ReconcileResult)
      → w.gaps t ≡ some (missing, truncated)
      → Accounted w source r0 r res
      → Losses res (classified join dir w org source missing r)
  unfolding classified
  classified-Losses org t missing truncated r res asked acc =
      let wal = wal_seq_set (read_all_wal (w.log_reads r.tick) (w.log r.tick)) source in
      let budget = pruned_budget missing (r.resend_delivered source) in
      let floor = owed_floor_of r.seq_alloc org in
      let sorted = (classify-Sorted floor wal budget missing).0 in
      let mine =
        classify-All (λ s. Any (λ m. s ≡ m) missing) floor wal budget missing
          (all_members missing) in
      let v = classify floor wal budget missing in
      (
        All-map
            (λ (s : ℕ) (h : Any (λ m. s ≡ m) missing × (¬ Owed floor s × (wal s ≡ false))). (
              (t, missing, truncated, asked, h.0),
              inl (r.tick, read_all_wal-Unseen (w.log_reads r.tick) (w.log r.tick) source s h.1.1),
            ))
            v.not_in_wal (All-both _ _ v.not_in_wal mine.0 sorted.1),
        All-map
            (λ (s : ℕ)
                (h : Any (λ m. s ≡ m) missing × (¬ Owed floor s × (wal s ≡ true) × (3 ≤ budget s))).
              (
                (t, missing, truncated, asked, h.0),
                inr (le_of_budget w source r0 missing r res s acc h.1.2),
              ))
            v.gave_up (All-both _ _ v.gave_up mine.1 sorted.2),
      )

  resend_group-config :
      (route : String) (group : List Event) (x : Reporter × List ℕ)
      → config (resend_group join dir w route group x).0 ≡ config x.0
  unfolding resend_group
  resend_group-config route [] (r, sent) = refl
  resend_group-config route (ev ∷ group) (r, sent) =
      let url = url_for_route_source r route in
      resent_group-config join dir w (ev ∷ group) sent
        (upload_group_to join dir w url (ev ∷ group) r)
      ∙ (upload_group_to-Advances join dir w url (ev ∷ group) r).3

  resend_groups-config :
      (routes : List String) (events : List Event) (x : Reporter × List ℕ)
      → config (resend_groups join dir w routes events x).0 ≡ config x.0
  unfolding resend_groups
  resend_groups-config [] events x = refl
  resend_groups-config (route ∷ routes) events x =
      resend_groups-config routes events (resend_group join dir w route (of_route route events) x)
      ∙ resend_group-config route (of_route route events) x

  resend_wal_seqs-config :
      (seqs : List ℕ) (r : Reporter)
      → config (resend_wal_seqs join dir w source seqs r).0 ≡ config r
  unfolding resend_wal_seqs
  resend_wal_seqs-config [] r = refl
  resend_wal_seqs-config (seq ∷ seqs) r =
      let entries = read_all_wal (w.log_reads r.tick) (w.log r.tick) in
      let events = resend_events r source (λ j. member j (seq ∷ seqs)) entries in
      resend_groups-config (w.routes r.tick) events (ticked r, [])

  -- A step that keeps what is accounted for, and the losses that are still to be confirmed.
  abbrev Keeps : ReconcileResult → Reporter → ReconcileResult → Type 0
  Keeps before r res =
      Accounted w source r0 r res
      × ((seq : ℕ) → Lost w source r0 before.delivered seq → Lost w source r0 res.delivered seq)

  resent-Keeps :
      (r : Reporter) (res : ReconcileResult) (x : Reporter × List ℕ)
      → config x.0 ≡ config r
      → Accounted w source r0 r res
      → Keeps res (resent join dir w source res x).0 (resent join dir w source res x).1
  unfolding resent
  resent-Keeps r res (r', delivered) e acc = (
    (
      ap (λ (c : Config). c.3) e ∙ acc.0,
      λ seq.
          let same = ap (λ (c : Config). c.4 source seq) e in
          rw (eq_refl source) (
            omega (
              arith,
              count_delivered_lem delivered (r'.resend_delivered source) seq,
              acc.1 seq,
              same,
              deliveries-append delivered res.delivered seq,
            )),
      All-map (λ (p : String × ℕ) h. Lost-more w source r0 delivered res.delivered p.1 h) res.posted
          acc.2,
    ),
    λ seq h. Lost-more w source r0 delivered res.delivered seq h,
  )

  posted_for-Lost :
      (org : String) (seqs : List ℕ) (delivered : List ℕ)
      → All (Lost w source r0 delivered) seqs
      → All (λ p. Lost w source r0 delivered p.1) (posted_for join dir w org seqs)
  unfolding posted_for
  posted_for-Lost org [] delivered h = _
  posted_for-Lost org (seq ∷ seqs) delivered h = (h.0, posted_for-Lost org seqs delivered h.1)

  confirmed-Keeps :
      (given_up : ℕ) (answer : Option ℕ) (r : Reporter) (res : ReconcileResult)
      → Accounted w source r0 r res
      → let x = confirmed join dir w given_up answer r res in Keeps res x.0 x.1
  unfolding confirmed
  confirmed-Keeps given_up none r res acc = (acc, λ seq h. h)
  confirmed-Keeps given_up (some promoted) r res acc = (acc, λ seq h. h)

  confirm_lost-Keeps :
      (org : String) (seqs : List ℕ) (given_up : ℕ) (x : Reporter × ReconcileResult)
      → All (Lost w source r0 x.1.delivered) seqs
      → Accounted w source r0 x.0 x.1
      → let y = confirm_lost join dir w org seqs given_up x in Keeps x.1 y.0 y.1
  unfolding confirm_lost
  confirm_lost-Keeps org [] given_up (r, res) h acc = (acc, λ seq l. l)
  confirm_lost-Keeps org (seq ∷ seqs) given_up (r, res) h acc =
      confirmed-Keeps given_up (w.promoted r.tick) (ticked r)
        (record res { posted = posted_for join dir w org (seq ∷ seqs) ++ res.posted })
        (
          acc.0,
          acc.1,
          All-append (λ (p : String × ℕ). Lost w source r0 res.delivered p.1)
              (posted_for join dir w org (seq ∷ seqs)) res.posted
              (posted_for-Lost org (seq ∷ seqs) res.delivered h) acc.2,
        )

  confirm_gave_up-Keeps :
      (org : String) (seqs : List ℕ) (x : Reconciling)
      → All (Lost w source r0 x.1.delivered) seqs
      → Accounted w source r0 x.0 x.1
      → let y = confirm_gave_up join dir w org seqs x in Accounted w source r0 y.0 y.1
  unfolding confirm_gave_up
  confirm_gave_up-Keeps org seqs (r, res, failed) h acc = acc
  confirm_gave_up-Keeps org seqs (r, res, finished) h acc = acc
  confirm_gave_up-Keeps org seqs (r, res, more) h acc =
      (confirm_lost-Keeps org seqs (length seqs) (r, res) h acc).0

  settle_window-Accounted :
      (org : String) (v : Window) (r : Reporter) (res : ReconcileResult)
      → Losses res v
      → Accounted w source r0 r res
      → let y = settle_window join dir w org source v r res in Accounted w source r0 y.0 y.1
  unfolding settle_window
  settle_window-Accounted org v r res losses acc =
      let x = resent join dir w source res (resend_wal_seqs join dir w source v.in_wal r) in
      let a =
        resent-Keeps r res (resend_wal_seqs join dir w source v.in_wal r)
          (resend_wal_seqs-config v.in_wal r) acc in
      let y = confirm_lost join dir w org v.not_in_wal 0 x in
      let b = confirm_lost-Keeps org v.not_in_wal 0 x (All-map a.1 v.not_in_wal losses.0) a.0 in
      confirm_gave_up-Keeps org v.gave_up y
        (All-map (λ seq h. b.1 seq (a.1 seq h)) v.gave_up losses.1) b.0

  last_window-Accounted :
      (truncated : Bool) (x : Reconciling)
      → Accounted w source r0 x.0 x.1
      → let y = last_window join dir w truncated x in Accounted w source r0 y.0 y.1
  unfolding last_window
  last_window-Accounted truncated (r, res, failed) acc = acc
  last_window-Accounted truncated (r, res, finished) acc = acc
  last_window-Accounted truncated (r, res, more) acc = acc

  window-Accounted :
      (first : Bool) (org : String) (t : ℕ) (gaps : Option (List ℕ × Bool)) (r : Reporter)
      (res : ReconcileResult)
      → w.gaps t ≡ gaps
      → Accounted w source r0 r res
      → let y = window join dir w first org source gaps r res in Accounted w source r0 y.0 y.1
  unfolding window counted
  window-Accounted first org t none r res asked acc = acc
  window-Accounted first org t (some ([], truncated)) r res asked acc = acc
  window-Accounted first org t (some (seq ∷ seqs, truncated)) r res asked acc =
      let missing = seq ∷ seqs in
      let budget = pruned_budget missing (r.resend_delivered source) in
      let v = classified join dir w org source missing r in
      let start = with_budget source budget (ticked r) in
      let res' = counted join dir w first res in
      last_window-Accounted truncated (settle_window join dir w org source v start res') (
        settle_window-Accounted org v start res'
          (classified-Losses org t missing truncated r res' asked acc)
          (
            acc.0,
            λ s. rw (eq_refl source) (
                omega
                  (arith, pruned_le w source r0 missing (r.resend_delivered source) s, acc.1 s)),
            acc.2,
          ))

  go_on-Accounted :
      (next : Reporter → ReconcileResult → Reconciling) (x : Reconciling)
      → ((r : Reporter) (res : ReconcileResult)
          → Accounted w source r0 r res
          → Accounted w source r0 (next r res).0 (next r res).1)
      → Accounted w source r0 x.0 x.1
      → let y = go_on join dir w next x in Accounted w source r0 y.0 y.1
  unfolding go_on
  go_on-Accounted next (r, res, failed) h acc = acc
  go_on-Accounted next (r, res, finished) h acc = acc
  go_on-Accounted next (r, res, more) h acc = h r res acc

  pub windows-Accounted :
      (n : ℕ) (first : Bool) (org : String) (r : Reporter) (res : ReconcileResult)
      → Accounted w source r0 r res
      → let y = windows join dir w n first org source r res in Accounted w source r0 y.0 y.1
  unfolding windows
  windows-Accounted zero first org r res acc = acc
  windows-Accounted (suc n) first org r res acc =
      go_on-Accounted (λ r' res'. windows join dir w n false org source r' res')
        (window join dir w first org source (w.gaps r.tick) (ticked r) res)
        (λ r' res' a. windows-Accounted n false org r' res' a)
        (window-Accounted first org r.tick (w.gaps r.tick) (ticked r) res refl acc)
