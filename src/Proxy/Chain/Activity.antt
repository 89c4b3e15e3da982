-- ===== src/Proxy/Chain/Activity.antt =====
-- `chainActivityStore` of internal/proxy/chain_activity.go, for one chain: its entry is `none` until
-- its first request. An entry that is written here leaves the others as they are.
use mathlib.Core.Bool.{true≢false}
use aikey_proxy.Prelude.{
  subst, sym, ◌∙◌, ℕ, ◌-◌, ◌<◌, String, Bool, true, false, Option, none, some, List, [], ◌∷◌, ◌==◌,
  ◌&&◌, ◌||◌, ltb, leb, ◌≡◌, ◌≢◌, refl, inl, inr, arith, if◌then◌else◌, Bool-cases,
}

pub record Entry : Type 0 where
  pub last_request_at : ℕ
  pub last_probe_at : ℕ
  pub current_binding_id : String

pub record StickDecision : Type 0 where
  pub stick_to : String
  pub gap : ℕ
  pub first_ever : Bool

-- Whether the request is let go to the primary. A clock that went back counts as no time gone by.
unfoldable pub reselects : Entry → ℕ → ℕ → ℕ → Bool
reselects e idle_gap max_stickiness now =
    e.current_binding_id == ""
    || leb idle_gap (now - e.last_request_at)
    || ltb 0 max_stickiness && leb max_stickiness (now - e.last_probe_at)

unfoldable pub observe : Option Entry → ℕ → ℕ → ℕ → Entry × StickDecision
unfolding reselects
observe none idle_gap max_stickiness now = (
  record { last_request_at = now; last_probe_at = now; current_binding_id = "" },
  record { stick_to = ""; gap = 0; first_ever = true },
)
observe (some e) idle_gap max_stickiness now =
    let gap = now - e.last_request_at in
    if reselects e idle_gap max_stickiness now
    then (
      record e { last_request_at = now; last_probe_at = now },
      record { stick_to = ""; gap = gap; first_ever = false },
    )
    else (
      record e { last_request_at = now },
      record { stick_to = e.current_binding_id; gap = gap; first_ever = false },
    )

unfoldable pub zero_entry : Entry
zero_entry = record { last_request_at = 0; last_probe_at = 0; current_binding_id = "" }

unfoldable pub or_zero : Option Entry → Entry
unfolding zero_entry
or_zero none = zero_entry
or_zero (some e) = e

unfoldable pub note_served : Option Entry → String → Bool → ℕ → Entry
unfolding or_zero
note_served o binding_id is_primary now = record (or_zero o) {
  last_request_at = now;
  current_binding_id = if is_primary then "" else binding_id;
}

-- A chain's history: a request comes, or an upstream has served one.
pub data Event : Type 0 where
  requested : Event
  served : String → Bool → Event

module _ (idle_gap max_stickiness : ℕ) where
  unfoldable pub step : Option Entry → ℕ × Event → Option Entry
  step o (now, requested) = some (observe o idle_gap max_stickiness now).0
  step o (now, served binding_id is_primary) = some (note_served o binding_id is_primary now)

  -- The time of the last request that was let go to the primary, after a history.
  abbrev let_go : Option Entry → ℕ × Event → ℕ → ℕ
  let_go o (now, requested) t =
      if (observe o idle_gap max_stickiness now).1.stick_to == "" then now else t
  let_go o (now, served binding_id is_primary) t = t

  unfoldable pub last_let_go : Option Entry → List (ℕ × Event) → ℕ → ℕ
  unfolding step
  last_let_go o [] t = t
  last_let_go o (c ∷ cs) t = last_let_go (step o c) cs (let_go o c t)

  unfoldable pub run : Option Entry → List (ℕ × Event) → Option Entry
  unfolding step
  run o [] = o
  run o (c ∷ cs) = run (step o c) cs

  abbrev Probed : Option Entry → ℕ → Type 0
  Probed none t = ⊥
  Probed (some e) t = e.last_probe_at ≡ t

  stays :
      (e : Entry) (now : ℕ)
      → reselects e idle_gap max_stickiness now ≡ false
      → (e.current_binding_id == "") ≡ false
  unfolding reselects
  stays e now h = elim (Bool-cases (e.current_binding_id == "")) [
    | inl k ↦ absurd (true≢false (sym (rw k refl) ∙ h))
    | inr k ↦ k
  ]

  in_time :
      (e : Entry) (now : ℕ)
      → reselects e idle_gap max_stickiness now ≡ false
      → 0 < max_stickiness
      → (now - e.last_probe_at < max_stickiness) × (now - e.last_request_at < idle_gap)
  unfolding reselects
  in_time e now h set = ground arith

  sticks_lem :
      (e : Entry) (now : ℕ)
      → (observe (some e) idle_gap max_stickiness now).1.stick_to ≢ ""
      → reselects e idle_gap max_stickiness now ≡ false
  unfolding observe
  sticks_lem e now h = elim (Bool-cases (reselects e idle_gap max_stickiness now)) [
    | inl k ↦ absurd (h (rw k refl))
    | inr k ↦ k
  ]

  step-Probed :
      (e : Entry) (c : ℕ × Event) (t : ℕ)
      → e.last_probe_at ≡ t
      → Probed (step (some e) c) (let_go (some e) c t)
  unfolding step observe note_served or_zero
  step-Probed e (now, requested) t h = elim (Bool-cases (reselects e idle_gap max_stickiness now)) [
    | inl k ↦ rw k refl
    | inr k ↦ rw (k, stays e now k) h
  ]
  step-Probed e (now, served binding_id is_primary) t h = h

  run-Probed :
      (o : Option Entry) (cs : List (ℕ × Event)) (t : ℕ)
      → Probed o t
      → Probed (run o cs) (last_let_go o cs t)
  unfolding run last_let_go
  run-Probed o [] t h = h
  run-Probed none (c ∷ cs) t h = elim h [ ]
  run-Probed (some e) (c ∷ cs) t h =
      run-Probed (step (some e) c) cs (let_go (some e) c t) (step-Probed e c t h)

  first-Probed :
      (first : ℕ) (cs : List (ℕ × Event))
      → Probed (run none ((first, requested) ∷ cs)) (last_let_go none ((first, requested) ∷ cs) 0)
  unfolding run last_let_go step observe
  first-Probed first cs = run-Probed (step none (first, requested)) cs first refl

  -- With a stickiness limit that is set, and whatever has happened since a chain's first request, a request sticks to an upstream only if less than the limit has gone by since the last request that did not stick, and less than the idle gap since the last activity.
  pub stick_bounded :
      (cs : List (ℕ × Event)) (first now : ℕ) (e : Entry)
      → run none ((first, requested) ∷ cs) ≡ some e
      → (observe (some e) idle_gap max_stickiness now).1.stick_to ≢ ""
      → 0 < max_stickiness
      → (now - last_let_go none ((first, requested) ∷ cs) 0 < max_stickiness)
        × (now - e.last_request_at < idle_gap)
  stick_bounded cs first now e h sticks set =
      let probed =
        subst (λ o. Probed o (last_let_go none ((first, requested) ∷ cs) 0)) h
          (first-Probed first cs) in
      let bounds = in_time e now (sticks_lem e now sticks) set in
      (rw (sym probed) (bounds.0), bounds.1)
