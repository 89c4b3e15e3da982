-- ===== src/Proxy/Chain/Serve/First.antt =====
-- The first hop that can serve a request serves it.
use aikey_proxy.Prelude.{
  Bool-cases, List, Option, String, [], and_true, ap, arith, false, if◌then◌else◌, inl, inr, ltb,
  ltb→lt, none, not, refl, some, subst, suc, sym, true, zero, ℕ, ◌&&◌, ◌++◌, ◌+◌, ◌<◌, ◌∙◌, ◌∷◌,
  ◌≡◌, ◌⊎◌,
}
use aikey_proxy.Prelude.Lists.{length, length-append}
use aikey_proxy.Proxy.BindingCooldown.{BindingCooldown}
use aikey_proxy.Proxy.Chain.{ResolvedRoute}
use aikey_proxy.Proxy.Chain.Activity.{Entry}
use aikey_proxy.Proxy.Chain.Serve.{
  served, ChainPolicy, Hop, Outcome, Walk, budget_exceeded, chain_attempt_eligible,
  chain_skip_response, did_not_serve, go_on, is_available, is_over, serve_hops, spent, turn,
}
use native.Mathlib.Decide.{dec_lt}
use mathlib.Core.List.{append_assoc, append-nil}

module _ (policy : ChainPolicy) (start : ℕ) (primary_id : String) (hop : ℕ → Hop) where
  -- The hop was left out, or it answered in a way that the next one is asked.
  abbrev pub Passed : ℕ → Type 0
  Passed j =
      (is_available (hop j) ≡ false)
      ⊎ ((is_available (hop j) ≡ true) × (chain_attempt_eligible (hop j).answer ≡ true))

  -- The hops before a place that were asked.
  pub asked : ℕ → ℕ
  asked zero = 0
  asked (suc k) = asked k + (if is_available (hop k) then 1 else 0)

  -- The status of the last one before a place that failed, and did not only reject the model.
  pub last_failure : ℕ → Option ℕ
  last_failure zero = none
  last_failure (suc k) =
      if is_available (hop k) && not (chain_skip_response (hop k).answer)
      then some (hop k).answer.status
      else last_failure k

  abbrev pub Walked : ℕ → Walk → Type 0
  Walked i s =
      (s.attempts ≡ asked i) × (s.last_captured ≡ last_failure i) × ((j : ℕ) → j < i → Passed j)

  -- What each outcome says of the hops.
  abbrev pub First : List ResolvedRoute → Outcome × Walk → Type 0
  First order (served c k, s) =
      (is_available (hop k) ≡ true)
      × (chain_attempt_eligible (hop k).answer ≡ false)
      × ((j : ℕ) → j < k → Passed j)
      × (s.attempts ≡ asked (suc k))
      × (before : List ResolvedRoute) × (after : List ResolvedRoute) × (order
          ≡ before ++ (c ∷ after))
      × (length before ≡ k)
  First order (budget_exceeded k, s) =
      (0 < k)
      × (k < length order)
      × (is_over policy start (hop k) ≡ true)
      × ((j : ℕ) → j < k → Passed j)
      × (s.attempts ≡ asked k)
  First order (spent, s) =
      ((j : ℕ) → j < length order → Passed j)
      × (s.attempts ≡ asked (length order))
      × (s.last_captured ≡ last_failure (length order))

  passed_next : (i : ℕ) → ((j : ℕ) → j < i → Passed j) → Passed i → (j : ℕ) → j < suc i → Passed j
  passed_next i before here j h = elim (dec_lt j i) [
    | yes p ↦ before j p
    | no p ↦ subst (λ (k : ℕ). Passed k) (omega arith) here
  ]

  asked_gone : (i : ℕ) → is_available (hop i) ≡ false → asked (suc i) ≡ asked i
  unfolding asked
  asked_gone i gone = rw gone (omega arith)

  failure_gone : (i : ℕ) → is_available (hop i) ≡ false → last_failure (suc i) ≡ last_failure i
  unfolding last_failure
  failure_gone i gone = rw gone refl

  tried_one :
      (i : ℕ) (s : Walk)
      → is_available (hop i) ≡ true
      → s.attempts ≡ asked i
      → s.attempts + 1 ≡ asked (suc i)
  unfolding asked
  tried_one i s there h = rw there (omega arith)

  within :
      (order before : List ResolvedRoute) (i : ℕ) (c : ResolvedRoute) (cs : List ResolvedRoute)
      → order ≡ before ++ (c ∷ cs)
      → length before ≡ i
      → i < length order
  within order before i c cs split len =
      omega (arith, ap (λ (l : List ResolvedRoute). length l) split, length-append before (c ∷ cs))

  one_more :
      (before : List ResolvedRoute) (c : ResolvedRoute) (i : ℕ)
      → length before ≡ i
      → length (before ++ (c ∷ [])) ≡ suc i
  one_more before c i len = omega (arith, length-append before (c ∷ []))

  did_not_serve-attempts :
      (i : ℕ) (c : ResolvedRoute) (more : List ResolvedRoute) (s : Walk)
      → (did_not_serve policy start primary_id hop i c more s).attempts ≡ s.attempts
  unfolding did_not_serve
  did_not_serve-attempts i c more s = elim (Bool-cases (chain_skip_response (hop i).answer)) [
    | inl e ↦ rw e refl
    | inr e ↦ rw e refl
  ]

  did_not_serve-failure :
      (i : ℕ) (c : ResolvedRoute) (more : List ResolvedRoute) (s : Walk)
      → is_available (hop i) ≡ true
      → s.last_captured ≡ last_failure i
      → (did_not_serve policy start primary_id hop i c more s).last_captured ≡ last_failure (suc i)
  unfolding did_not_serve last_failure
  did_not_serve-failure i c more s there h =
      elim (Bool-cases (chain_skip_response (hop i).answer)) [
        | inl e ↦ rw (e, there) h
        | inr e ↦ rw (e, there) refl
      ]

  -- A turn that goes on leaves the walk of one more hop; one that stops is the outcome.
  abbrev Turned : List ResolvedRoute → ℕ → Option Outcome × Walk → Type 0
  Turned order i (none, s) = Walked (suc i) s
  Turned order i (some o, s) = First order (o, s)

  turn-Turned :
      (order before : List ResolvedRoute) (i : ℕ) (c : ResolvedRoute) (cs : List ResolvedRoute)
      (s : Walk)
      → order ≡ before ++ (c ∷ cs)
      → length before ≡ i
      → Walked i s
      → Turned order i (turn policy start primary_id hop i c cs s)
  unfolding turn
  turn-Turned order before i c cs s split len walked =
      elim (Bool-cases (ltb 0 i && is_over policy start (hop i))) [
        | inl late ↦
            let l = and_true (ltb 0 i) (is_over policy start (hop i)) late in
            rw late (ltb→lt 0 i l.0, within order before i c cs split len, l.1, walked.2, walked.0)
        | inr in_time ↦ elim (Bool-cases (is_available (hop i))) [
          | inr gone ↦
              rw (in_time, gone)
                (
                  walked.0 ∙ sym (asked_gone i gone),
                  walked.1 ∙ sym (failure_gone i gone),
                  passed_next i walked.2 (inl gone),
                )
          | inl there ↦ elim (Bool-cases (chain_attempt_eligible (hop i).answer)) [
            | inl failed ↦
                let tried : Walk = record s { attempts = s.attempts + 1 } in
                rw (in_time, there, failed)
                  (
                    did_not_serve-attempts i c cs tried ∙ tried_one i s there walked.0,
                    did_not_serve-failure i c cs tried there walked.1,
                    passed_next i walked.2 (inr (there, failed)),
                  )
            | inr good ↦
                rw (in_time, there, good)
                  (there, good, walked.2, tried_one i s there walked.0, before, cs, split, len)
          ]
        ]
      ]

  go_on-First :
      (order : List ResolvedRoute) (i : ℕ) (next : Walk → Outcome × Walk)
      (x : Option Outcome × Walk)
      → Turned order i x
      → ((s : Walk) → Walked (suc i) s → First order (next s))
      → First order (go_on policy start primary_id hop next x)
  unfolding go_on
  go_on-First order i next (none, s) h ih = ih s h
  go_on-First order i next (some o, s) h ih = h

  hops-First :
      (order before cs : List ResolvedRoute) (i : ℕ) (s : Walk)
      → order ≡ before ++ cs
      → length before ≡ i
      → Walked i s
      → First order (serve_hops policy start primary_id hop i cs s)
  unfolding serve_hops
  hops-First order before [] i s split len walked =
      let all : length order ≡ i =
        ap (λ (l : List ResolvedRoute). length l) (split ∙ append-nil before) ∙ len in
      (λ j h. walked.2 j (omega arith), rw all (walked.0), rw all (walked.1))
  hops-First order before (c ∷ cs) i s split len walked =
      go_on-First order i (λ s'. serve_hops policy start primary_id hop (suc i) cs s')
        (turn policy start primary_id hop i c cs s)
        (turn-Turned order before i c cs s split len walked)
        (λ s' w.
          hops-First order (before ++ (c ∷ [])) cs (suc i) s'
            (split ∙ sym (append_assoc before (c ∷ []) cs)) (one_more before c i len) w)

-- The walk as the server starts it.
abbrev pub fresh : BindingCooldown → Option Entry → Walk
fresh cooldown activity = record {
  cooldown = cooldown;
  activity = activity;
  attempts = 0;
  last_captured = none;
  last_reason = "";
  last_provider = "";
  switches = 0;
}

-- A request is served by the first hop of the try order that is available (its credential, its provider and its address are found) and whose answer is neither a failure to be taken elsewhere nor a rejection of the model; every hop before it was left out or passed on, each available one asked once. The walk stops early only in front of a later hop, when the whole-chain budget is over. And when no hop is left, all of them were passed, and the status that is kept is that of the last one that failed and did not only reject the model.
pub serve_hops-First :
    (policy : ChainPolicy) (start : ℕ) (primary_id : String) (hop : ℕ → Hop)
    (order : List ResolvedRoute) (cooldown : BindingCooldown) (activity : Option Entry)
    → First policy start primary_id hop order
        (serve_hops policy start primary_id hop 0 order (fresh cooldown activity))
unfolding asked last_failure
serve_hops-First policy start primary_id hop order cooldown activity =
    hops-First policy start primary_id hop order [] order 0 (fresh cooldown activity) refl refl
      (refl, refl, λ j h. absurd (omega arith))
