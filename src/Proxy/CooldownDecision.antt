-- ===== src/Proxy/CooldownDecision.antt =====
-- `cooldownDecision` of internal/proxy/oauth_pool_cooldown.go, and `failoverEligibleResponse` of
-- internal/proxy/group_failover.go: what a response says about the account or binding behind it.
--
-- `Evidence` is what the header readers of the source return for a response: whether the header has
-- a rate-limit signal, and the durations read from Codex's reset, from Anthropic's exhausted
-- windows and from Retry-After, with 0 for an absent or a negative one. Durations are nanoseconds.
use aikey_proxy.Prelude.{
  ◌≢◌, ℕ, ◌+◌, ◌*◌, ◌≤◌, ◌<◌, ◌≡◌, ◌⊎◌, Bool, true, false, Option, none, some, ◌&&◌, ◌||◌, ltb, leb,
  eqb, if◌then◌else◌, arith,
}
use aikey_proxy.Proxy.PathHealth.{second}

pub record Evidence : Type 0 where
  pub rate_limit_signal : Bool
  pub codex_reset : ℕ
  pub anthropic_window_reset : ℕ
  pub retry_after : ℕ
  pub node_egress_error : Bool

abbrev pub cooldown_default : ℕ
cooldown_default = 300 * second

abbrev pub cooldown_max : ℕ
cooldown_max = 3600 * second

abbrev pub cooldown_429_no_reset : ℕ
cooldown_429_no_reset = 5 * second

abbrev pub cooldown_429_min : ℕ
cooldown_429_min = second

abbrev pub cooldown_529_overload : ℕ
cooldown_529_overload = 120 * second

abbrev at_most : ℕ → ℕ → ℕ
at_most bound d = if ltb bound d then bound else d

-- The length of the cooldown for a rate limit, from the best evidence.
unfoldable pub rate_limit_duration : Evidence → ℕ → ℕ
rate_limit_duration e temporary_fallback =
    let fallback =
      if ltb temporary_fallback cooldown_429_min || ltb cooldown_max temporary_fallback
      then cooldown_429_no_reset
      else temporary_fallback in
    if ltb 0 e.codex_reset
    then at_most cooldown_max e.codex_reset
    else if ltb 0 e.anthropic_window_reset
    then e.anthropic_window_reset
    else if ltb 0 e.retry_after
    then at_most cooldown_max e.retry_after
    else at_most cooldown_max fallback

unfoldable pub cooldown_decision_with_temporary_fallback : ℕ → Evidence → ℕ → ℕ → Option ℕ
unfolding rate_limit_duration
cooldown_decision_with_temporary_fallback status e now temporary_fallback =
    if eqb status 401
    then some (now + cooldown_default)
    else if eqb status 529
    then some (now + cooldown_529_overload)
    else if eqb status 429 && e.rate_limit_signal
    then some (now + rate_limit_duration e temporary_fallback)
    else none

pub cooldown_decision : ℕ → Evidence → ℕ → Option ℕ
unfolding cooldown_decision_with_temporary_fallback
cooldown_decision status e now =
    cooldown_decision_with_temporary_fallback status e now cooldown_429_no_reset

unfoldable pub failover_eligible_response : ℕ → Evidence → Bool
failover_eligible_response status e =
    if e.node_egress_error
    then false
    else if eqb status 401
    then true
    else if eqb status 429
    then e.rate_limit_signal
    else leb 500 status

-- Unless the node's own egress failed, a response that sets a cooldown also allows the next candidate, and a response below 500 that allows the next candidate sets a cooldown.
pub decision-eligible :
    (status : ℕ) (e : Evidence) (now fallback : ℕ)
    → e.node_egress_error ≡ false
    → ((until : ℕ)
        → cooldown_decision_with_temporary_fallback status e now fallback ≡ some until
        → failover_eligible_response status e ≡ true)
      × (status < 500
          → failover_eligible_response status e ≡ true
          → cooldown_decision_with_temporary_fallback status e now fallback ≢ none)
unfolding cooldown_decision_with_temporary_fallback failover_eligible_response
decision-eligible status e now fallback h =
    (λ until g. ground arith, λ below g none_here. ground arith)

-- A cooldown that a response sets starts in the future, and lasts at most an hour unless it is a 429 without a Codex reset whose headers name an exhausted Anthropic window; then it lasts exactly until that window resets.
pub decision_bounds :
    (status : ℕ) (e : Evidence) (now fallback until : ℕ)
    → cooldown_decision_with_temporary_fallback status e now fallback ≡ some until
    → (now < until)
      × ((until ≤ now + cooldown_max)
          ⊎ ((status ≡ 429) × (e.codex_reset ≡ 0) × (until ≡ now + e.anthropic_window_reset)))
unfolding cooldown_decision_with_temporary_fallback rate_limit_duration
decision_bounds status e now fallback until h = ground arith
