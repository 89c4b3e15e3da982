-- ===== src/Proxy/BindingCooldown.antt =====
-- `bindingCooldownStore` of internal/proxy/binding_cooldown.go: which upstreams of a chain failed
-- lately. `value` is the administrator's `fallbackpolicy.Resolved.Value`, in milliseconds.
use aikey_proxy.Prelude.{
  ℕ, ◌+◌, ◌-◌, ◌*◌, ◌/◌, ◌≤◌, ◌<◌, ◌≡◌, String, Bool, false, Option, none, some, Map, empty_map,
  ◌==◌, ◌&&◌, not, ltb, eqb, if◌then◌else◌, arith, eq_iff,
}
use aikey_proxy.Prelude.Maps.{insert, erase}
use aikey_proxy.Proxy.PathHealth.{second}
use aikey_proxy.Proxy.CooldownDecision.{
  Evidence, cooldown_decision_with_temporary_fallback, failover_eligible_response,
}

abbrev pub millisecond : ℕ
millisecond = 1000000

-- The map from a binding id to the end of its cooldown.
abbrev pub BindingCooldown : Type 0
BindingCooldown = Map ℕ

pub new_binding_cooldown : BindingCooldown
new_binding_cooldown = empty_map

shorter : Option ℕ → ℕ → ℕ → ℕ
shorter none now max_cool = max_cool
shorter (some until) now max_cool =
    if ltb now until && ltb (until - now) max_cool then until - now else max_cool

-- The length of the cooldown that a failure sets.
cool_for : ℕ → Evidence → ℕ → ℕ → ℕ
unfolding shorter
cool_for status e value now =
    shorter (cooldown_decision_with_temporary_fallback status e now (30 * second)) now
      (value * millisecond)

pub note : BindingCooldown → String → ℕ → Evidence → ℕ → ℕ → BindingCooldown × Option ℕ
unfolding cool_for
note s id status e value now =
    if id == ""
    then (s, none)
    else if not (failover_eligible_response status e)
    then (s, none)
    else if eqb value 0
    then (s, none)
    else (insert id (now + cool_for status e value now) s, some (now + cool_for status e value now))

pub note_success : BindingCooldown → String → BindingCooldown
note_success s id = if id == "" then s else erase id s

ends_after : Option ℕ → ℕ → Bool
ends_after none now = false
ends_after (some until) now = ltb now until

unfoldable pub cooling : BindingCooldown → String → ℕ → Bool
unfolding ends_after
cooling s id now = if id == "" then false else ends_after (s id) now

-- int(until.Sub(now).Seconds()), which is not above 0 for a time that is over
remaining_seconds : Option ℕ → ℕ → Option ℕ
remaining_seconds none now = none
remaining_seconds (some until) now =
    if eqb ((until - now) / second) 0 then none else some ((until - now) / second)

-- The store after the walk, which drops what it does not list, and the list.
pub snapshot : BindingCooldown → ℕ → BindingCooldown × Map ℕ
unfolding remaining_seconds
snapshot s now = (
  λ id. elim (remaining_seconds (s id) now) [ none ↦ none | some r ↦ s id ],
  λ id. remaining_seconds (s id) now,
)

shorter_bounds :
    (o : Option ℕ) (now bound : ℕ)
    → 0 < bound
    → (0 < shorter o now bound) × (shorter o now bound ≤ bound)
unfolding shorter
shorter_bounds o now bound h = ground arith

cool_for_bounds :
    (status : ℕ) (e : Evidence) (value now : ℕ)
    → 0 < value
    → (0 < cool_for status e value now) × (cool_for status e value now ≤ value * millisecond)
unfolding cool_for
cool_for_bounds status e value now h = shorter_bounds _ now (value * millisecond) (omega (arith, h))

-- What `note` returns tells what it did.
abbrev pub AfterNote : Option ℕ → BindingCooldown → BindingCooldown → String → ℕ → ℕ → ℕ → Type 0
AfterNote none after s id value now t = (j : String) → cooling after j t ≡ cooling s j t
AfterNote (some until) after s id value now t =
    (now < until)
    × (until ≤ now + value * millisecond)
    × ((j : String) → cooling after j t ≡ (if id == j then ltb t until else cooling s j t))

-- A failed attempt that returns a deadline cools its own binding until then and no other, and the deadline is in the future and at most the administrator's maximum away; one that returns none changes nothing.
pub cooling-note :
    (s : BindingCooldown) (id : String) (status : ℕ) (e : Evidence) (value now t : ℕ)
    → let r = note s id status e value now in AfterNote r.1 r.0 s id value now t
unfolding cooling note ends_after
cooling-note s id status e value now t =
    ground (arith, cool_for_bounds status e value now, eq_iff id)
