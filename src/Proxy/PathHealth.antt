-- ===== src/Proxy/PathHealth.antt =====
-- `ProviderPathHealthManager` of internal/proxy/path_health.go: the circuit breaker of a transport
-- path. Times and durations are nanoseconds; the clock is an argument of each operation.
pub mod Probe
pub mod Recovery
use aikey_proxy.Prelude.{
  ℕ, ◌+◌, ◌-◌, ◌*◌, ◌/◌, suc, zero, String, Bool, true, false, Option, none, some, List, [], ◌∷◌,
  Map, empty_map, ◌==◌, ◌&&◌, not, ltb, leb, eqb, if◌then◌else◌,
}
use aikey_proxy.Prelude.Maps.{insert, erase}

abbrev pub second : ℕ
second = 1_000_000_000

pub data PathState : Type 0 where
  suspect half_open open_state : PathState

pub record ProviderPath : Type 0 where
  pub key : String
  pub provider : String
  pub protocol : String
  pub transport : String
  pub origin_fingerprint : String
  pub egress_fingerprint : String

pub record Entry : Type 0 where
  pub path : ProviderPath
  pub state : PathState
  pub failure_class : String
  pub failures : ℕ
  pub next_probe_at : ℕ
  pub probe_in_flight : Bool

-- The source shows the path's key hashed.
pub record ProviderPathHealth : Type 0 where
  pub path : ProviderPath
  pub state : PathState
  pub failure_class : String
  pub consecutive_failures : ℕ
  pub retry_after_seconds : ℕ

pub record ProviderPathPermit : Type 0 where
  pub allowed : Bool
  pub probe : Bool
  pub retry_after : ℕ
  pub health : Option ProviderPathHealth

abbrev pub Manager : Type 0
Manager = Map Entry

unfoldable pub new_manager : Manager
new_manager = empty_map

-- A duration that is not positive gives 0, as the truncated difference does.
duration_seconds_ceil : ℕ → ℕ
duration_seconds_ceil d = if leb d 0 then 0 else (d + second - 1) / second

health_locked : Entry → ℕ → ProviderPathHealth
unfolding duration_seconds_ceil
health_locked e now = record {
  path = e.path;
  state = e.state;
  failure_class = e.failure_class;
  consecutive_failures = e.failures;
  retry_after_seconds = duration_seconds_ceil (e.next_probe_at - now);
}

abbrev pub path_retry_backoff : List ℕ
path_retry_backoff = second ∷ 2 * second ∷ 4 * second ∷ 8 * second ∷ 10 * second ∷ []

-- The entry at a position, or the last one behind the end.
clamped : List ℕ → ℕ → ℕ
clamped [] i = 0
clamped (d ∷ []) i = d
clamped (d ∷ e ∷ ds) zero = d
clamped (d ∷ e ∷ ds) (suc i) = clamped (e ∷ ds) i

pub path_backoff : ℕ → ℕ
unfolding clamped
path_backoff failures = if ltb failures 2 then 0 else clamped path_retry_backoff (failures - 2)

abbrev pub Permitted : Type 0
Permitted = Manager × ProviderPathPermit

allow_unknown : Manager → Permitted
allow_unknown m = (m, record { allowed = true; probe = false; retry_after = 0; health = none })

unfoldable pub grant_probe : Manager → ProviderPath → Entry → ℕ → Permitted
unfolding health_locked
grant_probe m path e now =
    let e' = record e { state = half_open; probe_in_flight = true } in
    (
      insert path.key e' m,
      record {
        allowed = true;
        probe = true;
        retry_after = 0;
        health = some (health_locked e' now);
      },
    )

deny : Manager → Entry → ℕ → Permitted
unfolding health_locked
deny m e now =
    let retry = e.next_probe_at - now in
    (
      m,
      record {
        allowed = false;
        probe = false;
        retry_after = if ltb retry second then second else retry;
        health = some (health_locked e now);
      },
    )

-- The tests under which an entry lets a probe through.
unfoldable pub probe_due : PathState → Entry → ℕ → Bool
probe_due suspect e now = not e.probe_in_flight
probe_due open_state e now = not e.probe_in_flight && not (ltb now e.next_probe_at)
probe_due half_open e now = false

unfoldable pub permit_entry : Manager → ProviderPath → ℕ → Option Entry → Permitted
unfolding allow_unknown grant_probe deny probe_due
permit_entry m path now none = allow_unknown m
permit_entry m path now (some e) =
    if probe_due e.state e now then grant_probe m path e now else deny m e now

unfoldable pub permit : Manager → ProviderPath → ℕ → Permitted
unfolding permit_entry
permit m path now = if path.key == "" then allow_unknown m else permit_entry m path now (m path.key)

-- The entry after one more failure.
unfoldable pub failed : ProviderPath → String → ℕ → ℕ → Entry
unfolding path_backoff
failed path failure_class failures now = record {
  path = path;
  state = if eqb failures 1 then suspect else open_state;
  failure_class = failure_class;
  failures = failures;
  next_probe_at = if eqb failures 1 then now else now + path_backoff failures;
  probe_in_flight = false;
}

unfoldable pub failures_of : Option Entry → ℕ
failures_of none = 0
failures_of (some e) = e.failures

unfoldable pub note_transport_failure :
    Manager → ProviderPath → String → ℕ → Manager × Option ProviderPathHealth
unfolding failed failures_of health_locked
note_transport_failure m path failure_class now =
    let e = failed path failure_class (failures_of (m path.key) + 1) now in
    if path.key == "" then (m, none) else (insert path.key e m, some (health_locked e now))

pub note_http_response : Manager → ProviderPath → Manager
note_http_response m path = if path.key == "" then m else erase path.key m

reopened : Entry → ℕ → Entry
reopened e now = record e { state = open_state; probe_in_flight = false; next_probe_at = now }

canceled : PathState → Manager → ProviderPath → Entry → ℕ → Manager
unfolding reopened
canceled half_open m path e now = insert path.key (reopened e now) m
canceled suspect m path e now = m
canceled open_state m path e now = m

cancel_entry : Manager → ProviderPath → ℕ → Option Entry → Manager
unfolding canceled
cancel_entry m path now none = m
cancel_entry m path now (some e) = canceled e.state m path e now

pub note_probe_canceled : Manager → ProviderPath → ℕ → Manager
unfolding cancel_entry
note_probe_canceled m path now = if path.key == "" then m else cancel_entry m path now (m path.key)

-- Every entry is opened for a probe at once.
pub notify_inputs_changed : Manager → ℕ → Manager
unfolding reopened
notify_inputs_changed m now k = elim (m k) [ none ↦ none | some e ↦ some (reopened e now) ]
