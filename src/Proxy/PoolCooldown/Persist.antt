-- ===== src/Proxy/PoolCooldown/Persist.antt =====
-- The state file: `persistenceSnapshotLocked` and `hydrateFromFile`. A file holds what JSON decodes
-- from it; a missing, unreadable or corrupt file is `none`. Deadlines are kept in whole seconds.
use aikey_proxy.Prelude.{
  ℕ, ◌*◌, ◌/◌, ◌≤◌, String, Bool, false, Option, none, some, Map, ◌≡◌, arith, ◌==◌, ◌&&◌, not, ltb,
  if◌then◌else◌,
}
use aikey_proxy.Proxy.PathHealth.{second}
use aikey_proxy.Proxy.PoolCooldown.Windows.{WindowStatusSample, active_window_status_sample}
use aikey_proxy.Proxy.PoolCooldown.{
  skip_set, PoolAccountRouteState, Store, is_cooling, is_idle, new_store,
}

-- `poolCooldownFileBody` without the token fingerprints.
pub record FileBody : Type 0 where
  pub accounts : Map ℕ
  pub tier_accounts : Map ℕ
  pub account_states : Map PoolAccountRouteState
  pub window_statuses : Map WindowStatusSample

active_unix : Option ℕ → ℕ → Option ℕ
active_unix none now = none
active_unix (some u) now = if ltb now u then some (u / second) else none

with_status : Option PoolAccountRouteState → Option PoolAccountRouteState
with_status none = none
with_status (some state) = if state.status == "" then none else some state

not_idle : WindowStatusSample → Option WindowStatusSample
not_idle w = if is_idle w then none else some w

active_sample : Option WindowStatusSample → ℕ → Option WindowStatusSample
unfolding not_idle
active_sample none now = none
active_sample (some w) now = not_idle (active_window_status_sample w (now / second))

pub persistence_snapshot : Store → ℕ → FileBody
unfolding active_unix with_status active_sample
persistence_snapshot s now = record {
  accounts = λ id. active_unix (s.until id) now;
  tier_accounts = λ key. active_unix (s.tier_until key) now;
  account_states = λ id. if is_cooling (s.until id) now then with_status (s.meta id) else none;
  window_statuses =
      λ id. if is_cooling (s.until id) now then active_sample (s.window_statuses id) now else none;
}

-- time.Unix(untilUnix, 0), if it is in the future and the key is not empty
loaded_until : String → Option ℕ → ℕ → Option ℕ
loaded_until id none now = none
loaded_until id (some u) now =
    if not (id == "") && ltb now (u * second) then some (u * second) else none

loaded_sample : Option WindowStatusSample → ℕ → Option WindowStatusSample
unfolding not_idle
loaded_sample none now = none
loaded_sample (some w) now =
    if w.credential_id == "" then none else not_idle (active_window_status_sample w (now / second))

hydrate_body : FileBody → ℕ → Store
unfolding loaded_until loaded_sample with_status
hydrate_body body now =
    let until : Map ℕ = λ id. loaded_until id (body.accounts id) now in
    record new_store {
      until = until;
      meta = λ id. if is_cooling (until id) now then with_status (body.account_states id) else none;
      window_statuses = λ id.
          if is_cooling (until id) now then loaded_sample (body.window_statuses id) now else none;
      tier_until = λ key. loaded_until key (body.tier_accounts key) now;
    }

pub hydrate : Option FileBody → ℕ → Store
unfolding hydrate_body
hydrate none now = new_store
hydrate (some body) now = hydrate_body body now

-- A deadline rounded down to whole seconds.
abbrev pub is_cooling_seconds : Option ℕ → ℕ → Bool
is_cooling_seconds none t = false
is_cooling_seconds (some u) t = ltb t (u / second * second)

until_round_trip :
    (o : Option ℕ) (id : String) (written started t : ℕ)
    → written ≤ started
    → started ≤ t
    → is_cooling (loaded_until id (active_unix o written) started) t
      ≡ (not (id == "") && is_cooling_seconds o t)
unfolding loaded_until active_unix
until_round_trip none id written started t h k = ground arith
until_round_trip (some u) id written started t h k = ground arith

-- What is written at one time and loaded at a later one skips, from then on, exactly the accounts that the writer would have skipped with its deadlines rounded down to whole seconds, and pauses exactly such pairs of an account and a tier; an account with the empty id, and the tier entry with the empty key, are dropped.
pub skip-hydrate :
    (s : Store) (written started t : ℕ) (id key : String)
    → written ≤ started
    → started ≤ t
    → let loaded = hydrate (some (persistence_snapshot s written)) started in
      (skip_set loaded t id ≡ (not (id == "") && is_cooling_seconds (s.until id) t))
      × (is_cooling (loaded.tier_until key) t
          ≡ (not (key == "") && is_cooling_seconds (s.tier_until key) t))
unfolding skip_set hydrate persistence_snapshot
skip-hydrate s written started t id key h k = (
  until_round_trip (s.until id) id written started t h k,
  until_round_trip (s.tier_until key) key written started t h k,
)
