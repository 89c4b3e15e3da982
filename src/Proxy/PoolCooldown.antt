-- ===== src/Proxy/PoolCooldown.antt =====
-- `poolCooldownStore` of internal/proxy/oauth_pool_cooldown.go: which accounts of a pool are
-- avoided, until when and why. Times are nanoseconds, Unix times are seconds; the clock is an
-- argument of each operation.
pub mod Windows
pub mod Keeps
pub mod Tiers
pub mod Streak
pub mod Persist
use Prim.Native.String.{◌++◌}
use aikey_proxy.Prelude.{
  ℕ, ◌+◌, ◌*◌, ◌/◌, String, Bool, true, false, Option, none, some, Map, empty_map, ◌==◌, ◌&&◌, ◌||◌,
  not, ltb, eqb, if◌then◌else◌,
}
use aikey_proxy.Prelude.Maps.{insert, erase}
use aikey_proxy.Proxy.PathHealth.{second}
use aikey_proxy.Proxy.PoolCooldown.Windows.{
  WindowStatusSample, empty_sample, active_window_status_sample, merge_window_status_sample,
}

abbrev pub server_err_streak_threshold : ℕ
server_err_streak_threshold = 3

abbrev pub server_err_cooldown : ℕ
server_err_cooldown = 60 * second

pub record PoolAccountRouteState : Type 0 where
  pub status : String
  pub retry_at : ℕ
  pub error_code : String

abbrev pub no_state : PoolAccountRouteState
no_state = record { status = ""; retry_at = 0; error_code = "" }

-- `persist_revision` counts the requests to write the state file, and `notified` the calls of
-- `onAccountSetChanged`.
pub record Store : Type 0 where
  pub until : Map ℕ
  pub meta : Map PoolAccountRouteState
  pub window_statuses : Map WindowStatusSample
  pub server_err_streak : Map ℕ
  pub tier_until : Map ℕ
  pub lapsed : String → Bool
  pub persist_revision : ℕ
  pub notified : ℕ

pub new_store : Store
new_store = record {
  until = empty_map;
  meta = empty_map;
  window_statuses = empty_map;
  server_err_streak = empty_map;
  tier_until = empty_map;
  lapsed = λ id. false;
  persist_revision = 0;
  notified = 0;
}

-- existed && now.Before(cur)
abbrev pub is_cooling : Option ℕ → ℕ → Bool
is_cooling none now = false
is_cooling (some u) now = ltb now u

-- !existed || until.After(cur)
abbrev pub extends : Option ℕ → ℕ → Bool
extends none until = true
extends (some cur) until = ltb cur until

persist_if : Bool → Store → Store
persist_if b s = if b then record s { persist_revision = s.persist_revision + 1 } else s

notify_if : Bool → Store → Store
notify_if b s = if b then record s { notified = s.notified + 1 } else s

pub streak_of : Option ℕ → ℕ
streak_of none = 0
streak_of (some n) = n

-- The cooldown that the third error in a row sets.
cool_server_error : Store → String → PoolAccountRouteState → ℕ → Store
unfolding persist_if notify_if
cool_server_error s id state now =
    let until = now + server_err_cooldown in
    let status = if state.status == "" then "upstream_unavailable" else state.status in
    let cooled = record s {
      until = insert id until s.until;
      meta = insert id (record state { status = status; retry_at = until / second }) s.meta;
      server_err_streak = erase id s.server_err_streak;
    } in
    let longer = extends (s.until id) until in
    notify_if (not (is_cooling (s.until id) now)) (
      persist_if longer
        (if longer then cooled else record s { server_err_streak = erase id s.server_err_streak }))

pub note_server_error_with_state : Store → String → PoolAccountRouteState → ℕ → Store × Option ℕ
unfolding streak_of cool_server_error
note_server_error_with_state s id state now =
    let streak = streak_of (s.server_err_streak id) + 1 in
    if id == ""
    then (s, none)
    else if ltb streak server_err_streak_threshold
    then (record s { server_err_streak = insert id streak s.server_err_streak }, none)
    else (cool_server_error s id state now, some (now + server_err_cooldown))

pub note_server_error : Store → String → ℕ → Store × Option ℕ
unfolding note_server_error_with_state
note_server_error s id now =
    note_server_error_with_state s id (record no_state { status = "upstream_unavailable" }) now

pub note_success : Store → String → Store
note_success s id =
    if id == "" then s else record s { server_err_streak = erase id s.server_err_streak }

same_state : Option PoolAccountRouteState → PoolAccountRouteState → Bool
same_state none b = false
same_state (some a) b =
    a.status == b.status && eqb a.retry_at b.retry_at && a.error_code == b.error_code

same_sample : Option WindowStatusSample → WindowStatusSample → Bool
same_sample none b = false
same_sample (some a) b =
    a.credential_id == b.credential_id
    && (a.window_status == b.window_status && eqb a.window_reset_at b.window_reset_at)
    && (a.window_7d_status == b.window_7d_status && eqb a.window_7d_reset_at b.window_7d_reset_at)

sample_or_empty : Option WindowStatusSample → WindowStatusSample
sample_or_empty none = empty_sample
sample_or_empty (some w) = w

-- Neither window is under way.
abbrev pub is_idle : WindowStatusSample → Bool
is_idle w = w.window_status == "" && w.window_7d_status == ""

-- Each part of a mark gives the store after it and whether it changed anything.
mark_until : Store → String → ℕ → Store
mark_until s id until =
    if extends (s.until id) until then record s { until = insert id until s.until } else s

mark_meta : Store → String → PoolAccountRouteState → Store × Bool
unfolding same_state
mark_meta s id state =
    if state.status == "" || same_state (s.meta id) state
    then (s, false)
    else (record s { meta = insert id state s.meta }, true)

mark_active : Store → String → WindowStatusSample → Store × Bool
unfolding same_sample sample_or_empty
mark_active s id active =
    let merged = merge_window_status_sample (sample_or_empty (s.window_statuses id)) active in
    if is_idle active || same_sample (s.window_statuses id) merged
    then (s, false)
    else (record s { window_statuses = insert id merged s.window_statuses }, true)

mark_windows : Store → String → WindowStatusSample → ℕ → Store × Bool
unfolding mark_active
mark_windows s id windows now =
    if windows.credential_id == ""
    then (s, false)
    else mark_active s id (active_window_status_sample windows (now / second))

mark_parts : Store → String → ℕ → PoolAccountRouteState → WindowStatusSample → ℕ → Store
unfolding mark_until mark_meta mark_windows persist_if notify_if
mark_parts s id until state windows now =
    let with_meta = mark_meta (mark_until s id until) id state in
    let with_windows = mark_windows with_meta.0 id windows now in
    let changed = with_meta.1 || with_windows.1 in
    notify_if (not (is_cooling (s.until id) now) || changed)
      (persist_if (extends (s.until id) until || changed) with_windows.0)

pub mark_with_state_and_windows :
    Store → String → ℕ → PoolAccountRouteState → WindowStatusSample → ℕ → Store
unfolding mark_parts
mark_with_state_and_windows s id until state windows now =
    if id == "" || not (ltb now until) then s else mark_parts s id until state windows now

pub mark_with_state : Store → String → ℕ → PoolAccountRouteState → ℕ → Store
unfolding mark_with_state_and_windows
mark_with_state s id until state now = mark_with_state_and_windows s id until state empty_sample now

pub mark : Store → String → ℕ → ℕ → Store
unfolding mark_with_state
mark s id until now = mark_with_state s id until no_state now

-- What a walk over the map keeps under a key: the entry while its account is cooling.
abbrev pub while_cooling {ℓ} : {V : Type ℓ} → Map ℕ → ℕ → Map V → Map V
while_cooling until now m id = elim (until id) [
  | none ↦ m id
  | some u ↦ if ltb now u then m id else none
]

is_lapsed : Option ℕ → ℕ → Bool
is_lapsed none now = false
is_lapsed (some u) now = not (ltb now u)

-- The walk of `skipSet` and of `snapshot`. `pruned` is whether it dropped an entry, which
-- calls the hook.
pub prune : Store → ℕ → Bool → Store
unfolding is_lapsed notify_if
prune s now pruned = notify_if pruned (record s {
  until = while_cooling s.until now s.until;
  meta = while_cooling s.until now s.meta;
  window_statuses = while_cooling s.until now s.window_statuses;
  lapsed = λ id. s.lapsed id || is_lapsed (s.until id) now;
})

unfoldable pub skip_set : Store → ℕ → String → Bool
skip_set s now id = is_cooling (s.until id) now

-- The walk of `routeStateSnapshot`: over the display states, not over the cooldowns.
prune_state : Option PoolAccountRouteState → Option ℕ → ℕ → Bool
prune_state none o now = false
prune_state (some state) o now = not (is_cooling o now)

abbrev without {ℓ} : {V : Type ℓ} → Store → ℕ → Map V → Map V
without s now m id = if prune_state (s.meta id) (s.until id) now then none else m id

pub prune_states : Store → ℕ → Bool → Store
unfolding prune_state notify_if
prune_states s now pruned = notify_if pruned (record s {
  until = without s now s.until;
  meta = without s now s.meta;
  window_statuses = without s now s.window_statuses;
})

pub route_state_snapshot : Store → ℕ → Map PoolAccountRouteState
route_state_snapshot s now id = if is_cooling (s.until id) now then s.meta id else none

unfoldable pub tier_cooldown_key : String → String → String
tier_cooldown_key id tier = id ++ "|" ++ tier

pub mark_tier : Store → String → String → ℕ → Store
unfolding persist_if
mark_tier s id tier until =
    let key = tier_cooldown_key id tier in
    if id == "" || tier == ""
    then s
    else if extends (s.tier_until key) until
    then persist_if true (record s { tier_until = insert key until s.tier_until })
    else s

-- `tier` is that of the requested model, as `tierForModel` finds it.
unfoldable pub skip_set_for : Store → Option String → ℕ → String → Bool
unfolding skip_set
skip_set_for s none now id = skip_set s now id
skip_set_for s (some tier) now id =
    skip_set s now id || is_cooling (s.tier_until (tier_cooldown_key id tier)) now

pub consume_lapsed : Store → String → Store × Bool
consume_lapsed s id =
    (record s { lapsed = λ j. if id == j then false else s.lapsed j }, s.lapsed id)
