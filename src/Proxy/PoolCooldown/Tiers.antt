-- ===== src/Proxy/PoolCooldown/Tiers.antt =====
-- What no mark of an account changes: the cooldowns of the pairs of an account and a tier.
use aikey_proxy.Prelude.{Bool, String, arith, false, not, refl, true, ℕ, ◌||◌, ◌∙◌, ◌≡◌}
use aikey_proxy.Proxy.PoolCooldown.Windows.{WindowStatusSample}
use aikey_proxy.Proxy.PoolCooldown.{
  PoolAccountRouteState, Store, cool_server_error, extends, is_cooling, mark_active, mark_meta,
  mark_parts, mark_until, mark_windows, mark_with_state_and_windows, note_server_error_with_state,
  notify_if, persist_if,
}

tier-mark_windows :
    (s : Store) (id : String) (w : WindowStatusSample) (now : ℕ)
    → (mark_windows s id w now).0.tier_until ≡ s.tier_until
unfolding mark_windows mark_active
tier-mark_windows s id w now = ground arith

tier-mark_meta :
    (s : Store) (id : String) (state : PoolAccountRouteState)
    → (mark_meta s id state).0.tier_until ≡ s.tier_until
unfolding mark_meta
tier-mark_meta s id state = ground arith

tier-persist_if : (b : Bool) (s : Store) → (persist_if b s).tier_until ≡ s.tier_until
unfolding persist_if
tier-persist_if true s = refl
tier-persist_if false s = refl

tier-notify_if : (b : Bool) (s : Store) → (notify_if b s).tier_until ≡ s.tier_until
unfolding notify_if
tier-notify_if true s = refl
tier-notify_if false s = refl

tier-mark_until :
    (s : Store) (id : String) (until : ℕ) → (mark_until s id until).tier_until ≡ s.tier_until
unfolding mark_until
tier-mark_until s id until = ground arith

tier-mark_parts :
    (s : Store) (id : String) (until : ℕ) (state : PoolAccountRouteState) (w : WindowStatusSample)
    (now : ℕ)
    → (mark_parts s id until state w now).tier_until ≡ s.tier_until
unfolding mark_parts
tier-mark_parts s id until state w now =
    let with_meta = mark_meta (mark_until s id until) id state in
    let with_windows = mark_windows with_meta.0 id w now in
    let changed = with_meta.1 || with_windows.1 in
    let saved = persist_if (extends (s.until id) until || changed) with_windows.0 in
    tier-notify_if (not (is_cooling (s.until id) now) || changed) saved
    ∙ tier-persist_if (extends (s.until id) until || changed) with_windows.0
    ∙ tier-mark_windows (mark_meta (mark_until s id until) id state).0 id w now
    ∙ tier-mark_meta (mark_until s id until) id state
    ∙ tier-mark_until s id until

pub tier-mark :
    (s : Store) (id : String) (until : ℕ) (state : PoolAccountRouteState) (w : WindowStatusSample)
    (now : ℕ)
    → (mark_with_state_and_windows s id until state w now).tier_until ≡ s.tier_until
unfolding mark_with_state_and_windows
tier-mark s id until state w now = ground (arith, tier-mark_parts s id until state w now)

pub tier-server_error :
    (s : Store) (id : String) (state : PoolAccountRouteState) (now : ℕ)
    → (note_server_error_with_state s id state now).0.tier_until ≡ s.tier_until
unfolding note_server_error_with_state cool_server_error
tier-server_error s id state now = ground arith
