-- ===== src/Vkeys/Material.antt =====
-- Whether an account's material can serve a request: `MaterialUsable` and the window tests of
-- internal/vkeys/routed_pick.go. Unix times are int64 patterns; only the fields that the tests
-- read are kept of `GroupRuntimeAccount`.
use aikey_proxy.Prelude.{
  ℕ, String, Bool, true, false, Option, none, some, ◌≡◌, ◌≤◌, ◌<◌, arith, ◌==◌, ◌&&◌, ◌||◌, not,
  if◌then◌else◌,
}
use aikey_proxy.Prelude.Words.{slt64, sign_bound}

pub record GroupRuntimeAccount : Type 0 where
  pub credential_type : String
  pub needs_login : Bool
  pub expires_at : ℕ
  pub window_status : String
  pub window_reset_at : Option ℕ
  pub window_7d_status : String
  pub window_7d_reset_at : Option ℕ

unfoldable pub window_exhausted : String → Bool
window_exhausted status = status == "exhausted_current_window" || status == "exhausted"

unfoldable pub resets_after : Option ℕ → ℕ → Bool
resets_after none now_unix = true
resets_after (some reset_at) now_unix = not (slt64 0 reset_at) || slt64 now_unix reset_at

unfoldable pub exhausted_window_blocks_at : String → Option ℕ → ℕ → Bool
unfolding window_exhausted resets_after
exhausted_window_blocks_at status reset_at now_unix =
    if not (window_exhausted status) then false else resets_after reset_at now_unix

unfoldable pub material_window_blocked_at : GroupRuntimeAccount → ℕ → Bool
unfolding exhausted_window_blocks_at
material_window_blocked_at mat now_unix =
    exhausted_window_blocks_at mat.window_status mat.window_reset_at now_unix
    || exhausted_window_blocks_at mat.window_7d_status mat.window_7d_reset_at now_unix

pub material_window_exhausted : GroupRuntimeAccount → Bool
unfolding window_exhausted
material_window_exhausted mat =
    window_exhausted mat.window_status || window_exhausted mat.window_7d_status

pub material_expired : GroupRuntimeAccount → ℕ → Bool
material_expired mat now_unix =
    not (mat.credential_type == "api_key")
    && slt64 0 mat.expires_at
    && not (slt64 now_unix mat.expires_at)

unfoldable pub material_usable : GroupRuntimeAccount → ℕ → Bool
unfolding material_window_blocked_at
material_usable mat now_unix =
    if mat.credential_type == "api_key"
    then true
    else if slt64 0 mat.expires_at && not (slt64 now_unix mat.expires_at)
    then false
    else if material_window_blocked_at mat now_unix
    then false
    else true

resets_after_later :
    (r : Option ℕ) (t u : ℕ)
    → t ≤ u
    → u < sign_bound
    → resets_after r u ≡ true
    → resets_after r t ≡ true
unfolding resets_after
resets_after_later none t u h k e = e
resets_after_later (some r) t u h k e = ground arith

-- An account that an exhausted window blocks at a time before 2 ^ 63 was blocked by one at every earlier time: without new material an account that has become free is not blocked again.
blocked_earlier :
    (mat : GroupRuntimeAccount) (t u : ℕ)
    → t ≤ u
    → u < sign_bound
    → material_window_blocked_at mat u ≡ true
    → material_window_blocked_at mat t ≡ true
unfolding material_window_blocked_at
blocked_earlier mat t u h k e = ground (
  arith,
  resets_after_later mat.window_reset_at t u h k,
  resets_after_later mat.window_7d_reset_at t u h k,
)

-- Usable material is exactly an API key, or a token that is not expired and that no exhausted window blocks.
pub usable_iff :
    (mat : GroupRuntimeAccount) (now : ℕ)
    → material_usable mat now ≡ (
        mat.credential_type == "api_key"
        || not (material_expired mat now) && not (material_window_blocked_at mat now))
unfolding material_usable material_expired
usable_iff mat now = ground arith
