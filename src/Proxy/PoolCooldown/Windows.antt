-- ===== src/Proxy/PoolCooldown/Windows.antt =====
-- The quota windows that are reported with a cooldown: `windowStatusSample` of
-- internal/proxy/signal_report.go, and its two operations in oauth_pool_cooldown.go.
use aikey_proxy.Prelude.{
  ℕ, String, false, ◌≡◌, ◌≤◌, arith, ◌==◌, ◌||◌, ◌&&◌, not, leb, if◌then◌else◌, eq_iff,
}

pub record WindowStatusSample : Type 0 where
  pub credential_id : String
  pub window_status : String
  pub window_reset_at : ℕ
  pub window_7d_status : String
  pub window_7d_reset_at : ℕ

abbrev pub empty_sample : WindowStatusSample
empty_sample = record {
  credential_id = "";
  window_status = "";
  window_reset_at = 0;
  window_7d_status = "";
  window_7d_reset_at = 0;
}

clear_5h : WindowStatusSample → ℕ → WindowStatusSample
clear_5h sample now_unix =
    if leb sample.window_reset_at now_unix
    then record sample { window_status = ""; window_reset_at = 0 }
    else sample

clear_7d : WindowStatusSample → ℕ → WindowStatusSample
clear_7d sample now_unix =
    if leb sample.window_7d_reset_at now_unix
    then record sample { window_7d_status = ""; window_7d_reset_at = 0 }
    else sample

-- A window whose reset has come is dropped.
unfoldable pub active_window_status_sample : WindowStatusSample → ℕ → WindowStatusSample
unfolding clear_5h clear_7d
active_window_status_sample sample now_unix = clear_7d (clear_5h sample now_unix) now_unix

same_credential : WindowStatusSample → WindowStatusSample → WindowStatusSample
same_credential current incoming =
    if current.credential_id == "" || not (current.credential_id == incoming.credential_id)
    then record empty_sample { credential_id = incoming.credential_id }
    else current

merge_5h : WindowStatusSample → WindowStatusSample → WindowStatusSample
merge_5h current incoming =
    if not (incoming.window_status == "") && leb current.window_reset_at incoming.window_reset_at
    then record current {
      window_status = incoming.window_status;
      window_reset_at = incoming.window_reset_at;
    }
    else current

merge_7d : WindowStatusSample → WindowStatusSample → WindowStatusSample
merge_7d current incoming =
    if not (incoming.window_7d_status == "")
      && leb current.window_7d_reset_at incoming.window_7d_reset_at
    then record current {
      window_7d_status = incoming.window_7d_status;
      window_7d_reset_at = incoming.window_7d_reset_at;
    }
    else current

unfoldable pub merge_window_status_sample :
    WindowStatusSample → WindowStatusSample → WindowStatusSample
unfolding same_credential merge_5h merge_7d
merge_window_status_sample current incoming =
    merge_7d (merge_5h (same_credential current incoming) incoming) incoming

-- A merge never moves a reset of the same credential back, keeps the credential of the sample that came in, and changes nothing when the same sample comes in again.
pub merge_keeps :
    (current incoming : WindowStatusSample)
    → let merged = merge_window_status_sample current incoming in
      (merged.credential_id ≡ incoming.credential_id)
      × (current.credential_id ≡ incoming.credential_id
          → (current.credential_id == "") ≡ false
          → (current.window_reset_at ≤ merged.window_reset_at)
            × (current.window_7d_reset_at ≤ merged.window_7d_reset_at))
      × ((incoming.credential_id == "") ≡ false
          → merge_window_status_sample merged incoming ≡ merged)
unfolding merge_window_status_sample
merge_keeps current incoming = (
  ground (arith, eq_iff current.credential_id incoming.credential_id),
  λ e n. (
    ground (arith, eq_iff current.credential_id incoming.credential_id),
    ground (arith, eq_iff current.credential_id incoming.credential_id),
  ),
  λ n. ground (
    arith,
    eq_iff current.credential_id incoming.credential_id,
    eq_iff incoming.credential_id incoming.credential_id,
  ),
)
