-- ===== src/Proxy/PathHealth/Recovery.antt =====
-- A path recovers: a failed path is probed again within ten seconds, and an answer closes the
-- circuit.
use aikey_proxy.Prelude.{
  ℕ, suc, zero, ◌+◌, ◌-◌, ◌*◌, ◌≤◌, String, true, false, some, ◌≡◌, refl, inl, inr, arith, ◌==◌,
  ltb, Bool-cases,
}
use aikey_proxy.Prelude.Maps.{insert_self, erase_self}
use aikey_proxy.Proxy.PathHealth.{
  path_retry_backoff, ProviderPath, Entry, Manager, permit, permit_entry, probe_due, grant_probe,
  allow_unknown, note_transport_failure, note_http_response, failed, failures_of, path_backoff,
  second, clamped,
}

clamped_bounds :
    (i : ℕ)
    → (clamped path_retry_backoff i ≤ clamped path_retry_backoff (suc i))
      × (clamped path_retry_backoff i ≤ 10 * second)
unfolding clamped
clamped_bounds zero = omega arith
clamped_bounds (suc zero) = omega arith
clamped_bounds (suc (suc zero)) = omega arith
clamped_bounds (suc (suc (suc zero))) = omega arith
clamped_bounds (suc (suc (suc (suc i)))) = omega arith

path_backoff_lem : (n : ℕ) → path_backoff (suc (suc n)) ≡ clamped path_retry_backoff n
unfolding path_backoff
path_backoff_lem n =
    let e : suc (suc n) - 2 ≡ n = omega arith in
    let f : ltb (suc (suc n)) 2 ≡ false = ground arith in rw (f, e)

-- The backoff never shrinks with one more failure, and it stays within ten seconds.
pub path_backoff_bounds :
    (n : ℕ) → (path_backoff n ≤ path_backoff (suc n)) × (path_backoff n ≤ 10 * second)
path_backoff_bounds zero = unfold path_backoff in omega arith
path_backoff_bounds (suc zero) = unfold path_backoff in omega arith
path_backoff_bounds (suc (suc n)) =
    rw (path_backoff_lem n, path_backoff_lem (suc n)) (clamped_bounds n)

failed_due :
    (p : ProviderPath) (c : String) (n now later : ℕ)
    → now + 10 * second ≤ later
    → probe_due (failed p c n now).state (failed p c n now) later ≡ true
unfolding failed probe_due
failed_due p c n now later h = ground (arith, path_backoff_bounds n)

permit_due :
    (m : Manager) (p : ProviderPath) (e : Entry) (now : ℕ)
    → m p.key ≡ some e
    → probe_due e.state e now ≡ true
    → (p.key == "") ≡ false
    → (permit m p now).1.probe ≡ true
unfolding permit
permit_due m p e now there due named =
    rw (named, there, permit_entry, due) (unfold grant_probe in refl)

-- Ten seconds after a failure of a path with a key at the latest, however many failures came before it, the next request on the path is let through as a probe.
pub failure_recovers :
    (m : Manager) (p : ProviderPath) (c : String) (now later : ℕ)
    → (p.key == "") ≡ false
    → now + 10 * second ≤ later
    → (permit (note_transport_failure m p c now).0 p later).1.probe ≡ true
unfolding note_transport_failure
failure_recovers m p c now later named h = rw named (
    permit_due _ p (failed p c (failures_of (m p.key) + 1) now) later (insert_self p.key _ m)
      (failed_due p c (failures_of (m p.key) + 1) now later h) named)

-- An answer closes the circuit of its path: the next requests pass unrestricted and are no probes; the other paths keep their state.
pub response_closes :
    (m : Manager) (p : ProviderPath) (now : ℕ)
    → ((permit (note_http_response m p) p now).1.allowed ≡ true)
      × ((permit (note_http_response m p) p now).1.probe ≡ false)
      × ((k : String) → (p.key == k) ≡ false → note_http_response m p k ≡ m k)
unfolding note_http_response permit permit_entry allow_unknown
response_closes m p now = elim (Bool-cases (p.key == "")) [
  | inl e ↦ (rw e, rw e, λ k q. rw e)
  | inr e ↦ (
    rw (e, erase_self p.key m, permit_entry),
    rw (e, erase_self p.key m, permit_entry),
    λ k q. rw (e, q),
  )
]
