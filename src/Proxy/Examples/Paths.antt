-- ===== src/Proxy/Examples/Paths.antt =====
-- A path that fails, is probed and recovers.
use aikey_proxy.Prelude.{◌+◌, ◌*◌, String, true, false, List, [], ◌∷◌, ◌≡◌, refl, arith}
use aikey_proxy.Proxy.PathHealth.{
  second, ProviderPath, Manager, new_manager, permit, permit_entry, probe_due, grant_probe,
  note_transport_failure, failed, failures_of,
}
use aikey_proxy.Proxy.PathHealth.Probe.{Event, permits, fails, run, probe_exclusive}
use aikey_proxy.Proxy.PathHealth.Recovery.{failure_recovers}

abbrev path : String → ProviderPath
path key = record {
  key = key;
  provider = "openai";
  protocol = "https";
  transport = "direct";
  origin_fingerprint = "o";
  egress_fingerprint = "e";
}

-- One failure: the path is suspect.
abbrev troubled : Manager
troubled = (note_transport_failure new_manager (path "p") "timeout" 0).0

first_probe : (permit troubled (path "p") 5).1.probe ≡ true
unfolding permit permit_entry probe_due grant_probe note_transport_failure failed failures_of
    new_manager
first_probe = refl

-- What happens to the path and to another one while the probe is out.
abbrev meanwhile : List Event
meanwhile = permits (path "p") 6 ∷ fails (path "q") "timeout" 7 ∷ []

probe_exclusive_example :
    (permit (run (permit troubled (path "p") 5).0 meanwhile) (path "p") 8).1.allowed ≡ false
probe_exclusive_example =
    probe_exclusive troubled (path "p") 5 8 meanwhile first_probe (tt, (refl, tt))

failure_recovers_example :
    (permit
      (note_transport_failure troubled (path "p") "refused" 5).0
      (path "p")
      (5 + 10 * second)).1.probe
    ≡ true
failure_recovers_example =
    failure_recovers troubled (path "p") "refused" 5 (5 + 10 * second) refl (omega arith)
