-- ===== src/Proxy/PathHealth/Probe.antt =====
-- A path in trouble has one probe at a time.
use aikey_proxy.Prelude.{
  ℕ, String, true, false, Option, none, some, List, [], ◌∷◌, ◌≡◌, refl, ap, ◌∙◌, inl, inr, arith,
  ◌==◌, eq_iff, Bool-cases,
}
use aikey_proxy.Prelude.Lists.{All}
use aikey_proxy.Prelude.Maps.{insert_self}
use aikey_proxy.Proxy.PathHealth.{
  half_open, ProviderPath, Entry, Manager, permit, permit_entry, probe_due, grant_probe, deny,
  allow_unknown, note_transport_failure, note_http_response, note_probe_canceled,
  notify_inputs_changed,
}

-- What reaches the manager.
pub data Event : Type 0 where
  permits : ProviderPath → ℕ → Event
  fails : ProviderPath → String → ℕ → Event
  responds : ProviderPath → Event
  cancels : ProviderPath → ℕ → Event
  inputs_change : ℕ → Event

unfoldable pub handle : Manager → Event → Manager
handle m (permits p now) = (permit m p now).0
handle m (fails p c now) = (note_transport_failure m p c now).0
handle m (responds p) = note_http_response m p
handle m (cancels p now) = note_probe_canceled m p now
handle m (inputs_change now) = notify_inputs_changed m now

unfoldable pub run : Manager → List Event → Manager
unfolding handle
run m [] = m
run m (e ∷ es) = run (handle m e) es

-- No report on the path `k`, and no change of the inputs.
abbrev pub IsQuiet : String → Event → Type 0
IsQuiet k (permits p now) = Unit
IsQuiet k (fails p c now) = (p.key == k) ≡ false
IsQuiet k (responds p) = (p.key == k) ≡ false
IsQuiet k (cancels p now) = (p.key == k) ≡ false
IsQuiet k (inputs_change now) = ⊥

-- A probe of the path is under way.
abbrev IsProbing : String → Manager → Type 0
IsProbing k m = (e : Entry) × (m k ≡ some e) × (e.state ≡ half_open)

deny_half_open :
    (m : Manager) (p : ProviderPath) (e : Entry) (now : ℕ)
    → m p.key ≡ some e
    → e.state ≡ half_open
    → (p.key == "") ≡ false
    → permit m p now ≡ deny m e now
unfolding permit permit_entry
deny_half_open m p e now there probing named = rw (named, there, permit_entry, probing, probe_due)

permit_other :
    (m : Manager) (p : ProviderPath) (now : ℕ) (k : String)
    → (p.key == k) ≡ false
    → (permit m p now).0 k ≡ m k
unfolding permit permit_entry grant_probe deny allow_unknown
permit_other m p now k other = ground arith

cancel_other :
    (m : Manager) (p : ProviderPath) (now : ℕ) (k : String)
    → (p.key == k) ≡ false
    → note_probe_canceled m p now k ≡ m k
unfolding note_probe_canceled
cancel_other m p now k other = ground arith

permit_keeps :
    (m : Manager) (p : ProviderPath) (now : ℕ) (k : String)
    → (k == "") ≡ false
    → IsProbing k m
    → IsProbing k (permit m p now).0
unfolding deny
permit_keeps m p now k named (e, there, probing) = elim (Bool-cases (p.key == k)) [
  | inl same ↦
      let q : p.key ≡ k = (eq_iff p.key k).0 same in
      rw (deny_half_open m p e now (ap m q ∙ there) probing (rw q named)) (e, there, probing)
  | inr other ↦ (e, permit_other m p now k other ∙ there, probing)
]

handle_keeps :
    (m : Manager) (ev : Event) (k : String)
    → (k == "") ≡ false
    → IsQuiet k ev
    → IsProbing k m
    → IsProbing k (handle m ev)
unfolding handle
handle_keeps m (permits p now) k named quiet h = permit_keeps m p now k named h
handle_keeps m (fails p c now) k named quiet (e, there, probing) =
    (e, (unfold note_transport_failure in ground arith), probing)
handle_keeps m (responds p) k named quiet (e, there, probing) =
    (e, (unfold note_http_response in ground arith), probing)
handle_keeps m (cancels p now) k named quiet (e, there, probing) =
    (e, cancel_other m p now k quiet ∙ there, probing)
handle_keeps m (inputs_change now) k named quiet h = elim quiet [ ]

run_keeps :
    (m : Manager) (es : List Event) (k : String)
    → (k == "") ≡ false
    → All (IsQuiet k) es
    → IsProbing k m
    → IsProbing k (run m es)
unfolding run
run_keeps m [] k named quiet h = h
run_keeps m (ev ∷ es) k named quiet h =
    run_keeps (handle m ev) es k named quiet.1 (handle_keeps m ev k named quiet.0 h)

granted_entry :
    (m : Manager) (p : ProviderPath) (now : ℕ) (o : Option Entry)
    → (permit_entry m p now o).1.probe ≡ true
    → IsProbing p.key (permit_entry m p now o).0
unfolding permit_entry grant_probe allow_unknown deny
granted_entry m p now none h = cc
granted_entry m p now (some e) h = elim (Bool-cases (probe_due e.state e now)) [
  | inl due ↦
      rw due (record e { state = half_open; probe_in_flight = true }, insert_self p.key _ m, refl)
  | inr early ↦ absurd (cc (rw early at h))
]

granted :
    (m : Manager) (p : ProviderPath) (now : ℕ)
    → (permit m p now).1.probe ≡ true
    → ((p.key == "") ≡ false) × IsProbing p.key (permit m p now).0
unfolding permit allow_unknown
granted m p now h = elim (Bool-cases (p.key == "")) [
  | inl e ↦ absurd (cc (rw e at h))
  | inr e ↦ rw e (refl, granted_entry m p now (m p.key) (rw e at h))
]

-- Once a probe of a path is granted, every further request on that path is held back, at whatever time it comes and whatever happens on the other paths, until the path itself reports a failure, an answer or a canceled probe, or the inputs of the paths change.
pub probe_exclusive :
    (m : Manager) (p : ProviderPath) (now later : ℕ) (es : List Event)
    → (permit m p now).1.probe ≡ true
    → All (IsQuiet p.key) es
    → (permit (run (permit m p now).0 es) p later).1.allowed ≡ false
probe_exclusive m p now later es h quiet =
    let (named, probing) = granted m p now h in
    let (e, there, half) = run_keeps (permit m p now).0 es p.key named quiet probing in
    rw (deny_half_open (run (permit m p now).0 es) p e later there half named) (unfold deny in refl)
