-- ===== src/Proxy/Chain/Clash.antt =====
-- `duplicatePriority` finds a clash exactly when two members of a route group share a priority.
use aikey_proxy.Prelude.Results.{some-ne-none}
use aikey_proxy.Prelude.{
  sym, ◌∙◌, suc, true, false, none, some, List, [], ◌∷◌, ◌==◌, ◌&&◌, not, ltb, ◌≡◌, refl, inl, inr,
  eq_iff, arith, Bool-cases,
}
use aikey_proxy.Prelude.Lists.{All, length}
use aikey_proxy.Proxy.Chain.{
  ResolvedRoute, Seen, mark_seen, duplicate_from, duplicate_priority, clashes,
}

-- No two candidates clash.
abbrev pub IsUnambiguous : List ResolvedRoute → Type 0
IsUnambiguous [] = Unit
IsUnambiguous (c ∷ cs) = All (λ d. clashes c d ≡ false) cs × IsUnambiguous cs

-- No grouped candidate was seen.
abbrev IsFresh : Seen → List ResolvedRoute → Type 0
IsFresh seen cs =
    All (λ d. (not (d.route_group_id == "") && seen d.route_group_id d.priority) ≡ false) cs

fresh_here :
    (c d : ResolvedRoute) (seen : Seen)
    → (not (d.route_group_id == "") && mark_seen c seen d.route_group_id d.priority) ≡ false
    → (c.route_group_id == "") ≡ false
    → ((not (d.route_group_id == "") && seen d.route_group_id d.priority) ≡ false)
      × (clashes c d ≡ false)
unfolding mark_seen
fresh_here c d seen h named = ground (arith, eq_iff c.route_group_id d.route_group_id)

IsFresh-after :
    (c : ResolvedRoute) (seen : Seen) (cs : List ResolvedRoute)
    → IsFresh (mark_seen c seen) cs
    → (c.route_group_id == "") ≡ false
    → IsFresh seen cs × All (λ d. clashes c d ≡ false) cs
IsFresh-after c seen [] h named = (_, _)
IsFresh-after c seen (d ∷ ds) h named =
    let rest = IsFresh-after c seen ds h.1 named in
    let here = fresh_here c d seen h.0 named in ((here.0, rest.0), (here.1, rest.1))

no_clash :
    (c : ResolvedRoute) (cs : List ResolvedRoute)
    → (c.route_group_id == "") ≡ true
    → All (λ d. clashes c d ≡ false) cs
no_clash c [] e = _
no_clash c (d ∷ ds) e = (rw e refl, no_clash c ds e)

skip_step :
    (c : ResolvedRoute) (cs : List ResolvedRoute) (seen : Seen)
    → (c.route_group_id == "") ≡ true
    → duplicate_from (c ∷ cs) seen ≡ duplicate_from cs seen
unfolding duplicate_from
skip_step c cs seen e = rw e refl

clash_step :
    (c : ResolvedRoute) (cs : List ResolvedRoute) (seen : Seen)
    → (c.route_group_id == "") ≡ false
    → seen c.route_group_id c.priority ≡ true
    → duplicate_from (c ∷ cs) seen ≡ some c.priority
unfolding duplicate_from
clash_step c cs seen e k = rw (e, k) refl

next_step :
    (c : ResolvedRoute) (cs : List ResolvedRoute) (seen : Seen)
    → (c.route_group_id == "") ≡ false
    → seen c.route_group_id c.priority ≡ false
    → duplicate_from (c ∷ cs) seen ≡ duplicate_from cs (mark_seen c seen)
unfolding duplicate_from
next_step c cs seen e k = rw (e, k) refl

if_long :
    (cs : List ResolvedRoute)
    → ltb (length cs) 2 ≡ false
    → duplicate_priority cs ≡ duplicate_from cs (λ g p. false)
unfolding duplicate_priority
if_long cs e = rw e refl

none-IsFresh :
    (cs : List ResolvedRoute) (seen : Seen)
    → duplicate_from cs seen ≡ none
    → IsFresh seen cs × IsUnambiguous cs
none-IsFresh [] seen h = (_, _)
none-IsFresh (c ∷ cs) seen h = elim (Bool-cases (c.route_group_id == "")) [
  | inl e ↦
      let rest = none-IsFresh cs seen (sym (skip_step c cs seen e) ∙ h) in
      ((rw e refl, rest.0), (no_clash c cs e, rest.1))
  | inr e ↦ elim (Bool-cases (seen c.route_group_id c.priority)) [
    | inl k ↦ absurd (some-ne-none (sym (clash_step c cs seen e k) ∙ h))
    | inr k ↦
        let rest = none-IsFresh cs (mark_seen c seen) (sym (next_step c cs seen e k) ∙ h) in
        let both = IsFresh-after c seen cs rest.0 e in ((rw (k, e) refl, both.0), (both.1, rest.1))
  ]
]

long : (ds : List ResolvedRoute) → ltb (suc (suc (length ds))) 2 ≡ false
long ds = ground arith

-- A list of candidates in which the check finds no shared priority has no two members of one route group at one priority.
pub duplicate_none : (cs : List ResolvedRoute) → duplicate_priority cs ≡ none → IsUnambiguous cs
duplicate_none [] h = _
duplicate_none (c ∷ []) h = (_, _)
duplicate_none (c ∷ d ∷ ds) h =
    (none-IsFresh (c ∷ d ∷ ds) (λ g p. false) (sym (if_long (c ∷ d ∷ ds) (long ds)) ∙ h)).1
