-- ===== src/Proxy/PoolCooldown/Keeps.antt =====
-- A cooldown is never shortened, and each mark cools its own account only.
use aikey_proxy.Proxy.PoolCooldown.Tiers.{tier-mark, tier-server_error}
use aikey_proxy.Prelude.{
  ℕ, ◌+◌, ◌≤◌, String, Bool, true, false, Option, none, some, List, [], ◌∷◌, ◌≡◌, refl, ◌∙◌, arith,
  ◌==◌, ◌&&◌, ◌||◌, not, eq_iff, ltb,
}
use aikey_proxy.Prelude.Lists.{All}
use aikey_proxy.Proxy.PoolCooldown.Windows.{WindowStatusSample}
use aikey_proxy.Proxy.PoolCooldown.{
  skip_set_for, tier_cooldown_key, PoolAccountRouteState, Store, is_cooling, cool_server_error,
  server_err_cooldown, note_server_error_with_state, note_success, mark_until, mark_meta,
  mark_windows, mark_active, mark_parts, mark_with_state_and_windows, prune, prune_states, skip_set,
  mark_tier, persist_if, notify_if, consume_lapsed,
}

pub data Op : Type 0 where
  errors : String → PoolAccountRouteState → Op
  succeeds : String → Op
  marks : String → ℕ → PoolAccountRouteState → WindowStatusSample → Op
  prunes prunes_states : Bool → Op
  marks_tier : String → String → ℕ → Op
  consumes : String → Op

unfoldable pub step : Store → ℕ × Op → Store
step s (now, errors id state) = (note_server_error_with_state s id state now).0
step s (now, succeeds id) = note_success s id
step s (now, marks id until state windows) =
    mark_with_state_and_windows s id until state windows now
step s (now, prunes pruned) = prune s now pruned
step s (now, prunes_states pruned) = prune_states s now pruned
step s (now, marks_tier id tier until) = mark_tier s id tier until
step s (now, consumes id) = (consume_lapsed s id).0

unfoldable pub run : Store → List (ℕ × Op) → Store
unfolding step
run s [] = s
run s (c ∷ cs) = run (step s c) cs

until-mark_windows :
    (s : Store) (id : String) (w : WindowStatusSample) (now : ℕ)
    → (mark_windows s id w now).0.until ≡ s.until
unfolding mark_windows mark_active
until-mark_windows s id w now = ground arith

until-mark_meta :
    (s : Store) (id : String) (state : PoolAccountRouteState)
    → (mark_meta s id state).0.until ≡ s.until
unfolding mark_meta
until-mark_meta s id state = ground arith

until-persist_if : (b : Bool) (s : Store) → (persist_if b s).until ≡ s.until
unfolding persist_if
until-persist_if true s = refl
until-persist_if false s = refl

until-notify_if : (b : Bool) (s : Store) → (notify_if b s).until ≡ s.until
unfolding notify_if
until-notify_if true s = refl
until-notify_if false s = refl

until-mark_parts :
    (s : Store) (id : String) (until : ℕ) (state : PoolAccountRouteState) (w : WindowStatusSample)
    (now : ℕ)
    → (mark_parts s id until state w now).until ≡ (mark_until s id until).until
unfolding mark_parts
until-mark_parts s id until state w now =
    until-notify_if _ _
    ∙ until-persist_if _ _
    ∙ until-mark_windows (mark_meta (mark_until s id until) id state).0 id w now
    ∙ until-mark_meta (mark_until s id until) id state

skip-mark_until :
    (s : Store) (id : String) (until t : ℕ) (j : String)
    → is_cooling ((mark_until s id until).until j) t
      ≡ (is_cooling (s.until j) t || id == j && ltb t until)
unfolding mark_until
skip-mark_until s id until t j = ground (arith, eq_iff id j)

-- A mark with a deadline in the future cools its account until that deadline or the one it already had, whichever is later, and no other account; any other mark leaves the skipped accounts as they are. A mark without an account id or with a deadline that has passed is such a mark.
pub skip-mark :
    (s : Store) (id : String) (until : ℕ) (state : PoolAccountRouteState) (w : WindowStatusSample)
    (now t : ℕ) (j : String)
    → skip_set (mark_with_state_and_windows s id until state w now) t j
      ≡ (skip_set s t j || (not (id == "") && ltb now until && (id == j && ltb t until)))
unfolding skip_set mark_with_state_and_windows
skip-mark s id until state w now t j =
    ground (arith, until-mark_parts s id until state w now, skip-mark_until s id until t j)

-- The third error in a row cools its account, and no error before it.
abbrev pub cooled : Option ℕ → String → String → ℕ → Bool
cooled none id j t = false
cooled (some until) id j t = id == j && ltb t until

until-cool_server_error :
    (s : Store) (id : String) (state : PoolAccountRouteState) (now t : ℕ) (j : String)
    → is_cooling ((cool_server_error s id state now).until j) t
      ≡ (is_cooling (s.until j) t || id == j && ltb t (now + server_err_cooldown))
unfolding cool_server_error
until-cool_server_error s id state now t j = ground (arith, eq_iff id j)

pub skip-server_error :
    (s : Store) (id : String) (state : PoolAccountRouteState) (now t : ℕ) (j : String)
    → let r = note_server_error_with_state s id state now in
      skip_set r.0 t j ≡ (skip_set s t j || cooled r.1 id j t)
unfolding skip_set note_server_error_with_state
skip-server_error s id state now t j = ground (arith, until-cool_server_error s id state now t j)

skip-mark_tier :
    (s : Store) (id tier : String) (until t : ℕ) (j : String)
    → skip_set (mark_tier s id tier until) t j ≡ skip_set s t j
unfolding skip_set mark_tier
skip-mark_tier s id tier until t j = ground arith

skip-prune :
    (s : Store) (now t : ℕ) (pruned : Bool) (j : String)
    → now ≤ t
    → skip_set (prune s now pruned) t j ≡ skip_set s t j
unfolding skip_set prune
skip-prune s now t pruned j h = ground arith

skip-prune_states :
    (s : Store) (now t : ℕ) (pruned : Bool) (j : String)
    → now ≤ t
    → skip_set (prune_states s now pruned) t j ≡ skip_set s t j
unfolding skip_set prune_states
skip-prune_states s now t pruned j h = ground arith

step_keeps :
    (s : Store) (c : ℕ × Op) (t : ℕ) (id : String)
    → c.0 ≤ t
    → skip_set s t id ≡ true
    → skip_set (step s c) t id ≡ true
unfolding step
step_keeps s (now, errors j state) t id h cool = rw (skip-server_error s j state now t id, cool)
step_keeps s (now, succeeds j) t id h cool = unfold skip_set note_success in ground arith
step_keeps s (now, marks j until state w) t id h cool =
    rw (skip-mark s j until state w now t id, cool)
step_keeps s (now, prunes pruned) t id h cool = rw (skip-prune s now t pruned id h) cool
step_keeps s (now, prunes_states pruned) t id h cool =
    rw (skip-prune_states s now t pruned id h) cool
step_keeps s (now, marks_tier j tier until) t id h cool =
    rw (skip-mark_tier s j tier until t id) cool
step_keeps s (now, consumes j) t id h cool = unfold skip_set consume_lapsed in cool

step_keeps_tier :
    (s : Store) (c : ℕ × Op) (t : ℕ) (k : String)
    → c.0 ≤ t
    → is_cooling (s.tier_until k) t ≡ true
    → is_cooling ((step s c).tier_until k) t ≡ true
unfolding step
step_keeps_tier s (now, errors j state) t k h cool = rw (tier-server_error s j state now) cool
step_keeps_tier s (now, succeeds j) t k h cool = unfold note_success in ground arith
step_keeps_tier s (now, marks j until state w) t k h cool =
    rw (tier-mark s j until state w now) cool
step_keeps_tier s (now, prunes pruned) t k h cool = unfold prune in ground arith
step_keeps_tier s (now, prunes_states pruned) t k h cool = unfold prune_states in ground arith
step_keeps_tier s (now, marks_tier j tier until) t k h cool =
    unfold mark_tier in ground (arith, eq_iff (tier_cooldown_key j tier) k)
step_keeps_tier s (now, consumes j) t k h cool = unfold consume_lapsed in cool

run_keeps_tier :
    (s : Store) (cs : List (ℕ × Op)) (t : ℕ) (k : String)
    → All (λ c. c.0 ≤ t) cs
    → is_cooling (s.tier_until k) t ≡ true
    → is_cooling ((run s cs).tier_until k) t ≡ true
unfolding run
run_keeps_tier s [] t k h cool = cool
run_keeps_tier s (c ∷ cs) t k h cool =
    run_keeps_tier (step s c) cs t k h.1 (step_keeps_tier s c t k h.0 cool)

run_keeps_account :
    (s : Store) (cs : List (ℕ × Op)) (t : ℕ) (id : String)
    → All (λ c. c.0 ≤ t) cs
    → skip_set s t id ≡ true
    → skip_set (run s cs) t id ≡ true
unfolding run
run_keeps_account s [] t id h cool = cool
run_keeps_account s (c ∷ cs) t id h cool =
    run_keeps_account (step s c) cs t id h.1 (step_keeps s c t id h.0 cool)

either :
    (a b c d : Bool) → a || b ≡ true → (a ≡ true → c ≡ true) → (b ≡ true → d ≡ true) → c || d ≡ true
either a b c d h f g = ground (arith, f, g)

pub run_keeps :
    (s : Store) (cs : List (ℕ × Op)) (t : ℕ) (id : String) (tier : Option String)
    → All (λ c. c.0 ≤ t) cs
    → skip_set_for s tier t id ≡ true
    → skip_set_for (run s cs) tier t id ≡ true
unfolding skip_set_for
run_keeps s cs t id none h cool = run_keeps_account s cs t id h cool
run_keeps s cs t id (some tier) h cool =
    either (skip_set s t id) (is_cooling (s.tier_until (tier_cooldown_key id tier)) t)
      (skip_set (run s cs) t id) (is_cooling ((run s cs).tier_until (tier_cooldown_key id tier)) t)
      cool (λ e. run_keeps_account s cs t id h e)
      (λ e. run_keeps_tier s cs t (tier_cooldown_key id tier) h e)
