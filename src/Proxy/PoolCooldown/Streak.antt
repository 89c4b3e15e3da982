-- ===== src/Proxy/PoolCooldown/Streak.antt =====
-- Server errors cool an account only when three come in a row.
use mathlib.Core.Bool.{or-false}
use aikey_proxy.Prelude.{
  ltb, ◌==◌, ◌&&◌, ◌||◌, ◌∙◌, refl, ℕ, ◌+◌, ◌<◌, String, false, none, some, ◌≡◌, refl, arith, ◌==◌,
}
use aikey_proxy.Prelude.Maps.{insert_self, erase_self}
use aikey_proxy.Proxy.PoolCooldown.Keeps.{skip-server_error}
use aikey_proxy.Proxy.PoolCooldown.{
  skip_set, skip_set, PoolAccountRouteState, Store, streak_of, server_err_cooldown,
  note_server_error_with_state, note_success,
}

abbrev pub streak : Store → String → ℕ
streak s id = streak_of (s.server_err_streak id)

-- One error, by the length of the streak before it.
error_below :
    (s : Store) (id : String) (state : PoolAccountRouteState) (now : ℕ)
    → (id == "") ≡ false
    → streak s id < 2
    → ((note_server_error_with_state s id state now).1 ≡ none)
      × (streak (note_server_error_with_state s id state now).0 id ≡ streak s id + 1)
unfolding note_server_error_with_state streak_of
error_below s id state now named h =
    ground (arith, insert_self id (streak s id + 1) s.server_err_streak)

error_third :
    (s : Store) (id : String) (state : PoolAccountRouteState) (now : ℕ)
    → (id == "") ≡ false
    → streak s id ≡ 2
    → (note_server_error_with_state s id state now).1 ≡ some (now + server_err_cooldown)
unfolding note_server_error_with_state
error_third s id state now named h = ground arith

streak-success : (s : Store) (id : String) → (id == "") ≡ false → streak (note_success s id) id ≡ 0
unfolding note_success streak_of
streak-success s id named = rw (named, erase_self id s.server_err_streak) refl

skip-success :
    (s : Store) (id : String) (t : ℕ) (j : String)
    → skip_set (note_success s id) t j ≡ skip_set s t j
unfolding skip_set note_success
skip-success s id t j = ground arith

-- An error that cools nothing leaves every account as it was.
skip_uncooled :
    (s : Store) (id : String) (a : PoolAccountRouteState) (u t : ℕ) (j : String)
    → (note_server_error_with_state s id a u).1 ≡ none
    → skip_set (note_server_error_with_state s id a u).0 t j ≡ skip_set s t j
skip_uncooled s id a u t j h =
    rw (skip-server_error s id a u t j, h, or-false (skip_set s t j)) refl

-- After a success on an account whose id is not empty, its next two errors cool nothing and change no account's skipping, and the third cools that account, and it only, until 60 seconds after the third error. The errors may come at any times.
pub third_error_cools :
    (s : Store) (id : String) (a b c : PoolAccountRouteState) (u v w t : ℕ) (j : String)
    → (id == "") ≡ false
    → let first = note_server_error_with_state (note_success s id) id a u in
      let second_one = note_server_error_with_state first.0 id b v in
      let third = note_server_error_with_state second_one.0 id c w in
      (first.1 ≡ none)
      × (second_one.1 ≡ none)
      × (third.1 ≡ some (w + server_err_cooldown))
      × (skip_set second_one.0 t j ≡ skip_set s t j)
      × (skip_set third.0 t j ≡ (skip_set s t j || id == j && ltb t (w + server_err_cooldown)))
third_error_cools s id a b c u v w t j named =
    let s0 = note_success s id in
    let none0 = streak-success s id named in
    let one = error_below s0 id a u named (omega (arith, none0)) in
    let s1 = (note_server_error_with_state s0 id a u).0 in
    let two = error_below s1 id b v named (omega (arith, none0, one.1)) in
    let s2 = (note_server_error_with_state s1 id b v).0 in
    let three = error_third s2 id c w named (omega (arith, none0, one.1, two.1)) in
    let skip2 =
      skip_uncooled s1 id b v t j two.0
      ∙ skip_uncooled s0 id a u t j one.0
      ∙ skip-success s id t j in
    (one.0, two.0, three, skip2, rw (skip-server_error s2 id c w t j, three, skip2) refl)
