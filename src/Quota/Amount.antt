-- ===== src/Quota/Amount.antt =====
-- What internal/quota asks of a usage amount (float64 in the source).
--
-- The amounts are finite, and a negative zero counts as zero. The laws without a condition survive
-- rounding. Sums and differences are exact only for `exact` amounts, the whole numbers from 0 and
-- below 2 ^ 53, such as token counts; an amount of usd with a fraction is not one.
use aikey_proxy.Prelude.{
  ltb, refl, ℕ, ◌+◌, ◌-◌, ◌*◌, ◌≡◌, arith, Bool, true, false, leb, eqb, eqb→eq,
}

pub record Amount : Type 1 where
  pub Carrier : Type 0
  pub zero : Carrier
  pub add : Carrier → Carrier → Carrier
  pub sub : Carrier → Carrier → Carrier
  -- float64(n) * rate
  pub scale : ℕ → Carrier → Carrier
  -- a <= b and a == b
  pub le : Carrier → Carrier → Bool
  pub same : Carrier → Carrier → Bool
  pub le_refl : (a : Carrier) → le a a ≡ true
  pub le_trans : (a b c : Carrier) → le a b ≡ true → le b c ≡ true → le a c ≡ true
  pub le_total : (a b : Carrier) → le a b ≡ false → le b a ≡ true
  pub same_sound : (a b : Carrier) → same a b ≡ true → a ≡ b
  pub add_zero : (a : Carrier) → add a zero ≡ a
  pub le_add : (a b : Carrier) → le zero b ≡ true → le a (add a b) ≡ true
  pub add_mono : (a b c : Carrier) → le a b ≡ true → le (add c a) (add c b) ≡ true
  pub same_zero : same zero zero ≡ true
  pub exact : Carrier → Bool
  pub add_sub :
      (a b : Carrier) → exact a ≡ true → exact b ≡ true → le b a ≡ true → add b (sub a b) ≡ a
  pub add_assoc :
      (a b c : Carrier)
      → exact a ≡ true
      → exact b ≡ true
      → exact c ≡ true
      → exact (add (add a b) c) ≡ true
      → add a (add b c) ≡ add (add a b) c
  pub sub_nonneg : (a b : Carrier) → le b a ≡ true → le zero (sub a b) ≡ true

pub leb_trans : (a b c : ℕ) → leb a b ≡ true → leb b c ≡ true → leb a c ≡ true
leb_trans a b c p q = ground arith

pub leb_total : (a b : ℕ) → leb a b ≡ false → leb b a ≡ true
leb_total a b h = ground arith

pub leb_refl : (a : ℕ) → leb a a ≡ true
leb_refl a = ground arith

pub leb-add : (a b : ℕ) → leb 0 b ≡ true → leb a (a + b) ≡ true
leb-add a b h = ground arith

pub leb-add_mono : (a b c : ℕ) → leb a b ≡ true → leb (c + a) (c + b) ≡ true
leb-add_mono a b c h = ground arith

pub add-sub : (a b : ℕ) → leb b a ≡ true → b + (a - b) ≡ a
add-sub a b h = ground arith

pub leb-sub : (a b : ℕ) → leb b a ≡ true → leb 0 (a - b) ≡ true
leb-sub a b h = ground arith

pub add-zero : (a : ℕ) → a + 0 ≡ a
add-zero a = omega arith

-- Whole amounts.
abbrev pub whole : Amount
whole = record {
  Carrier = ℕ;
  zero = 0;
  add = λ a b. a + b;
  sub = λ a b. a - b;
  scale = λ n a. n * a;
  le = leb;
  same = eqb;
  le_refl = leb_refl;
  le_trans = leb_trans;
  le_total = leb_total;
  same_sound = eqb→eq;
  add_zero = add-zero;
  le_add = leb-add;
  add_mono = leb-add_mono;
  same_zero = refl;
  exact = λ a. ltb a 9007199254740992;
  add_sub = λ a b e f. add-sub a b;
  add_assoc = λ a b c e f g h. omega arith;
  sub_nonneg = leb-sub;
}
