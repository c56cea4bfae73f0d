-- ===== src/Prelude/Bits.antt =====
-- The bit operations on a number and the number below a power of two.
use Prim.Native.Nat.{
  ℕ, zero, suc, ◌+◌, ◌-◌, ◌*◌, ◌/◌, ◌%◌, ◌≤◌, ◌<◌, min, bit_and, digits, bit_and-bitwise,
}
use mathlib.Core.Path.{◌≡◌, refl, sym, subst, ◌∙◌}
use mathlib.Core.Logic.{inl, inr, ◌⊎◌}
use native.Mathlib.Omega.{arith}

-- The powers of two.
pub data IsPower : ℕ → Type 0 where
  one : (a : ℕ) → a ≡ 1 → IsPower a
  twice : (a b : ℕ) → IsPower b → a ≡ 2 * b → IsPower a

-- `bit_and`, by the number of digits still to go.
abbrev common : ℕ → ℕ → ℕ → ℕ
common n a b = digits (λ b. zero) min n a b

common_self : (n a : ℕ) → a ≤ n → common n a a ≡ a
common_self zero zero h = refl
common_self zero (suc a) h = elim h [ ]
common_self (suc n) zero h = refl
common_self (suc n) (suc a) h = omega (arith, common_self n (suc a / 2) (omega arith))

common-zero : (n a : ℕ) → common n a 0 ≡ 0
common-zero zero a = refl
common-zero (suc n) zero = refl
common-zero (suc n) (suc a) = omega (arith, common-zero n (suc a / 2))

even_or_odd : (a : ℕ) → (a % 2 ≡ 0) ⊎ (a % 2 ≡ 1)
even_or_odd a = ground arith

common-step :
    (n a b : ℕ)
    → common (suc n) (suc a) b ≡ common n (suc a / 2) (b / 2) * 2 + min (suc a % 2) (b % 2)
common-step n a b = refl

-- A number that has no digit in common with the one below it.
common-IsPower : (n m : ℕ) → suc m ≤ n → common n (suc m) m ≡ 0 → IsPower (suc m)
common-IsPower zero m h e = elim h [ ]
common-IsPower (suc n) m h e = elim (even_or_odd m) [
  | inl even ↦
      let half : suc m / 2 ≡ m / 2 = omega (arith, even) in
      let same : common n (suc m / 2) (m / 2) ≡ m / 2 =
        subst (λ c. common n c (m / 2) ≡ m / 2) (sym half) (common_self n (m / 2) (omega arith)) in
      one (suc m) (omega (arith, even, same, e, common-step n m m))
  | inr odd ↦
      let half : suc m / 2 ≡ suc (m / 2) = omega (arith, odd) in
      let rest : common n (suc (m / 2)) (m / 2) ≡ 0 =
        subst (λ c. common n c (m / 2) ≡ 0) half (omega (arith, e, common-step n m m)) in
      twice (suc m) (suc (m / 2)) (common-IsPower n (m / 2) (omega (arith, half)) rest)
        (omega (arith, odd))
]

-- A mask of ones gives the remainder.
pub record Remainder (x a r : ℕ) : Type 0 where
  pub quotient : ℕ
  pub sum : quotient * a + r ≡ x
  pub small : r < a

twice_over : (q b : ℕ) → q * (2 * b) ≡ 2 * (q * b)
twice_over q b = grind arith

Remainder-zero : (a : ℕ) → 0 < a → Remainder 0 a 0
Remainder-zero a h = record { quotient = 0; sum = omega arith; small = h }

common-Remainder :
    (n x : ℕ) {a : ℕ} (m : ℕ) → x ≤ n → IsPower a → a ≡ suc m → Remainder x a (common n x m)
common-Remainder n x m h (one a e) f =
    let none_left : m ≡ 0 = omega (arith, e, f) in
    record {
      quotient = x;
      sum =
          subst (λ c. x * a + common n x c ≡ x) (sym none_left)
            (subst (λ c. x * c + common n x 0 ≡ x) (sym e) (omega (arith, common-zero n x)));
      small = subst (λ c. common n x c < a) (sym none_left) (omega (arith, common-zero n x, e));
    }
common-Remainder zero zero m h (twice a b w e) f = Remainder-zero a (omega (arith, f))
common-Remainder zero (suc x) m h (twice a b w e) f = absurd (omega arith)
common-Remainder (suc n) zero m h (twice a b w e) f = Remainder-zero a (omega (arith, f))
common-Remainder (suc n) (suc x) m h (twice a b w e) f =
    let r = common-Remainder n (suc x / 2) (m / 2) (omega arith) w (omega (arith, e, f)) in
    record {
      quotient = r.quotient;
      sum =
          subst (λ c. r.quotient * c + common (suc n) (suc x) m ≡ suc x) (sym e)
            (omega (arith, twice_over r.quotient b, r.sum, common-step n x m, e, f));
      small = omega (arith, r.small, common-step n x m, e, f);
    }

pub bit_and-IsPower : (a : ℕ) → 0 < a → bit_and a (a - 1) ≡ 0 → IsPower a
bit_and-IsPower zero p e = elim p [ ]
bit_and-IsPower (suc m) p e =
    let below : suc m - 1 ≡ m = omega arith in
    common-IsPower (suc m) m (omega arith)
      (sym (bit_and-bitwise (suc m) m) ∙ subst (λ c. bit_and (suc m) c ≡ 0) below e)

pub bit_and-Remainder : (x a : ℕ) → IsPower a → 0 < a → Remainder x a (bit_and x (a - 1))
bit_and-Remainder x a w p =
    subst (Remainder x a) (sym (bit_and-bitwise x (a - 1)))
      (common-Remainder x x (a - 1) (omega arith) w (omega arith))

pub IsPower-pos : {a : ℕ} → IsPower a → 0 < a
IsPower-pos (one a e) = omega (arith, e)
IsPower-pos (twice a b w e) = omega (arith, IsPower-pos w, e)
