-- ===== src/Wrapper/Aligned.antt =====
-- The aligned blocks of src/source/wrapper.cpp, over any heap that keeps its blocks apart.
use Prim.Native.Nat.{bit_and}
use grace.Prelude.{
  ℕ, zero, suc, ◌+◌, ◌-◌, ◌*◌, ◌%◌, ◌≤◌, ◌<◌, ◌≡◌, ◌≢◌, refl, sym, ap, ◌∙◌, subst, ◌⊎◌, inl, inr,
  true, false, Option, none, some, arith, Bool-cases,
}
use grace.Prelude.Bits.{IsPower, IsPower-pos, bit_and-IsPower, bit_and-Remainder}
use grace.Defines.{word_mod}
use grace.Libc.{World, Allocator}
use grace.Libc.Blocks.{IsAllocator}
use grace.Wrapper.{
  clear_low, refuses, as_pointer, address_of, einval, enomem, stored_answer, memalign,
  posix_memalign,
}

-- An alignment that is let through is a power of two.
passed-IsPower : (a : ℕ) → refuses a ≡ false → (0 < a) × IsPower a
unfolding refuses
passed-IsPower a e = (ground arith, bit_and-IsPower a (ground arith) (ground arith))

quotient_zero : (q a : ℕ) → q * a < a → q ≡ 0
quotient_zero zero a h = refl
quotient_zero (suc q) a h = absurd (omega (arith, h))

nothing_left : (q r a : ℕ) → q * a + r ≡ a → r < a → r ≡ 0
nothing_left zero r a e h = absurd (omega arith)
nothing_left (suc q) r a e h = omega (arith, e)

-- And every one is.
IsPower-passed : (a : ℕ) → IsPower a → refuses a ≡ false
unfolding refuses
IsPower-passed a w =
    let p = IsPower-pos w in
    let r = bit_and-Remainder a a w p in
    let no_rest : bit_and a (a - 1) ≡ 0 =
      nothing_left r.quotient (bit_and a (a - 1)) a r.sum r.small in
    ground (arith, p, no_rest)

-- The greatest multiple of a power of two up to `x`.
record Multiple (x a p : ℕ) : Type 0 where
  pub quotient : ℕ
  pub product : p ≡ quotient * a
  pub up_to : p ≤ x
  pub near : x < p + a

clear_low-Multiple : (x a : ℕ) → refuses a ≡ false → Multiple x a (clear_low x a)
unfolding clear_low
clear_low-Multiple x a e =
    let (p, w) = passed-IsPower a e in
    let r = bit_and-Remainder x a w p in
    record {
      quotient = r.quotient;
      product = omega (arith, r.sum, r.small);
      up_to = omega arith;
      near = omega (arith, r.sum, r.small);
    }

-- The pointer is NULL if no block is given.
none_given :
    (a p : ℕ)
    → refuses a ≡ false
    → a < word_mod
    → as_pointer (clear_low ((0 + a - 1) % word_mod) a) ≢ some p
none_given a p ok room e =
    let m = clear_low-Multiple ((0 + a - 1) % word_mod) a ok in
    let (pos, _) = passed-IsPower a ok in
    let first : m.quotient ≡ 0 =
      quotient_zero m.quotient a (omega (arith, m.product, m.up_to, pos, room)) in
    let null : clear_low ((0 + a - 1) % word_mod) a ≡ 0 =
      m.product ∙ ap (λ q. q * a) first ∙ omega arith in
    ground (arith, null)

not-IsPower : (a : ℕ) → refuses a ≡ true → ¬ IsPower a
not-IsPower a e w = let both : true ≡ false = sym e ∙ IsPower-passed a w in cc

stored_ways :
    {A : Type 0} (r : Option ℕ × World A)
    → ((r.0 ≡ none) × (stored_answer r ≡ (record { code = enomem; stored = none }, r.1)))
      ⊎ ((p : ℕ) × (r.0 ≡ some p) × (stored_answer r ≡ (record { code = 0; stored = some p }, r.1)))
stored_ways (none, w) = inl (refl, refl)
stored_ways (some p, w) = inr (p, refl, refl)

module _ {A : Type 0} (h : Allocator A) (Live : World A → ℕ → ℕ → Type 0)
    (good : IsAllocator h Live) where
  -- `memalign` after the call of `malloc`.
  aligned_block :
      (alignment size p : ℕ) (w w₁ w' : World A) (r : Option ℕ)
      → refuses alignment ≡ false
      → 2 * alignment + size < word_mod
      → ((b k : ℕ) → Live w' b k → b + k ≤ word_mod)
      → h.malloc ((2 * alignment + size) % word_mod) w ≡ (r, w₁)
      → ◌≡◌ {A = Option ℕ × World A}
          (as_pointer (clear_low ((address_of r + alignment - 1) % word_mod) alignment), w₁)
          (some p, w')
      → (q b k : ℕ) × (p ≡ q * alignment) × Live w' b k × (b ≤ p) × (p + size ≤ b + k)
  aligned_block alignment size p w w₁ w' none ok room inside e f =
      absurd (none_given alignment p ok (omega (arith, room)) (ap (λ z. z.0) f))
  aligned_block alignment size p w w₁ w' (some b) ok room inside e f =
      let (k, big, there) = good.new_block e in
      let after : w₁ ≡ w' = cc (ap (λ z. z.1) f) in
      let there' = subst (λ z. Live z b k) after there in
      let m = clear_low-Multiple ((b + alignment - 1) % word_mod) alignment ok in
      let is_p : clear_low ((b + alignment - 1) % word_mod) alignment ≡ p =
        ground (arith, ap (λ z. z.0) f) in
      (
        m.quotient,
        b,
        k,
        sym is_p ∙ m.product,
        there',
        omega (arith, is_p, m.near, inside b k there', big, room),
        omega (arith, is_p, m.up_to, inside b k there', big, room),
      )

  -- A block that `memalign` gives, for sizes that fit in a word, over a heap whose blocks lie in memory and
  -- apart: its address is a multiple of the alignment, and all of it lies within one block of the
  -- heap.
  pub memalign-fits :
      (w w' : World A) (alignment size p : ℕ)
      → 2 * alignment + size < word_mod
      → ((b k : ℕ) → Live w' b k → b + k ≤ word_mod)
      → memalign h alignment size w ≡ (some p, w')
      → (q b k : ℕ) × (p ≡ q * alignment) × Live w' b k × (b ≤ p) × (p + size ≤ b + k)
  unfolding memalign
  memalign-fits w w' alignment size p room inside e = elim (Bool-cases (refuses alignment)) [
    | inl no_power ↦ let none_given : ⊥ = ground (arith, no_power) in elim none_given [ ]
    | inr ok ↦
        let r = h.malloc ((2 * alignment + size) % word_mod) w in
        aligned_block alignment size p w r.1 w' r.0 ok room inside refl (ground (arith, ok))
  ]

module _ {A : Type 0} (h : Allocator A) where
  -- What `posix_memalign` does. If the alignment is no power of two, it says so and calls nobody. Otherwise,
  -- it stores a pointer if and only if it returns 0, and that is the one that `memalign` gives.
  posix_memalign_ways :
      (alignment size : ℕ) (w : World A)
      → ((¬ IsPower alignment)
          × (posix_memalign h alignment size w ≡ (record { code = einval; stored = none }, w)))
        ⊎ (IsPower alignment
            × (memalign h alignment size w).0 ≡ none
            × (posix_memalign h alignment size w
                ≡ (record { code = enomem; stored = none }, (memalign h alignment size w).1)))
        ⊎ (IsPower alignment
            × (p : ℕ) × ((memalign h alignment size w).0 ≡ some p)
            × (posix_memalign h alignment size w
                ≡ (record { code = 0; stored = some p }, (memalign h alignment size w).1)))
  unfolding posix_memalign
  posix_memalign_ways alignment size w = elim (Bool-cases (refuses alignment)) [
    | inl refused ↦ inl (not-IsPower alignment refused, rw refused refl)
    | inr ok ↦
        let power = (passed-IsPower alignment ok).1 in
        elim (stored_ways (memalign h alignment size w)) [
          | inl (e, f) ↦ inr (inl (power, e, rw ok f))
          | inr (p, e, f) ↦ inr (inr (power, p, e, rw ok f))
        ]
  ]
