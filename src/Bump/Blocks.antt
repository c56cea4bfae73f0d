-- ===== src/Bump/Blocks.antt =====
-- The blocks that the heap of src/include/bumpheap.h hands out.
use grace.Prelude.{
  ℕ, ◌+◌, ◌-◌, ◌%◌, ◌^◌, ◌≤◌, ◌<◌, ◌≡◌, refl, ap, ◌∙◌, inl, inr, false, none, some, List, [], ◌∷◌,
  arith, ltb, lt→ltb, ltb→lt, Bool-cases,
}
use grace.Defines.{word_mod}
use grace.Result.{ok}
use grace.Bump.{Bump, magic_number, make, sanity_check, round_up, take, malloc, mallocs}

-- A heap over `size` bytes from an aligned start that ends below 2 ^ 32.
pub record IsValid (size : ℕ) (b : Bump) : Type 0 where
  pub sane : b.magic ≡ magic_number
  pub aligned : b.position % 8 ≡ 0
  pub low : b.start ≤ b.position
  pub whole : b.position + b.remaining ≡ b.start + size
  pub fits : b.start + size < 2 ^ 32

pub make-IsValid :
    (size source : ℕ) → source % 8 ≡ 0 → source + size < 2 ^ 32 → IsValid size (make size source)
unfolding make
make-IsValid size source a f = record {
  sane = refl;
  aligned = a;
  low = omega arith;
  whole = refl;
  fits = f;
}

-- A request that the rounding does not carry past 2 ^ 32.
abbrev pub Small : ℕ → Type 0
Small sz = sz + 7 < 2 ^ 32

round_up_lem : (sz : ℕ) → Small sz → (sz ≤ round_up sz) × (round_up sz % 8 ≡ 0)
unfolding round_up
round_up_lem sz h = ground arith

malloc_refused :
    {size : ℕ} (sz : ℕ) (b : Bump)
    → IsValid size b
    → b.remaining < round_up sz
    → malloc sz b ≡ ok (none, b)
unfolding malloc sanity_check
malloc_refused sz b v h = rw (v.sane, lt→ltb _ _ h, malloc) refl

malloc_granted :
    {size : ℕ} (sz : ℕ) (b : Bump)
    → IsValid size b
    → ltb b.remaining (round_up sz) ≡ false
    → malloc sz b ≡ ok (some b.position, take (round_up sz) b)
unfolding malloc sanity_check take
malloc_granted sz b v h = rw (v.sane, h, malloc) refl

take-IsValid :
    {size : ℕ} (sz : ℕ) (b : Bump)
    → IsValid size b
    → sz % 8 ≡ 0
    → ltb b.remaining sz ≡ false
    → IsValid size (take sz b)
unfolding take
take-IsValid sz b v a h = record {
  sane = v.sane;
  aligned = ground (arith, v.aligned, a, v.whole, v.fits, h);
  low = ground (arith, v.whole, v.fits, v.low, h);
  whole = ground (arith, v.whole, v.fits, h);
  fits = v.fits;
}

-- The blocks lie one behind the other between two addresses, each aligned to 8 bytes.
abbrev pub Ascending : ℕ → List (ℕ × ℕ) → ℕ → Type 0
Ascending low [] high = low ≤ high
Ascending low ((a, sz) ∷ blocks) high = (low ≤ a) × (a % 8 ≡ 0) × Ascending (a + sz) blocks high

abbrev pub AllSmall : List ℕ → Type 0
AllSmall [] = Unit {0}
AllSmall (sz ∷ szs) = Small sz × AllSmall szs

Ascending-lower :
    (low low' high : ℕ) (blocks : List (ℕ × ℕ))
    → low ≤ low'
    → Ascending low' blocks high
    → Ascending low blocks high
Ascending-lower low low' high [] h u = omega arith
Ascending-lower low low' high ((a, sz) ∷ blocks) h (u, al, rest) = (omega (arith, h, u), al, rest)

take_beyond :
    {size : ℕ} (sz : ℕ) (b : Bump)
    → IsValid size b
    → sz ≤ round_up sz
    → ltb b.remaining (round_up sz) ≡ false
    → b.position + sz ≤ (take (round_up sz) b).position
unfolding take
take_beyond sz b v long room = ground (arith, v.whole, v.fits, long, room)

-- Any run of requests, none of which the rounding carries past 2 ^ 32, returns. The blocks that it
-- gives lie one behind the other between the position and the end of the heap, so no two overlap;
-- each is aligned and as long as was asked for. The heap is valid again.
pub mallocs-Ascending :
    {size : ℕ} (szs : List ℕ) (b : Bump)
    → IsValid size b
    → AllSmall szs
    → (blocks : List (ℕ × ℕ)) × (b' : Bump) × (mallocs szs b ≡ ok (blocks, b'))
      × IsValid size b'
      × Ascending b.position blocks (b.start + size)
unfolding mallocs take
mallocs-Ascending [] b v h = ([], b, refl, v, omega (arith, v.whole))
mallocs-Ascending {size} (sz ∷ szs) b v (small, h) =
    elim (Bool-cases (ltb b.remaining (round_up sz))) [
      | inl full ↦
          let (blocks, b', e, v', up) = mallocs-Ascending szs b v h in
          (blocks, b', rw (malloc_refused sz b v (ltb→lt _ _ full), e, mallocs) refl, v', up)
      | inr room ↦
          let (long, even) = round_up_lem sz small in
          let v₁ = take-IsValid (round_up sz) b v even room in
          let (blocks, b', e, v', up) = mallocs-Ascending szs (take (round_up sz) b) v₁ h in
          (
            (b.position, sz) ∷ blocks,
            b',
            rw (malloc_granted sz b v room, e, mallocs) refl,
            v',
            (
              omega arith,
              v.aligned,
              Ascending-lower _ _ _ blocks (take_beyond sz b v long room) up,
            ),
          )
    ]

round_up_wraps : (sz : ℕ) → 2 ^ 32 - 8 < sz → sz < 2 ^ 32 → round_up sz ≡ 0
unfolding round_up
round_up_wraps sz h k = ground arith

take_nothing : {size : ℕ} (b : Bump) → IsValid size b → take 0 b ≡ b
unfolding take
take_nothing b v =
    let amount : b.remaining - 0 ≡ b.remaining = omega arith in
    let place : (b.position + 0) % word_mod ≡ b.position = omega (arith, v.whole, v.fits) in
    λ i. record b { remaining = amount i; position = place i }

-- A request within 8 bytes of 2 ^ 32 is rounded to nothing: it is granted on any valid heap, and the
-- heap is as before, so that the next request is given the same address.
malloc_wraps :
    {size : ℕ} (sz : ℕ) (b : Bump)
    → IsValid size b
    → 2 ^ 32 - 8 < sz
    → sz < 2 ^ 32
    → malloc sz b ≡ ok (some b.position, b)
malloc_wraps {size} sz b v h k =
    let nothing = round_up_wraps sz h k in
    malloc_granted sz b v (rw nothing (ground arith))
    ∙ ap (λ x. ok (some b.position, x)) (ap (λ n. take n b) nothing ∙ take_nothing b v)
