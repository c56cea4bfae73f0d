-- ===== src/Heap/Source.antt =====
-- The memory that the heaps of src/include/graceheap.h share lies in the persistent region.
use grace.Prelude.{
  ℕ, ◌+◌, ◌≤◌, ◌<◌, ◌^◌, ◌%◌, ◌≡◌, refl, sym, ap, ◌∙◌, subst, true, none, some, List, [], ◌∷◌,
  arith,
}
use grace.Defines.{heap_size, page_size}
use grace.Result.{ok, >>=-eq-ok}
use grace.Persist.Region.{Store, Region, in_range}
use grace.Persist.Construct.{Answers, construct, mapped_at}
use grace.Persist.Built.{construct-Built}
use grace.Bump.{Bump, mallocs}
use grace.Bump
use grace.Bump.Blocks.{make-IsValid, AllSmall, Ascending, mallocs-Ascending}
use grace.Heap.{Rounded, source_malloc, rounded_over, make_rounded}

-- A heap over the region that stands at `base`.
pub record Over (base : ℕ) (h : Rounded) : Type 0 where
  pub given : h.adapted.already_malloced ≡ true
  pub region_base : h.adapted.region.base ≡ base
  pub region_size : h.adapted.region.size ≡ heap_size
  pub bump : h.bump ≡ Bump.make heap_size base

pub make_rounded-Over :
    (a : Answers) (s : Store) (h : Rounded) (base : ℕ)
    → make_rounded a ≡ ok (s, h)
    → a.transient ≡ some base
    → Over base h
unfolding make_rounded rounded_over source_malloc mapped_at
make_rounded-Over a s h base e t =
    let (z, e₁, e₂) = >>=-eq-ok (construct heap_size 0 0 (λ i. 0) a) _ e in
    let b = construct-Built heap_size 0 0 (λ i. 0) a z.0 z.1 e₁ in
    let there : base ≡ z.1.base =
      (let same : base ≡ b.base = cc in same ∙ ap (λ (y : Store × Region). y.1.base) b.made) in
    let same : (rounded_over z).1 ≡ h = cc in
    subst (Over base) same (record {
      given = refl;
      region_base = sym there;
      region_size = ap (λ (y : Store × Region). y.1.size) (sym b.made);
      bump = ap (Bump.make heap_size) (sym there);
    })

-- Every byte of the blocks is an address of the region.
abbrev pub AllInRange : Region → List (ℕ × ℕ) → Type 0
AllInRange r [] = Unit {0}
AllInRange r ((a, sz) ∷ blocks) =
    ((i : ℕ) → i < sz → in_range r (a + i) ≡ true) × AllInRange r blocks

Ascending-below : (low high : ℕ) (blocks : List (ℕ × ℕ)) → Ascending low blocks high → low ≤ high
Ascending-below low high [] u = u
Ascending-below low high ((a, sz) ∷ blocks) (u, al, rest) =
    omega (arith, u, Ascending-below (a + sz) high blocks rest)

Ascending-AllInRange :
    (r : Region) (low : ℕ) (blocks : List (ℕ × ℕ))
    → r.base ≤ low
    → Ascending low blocks (r.base + r.size)
    → AllInRange r blocks
unfolding in_range
Ascending-AllInRange r low [] h u = tt
Ascending-AllInRange r low ((a, sz) ∷ blocks) h (u, al, rest) =
    let below = Ascending-below (a + sz) (r.base + r.size) blocks rest in
    (
      λ i k. ground (arith, u, below),
      Ascending-AllInRange r (a + sz) blocks (omega (arith, u)) rest,
    )

-- Let the process's heap be made over a page-aligned mapping that ends below 2 ^ 32. Any run of requests,
-- none of which the rounding carries past 2 ^ 32, returns, and every byte of each block that it gives lies
-- in the persistent region, where its reads and writes are recorded. The region is given out once: the
-- next request to the source under the bump heap gives NULL and changes nothing.
pub make_rounded-AllInRange :
    (a : Answers) (s : Store) (h : Rounded) (base : ℕ) (szs : List ℕ)
    → make_rounded a ≡ ok (s, h)
    → a.transient ≡ some base
    → base % page_size ≡ 0
    → base + heap_size < 2 ^ 32
    → AllSmall szs
    → ((blocks : List (ℕ × ℕ)) × (b : Bump) × (mallocs szs h.bump ≡ ok (blocks, b))
        × AllInRange h.adapted.region blocks)
      × (source_malloc s h.adapted ≡ (none, s, h.adapted))
unfolding source_malloc Bump.make
make_rounded-AllInRange a s h base szs e t aligned low small =
    let o = make_rounded-Over a s h base e t in
    let v = make-IsValid heap_size base (omega (arith, aligned)) low in
    let (blocks, b, granted, _, up) = mallocs-Ascending szs (Bump.make heap_size base) v small in
    (
      (
        blocks,
        b,
        rw o.bump granted,
        Ascending-AllInRange h.adapted.region base blocks (omega (arith, o.region_base))
            (rw (o.region_base, o.region_size) up),
      ),
      rw o.given refl,
    )
