-- ===== src/Tests/Libc.antt =====
-- A heap that gives out one block behind the other and takes none back.
use grace.Prelude.{ℕ, suc, ◌+◌, ◌<◌, ◌≡◌, refl, ap, subst, inl, some, arith, ◌==◌, if◌then◌else◌}
use grace.Libc.{World, Allocator, copy, after_malloc, move_block, realloc}
use grace.Libc.Blocks.{Apart, IsAllocator, realloc-copies}

pub record Given : Type 0 where
  pub next : ℕ
  pub sizes : ℕ → ℕ

abbrev pub give : ℕ → World Given → World Given
give sz w = record w {
  blocks = record {
    next = w.blocks.next + suc sz;
    sizes = λ p. if p == w.blocks.next then sz else w.blocks.sizes p;
  };
}

abbrev pub giver : Allocator Given
giver = record {
  malloc = λ sz w. (some w.blocks.next, give sz w);
  free = λ p w. w;
  usable_size = λ w p. w.blocks.sizes p;
}

pub record IsGiven (w : World Given) (p n : ℕ) : Type 0 where
  pub before : p + n < w.blocks.next
  pub length : w.blocks.sizes p ≡ n

new_given : (w : World Given) (sz : ℕ) → IsGiven (give sz w) w.blocks.next sz
new_given w sz = record { before = omega arith; length = ground arith }

place : (w w' : World Given) (sz q : ℕ) → giver.malloc sz w ≡ (some q, w') → w.blocks.next ≡ q
place w w' sz q e = cc

after : (w w' : World Given) (sz q : ℕ) → giver.malloc sz w ≡ (some q, w') → give sz w ≡ w'
after w w' sz q e = ap (λ z. z.1) e

old_given :
    (w : World Given) (sz p n : ℕ)
    → IsGiven w p n
    → IsGiven (give sz w) p n
      × Apart p n w.blocks.next sz
      × ((i : ℕ) → i < n → (give sz w).memory (p + i) ≡ w.memory (p + i))
old_given w sz p n live = (
  record { before = omega (arith, live.before); length = ground (arith, live.before, live.length) },
  inl (omega (arith, live.before)),
  λ i lt. refl,
)

pub giver-IsAllocator : IsAllocator giver IsGiven
giver-IsAllocator = record {
  size = λ live. live.length;
  new_block = λ {w} {w'} {sz} {q} e. (
    sz,
    omega arith,
    subst (λ z. IsGiven w' z sz) (place w w' sz q e)
        (subst (λ z. IsGiven z w.blocks.next sz) (after w w' sz q e) (new_given w sz)),
  );
  others_stay = λ {w} {w'} {sz} {q} {k} {p} {n} live e fresh.
      subst
        (λ z.
          IsGiven z p n × Apart p n q k × ((i : ℕ) → i < n → z.memory (p + i) ≡ w.memory (p + i)))
        (after w w' sz q e)
        (let (old, _, kept) = old_given w sz p n live in
          (old, inl (omega (arith, live.before, place w w' sz q e)), kept));
  writes = λ m from live out. record { before = live.before; length = live.length };
  frees = λ live other apart i lt. refl;
}

abbrev world : World Given
world = record { memory = λ a. a + 7; blocks = record { next = 200; sizes = λ p. 50 } }

block : IsGiven world 100 50
block = record { before = omega arith; length = refl }

abbrev grown : World Given
grown = record (give 80 world) { memory = copy 200 100 50 world.memory }

realloc-copies_example : grown.memory (200 + 9) ≡ world.memory (100 + 9)
unfolding realloc move_block after_malloc
realloc-copies_example =
    realloc-copies giver IsGiven giver-IsAllocator 100 80 200 50 (λ e. omega (arith, e))
      (λ e. omega (arith, e)) block refl 9 (omega arith) (omega arith)
