-- ===== src/Tests/Wrapper.antt =====
-- Aligned blocks and a copied string over a heap that gives out one block behind the other.
use grace.Prelude.{ℕ, ◌+◌, ◌*◌, ◌≤◌, ◌≡◌, refl, some, arith, ◌==◌, if◌then◌else◌}
use grace.Defines.{word_mod}
use grace.Libc.{World}
use grace.Wrapper.{
  clear_low, refuses, strnlen, strncpy, strndup, memalign, posix_memalign, pvalloc, valloc,
}
use grace.Wrapper.Aligned.{memalign-fits}
use grace.Tests.Libc.{Given, give, giver, IsGiven, giver-IsAllocator}

-- The bytes 101 to 104 are a string.
abbrev world : World Given
world = record {
  memory = λ a. if a == 105 then 0 else a;
  blocks = record { next = 200; sizes = λ p. 50 };
}

in_memory : (b k : ℕ) → IsGiven (give 148 world) b k → b + k ≤ word_mod
in_memory b k live = omega (arith, live.before)

at_256 : memalign giver 64 20 world ≡ (some 256, give 148 world)
unfolding memalign refuses clear_low
at_256 = refl

memalign-fits_example :
    (q b k : ℕ) × (256 ≡ q * 64) × IsGiven (give 148 world) b k × (b ≤ 256) × (256 + 20 ≤ b + k)
memalign-fits_example =
    memalign-fits giver IsGiven giver-IsAllocator world (give 148 world) 64 20 256 (omega arith)
      in_memory at_256

refused_48 : (posix_memalign giver 48 20 world).0.code ≡ 22
unfolding posix_memalign refuses
refused_48 = refl

abbrev after_copy : World Given
after_copy = record (give 5 world) {
  memory = λ a. if a == 200 + 4 then 0 else strncpy 200 101 4 world.memory a;
}

copied : strndup giver 101 9 world ≡ (some 200, after_copy)
unfolding strndup strnlen
copied = refl

four_bytes : strnlen world.memory 101 9 ≡ 4
unfolding strnlen
four_bytes = refl

-- Two pages of 8 KB for a request of 9000 bytes.
two_pages : pvalloc giver 9000 world ≡ valloc giver 16384 world
unfolding pvalloc clear_low
two_pages = refl
