-- ===== src/Tests/Header.antt =====
-- Blocks of a page, at three places.
use grace.Prelude.{ℕ, ◌+◌, ◌%◌, ◌≤◌, ◌≡◌, ◌≢◌, refl, some, arith}
use grace.Result.{ok}
use grace.Header.{Headers, malloc, get_size, requested, raised, place_header, get_pointer, freed}
use grace.Header.Placement.{malloc-inside, freed_elsewhere}

abbrev no_headers : Headers
no_headers a = record { size = 0; magic = 0 }

malloc-inside_example :
    (q n : ℕ) × (written : Headers) × (malloc 5000 (some 0x10000100) no_headers
      ≡ ok (some q, written))
    × (get_size written q ≡ ok n)
    × (5000 ≤ n)
    × (0x10000100 + 8 ≤ q)
    × (q + 5000 ≤ 0x10000100 + requested 5000)
    × (4088 ≤ 5000 → q % 4096 ≡ 0)
malloc-inside_example =
    malloc-inside 5000 0x10000100 no_headers refl (λ e. omega (arith, e)) (omega arith)

freed_elsewhere_example : freed (get_pointer (place_header (raised 5000) 0x10000100)) ≢ 0x10000100
freed_elsewhere_example =
    freed_elsewhere 5000 0x10000100 (omega arith) refl (omega arith) (λ e. omega (arith, e))
      (omega arith)
