-- ===== src/Tests/Bump.antt =====
-- A bump heap of 64 bytes.
use grace.Prelude.{ℕ, ◌+◌, ◌≡◌, refl, List, [], ◌∷◌, arith}
use grace.Result.{ok}
use grace.Bump.{Bump, make, malloc, mallocs, round_up, take, sanity_check}
use grace.Bump.Blocks.{IsValid, make-IsValid, Ascending, mallocs-Ascending}

abbrev heap : Bump
heap = make 64 0x40000000

heap-IsValid : IsValid 64 heap
heap-IsValid = make-IsValid 64 0x40000000 refl (omega arith)

mallocs-Ascending_example :
    (blocks : List (ℕ × ℕ)) × (b' : Bump) × (mallocs (5 ∷ 40 ∷ 20 ∷ 16 ∷ []) heap ≡ ok (blocks, b'))
    × IsValid 64 b'
    × Ascending heap.position blocks (heap.start + 64)
mallocs-Ascending_example =
    mallocs-Ascending (5 ∷ 40 ∷ 20 ∷ 16 ∷ []) heap heap-IsValid
      (omega arith, (omega arith, (omega arith, (omega arith, tt))))

blocks_given :
    mallocs (5 ∷ 40 ∷ 20 ∷ 16 ∷ []) heap
    ≡ ok (
      (0x40000000, 5) ∷ (0x40000008, 40) ∷ (0x40000030, 16) ∷ [],
      record heap { position = 0x40000040; remaining = 0 },
    )
unfolding make mallocs malloc round_up take sanity_check
blocks_given = refl
