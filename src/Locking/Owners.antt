-- ===== src/Locking/Owners.antt =====
-- Who holds a lock, while the processes move.
use grace.Prelude.{ℕ, ◌≡◌, ◌≢◌, refl, ◌∙◌, Bool, true, false, ◌==◌, if◌then◌else◌, arith}
use grace.Locking.{Control, outside, has_heap, has_both, heap_committed, answered, heap_freed, put}

-- Who has taken the heap's lock and not given it back, and the globals' lock.
abbrev pub holds_heap : Control → Bool
holds_heap (has_heap w r) = true
holds_heap (has_both w m) = true
holds_heap (heap_committed w m) = true
holds_heap (answered w b m) = true
holds_heap outside = false
holds_heap (heap_freed w b m) = false

abbrev pub holds_globals : Control → Bool
holds_globals (has_both w m) = true
holds_globals (heap_committed w m) = true
holds_globals (answered w b m) = true
holds_globals (heap_freed w b m) = true
holds_globals outside = false
holds_globals (has_heap w r) = false

-- A lock is held exactly if some process holds it, and by no other.
pub record Owned {C : Type 0} (holds : C → Bool) (held : Bool) (control : ℕ → C) : Type 0 where
  pub unique : (i j : ℕ) → holds (control i) ≡ true → holds (control j) ≡ true → i ≡ j
  pub held_by : (i : ℕ) → holds (control i) ≡ true → held ≡ true
  pub holder : held ≡ true → (i : ℕ) × (holds (control i) ≡ true)

module _ {C : Type 0} (holds : C → Bool) (control : ℕ → C) (i : ℕ) (c : C) where
  -- What holds of the new place and of the others' places holds of every process's.
  pub put_all : (P : C → Type 0) (j : ℕ) → P c → (j ≢ i → P (control j)) → P (put i c control j)
  put_all P j new old = by_test (j == i) refl
    where
      by_test : (b : Bool) → (j == i) ≡ b → P (if b then c else control j)
      by_test true e = new
      by_test false e = old (λ p. ground (arith, p))

  at_self : holds (put i c control i) ≡ holds c
  at_self = ground arith

  at_other : (j : ℕ) → j ≢ i → holds (put i c control j) ≡ holds (control j)
  at_other j n = ground (arith, n)

  -- The lock is taken while nobody holds it.
  pub Owned-taken :
      {held : Bool}
      → Owned holds held control
      → held ≡ false
      → holds c ≡ true
      → Owned holds true (put i c control)
  Owned-taken o free takes = record {
    unique = λ j k p q. ground (arith, o.held_by j, o.held_by k);
    held_by = λ j p. refl;
    holder = λ e. (i, at_self ∙ takes);
  }

  -- Process `i` moves, and holds the lock as before.
  pub Owned-kept :
      {held : Bool}
      → Owned holds held control
      → holds c ≡ holds (control i)
      → Owned holds held (put i c control)
  Owned-kept o same = record {
    unique = λ j k p q. o.unique j k (was j p) (was k q);
    held_by = λ j p. o.held_by j (was j p);
    holder = λ e. let (j, p) = o.holder e in (j, is j p);
  }
    where
      was : (j : ℕ) → holds (put i c control j) ≡ true → holds (control j) ≡ true
      was j p = ground (arith, same)

      is : (j : ℕ) → holds (control j) ≡ true → holds (put i c control j) ≡ true
      is j p = ground (arith, same)

  -- The lock is given back.
  pub Owned-freed :
      {held : Bool}
      → Owned holds held control
      → holds (control i) ≡ true
      → holds c ≡ false
      → Owned holds false (put i c control)
  Owned-freed o mine gone = record {
    unique = λ j k p q. absurd_at (nobody j p);
    held_by = λ j p. absurd_at (nobody j p);
    holder = λ e. cc;
  }
    where
      absurd_at : {A : Type 0} → ⊥ → A
      absurd_at h = elim h [ ]

      nobody : (j : ℕ) → holds (put i c control j) ≡ true → ⊥
      nobody j p = ground (arith, gone, o.unique j i, mine)
