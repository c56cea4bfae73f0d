-- ===== src/Locking/Atomic.antt =====
-- The interleaved calls of `tryToCommit` and `isConsistent` of src/include/xmemory.h: what they leave,
-- who excludes whom, and why some process can always go on.
use grace.Prelude.{
  ℕ, ◌≡◌, ◌≢◌, sym, ap, subst, ◌⊎◌, true, false, ◌&&◌, ◌||◌, Bool-cases, inl, inr, arith,
}
use grace.Result.{waiting}
use grace.Persist.Region.{Store, Region}
use grace.Persist.Commit
use grace.Memory.{Shared}
use grace.Memory.Commits.{Free}
use grace.Locking.{Task, Control, has_heap, Commits, Serial, Reach, start}
use grace.Locking.Owners.{holds_heap, holds_globals}
use grace.Locking.Rest.{contents}
use grace.Locking.Invariant.{Inv}
use grace.Locking.Keeping.{Reach-Inv}

-- From files that nobody has locked, whenever the globals' lock is free, the calls that have returned
-- gave the answers that they give one after the other, each as one step, in the order of their return,
-- and the files hold the bytes and the versions that these steps leave.
pub Reach-Serial :
    (s : Shared) (σ : Commits)
    → Free s
    → Reach (start s) σ
    → σ.shared.globals.held ≡ false
    → Serial s σ.history (contents σ.shared)
Reach-Serial s σ f r e =
    let v = Reach-Inv f r in subst (Serial s σ.history) (sym (v.idle e)) v.serial

-- From files that nobody has locked, no two processes are at once between taking the heap's lock and
-- giving it back, and no two between taking the globals' lock and giving it back.
pub Reach-exclusive :
    (s : Shared) (σ : Commits) (i j : ℕ)
    → Free s
    → Reach (start s) σ
    → i ≢ j
    → ((holds_heap (σ.control i) && holds_heap (σ.control j)) ≡ false)
      × ((holds_globals (σ.control i) && holds_globals (σ.control j)) ≡ false)
Reach-exclusive s σ i j f r n =
    let v = Reach-Inv f r in
    (ground (arith, v.heap_lock.unique i j, n), ground (arith, v.globals_lock.unique i j, n))

-- A process that holds the heap's lock and waits for the globals' lock. One that waits for the heap's lock
-- holds none.
abbrev pub Waits : Commits → Control → Type 0
Waits σ c =
    (w : Task) × (r : Region) × (c ≡ has_heap w r)
    × (Commit.lock σ.shared.globals w.memory.globals ≡ waiting)

lock-ne-waiting : (s : Store) (r : Region) → s.held ≡ false → Commit.lock s r ≢ waiting
unfolding Commit.lock
lock-ne-waiting s r e = rw e (λ h. cc)

unblocked :
    {s : Shared} {σ : Commits}
    → Inv s σ
    → (σ.shared.heap.held ≡ true) ⊎ (σ.shared.globals.held ≡ true)
    → (j : ℕ) × ((holds_heap (σ.control j) || holds_globals (σ.control j)) ≡ true)
      × (¬ Waits σ (σ.control j))
unblocked {σ} v taken = elim (Bool-cases σ.shared.globals.held) [
  | inl held ↦
      let (j, h) = v.globals_lock.holder held in
      (j, ground (arith, h), λ (w, r, e, q). cc (h, ap holds_globals e))
  | inr free ↦ elim taken [
    | inl held ↦
        let (j, h) = v.heap_lock.holder held in
        (
          j,
          ground (arith, h),
          λ (w, r, e, q). lock-ne-waiting σ.shared.globals w.memory.globals free q,
        )
    | inr held ↦ cc
  ]
]

-- From files that nobody has locked, whenever the heap's lock or the globals' lock is held, so that others
-- may have to wait for it, some process holds one of the two and does not itself wait for a lock. So
-- no lock is left behind by a process that has gone on without it, and the processes do not wait for
-- one another in a circle.
pub Reach-unblocked :
    (s : Shared) (σ : Commits)
    → Free s
    → Reach (start s) σ
    → (σ.shared.heap.held ≡ true) ⊎ (σ.shared.globals.held ≡ true)
    → (j : ℕ) × ((holds_heap (σ.control j) || holds_globals (σ.control j)) ≡ true)
      × (¬ Waits σ (σ.control j))
Reach-unblocked s σ f r taken = unblocked (Reach-Inv f r) taken
