-- ===== src/Thread/Chain.antt =====
-- The order in which spawned threads wait for one another, and what becomes of their status objects
-- (src/source/xthread.cpp).
use grace.Prelude.{
  ℕ, ◌+◌, ◌≡◌, ◌≢◌, refl, ap, sym, subst, ◌∙◌, ◌⊎◌, inl, inr, Bool, true, false, Option, none, some,
  Bool-cases, ◌==◌,
}
use grace.Result.{ok, >>=-eq-ok}
use grace.Memory.{Shared, Memory}
use grace.Memory
use grace.Run.{Run, Flow, goes_on, rolls_back, atomic_begin, atomic_end, set_pred}
use grace.Run.Pred.{atomic_end-pred}
use grace.Thread.{
  Place, shared_pages, tstat_heap, ThreadStatus, Thread, ThreadFunction, run_in_place, fork_parent,
  fork_child, new_status, Spawned, in_place, forked_off, not_forked, fork_failed, rolled,
  fork_spawn, after_end, spawn, Disposal, freed, unmapped, join_forked, after_join, sync,
}

-- How `spawn` came to fork.
pub record Forks (child : ℕ) (garbage : ThreadStatus) (s s' : Shared) (t : Thread) (x : Spawned)
    : Type 0 where
  pub ended : Run
  pub went_on : atomic_end s t.run ≡ ok (goes_on, s', ended)
  pub result : x ≡ fork_spawn child garbage (record t { run = ended })

fork_of :
    (child : ℕ) (garbage : ThreadStatus) (s s' : Shared) (t : Thread) (x : Spawned) (f : Flow)
    (r : Run)
    → atomic_end s t.run ≡ ok (f, s', r)
    → after_end child garbage f (record t { run = r }) ≡ x
    → ((u : Thread) → x ≢ rolled u)
    → Forks child garbage s s' t x
unfolding after_end
fork_of child garbage s s' t x goes_on r e h kept = record {
  ended = r;
  went_on = e;
  result = sym h;
}
fork_of child garbage s s' t x rolls_back r e h kept = absurd (kept (record t { run = r }) (sym h))

pub spawn-Forks :
    (fn : ThreadFunction) (child : ℕ) (garbage : ThreadStatus) (s s' : Shared) (t : Thread)
    (x : Spawned)
    → spawn false fn child garbage s t ≡ ok (s', x)
    → ((u : Thread) → x ≢ rolled u)
    → Forks child garbage s s' t x
unfolding spawn
spawn-Forks fn child garbage s s' t x e kept =
    let (z, e₁, e₂) = >>=-eq-ok (atomic_end s t.run) _ e in
    let same : z.1 ≡ s' = cc in
    fork_of child garbage s s' t x z.0 z.2 (e₁ ∙ ap (λ y. ok (z.0, y, z.2)) same) (cc) kept

-- A `fork` that gave a child.
pub forked_ways :
    (child : ℕ) (garbage status : ThreadStatus) (t parent c : Thread)
    → forked_off parent status c ≡ fork_spawn child garbage t
    → (parent ≡ (fork_parent child (new_status garbage) t).0)
      × (status ≡ (fork_parent child (new_status garbage) t).1)
      × (c ≡ fork_child child t)
unfolding fork_spawn
forked_ways child garbage status t parent c e = elim (Bool-cases (child == fork_failed)) [
  | inl y ↦ let h = rw y at e in cc
  | inr y ↦ let h = rw y at e in (cc, cc, cc)
]

pub forked_parts :
    (child : ℕ) (garbage status : ThreadStatus) (t parent c : Thread)
    → forked_off parent status c ≡ fork_spawn child garbage t
    → (parent.run.pred ≡ child)
      × (c.run.tid ≡ child)
      × (status.tid ≡ child)
      × (status.forked ≡ true)
      × (status.place ≡ shared_pages)
      × (c.run.pred ≡ t.run.pred)
unfolding fork_parent fork_child set_pred atomic_begin
forked_parts child garbage status t parent c e =
    let (p, q, k) = forked_ways child garbage status t parent c e in
    (
      ap (λ x. x.run.pred) p,
      ap (λ x. x.run.tid) k,
      ap (λ x. x.tid) q,
      ap (λ x. x.forked) q,
      ap (λ x. x.place) q,
      ap (λ x. x.run.pred) k,
    )

-- A thread that is forked off: the parent waits for it from now on, and it waits for whom the parent
-- waited before, if the parent's transaction touched nothing and so did not wait itself, and else for
-- nobody. The status object names the child.
pub spawn_chain :
    (fn : ThreadFunction) (child : ℕ) (garbage status : ThreadStatus) (s s' : Shared)
    (t parent c : Thread)
    → spawn false fn child garbage s t ≡ ok (s', forked_off parent status c)
    → (parent.run.pred ≡ child)
      × (c.run.tid ≡ child)
      × (status.tid ≡ child)
      × (status.forked ≡ true)
      × (((Memory.is_nop t.run.memory ≡ true) × (c.run.pred ≡ t.run.pred))
          ⊎ ((Memory.is_nop t.run.memory ≡ false) × (c.run.pred ≡ 0)))
spawn_chain fn child garbage status s s' t parent c e =
    let w = spawn-Forks fn child garbage s s' t (forked_off parent status c) e (λ u h. cc) in
    let (p, k, q, f, _, same) =
      forked_parts child garbage status (record t { run = w.ended }) parent c w.result in
    (p, k, q, f, chained w.ended same (atomic_end-pred s s' t.run w.ended w.went_on))
  where
    chained :
        (r : Run)
        → c.run.pred ≡ r.pred
        → ((Memory.is_nop t.run.memory ≡ true) × (r.pred ≡ t.run.pred))
          ⊎ ((Memory.is_nop t.run.memory ≡ false) × (r.pred ≡ 0))
        → ((Memory.is_nop t.run.memory ≡ true) × (c.run.pred ≡ t.run.pred))
          ⊎ ((Memory.is_nop t.run.memory ≡ false) × (c.run.pred ≡ 0))
    chained r same (inl (n, kept)) = inl (n, same ∙ kept)
    chained r same (inr (n, none_left)) = inr (n, same ∙ none_left)

-- Whether an allocator takes back objects of its own.
abbrev pub Suits : Place → Disposal → Type 0
Suits shared_pages unmapped = Unit {0}
Suits tstat_heap freed = Unit {0}
Suits _ _ = ⊥

-- The status objects that `spawn` gives out.
abbrev pub status_of : Spawned → Option ThreadStatus
status_of (in_place t status) = some status
status_of (forked_off parent status child) = some status
status_of (not_forked t status) = some status
status_of (rolled t) = none

fork_spawn-status :
    (child : ℕ) (garbage : ThreadStatus) (t : Thread)
    → status_of (fork_spawn child garbage t) ≡ some (fork_parent child (new_status garbage) t).1
unfolding fork_spawn
fork_spawn-status child garbage t = elim (Bool-cases (child == fork_failed)) [
  | inl y ↦ rw y refl
  | inr y ↦ rw y refl
]

abbrev Marked : ThreadStatus → Type 0
Marked status =
    ((status.forked ≡ true) × (status.place ≡ shared_pages))
    ⊎ ((status.forked ≡ false) × (status.place ≡ tstat_heap))

in_place-Marked :
    (fn : ThreadFunction) (t t' : Thread) (status : ThreadStatus)
    → run_in_place fn t ≡ ok (t', status)
    → Marked status
unfolding run_in_place
in_place-Marked fn t t' status e =
    let (y, e₁, e₂) = >>=-eq-ok (fn (record t { nesting_level = t.nesting_level + 1 })) _ e in
    let made : record { tid = 0; retval = y.1; forked = false; place = tstat_heap } ≡ status = cc in
    inr (ap (λ x. x.forked) (sym made), ap (λ x. x.place) (sym made))

spawn-Marked :
    (in_process : Bool) (fn : ThreadFunction) (child : ℕ) (garbage status : ThreadStatus)
    (s s' : Shared) (t : Thread) (x : Spawned)
    → spawn in_process fn child garbage s t ≡ ok (s', x)
    → status_of x ≡ some status
    → Marked status
unfolding spawn fork_parent
spawn-Marked true fn child garbage status s s' t x e h =
    let (z, e₁, e₂) = >>=-eq-ok (run_in_place fn t) _ e in
    let same : in_place z.0 z.1 ≡ x = cc in
    let which : z.1 ≡ status = cc (ap status_of same ∙ h) in
    subst Marked which (in_place-Marked fn t z.0 z.1 e₁)
spawn-Marked false fn child garbage status s s' t x e h =
    let w =
      spawn-Forks fn child garbage s s' t x e (λ u g. let bad = sym (ap status_of g) ∙ h in cc) in
    let which : (fork_parent child (new_status garbage) (record t { run = w.ended })).1 ≡ status =
      cc (
        sym (fork_spawn-status child garbage (record t { run = w.ended }))
        ∙ sym (ap status_of w.result)
        ∙ h) in
    inl (ap (λ y. y.forked) (sym which), ap (λ y. y.place) (sym which))

after_join-freed :
    (status : ThreadStatus) (f f' : Flow) (t t' : Thread) (retval : ℕ) (d : Disposal)
    → after_join status f t ≡ (f', t', some (retval, d))
    → d ≡ freed
unfolding after_join join_forked
after_join-freed status goes_on f' t t' retval d e = let same = ap (λ x. x.2) e in cc
after_join-freed status rolls_back f' t t' retval d e = let same = ap (λ x. x.2) e in cc

sync-Disposal :
    (status : ThreadStatus) (s s' : Shared) (t t' : Thread) (f : Flow) (retval : ℕ) (d : Disposal)
    → sync (some status) s t ≡ ok (s', f, t', some (retval, d))
    → ((status.forked ≡ true) × (d ≡ freed)) ⊎ ((status.forked ≡ false) × (d ≡ unmapped))
unfolding sync
sync-Disposal status s s' t t' f retval d e = elim (Bool-cases status.forked) [
  | inl forked ↦
      let (z, e₁, e₂) = >>=-eq-ok (atomic_end s t.run) _ (rw (forked, sync) at e) in
      inl (forked, after_join-freed status z.0 f (record t { run = z.2 }) t' retval d (cc))
  | inr home ↦ let g = rw (home, sync) at e in inr (home, cc)
]

-- `sync` always gives the status object of a thread to the allocator that it did not come from: that of
-- a forked thread, which lies in shared pages, to `_tstatHeap`, and that of a thread run in place, which
-- `_tstatHeap` gave, to `munmap`.
pub sync-unsuited :
    (in_process : Bool) (fn : ThreadFunction) (child : ℕ) (garbage status : ThreadStatus)
    (s₀ s₁ s s' : Shared) (t u u' : Thread) (x : Spawned) (v retval : ℕ) (f : Flow) (d : Disposal)
    → spawn in_process fn child garbage s₀ t ≡ ok (s₁, x)
    → status_of x ≡ some status
    → sync (some (record status { retval = v })) s u ≡ ok (s', f, u', some (retval, d))
    → ¬ Suits status.place d
sync-unsuited b fn child garbage status s₀ s₁ s s' t u u' x v retval f d e h g =
    unsuited (spawn-Marked b fn child garbage status s₀ s₁ t x e h)
      (sync-Disposal (record status { retval = v }) s s' u u' f retval d g)
  where
    unsuited :
        Marked status
        → ((status.forked ≡ true) × (d ≡ freed)) ⊎ ((status.forked ≡ false) × (d ≡ unmapped))
        → ¬ Suits status.place d
    unsuited (inl (y, place)) (inl (_, e)) = rw (place, e) (λ z. z)
    unsuited (inl (y, place)) (inr (z, e)) = cc
    unsuited (inr (y, place)) (inl (z, e)) = cc
    unsuited (inr (y, place)) (inr (z, e)) = rw (place, e) (λ z. z)
