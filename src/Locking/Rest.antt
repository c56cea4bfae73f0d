-- ===== src/Locking/Rest.antt =====
-- What remains of a call of `tryToCommit` or `isConsistent` of src/include/xmemory.h once it has both
-- locks, run without interruption.
use grace.Prelude.{ℕ, ◌≡◌, ◌⊎◌, refl, sym, ap, ◌∙◌, subst, Bool, true, false, List, [], ◌∷◌, arith}
use grace.Result.{Result, ok, ◌>>=◌, >>=-eq-ok, >>-eq-ok}
use grace.Persist.Region.{Store, Region}
use grace.Persist.Commit
use grace.Memory.{
  Shared, Memory, lock, unlock, consistent, commit_both, is_consistent, try_to_commit,
}
use grace.Memory.Commits.{locked_store, locked_region, lock_both, own_both}
use grace.Locking.Owners.{holds_heap}
use grace.Locking.{
  Call, commit_call, check_call, Task, Control, outside, has_heap, has_both, heap_committed,
  answered, heap_freed, attempt, set_heap, set_globals,
}

-- The files with both locks free.
abbrev pub contents : Shared → Shared
contents s = record {
  heap = record s.heap { held = false };
  globals = record s.globals { held = false };
}

abbrev pub returns : Bool → Shared → Result (Bool × Shared)
returns b s = ok (b, contents s)

unfoldable pub rest_committed : Memory → Shared → Result (Bool × Shared)
rest_committed m s = do (g, r) ← Commit.commit s.globals m.globals; returns true (set_globals g s)

unfoldable pub rest_decided : Call → Memory → Shared → Bool → Result (Bool × Shared)
unfolding rest_committed
rest_decided commit_call m s true = do
  (h, r) ← Commit.commit s.heap m.heap
  rest_committed (record m { heap = r }) (set_heap h s)
rest_decided commit_call m s false = returns false s
rest_decided check_call m s b = returns b s

abbrev pub rest : Control → Shared → Result (Bool × Shared)
rest (has_both w m) s = consistent s m >>= λ b. rest_decided w.call m s b
rest (heap_committed w m) s = rest_committed m s
rest (answered w b m) s = returns b s
rest (heap_freed w b m) s = returns b s
rest outside s = returns false s
rest (has_heap w r) s = returns false s

-- The whole call, for a process with both locks or the globals' lock.
abbrev pub whole : Control → Shared → Result (Bool × Shared)
whole (has_both w m) s = attempt w s
whole (heap_committed w m) s = attempt w s
whole (answered w b m) s = attempt w s
whole (heap_freed w b m) s = attempt w s
whole outside s = returns false s
whole (has_heap w r) s = returns false s

-- With both locks, what remains is the whole call.
pub attempt-eq-rest :
    (c : Call) (m : Memory) (s : Shared)
    → attempt (record { call = c; memory = m }) (contents s)
      ≡ (consistent (lock_both s) (own_both m) >>= λ b. rest_decided c (own_both m) (lock_both s) b)
unfolding attempt is_consistent try_to_commit lock commit_both unlock rest_decided rest_committed
    Commit.lock Commit.unlock
attempt-eq-rest commit_call m s = ground arith
attempt-eq-rest check_call m s = ground arith

module _ (w : Task) (m : Memory) (s : Shared) where
  pub rest-checks :
      (b : Bool)
      → consistent s m ≡ ok b
      → (w.call ≡ check_call) ⊎ (b ≡ false)
      → rest (has_both w m) s ≡ returns b s
  unfolding rest_decided
  rest-checks b e why = rw e (ground arith)

  pub rest-commits_heap :
      (h : Store) (r : Region)
      → w.call ≡ commit_call
      → consistent s m ≡ ok true
      → Commit.commit s.heap m.heap ≡ ok (h, r)
      → rest (has_both w m) s ≡ rest (heap_committed w (record m { heap = r })) (set_heap h s)
  unfolding rest_decided
  rest-commits_heap h r called e done = rw (e, called, done) refl

  pub rest-commits_globals :
      (g : Store) (r : Region)
      → Commit.commit s.globals m.globals ≡ ok (g, r)
      → rest (heap_committed w m) s ≡ returns true (set_globals g s)
  unfolding rest_committed
  rest-commits_globals g r done = rw done refl

commit_page-held :
    (s : Store) (r : Region) (p : ℕ) {s' : Store}
    → Commit.commit_page s r p ≡ ok s'
    → s'.held ≡ s.held
unfolding Commit.commit_page
commit_page-held s r p e = ground arith

commit_pages-held :
    (s : Store) (r : Region) (l : List ℕ) {s' : Store}
    → Commit.commit_pages s r l ≡ ok s'
    → s'.held ≡ s.held
unfolding Commit.commit_pages
commit_pages-held s r [] e = ground arith
commit_pages-held s r (p ∷ l) e =
    let (t, first, others) =
      >>=-eq-ok (Commit.commit_page s r p) (λ t. Commit.commit_pages t r l) e in
    commit_pages-held t r l others ∙ commit_page-held s r p first

-- A commit leaves the lock alone.
pub commit-held :
    (s : Store) (r : Region) {s' : Store} {r' : Region}
    → Commit.commit s r ≡ ok (s', r')
    → s'.held ≡ s.held
unfolding Commit.commit
commit-held s r {s'} e =
    let pages = Commit.commit_pages s r r.dirtied in
    let last : Store → Result (Store × Region) = λ t. ok (t, Commit.update_pages r.dirtied r) in
    let (t, done, answer) = >>=-eq-ok pages last (>>-eq-ok r.is_locked (pages >>= last) e).1 in
    let same : s' ≡ t = cc (answer) in
    ap (λ (x : Store). x.held) same ∙ commit_pages-held s r r.dirtied done

-- What is known of a lock that was taken.
pub lock-eq-ok :
    (s : Store) (r : Region) {s' : Store} {r' : Region}
    → Commit.lock s r ≡ ok (s', r')
    → (s.held ≡ false) × (locked_store s ≡ s') × (locked_region r ≡ r')
unfolding Commit.lock
lock-eq-ok s r e = (ground arith, ground arith, ground arith)

-- Without the heap's lock the rest of a call reads the files' contents only.
pub rest-contents :
    (c : Control) (s s' : Shared)
    → holds_heap c ≡ false
    → contents s' ≡ contents s
    → rest c s' ≡ rest c s
rest-contents (heap_freed w b m) s s' h e = ap (λ x. ok (b, x)) e
rest-contents outside s s' h e = ap (λ x. ok (false, x)) e
rest-contents (has_heap w r) s s' h e = cc
rest-contents (has_both w m) s s' h e = cc
rest-contents (heap_committed w m) s s' h e = cc
rest-contents (answered w b m) s s' h e = cc

-- With the second lock, all of the call remains.
pub rest-locked :
    (w : Task) (s : Shared) (r : Region)
    → locked_region w.memory.heap ≡ r
    → s.heap.held ≡ true
    → rest
        (has_both w (record w.memory { heap = r; globals = locked_region w.memory.globals }))
        (set_globals (locked_store s.globals) s)
      ≡ attempt w (contents s)
rest-locked w s r e held =
    subst
      (λ x.
        rest (has_both w (record w.memory { heap = x; globals = locked_region w.memory.globals }))
          (set_globals (locked_store s.globals) s)
        ≡ attempt w (contents s))
      e
      (subst
        (λ b.
          rest (has_both w (own_both w.memory))
            (record { heap = record s.heap { held = b }; globals = locked_store s.globals })
          ≡ attempt w (contents s))
        (sym held) (sym (attempt-eq-rest w.call w.memory s)))
