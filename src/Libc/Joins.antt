-- ===== src/Libc/Joins.antt =====
-- `pthread_create` and `pthread_join` of src/source/libgrace.cpp together.
use grace.Prelude.{
  ℕ, ◌≡◌, ◌≢◌, sym, ap, ◌∙◌, true, false, Option, some, List, [], ◌∷◌, ◌++◌, ◌==◌, arith,
}
use grace.Result.{ok, >>=-eq-ok}
use grace.Memory.{Shared}
use grace.Run.{Mark, Flow, goes_on, rolls_back, waited_for, began, atomic_begin, atomic_end}
use grace.Thread.{
  ThreadStatus, Thread, ThreadFunction, forked_off, spawn, exit_thread, join_forked, after_join,
  Disposal, sync,
}
use grace.Thread.Chain.{spawn_chain}
use grace.Libc.Threads.{pthread_create, pthread_join}

-- What `after_join` gives to a process that goes on, for a child whose id is not 0.
joined :
    (status : ThreadStatus) (t q : Thread) (f : Flow) (w child : ℕ) (d : Disposal)
    → status.tid ≡ child
    → child ≢ 0
    → after_join status f t ≡ (goes_on, q, some (w, d))
    → (w ≡ status.retval) × (q.run.log ≡ (t.run.log ++ (waited_for child ∷ [])) ++ (began ∷ []))
unfolding after_join join_forked atomic_begin
joined status t q goes_on w child d e n h =
    let named : (status.tid == 0) ≡ false = ground (arith, e, n) in
    let went = rw (named, e) at h in
    (cc, ap (λ (x : Flow × Thread × Option (ℕ × Disposal)). x.1.run.log) (sym went))
joined status t q rolls_back w child d e n h = cc

synced :
    (status : ThreadStatus) (s s' : Shared) (t q : Thread) (w child : ℕ) (d : Disposal)
    → status.forked ≡ true
    → status.tid ≡ child
    → child ≢ 0
    → sync (some status) s t ≡ ok (s', goes_on, q, some (w, d))
    → (w ≡ status.retval)
      × (log : List Mark) × (q.run.log ≡ (log ++ (waited_for child ∷ [])) ++ (began ∷ []))
unfolding sync
synced status s s' t q w child d forked e n h =
    let ((f, s₁, r), e₁, e₂) = >>=-eq-ok (atomic_end s t.run) _ (rw (forked, sync) at h) in
    let (same, log) = joined status (record t { run = r }) q f w child d e n (cc) in
    (same, r.log, log)

-- Let `pthread_create` fork a child, whose id is not 0, and let the thread function's result in the child
-- be `v`. A `pthread_join` by any process on the status object, as the child leaves it, that is
-- not rolled back, gives `v`; the last that is seen of it before its next transaction is that it
-- waited for that child. Both calls answer 0.
pub join-create :
    (fn : ThreadFunction) (child v : ℕ) (garbage status : ThreadStatus) (s s' : Shared)
    (t parent c : Thread) (k : ℕ)
    → pthread_create false fn child garbage s t ≡ ok (s', forked_off parent status c, k)
    → child ≢ 0
    → (ended : Thread) (s₂ s₃ : Shared) (p q : Thread) (w : ℕ) (d : Disposal) (k' : ℕ)
    → pthread_join (some (exit_thread v status ended).1) s₂ p ≡ ok (s₃, goes_on, q, some (w, d), k')
    → (w ≡ v)
      × ((log : List Mark) × (q.run.log ≡ (log ++ (waited_for child ∷ [])) ++ (began ∷ [])))
      × (k ≡ 0)
      × (k' ≡ 0)
unfolding pthread_create pthread_join exit_thread
join-create fn child v garbage status s s' t parent c k e n ended s₂ s₃ p q w d k' h =
    let (made, e₁, e₂) = >>=-eq-ok (spawn false fn child garbage s t) _ e in
    let (_, _, named, forked, _) =
      spawn_chain fn child garbage status s s' t parent c (e₁ ∙ (cc)) in
    let last = (exit_thread v status ended).1 in
    let (y, h₁, h₂) = >>=-eq-ok (sync (some last) s₂ p) _ h in
    let (same, log, told) = synced last s₂ s₃ p q w child d forked named n (h₁ ∙ (cc)) in
    (same, (log, told), cc, cc)
