-- ===== src/Thread/Exit.antt =====
-- What a forked thread does at its end (src/source/xthread.cpp, forkSpawn and run_thread).
use grace.Prelude.{
  true, false, ℕ, suc, ◌≡◌, refl, ap, sym, subst, ◌∙◌, ◌⊎◌, inl, inr, some, List, [], ◌∷◌, ◌++◌,
  arith, Bool-cases,
}
use grace.Result.{ok, >>=-eq-ok}
use grace.Memory.{Shared, Memory}
use grace.Memory
use grace.Io.{Event}
use grace.Run.{
  Run, Mark, waited_for, committed, sent, flushed, exited, Flow, goes_on, rolls_back, wait_pred,
  atomic_begin, atomic_end,
}
use grace.Run.Order.{atomic_end-nop, atomic_end_ways}
use grace.Thread.{ThreadStatus, Thread, ThreadFunction, kept_result, run_thread, exit_thread}

-- The log of a process whose transaction has ended well, and which then waits for its predecessor and
-- exits.
abbrev exit_log : Run → List Mark
exit_log r = (wait_pred r).log ++ (exited (wait_pred r).tid ∷ [])

waits :
    (r : Run) (q : ℕ)
    → r.pred ≡ suc q
    → exit_log r ≡ (r.log ++ (waited_for (suc q) ∷ [])) ++ (exited r.tid ∷ [])
unfolding wait_pred
waits r q e = ground arith

waits_not : (r : Run) → r.pred ≡ 0 → exit_log r ≡ r.log ++ (exited r.tid ∷ [])
unfolding wait_pred
waits_not r e = ground arith

end_log :
    (s s' : Shared) (u r : Run) (q : ℕ)
    → u.pred ≡ suc q
    → atomic_end s u ≡ ok (goes_on, s', r)
    → ((Memory.is_nop u.memory ≡ true)
        × (exit_log r ≡ (u.log ++ (waited_for (suc q) ∷ [])) ++ (exited r.tid ∷ [])))
      ⊎ ((Memory.is_nop u.memory ≡ false)
          × (events : List Event) × (exit_log r
              ≡ ((u.log ++ (waited_for (suc q) ∷ [])) ++ (committed ∷ sent events ∷ flushed ∷ []))
                ++ (exited r.tid ∷ [])))
end_log s s' u r q p e = elim (Bool-cases (Memory.is_nop u.memory)) [
  | inl n ↦
      let same : record u { memory = Memory.update_all u.memory } ≡ r = cc (atomic_end-nop s u n) in
      inl (
        n,
        waits r q (ap (λ x. x.pred) (sym same) ∙ p)
            ∙ ap (λ l. (l ++ (waited_for (suc q) ∷ [])) ++ (exited r.tid ∷ []))
                (ap (λ x. x.log) (sym same)),
      )
  | inr n ↦
      let (done, m, tried, way) = atomic_end_ways s s' u r goes_on q p n e in
      elim way [
        | inl (agreed, w) ↦
            inr (n, w.events, waits_not r w.pred ∙ ap (λ l. l ++ (exited r.tid ∷ [])) w.log)
        | inr (denied, w) ↦ let bad = w.flow in cc
      ]
]

kept_goes_on : (f : Flow) (result answer : ℕ) → kept_result f result ≡ some answer → f ≡ goes_on
kept_goes_on goes_on result answer e = refl
kept_goes_on rolls_back result answer e = cc

-- A forked thread whose function has returned and whose transaction ends well waits for its predecessor
-- before it exits, whatever it touched: either at the commit, before anything is committed or sent, or,
-- if it touched nothing, right before the exit.
pub exit_thread-waits :
    (fn : ThreadFunction) (s s' : Shared) (t u c : Thread) (result answer q : ℕ)
    (status : ThreadStatus)
    → fn (record t { run = atomic_begin t.run }) ≡ ok (u, result)
    → u.run.pred ≡ suc q
    → run_thread fn s t ≡ ok (s', c, some answer)
    → let log = (exit_thread answer status c).0.run.log in
      let waited = u.run.log ++ (waited_for (suc q) ∷ []) in
      ((Memory.is_nop u.run.memory ≡ true) × (log ≡ waited ++ (exited c.run.tid ∷ [])))
      ⊎ ((Memory.is_nop u.run.memory ≡ false)
          × (events : List Event) × (log
              ≡ (waited ++ (committed ∷ sent events ∷ flushed ∷ [])) ++ (exited c.run.tid ∷ [])))
unfolding run_thread exit_thread
exit_thread-waits fn s s' t u c result answer q status f p e =
    let (z, e₁, e₂) = >>=-eq-ok (atomic_end s u.run) _ (rw (f, run_thread) at e) in
    let on : z.0 ≡ goes_on = kept_goes_on z.0 result answer (cc) in
    let state : record u { run = z.2 } ≡ c = cc in
    subst
      (λ x.
        ((Memory.is_nop u.run.memory ≡ true)
          × (exit_log x ≡ (u.run.log ++ (waited_for (suc q) ∷ [])) ++ (exited x.tid ∷ [])))
        ⊎ ((Memory.is_nop u.run.memory ≡ false)
            × (events : List Event) × (exit_log x
                ≡ ((u.run.log ++ (waited_for (suc q) ∷ []))
                    ++ (committed ∷ sent events ∷ flushed ∷ []))
                  ++ (exited x.tid ∷ []))))
      (ap (λ x. x.run) state) (end_log s z.1 u.run z.2 q p (e₁ ∙ ap (λ x. ok (x, z.1, z.2)) on))
