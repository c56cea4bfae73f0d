-- ===== src/Transaction/Serial.antt =====
-- `tryToCommit` of src/include/xmemory.h at the end of a transaction, and its program run alone.
use grace.Prelude.{
  ◌≡◌, refl, sym, subst, fun_ext, ◌∙◌, ◌↔◌, inl, inr, Bool, true, false, Bool-cases,
}
use mathlib.Core.Bool.{false≢true}
use grace.Result.{ok}
use grace.Persist.Isolation.{AllCurrent}
use grace.Persist.Interference.{NoWrap, Published-bytes, Published-Evolves}
use grace.Memory.{Shared, Memory, try_to_commit}
use grace.Memory.Tracking.{Tracked}
use grace.Memory.Commits.{
  Free, passes, lock_both, own_both, passes-AllCurrent, committed, released, Commits,
  try_to_commit-current, try_to_commit-stale,
}
use grace.Transaction.{Program, finish, image, run, overlay, Interferes, Runs, Started}
use grace.Transaction.Follows.{Follows}
use grace.Transaction.Steps.{Runs-Follows}

-- What `tryToCommit` did, by the result that it gave.
pub commits_of :
    {s s' : Shared} {m m' : Memory}
    → Tracked s m
    → Free s
    → try_to_commit s m ≡ ok (true, s', m')
    → Commits s m s' × (AllCurrent s.heap m.heap) × (AllCurrent s.globals m.globals)
commits_of {s} {s'} {m} t f e = elim (Bool-cases (passes (lock_both s) (own_both m))) [
  | inl pass ↦
      let (s₁, w) = try_to_commit-current t f pass in
      let same : s₁ ≡ s' = cc (w.result) in
      let c = (passes-AllCurrent t).0 pass in (subst (λ z. Commits s m z) same w, c.0, c.1)
  | inr stale ↦ absurd (false≢true (cc (try_to_commit-stale s m f stale)))
]

-- The commit writes what the process saw over the shared bytes.
Commits-overlay :
    {s s' : Shared} {m : Memory} → Tracked s m → Commits s m s' → image s' ≡ overlay m (image s)
Commits-overlay t w = λ i. record {
  heap = fun_ext (Published-bytes t.heap w.heap) i;
  globals = fun_ext (Published-bytes t.globals w.globals) i;
}

-- A transaction that has come to its end and commits.
pub Follows-commit :
    {p : Program} {s s' : Shared} {m m' : Memory}
    → Follows p s m finish
    → Free s
    → try_to_commit s m ≡ ok (true, s', m')
    → image s' ≡ run p (image s)
unfolding run
Follows-commit {p} {s} {s'} {m} w f e =
    let (z, heap_current, globals_current) = commits_of w.tracked f e in
    Commits-overlay w.tracked z
    ∙ sym (
        w.same (image s) (record {
          heap_current = heap_current;
          globals_current = globals_current;
          heap_agrees = λ i h. refl;
          globals_agrees = λ i h. refl;
        }))

-- Serializability. Let a transaction begin with its regions apart, all pages closed and nothing
-- recorded and run as `p` to its end, its loads and stores interleaved in any way with commits of other
-- processes. If `tryToCommit`, called with both locks free, then succeeds, the shared memory of heap
-- and globals is what `p` makes of it when it is run alone, from the memory just before the commit.
pub commit-run :
    {p : Program} {m₀ : Memory} {s s' : Shared} {m m' : Memory}
    → Started m₀
    → Runs p m₀ s m finish
    → Free s
    → try_to_commit s m ≡ ok (true, s', m')
    → image s' ≡ run p (image s)
commit-run b r f e = Follows-commit (Runs-Follows b r) f e

-- At the end of a transaction that began with its regions apart, all pages closed and nothing recorded,
-- with both locks free, `tryToCommit` gives an answer: it neither waits nor fails an assertion. The
-- answer is yes exactly if no page that was read has a new version.
pub commit_decides :
    {p : Program} {m₀ : Memory} {s : Shared} {m : Memory}
    → Started m₀
    → Runs p m₀ s m finish
    → Free s
    → (b : Bool) × (s' : Shared) × (m' : Memory) × (try_to_commit s m ≡ ok (b, s', m'))
      × ((b ≡ true) ↔ (AllCurrent s.heap m.heap × AllCurrent s.globals m.globals))
commit_decides {s} {m} b r f =
    let t = (Runs-Follows b r).tracked in
    elim (Bool-cases (passes (lock_both s) (own_both m))) [
      | inl pass ↦
          let (s₁, w) = try_to_commit-current t f pass in
          (true, s₁, committed m, w.result, (λ e. (passes-AllCurrent t).0 pass, λ c. refl))
      | inr stale ↦ (
        false,
        s,
        released m,
        try_to_commit-stale s m f stale,
        (λ e. cc, λ c. sym stale ∙ (passes-AllCurrent t).1 c),
      )
    ]

-- What `tryToCommit` left when it refused.
pub refused_of :
    {s s' : Shared} {m m' : Memory}
    → Tracked s m
    → Free s
    → try_to_commit s m ≡ ok (false, s', m')
    → (s' ≡ s) × (m' ≡ released m)
refused_of {s} {s'} {m} {m'} t f e = elim (Bool-cases (passes (lock_both s) (own_both m))) [
  | inl pass ↦ absurd (false≢true (cc ((try_to_commit-current t f pass).1.result)))
  | inr stale ↦ let g = try_to_commit-stale s m f stale in (cc, cc)
]

-- A commit at the end of a transaction that began with its regions apart, all pages closed and nothing
-- recorded, tried with both locks free, that is refused leaves the shared files and the locks as they
-- were.
pub refused_commit :
    {p : Program} {m₀ : Memory} {s s' : Shared} {m m' : Memory}
    → Started m₀
    → Runs p m₀ s m finish
    → Free s
    → try_to_commit s m ≡ ok (false, s', m')
    → s' ≡ s
refused_commit b r f e = (refused_of (Runs-Follows b r).tracked f e).0

-- A commit of a transaction that began with its regions apart, all pages closed and nothing recorded is
-- one of the steps that other transactions allow for: every page that it writes gets a later version,
-- and no other page changes, provided that no page written has the last version number. Both locks are
-- free again.
pub commit-Interferes :
    {p : Program} {m₀ : Memory} {s s' : Shared} {m m' : Memory}
    → Started m₀
    → Runs p m₀ s m finish
    → Free s
    → NoWrap s.heap m.heap.dirtied
    → NoWrap s.globals m.globals.dirtied
    → try_to_commit s m ≡ ok (true, s', m')
    → Interferes s s' × Free s'
commit-Interferes {s} {m} b r f heap_room globals_room e =
    let t = (Runs-Follows b r).tracked in
    let (z, heap_current, globals_current) = commits_of t f e in
    (
      record {
        heap = Published-Evolves t.heap heap_current heap_room z.heap;
        globals = Published-Evolves t.globals globals_current globals_room z.globals;
      },
      record { heap = z.heap.same_lock ∙ f.heap; globals = z.globals.same_lock ∙ f.globals },
    )
