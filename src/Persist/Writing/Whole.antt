-- ===== src/Persist/Writing/Whole.antt =====
-- `commit` of src/include/xpersist.h as its single writes.
use grace.Prelude.{
  ℕ, zero, suc, ◌+◌, ◌*◌, ◌/◌, ◌%◌, ◌≤◌, ◌<◌, ◌≡◌, ◌≢◌, ap, ◌∙◌, subst, fun_ext, true, false, ◌&&◌,
  List, [], ◌∷◌, ltb, ◌==◌, if◌then◌else◌, arith,
}
use grace.Defines.{page_size}
use grace.Result.{Result, ok, ◌>>=◌, >>=-eq-ok, >>-eq-ok}
use grace.Persist.Mapping.{view}
use grace.Persist.PageSet.{insert, has}
use grace.Persist.Region.{Store, Region, int_mod, transient, local_version, version_array_length}
use grace.Persist.Commit.{commit_page, commit_pages, update_pages, commit}
use grace.Persist.Isolation.{Tracks, AllCurrent}
use grace.Persist.Interference.{NoWrap}
use grace.Persist.Writing.{
  Pages, none, mark, copy_byte, number, begins, copies, numbers, Current, begins-Moves,
  copies-Moves, numbers-Moves, Writes, nothing, and_then,
}

-- The first `n` bytes of the page are copied.
abbrev copied : Region → ℕ → ℕ → Store → Store
copied r p n s = record s {
  memory = λ i. if i / page_size == p && ltb (i % page_size) n then transient s r i else s.memory i;
}

module _ (r : Region) (private : r.is_private ≡ true) (p : ℕ) (s : Store) where
  with_memory : (ℕ → ℕ) → Store
  with_memory m = record s { memory = m }

  copied-zero : s ≡ copied r p 0 s
  unfolding with_memory
  copied-zero = ap with_memory (fun_ext byte)
    where
      byte : (i : ℕ) → s.memory i ≡ (copied r p 0 s).memory i
      byte i = ground arith

  copied-suc :
      (n : ℕ)
      → n < page_size
      → copy_byte r (p * page_size + n) (copied r p n s) ≡ copied r p (suc n) s
  unfolding transient view with_memory
  copied-suc n h = ap with_memory (fun_ext byte)
    where
      byte :
          (i : ℕ)
          → (copy_byte r (p * page_size + n) (copied r p n s)).memory i
            ≡ (copied r p (suc n) s).memory i
      byte i = ground (arith, private, h)

  -- The loop of `memcpy`.
  copies-Writes :
      {s₀ : Store} {u₀ : Pages} (n : ℕ)
      → n ≤ page_size
      → Writes r s₀ u₀ s (mark p true none)
      → Writes r s₀ u₀ (copied r p n s) (mark p true none)
  copies-Writes {s₀} {u₀} zero h c = subst (λ x. Writes r s₀ u₀ x (mark p true none)) copied-zero c
  copies-Writes {s₀} {u₀} (suc n) h c =
      let i = p * page_size + n in
      let here : (i / page_size == p) ≡ true = ground arith in
      let marked : mark p true none (i / page_size) ≡ true = ground (arith, here) in
      subst (λ x. Writes r s₀ u₀ x (mark p true none)) (copied-suc n (omega arith))
        (and_then (copies-Writes n (omega arith) c) (copies i marked)
          (copies-Moves r (copied r p n s) (mark p true none) i marked))

  -- The page is written, and numbered anew.
  abbrev written : Store
  written = number r p (copied r p page_size s)

  page_store : Store
  page_store = record s {
    memory = λ i. if i / page_size == p then transient s r i else s.memory i;
    versions = λ q. if q == p then (local_version s r p + 1) % int_mod else s.versions q;
  }

  commit_page-written : {s' : Store} → commit_page s r p ≡ ok s' → written ≡ s'
  unfolding commit_page with_memory local_version page_store
  commit_page-written {s'} e =
      let (_, answer) = >>-eq-ok (ltb p (version_array_length r)) (ok page_store) e in
      let same : page_store ≡ s' = cc (answer) in
      ap (λ m. number r p (with_memory m)) (fun_ext byte) ∙ same
    where
      byte :
          (i : ℕ)
          → (copied r p page_size s).memory i
            ≡ (if i / page_size == p then transient s r i else s.memory i)
      byte i = ground arith

  unmarked : mark p false (mark p true none) ≡ none
  unmarked = fun_ext each
    where
      each : (q : ℕ) → mark p false (mark p true none) q ≡ false
      each q = ground arith

  commit_page-Writes :
      {s₀ s' : Store} {u₀ : Pages}
      → Current s r p
      → commit_page s r p ≡ ok s'
      → Writes r s₀ u₀ s none
      → Writes r s₀ u₀ s' none
  unfolding local_version
  commit_page-Writes {s₀} {s'} {u₀} now e c =
      let under_way = and_then c (begins p) (begins-Moves s none p) in
      let marked : mark p true none p ≡ true = ground arith in
      let full = copies-Writes page_size (omega arith) under_way in
      subst (λ u. Writes r s₀ u₀ s' u) unmarked
        (subst (λ x. Writes r s₀ u₀ x (mark p false (mark p true none))) (commit_page-written e)
          (and_then full (numbers p marked)
            (numbers-Moves r (copied r p page_size s) (mark p true none) p now)))

  -- The other pages are as current as they were.
  commit_page-Current :
      {s' : Store} (q : ℕ) → q ≢ p → commit_page s r p ≡ ok s' → Current s r q → Current s' r q
  unfolding commit_page page_store local_version view
  commit_page-Current {s'} q other e now =
      let (_, answer) = >>-eq-ok (ltb p (version_array_length r)) (ok page_store) e in
      let same : page_store ≡ s' = cc (answer) in
      subst (λ x. Current x r q) same (ground (arith, other, now.0, now.1))

-- The pages come in order.
abbrev Below : ℕ → List ℕ → Type 0
Below p [] = Unit {0}
Below p (q ∷ qs) = p < q

abbrev pub InOrder : List ℕ → Type 0
InOrder [] = Unit {0}
InOrder (p ∷ ps) = Below p ps × InOrder ps

InOrder-lt : (p : ℕ) (ps : List ℕ) → InOrder (p ∷ ps) → (q : ℕ) → has q ps ≡ true → p < q
unfolding has
InOrder-lt p [] v q h = cc
InOrder-lt p (x ∷ ps) (lt, v) q h = ground (arith, InOrder-lt x ps v q)

commit_pages-Writes :
    (r : Region) (private : r.is_private ≡ true) (l : List ℕ) (s₀ s s' : Store) (u₀ : Pages)
    → InOrder l
    → ((p : ℕ) → has p l ≡ true → Current s r p)
    → commit_pages s r l ≡ ok s'
    → Writes r s₀ u₀ s none
    → Writes r s₀ u₀ s' none
unfolding commit_pages has
commit_pages-Writes r private [] s₀ s s' u₀ v now e c =
    let same : s ≡ s' = cc (e) in subst (λ x. Writes r s₀ u₀ x none) same c
commit_pages-Writes r private (p ∷ l) s₀ s s' u₀ v now e c =
    let (s₁, first, others) = >>=-eq-ok (commit_page s r p) (λ x. commit_pages x r l) e in
    commit_pages-Writes r private l s₀ s₁ s' u₀ v.1
      (λ q h.
        commit_page-Current r private p s q
          (λ same. absurd (omega (arith, InOrder-lt p l v q h, same))) first
          (now q (ground (arith, h))))
      others (commit_page-Writes r private p s (now p (ground arith)) first c)

-- A page set is in order.
insert-InOrder : (p : ℕ) (l : List ℕ) → InOrder l → InOrder (insert p l)
unfolding insert
insert-InOrder p [] v = (tt, tt)
insert-InOrder p (q ∷ []) v = ground arith
insert-InOrder p (q ∷ x ∷ l) (lt, v) = ground (arith, insert-InOrder p (x ∷ l) v)

-- A commit that returns, after a check that found every page read current, of pages in order none of which
-- is at the last version number, is a sequence of single writes: of bytes to pages that are under way, and
-- of the new version of such a page, which is under way no more. Every one of them is a move that
-- other transactions allow for, and no page is under way before the first and after the last.
pub commit-Writes :
    (s : Store) (r : Region) {s' : Store} {r' : Region}
    → Tracks s r
    → AllCurrent s r
    → NoWrap s r.dirtied
    → InOrder r.dirtied
    → commit s r ≡ ok (s', r')
    → Writes r s none s' none
unfolding commit local_version view
commit-Writes s r {s'} t c room ordered e =
    let pages = commit_pages s r r.dirtied in
    let last : Store → Result (Store × Region) = λ x. ok (x, update_pages r.dirtied r) in
    let (s₁, done, answer) = >>=-eq-ok pages last (>>-eq-ok r.is_locked (pages >>= last) e).1 in
    let same : s₁ ≡ s' = cc (answer) in
    subst (λ x. Writes r s none x none) same
      (commit_pages-Writes r t.private r.dirtied s s s₁ none ordered
        (λ p h.
          let read = t.dirty_read p h in (ground (arith, t.numbered p read, c p read), room p h))
        done nothing)
