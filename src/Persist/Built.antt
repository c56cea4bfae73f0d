-- ===== src/Persist/Built.antt =====
-- What the constructor of src/include/xpersist.h leaves when it returns.
use grace.Prelude.{
  not, subst, ℕ, ◌<◌, ◌≡◌, ◌≢◌, refl, ap, Bool, true, false, ◌&&◌, Option, none, some, ◌==◌, ltb,
  leb, if◌then◌else◌, arith,
}
use grace.Defines.{max_globals_size}
use grace.Result.{Result, ok, aborted, undefined, >>=-eq-ok, >>-eq-ok}
use grace.Persist.Region.{Store, Region, transient}
use grace.Persist.Construct.{
  Answers, is_mapped, copy_start, mapped_at, check_maps, construct, globals_start, globals_size,
  construct_globals,
}

-- What is known when `construct` returns.
pub record Built (size startaddr startsize : ℕ) (old : ℕ → ℕ) (a : Answers) (s : Store) (r : Region)
    : Type 0 where
  pub memory : ℕ → ℕ
  pub base : ℕ
  pub copied : copy_start a.persistent size startaddr startsize old ≡ ok memory
  pub given : a.transient ≡ some base
  pub made : mapped_at size startsize memory base ≡ (s, r)

-- A test that the process survived.
passed {ℓ} : {S : Type ℓ} (b : Bool) {x y : S} → (if b then ok x else aborted) ≡ ok y → ok x ≡ ok y
passed true e = e
passed false e = cc

check_maps-mapped_at :
    (size startsize : ℕ) (memory : ℕ → ℕ) (a : Answers) (t : Option ℕ) (s : Store) (r : Region)
    → a.transient ≡ t
    → check_maps size startsize memory a ≡ ok (s, r)
    → (base : ℕ) × (t ≡ some base) × (ok (mapped_at size startsize memory base) ≡ ok (s, r))
unfolding check_maps
check_maps-mapped_at size startsize memory a none s r e h = absurd_of (rw (e, check_maps) at h)
  where
    absurd_of : {A : Type 0} → ◌≡◌ {A = Result (Store × Region)} aborted (ok (s, r)) → A
    absurd_of z = cc
check_maps-mapped_at size startsize memory a (some base) s r e h =
    (base, refl, passed _ (rw (e, check_maps) at h))

pub construct-Built :
    (size startaddr startsize : ℕ) (old : ℕ → ℕ) (a : Answers) (s : Store) (r : Region)
    → construct size startaddr startsize old a ≡ ok (s, r)
    → Built size startaddr startsize old a s r
unfolding construct
construct-Built size startaddr startsize old a s r e =
    let (_, e₁) = >>-eq-ok (a.backing_made && not a.garbage_fd) _ e in
    let (_, e₂) = >>-eq-ok a.sized _ e₁ in
    let (memory, copied, e₃) =
      >>=-eq-ok (copy_start a.persistent size startaddr startsize old) _ e₂ in
    let (base, given, made) =
      check_maps-mapped_at size startsize memory a a.transient s r refl e₃ in
    record { memory = memory; base = base; copied = copied; given = given; made = cc made }

-- `xglobals` returns as `xpersist` does.
pub construct_globals-Built :
    (gracestart end : ℕ) (old : ℕ → ℕ) (a : Answers) (s : Store) (r : Region)
    → construct_globals gracestart end old a ≡ ok (s, r)
    → Built max_globals_size (globals_start gracestart) (globals_size gracestart end) old a s r
unfolding construct_globals
construct_globals-Built gracestart end old a s r e =
    construct-Built max_globals_size (globals_start gracestart) (globals_size gracestart end) old a
      s r e

after_copy :
    (free fits : Bool) (startsize : ℕ) (old memory : ℕ → ℕ)
    → free ≡ false
    → (if free
        then ok (λ (i : ℕ). 0)
        else if fits
        then ok (λ (i : ℕ). if ltb i startsize then old i else 0)
        else undefined)
      ≡ ok memory
    → (λ (i : ℕ). if ltb i startsize then old i else 0) ≡ memory
after_copy true fits startsize old memory f e = cc
after_copy false true startsize old memory f e = cc
after_copy false false startsize old memory f e = cc

-- The copy gives the bytes that were there.
copy_start-old :
    (persistent : Option ℕ) (size startaddr startsize : ℕ) (old memory : ℕ → ℕ)
    → startaddr ≢ 0
    → copy_start persistent size startaddr startsize old ≡ ok memory
    → (i : ℕ) → i < startsize
    → memory i ≡ old i
unfolding copy_start
copy_start-old persistent size startaddr startsize old memory n e i h =
    let same =
      after_copy (startaddr == 0) (is_mapped persistent && leb startsize size) startsize old memory
        (ground (arith, n)) e in
    ground (arith, ap (λ (f : ℕ → ℕ). f i) same)

-- The constructor of a region that is put over the bytes that start at `startaddr`: when it returns, the
-- process reads the first `startsize` bytes of the region as they were before, and the persistent file
-- holds the same bytes.
pub construct-keeps :
    (size startaddr startsize : ℕ) (old : ℕ → ℕ) (a : Answers) (s : Store) (r : Region)
    → startaddr ≢ 0
    → construct size startaddr startsize old a ≡ ok (s, r)
    → (i : ℕ) → i < startsize
    → (transient s r i ≡ old i) × (s.memory i ≡ old i)
unfolding transient mapped_at
construct-keeps size startaddr startsize old a s r n e i h =
    let b = construct-Built size startaddr startsize old a s r e in
    let kept = copy_start-old a.persistent size startaddr startsize old b.memory n b.copied i h in
    subst (λ z. (transient z.0 z.1 i ≡ old i) × (z.0.memory i ≡ old i)) b.made (kept, kept)
