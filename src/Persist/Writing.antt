-- ===== src/Persist/Writing.antt =====
-- The single writes of `commit` of src/include/xpersist.h: a page is copied byte for byte, and numbered anew
-- after that. Until then it is under way.
pub mod Whole
use grace.Prelude.{
  ℕ, zero, suc, ◌+◌, ◌*◌, ◌/◌, ◌%◌, ◌≤◌, ◌<◌, ◌≡◌, refl, sym, ap, ◌∙◌, subst, fun_ext, Bool, true,
  false, ◌&&◌, List, [], ◌∷◌, ltb, ◌==◌, if◌then◌else◌, arith,
}
use grace.Defines.{page_size}
use grace.Result.{ok, ◌>>=◌, >>=-eq-ok}
use grace.Persist.Mapping.{view}
use grace.Persist.PageSet.{has}
use grace.Persist.Region.{Store, Region, int_mod, transient, local_version}
use grace.Persist.Commit.{commit_page, commit_pages}

-- The pages of a region that are under way.
abbrev pub Pages : Type 0
Pages = ℕ → Bool

abbrev pub none : Pages
none = λ p. false

abbrev pub mark : ℕ → Bool → Pages → Pages
mark p b u = λ q. if q == p then b else u q

-- Versions only grow, and a page that is not under way afterwards and has its old version was not under way
-- before and has its old bytes.
pub record Moves (s : Store) (u : Pages) (s' : Store) (u' : Pages) : Type 0 where
  pub grows : (p : ℕ) → s.versions p ≤ s'.versions p
  pub settled_before : (p : ℕ) → u' p ≡ false → s'.versions p ≡ s.versions p → u p ≡ false
  pub same_bytes :
      (i : ℕ)
      → u' (i / page_size) ≡ false
      → s'.versions (i / page_size) ≡ s.versions (i / page_size)
      → s'.memory i ≡ s.memory i

abbrev pub copy_byte : Region → ℕ → Store → Store
copy_byte r i s = record s { memory = λ j. if j == i then transient s r i else s.memory j }

abbrev pub number : Region → ℕ → Store → Store
number r p s = record s {
  versions = λ q. if q == p then (local_version s r p + 1) % int_mod else s.versions q;
}

-- One write of the process whose region is `r`, with the start of each page made visible.
pub data Write (r : Region) (s : Store) (u : Pages) : Store → Pages → Type 0 where
  begins : (p : ℕ) → Write r s u s (mark p true u)
  copies : (i : ℕ) → u (i / page_size) ≡ true → Write r s u (copy_byte r i s) u
  numbers : (p : ℕ) → u p ≡ true → Write r s u (number r p s) (mark p false u)

-- The process has the current version of the page, and there is a next one.
abbrev pub Current : Store → Region → ℕ → Type 0
Current s r p = (local_version s r p ≡ s.versions p) × (s.versions p + 1 < int_mod)

pub begins-Moves : (s : Store) (u : Pages) (p : ℕ) → Moves s u s (mark p true u)
begins-Moves s u p = record {
  grows = λ q. omega arith;
  settled_before = λ q e h. ground arith;
  same_bytes = λ i e h. refl;
}

pub copies-Moves :
    (r : Region) (s : Store) (u : Pages) (i : ℕ)
    → u (i / page_size) ≡ true
    → Moves s u (copy_byte r i s) u
copies-Moves r s u i there = record {
  grows = λ q. omega arith;
  settled_before = λ q e h. e;
  same_bytes = λ j e h. ground (arith, ap (λ (x : ℕ). u (x / page_size)));
}

pub numbers-Moves :
    (r : Region) (s : Store) (u : Pages) (p : ℕ)
    → Current s r p
    → Moves s u (number r p s) (mark p false u)
numbers-Moves r s u p c = record {
  grows = λ q. ground (arith, c.0, c.1);
  settled_before = λ q e h. ground (arith, c.0, c.1);
  same_bytes = λ i e h. refl;
}

-- Single writes one after the other, each of which is a move.
pub data Writes (r : Region) (s : Store) (u : Pages) : Store → Pages → Type 0 where
  nothing : Writes r s u s u
  and_then :
      {s' s'' : Store} {u' u'' : Pages}
      → Writes r s u s' u'
      → Write r s' u' s'' u''
      → Moves s' u' s'' u''
      → Writes r s u s'' u''
