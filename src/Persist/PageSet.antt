-- ===== src/Persist/PageSet.antt =====
-- The page sets of src/include/xpersist.h and xmemory.h: a `std::set<int>` is a list in order.
use grace.Prelude.{ℕ, ◌≡◌, Bool, false, ◌||◌, List, [], ◌∷◌, arith, ltb, ◌==◌, if◌then◌else◌}

-- `insert`.
unfoldable pub insert : ℕ → List ℕ → List ℕ
insert p [] = p ∷ []
insert p (q ∷ qs) = if ltb p q then p ∷ q ∷ qs else if p == q then q ∷ qs else q ∷ insert p qs

-- `find (p) != end ()`.
unfoldable pub has : ℕ → List ℕ → Bool
has p [] = false
has p (q ∷ qs) = p == q || has p qs

pub has-insert : (p q : ℕ) (qs : List ℕ) → has p (insert q qs) ≡ (p == q || has p qs)
unfolding has insert
has-insert p q [] = ground arith
has-insert p q (r ∷ rs) = ground (arith, has-insert p q rs)
