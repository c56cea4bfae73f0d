-- ===== src/Locking/Invariant.antt =====
-- What holds whenever calls of `tryToCommit` and `isConsistent` of src/include/xmemory.h are under way:
-- who has the locks, what the files held when they were free, and what remains of the call that has
-- both.
use grace.Prelude.{ℕ, ◌≡◌, sym, ◌∙◌, ap, subst, true, false}
use grace.Persist.Region.{Region}
use grace.Memory.{Shared}
use grace.Locking.{Task, Control, has_heap, Commits, put, Serial}
use grace.Locking.Owners.{holds_heap, holds_globals, Owned, Owned-kept, Owned-freed, put_all}
use grace.Locking.Rest.{contents, rest, whole}

pub record Inv (s : Shared) (σ : Commits) : Type 0 where
  pub heap_lock : Owned holds_heap σ.shared.heap.held σ.control
  pub globals_lock : Owned holds_globals σ.shared.globals.held σ.control
  pub took :
      (i : ℕ) (w : Task) (r : Region)
      → σ.control i ≡ has_heap w r
      → r ≡ record w.memory.heap { is_locked = true }
  pub base : Shared
  pub serial : Serial s σ.history base
  pub idle : σ.shared.globals.held ≡ false → contents σ.shared ≡ base
  pub busy :
      (i : ℕ)
      → holds_globals (σ.control i) ≡ true
      → rest (σ.control i) σ.shared ≡ whole (σ.control i) base

abbrev pub Took : Control → Type 0
Took c = (w : Task) (r : Region) → c ≡ has_heap w r → r ≡ record w.memory.heap { is_locked = true }

abbrev pub Left : Shared → Shared → Control → Type 0
Left now base c = holds_globals c ≡ true → rest c now ≡ whole c base

-- The holder of the globals' lock moves and keeps it.
pub Inv-moved :
    {s : Shared} {σ : Commits} (v : Inv s σ) (i : ℕ) (c : Control) (now : Shared)
    → holds_globals (σ.control i) ≡ true
    → holds_globals c ≡ true
    → now.globals.held ≡ σ.shared.globals.held
    → Owned holds_heap now.heap.held (put i c σ.control)
    → rest c now ≡ rest (σ.control i) σ.shared
    → ((b : Shared) → whole c b ≡ whole (σ.control i) b)
    → Inv s (record σ { shared = now; control = put i c σ.control })
Inv-moved {σ} v i c now mine keeps same owned left all = record {
  heap_lock = owned;
  globals_lock =
      subst (λ h. Owned holds_globals h (put i c σ.control)) (sym same)
        (Owned-kept holds_globals σ.control i c v.globals_lock (keeps ∙ sym mine));
  took = λ j.
      put_all holds_globals σ.control i c Took j (λ w r e. absurd (not_heap w r e)) (λ n. v.took j);
  base = v.base;
  serial = v.serial;
  idle = λ e. absurd (is_held e);
  busy = λ j.
      put_all holds_globals σ.control i c (Left now v.base) j
        (λ h. left ∙ v.busy i mine ∙ sym (all v.base))
        (λ n h. absurd (n (v.globals_lock.unique j i h mine)));
}
  where
    not_heap : (w : Task) (r : Region) → c ≡ has_heap w r → ⊥
    not_heap w r e = cc (keeps, ap holds_globals e)

    is_held : now.globals.held ≡ false → ⊥
    is_held e = cc (v.globals_lock.held_by i mine, same, e)

module _ {s : Shared} {σ : Commits} (v : Inv s σ) (i : ℕ) {c : Control} (at : σ.control i ≡ c) where
  -- It has both locks before and after.
  pub Inv-both :
      (d : Control) (now : Shared)
      → holds_heap c ≡ true
      → holds_globals c ≡ true
      → holds_heap d ≡ true
      → holds_globals d ≡ true
      → now.heap.held ≡ σ.shared.heap.held
      → now.globals.held ≡ σ.shared.globals.held
      → rest c σ.shared ≡ rest d now
      → ((b : Shared) → whole d b ≡ whole c b)
      → Inv s (record σ { shared = now; control = put i d σ.control })
  Inv-both d now p q p' q' h g left all =
      Inv-moved v i d now (ap holds_globals at ∙ q) q' g
        (subst (λ x. Owned holds_heap x (put i d σ.control)) (sym h)
          (Owned-kept holds_heap σ.control i d v.heap_lock (p' ∙ sym (ap holds_heap at ∙ p))))
        (sym left ∙ ap (λ x. rest x σ.shared) (sym at)) (λ b. all b ∙ ap (λ x. whole x b) (sym at))

  -- It gives the heap's lock back.
  pub Inv-frees_heap :
      (d : Control) (now : Shared)
      → holds_heap c ≡ true
      → holds_globals c ≡ true
      → holds_heap d ≡ false
      → holds_globals d ≡ true
      → now.heap.held ≡ false
      → now.globals.held ≡ σ.shared.globals.held
      → rest c σ.shared ≡ rest d now
      → ((b : Shared) → whole d b ≡ whole c b)
      → Inv s (record σ { shared = now; control = put i d σ.control })
  Inv-frees_heap d now p q p' q' h g left all =
      Inv-moved v i d now (ap holds_globals at ∙ q) q' g
        (subst (λ x. Owned holds_heap x (put i d σ.control)) (sym h)
          (Owned-freed holds_heap σ.control i d v.heap_lock (ap holds_heap at ∙ p) p'))
        (sym left ∙ ap (λ x. rest x σ.shared) (sym at)) (λ b. all b ∙ ap (λ x. whole x b) (sym at))
