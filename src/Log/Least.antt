-- ===== src/Log/Least.antt =====
-- The loop of src/include/log.h for numbers that a power of two below 2 ^ 32 reaches, and for others.
use grace.Prelude.{
  ℕ, zero, suc, ◌+◌, ◌*◌, ◌%◌, ◌^◌, ◌<◌, ◌≤◌, ◌≡◌, refl, sym, ap, ◌∙◌, ◌⊎◌, inl, inr, true, false,
  none, some, arith, ltb, Bool-cases, subst,
}
use native.Mathlib.Omega.{pow_step}
use grace.Log.{log, log_loop, unsigned_mod}

-- What the loop keeps: `value` is 2 ^ k, `r` doublings below 2 ^ 31, and no smaller power reaches `v`.
record At (v value k r : ℕ) : Type 0 where
  value_lem : value ≡ 2 ^ k
  room : k + r ≡ 31
  below : (j : ℕ) → j < k → 2 ^ j < v

At-doubled : {v value k r : ℕ} → At v value k (suc r) → value < v → At v (value * 2) (suc k) r
At-doubled {v = v} {k = k} a h = record {
  value_lem = omega (arith, a.value_lem, pow_step 2 k);
  room = omega (arith, a.room);
  below = λ j lt. elim (lt_split lt) [
    | inl e ↦ subst (λ z. 2 ^ z < v) (sym e) (omega (arith, h, a.value_lem))
    | inr less ↦ a.below j less
  ];
}
  where
    lt_split : {j k : ℕ} → j < suc k → (j ≡ k) ⊎ (j < k)
    lt_split h = omega arith

at_the_top : (k : ℕ) → k + 0 ≡ 31 → 2 ^ k ≡ 2 ^ 31
at_the_top k e = subst (λ z. 2 ^ z ≡ 2 ^ 31) {x = 31} (omega (arith, e)) refl

power_bound : (r k : ℕ) → k + r ≡ 31 → 2 ^ k ≤ 2 ^ 31
power_bound zero k e = omega (arith, at_the_top k e)
power_bound (suc r) k e = omega (arith, power_bound r (suc k) (omega (arith, e)), pow_step 2 k)

doubles : (r k : ℕ) → k + suc r ≡ 31 → 2 ^ k * 2 % unsigned_mod ≡ 2 ^ k * 2
doubles r k e = omega (arith, power_bound r (suc k) (omega (arith, e)), pow_step 2 k)

log_stop : (fuel v value k : ℕ) → ltb value v ≡ false → log_loop (suc fuel) v value k ≡ some k
unfolding log_loop
log_stop fuel v value k e = rw (e, log_loop)

log_more :
    (fuel v value k : ℕ)
    → ltb value v ≡ true
    → log_loop (suc fuel) v value k
      ≡ log_loop fuel v (value * 2 % unsigned_mod) ((k + 1) % unsigned_mod)
unfolding log_loop
log_more fuel v value k e = rw (e, log_loop)

log_doubles :
    (fuel v value k r : ℕ)
    → At v value k (suc r)
    → ltb value v ≡ true
    → log_loop (suc fuel) v value k ≡ log_loop fuel v (value * 2) (suc k)
log_doubles fuel v value k r a e =
    log_more fuel v value k e
    ∙ ap (λ x. log_loop fuel v x ((k + 1) % unsigned_mod))
        (omega (arith, a.value_lem, doubles r k a.room))
    ∙ ap (λ x. log_loop fuel v (value * 2) x) (omega (arith, a.room))

-- A result that is the least one.
abbrev IsLeast : ℕ → ℕ → Type 0
IsLeast v l = (v ≤ 2 ^ l) × ((j : ℕ) → j < l → 2 ^ j < v)

log_loop_lem :
    (r fuel v value k : ℕ)
    → At v value k r
    → v ≤ 2 ^ 31
    → r < fuel
    → (l : ℕ) × (log_loop fuel v value k ≡ some l) × IsLeast v l
log_loop_lem r zero v value k a h f = absurd (omega (arith, f))
log_loop_lem zero (suc fuel) v value k a h f =
    let top = at_the_top k a.room in
    (
      k,
      log_stop fuel v value k (ground (arith, a.value_lem, top, h)),
      (omega (arith, top, h), a.below),
    )
log_loop_lem (suc r) (suc fuel) v value k a h f = elim (Bool-cases (ltb value v)) [
  | inl more ↦
      let n = At-doubled a (ground (arith, more)) in
      let (l, e, found) = log_loop_lem r fuel v (value * 2) (suc k) n h (omega (arith, f)) in
      (l, log_doubles fuel v value k r a more ∙ e, found)
  | inr done ↦ (k, log_stop fuel v value k done, (ground (arith, done, a.value_lem), a.below))
]

-- For a number up to 2 ^ 31 the loop ends, after 31 doublings at the most, and gives the least `l`
-- with `v` at most 2 ^ l.
pub log_lem :
    (v : ℕ)
    → v ≤ 2 ^ 31
    → (l : ℕ) × (log 32 v ≡ some l) × (v ≤ 2 ^ l) × ((j : ℕ) → j < l → 2 ^ j < v)
unfolding log
log_lem v h =
    let start : At v 1 0 31 = record {
      value_lem = refl;
      room = refl;
      below = λ j lt. absurd (omega (arith, lt));
    } in
    let (l, e, found) = log_loop_lem 31 32 v 1 0 start h (omega arith) in (l, e, found.0, found.1)

-- Once the value has wrapped to 0 it stays there.
stuck_at_zero : (fuel v k : ℕ) → 0 < v → log_loop fuel v 0 k ≡ none
unfolding log_loop
stuck_at_zero zero v k h = refl
stuck_at_zero (suc fuel) v k h =
    log_more fuel v 0 k (ground arith) ∙ stuck_at_zero fuel v ((k + 1) % unsigned_mod) h

log_loop_never : (r fuel v k n : ℕ) → k + r ≡ 31 → 2 ^ 31 < v → log_loop fuel v (2 ^ k) n ≡ none
unfolding log_loop
log_loop_never r zero v k n e h = refl
log_loop_never zero (suc fuel) v k n e h =
    let top = at_the_top k e in
    log_more fuel v (2 ^ k) n (ground (arith, top, h))
    ∙ ap (λ x. log_loop fuel v x ((n + 1) % unsigned_mod)) (omega (arith, top))
    ∙ stuck_at_zero fuel v ((n + 1) % unsigned_mod) (omega (arith, h))
log_loop_never (suc r) (suc fuel) v k n e h =
    log_more fuel v (2 ^ k) n (ground (arith, power_bound (suc r) k e, h))
    ∙ ap (λ x. log_loop fuel v x ((n + 1) % unsigned_mod))
        (doubles r k e ∙ sym (omega (arith, pow_step 2 k)))
    ∙ log_loop_never r fuel v (suc k) ((n + 1) % unsigned_mod) (omega (arith, e)) h

-- For a larger number the loop never ends: no number of rounds is enough.
log_never : (v fuel : ℕ) → 2 ^ 31 < v → log fuel v ≡ none
unfolding log
log_never v fuel h = log_loop_never 31 fuel v 0 0 refl h
