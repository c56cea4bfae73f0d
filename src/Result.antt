-- ===== src/Result.antt =====
-- Calls that may end the process, by `::abort ()` or an `assert` that fails, calls that wait for a lock
-- that another process holds, and calls that are undefined in C++.
use grace.Prelude.{Bool, true, false, ◌≡◌, refl}

pub data Result {ℓ} (S : Type ℓ) : Type ℓ where
  aborted waiting undefined : Result S
  ok : S → Result S

infixl 5 ◌>>=◌
infixl 5 ◌>>◌
-- The second call is made only if the first one returns.
abbrev pub ◌>>=◌ {ℓ κ} :
    {S : Type ℓ} {T : Type κ} → (first : Result S) → (second : S → Result T) → Result T
aborted >>= second = aborted
waiting >>= second = waiting
undefined >>= second = undefined
ok s >>= second = second s

abbrev pub ◌>>◌ {κ} : {T : Type κ} → (first : Result (Unit {0})) → (second : Result T) → Result T
aborted >> second = aborted
waiting >> second = waiting
undefined >> second = undefined
ok tt >> second = second

-- `assert (condition)`.
abbrev pub require : Bool → Result (Unit {0})
require false = aborted
require true = ok tt

-- What is known of two calls of which the second returned.
pub >>=-eq-ok {ℓ κ} :
    {S : Type ℓ} {T : Type κ} (first : Result S) (second : S → Result T) {t : T}
    → (first >>= second) ≡ ok t
    → (s : S) × (first ≡ ok s) × (second s ≡ ok t)
>>=-eq-ok aborted second e = cc
>>=-eq-ok waiting second e = cc
>>=-eq-ok undefined second e = cc
>>=-eq-ok (ok s) second e = (s, refl, e)

pub >>-eq-ok {κ} :
    {T : Type κ} (condition : Bool) (second : Result T) {t : T}
    → (require condition >> second) ≡ ok t
    → (condition ≡ true) × (second ≡ ok t)
>>-eq-ok true second e = (refl, e)
>>-eq-ok false second e = cc
