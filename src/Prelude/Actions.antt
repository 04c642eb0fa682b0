-- ===== src/Prelude/Actions.antt =====
-- Fallible operations on a state: `async fn f(&self, …) -> Result<A, E>` that reads and writes what
-- is behind `self`. The state comes back after an error too, since what was written stays written.
use mathlib.Core.Logic.{◌⊎◌, inl, inr}
use mathlib.Core.Path.{◌≡◌, refl}
use mathlib.Core.Bool.{Bool, true, false}

pub data Result (E A : Type 0) : Type 0 where
  ok : A → Result E A
  err : E → Result E A

pub Result-cases :
    {E A : Type 0} (r : Result E A) → ((a : A) × (r ≡ ok a)) ⊎ ((e : E) × (r ≡ err e))
Result-cases (ok a) = inl (a, refl)
Result-cases (err e) = inr (e, refl)

abbrev pub Action : Type 0 → Type 0 → Type 0 → Type 0
Action S E A = S → Result E A × S

module _ {S E A : Type 0} where
  abbrev pub pure : A → Action S E A
  pure a s = (ok a, s)

  abbrev pub fail : E → Action S E A
  fail e s = (err e, s)

  abbrev pub gets : (S → A) → Action S E A
  gets f s = (ok (f s), s)

  -- A value of `Result`, as in `Ok(e?)`.
  abbrev pub lift : Result E A → Action S E A
  lift r s = (r, s)

-- What follows a call, given the pair that it returned.
abbrev pub continue : {S E A B : Type 0} → (A → Action S E B) → Result E A × S → Result E B × S
continue k (ok a, s) = k a s
continue k (err e, s) = (err e, s)

infixl 5 ◌>>=◌ ◌>>◌
abbrev pub ◌>>=◌ : {S E A B : Type 0} → Action S E A → (A → Action S E B) → Action S E B
◌>>=◌ m k s = continue k (m s)

abbrev pub ◌>>◌ : {S E A B : Type 0} → Action S E A → Action S E B → Action S E B
m >> k = m >>= λ _. k

abbrev pub modify : {S E : Type 0} → (S → S) → Action S E (Unit {0})
modify f s = (ok tt, f s)

-- `ensure!(b, e)`.
abbrev pub ensure : {S E : Type 0} → Bool → E → Action S E (Unit {0})
ensure true e s = (ok tt, s)
ensure false e s = (err e, s)

abbrev pub caught : {S E F A : Type 0} → Result E A × S → Result F (Result E A) × S
caught (r, s) = (ok r, s)

-- The call's `Result` as a value, for code that looks at it before it returns.
abbrev pub attempt : {S E F A : Type 0} → Action S E A → Action S F (Result E A)
attempt m s = caught (m s)

abbrev pub map_err_of : {S E F A : Type 0} → (E → F) → Result E A × S → Result F A × S
map_err_of f (ok a, s) = (ok a, s)
map_err_of f (err e, s) = (err (f e), s)

abbrev pub map_err : {S E F A : Type 0} → (E → F) → Action S E A → Action S F A
map_err f m s = map_err_of f (m s)

-- What a call that ended well consists of.
pub continue-ok :
    {S E A B : Type 0} (k : A → Action S E B) (o : Result E A × S) (b : B) (v : S)
    → continue k o ≡ (ok b, v)
    → (a : A) × (u : S) × (o ≡ (ok a, u)) × (k a u ≡ (ok b, v))
continue-ok k (ok a, u) b v h = (a, u, refl, h)
continue-ok k (err e, u) b v h = cc

pub map_err-ok :
    {S E F A : Type 0} (f : E → F) (o : Result E A × S) (a : A) (v : S)
    → map_err_of f o ≡ (ok a, v)
    → o ≡ (ok a, v)
map_err-ok f (ok b, u) a v h = cc
map_err-ok f (err e, u) a v h = cc

pub ensure-ok :
    {S E B : Type 0} (k : Action S E B) (c : Bool) (e : E) (s : S) (b : B) (v : S)
    → continue (λ _. k) (ensure c e s) ≡ (ok b, v)
    → (c ≡ true) × (k s ≡ (ok b, v))
ensure-ok k true e s b v h = (refl, h)
ensure-ok k false e s b v h = cc

pub attempt-ok :
    {S E F A B : Type 0} (k : Result E A → Action S F B) (o : Result E A × S) (b : B) (v : S)
    → continue k (caught o) ≡ (ok b, v)
    → k o.0 o.1 ≡ (ok b, v)
attempt-ok k (r, s) b v h = h
