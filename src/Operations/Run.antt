-- ===== src/Operations/Run.antt =====
-- A service that reads a gateway in a loop: `none` is a run that its fuel does not let end.
use powerfactory_mcp.Prelude.{Option, none, some, ◌≡◌, ◌⊎◌, inl, inr, refl}
use powerfactory_mcp.Errors.{Error, Result, ok, err}

abbrev pub Run {ℓ} : Type ℓ → Type ℓ
Run A = Option (Result A)

infixl 5 ◌>>=◌
abbrev pub ◌>>=◌ {ℓ κ} : {A : Type ℓ} {B : Type κ} → Run A → (A → Run B) → Run B
none >>= f = none
some (err e) >>= f = some (err e)
some (ok a) >>= f = f a

-- Inversion of a run that returns.
pub run-eq-ok {ℓ κ} :
    {A : Type ℓ} {B : Type κ} (m : Run A) (f : A → Run B) {b : B}
    → (m >>= f) ≡ some (ok b)
    → (a : A) × (m ≡ some (ok a)) × (f a ≡ some (ok b))
run-eq-ok none f h = cc
run-eq-ok (some (err e)) f h = cc
run-eq-ok (some (ok a)) f h = (a, refl, h)

-- A run ends, with an error or with a result that `P` holds of.
abbrev pub Ends : {A : Type 0} → (A → Type 0) → Run A → Type 0
Ends {A} P run = ((e : Error) × (run ≡ some (err e))) ⊎ ((x : A) × (run ≡ some (ok x)) × P x)

pub Ends-bind :
    {A B : Type 0} {P : A → Type 0} {Q : B → Type 0} (m : Run A) (f : A → Run B)
    → Ends P m
    → ((x : A) → P x → Ends Q (f x))
    → Ends Q (m >>= f)
Ends-bind m f (inl (e, h)) next = inl (e, rw h refl)
Ends-bind m f (inr (x, h, p)) next = rw h (next x p)

pub Ends-result :
    {A : Type 0} (x : Result A) (P : A → Type 0) → ((a : A) → x ≡ ok a → P a) → Ends P (some x)
Ends-result (err e) P h = inl (e, refl)
Ends-result (ok a) P h = inr (a, refl, h a refl)
