-- ===== src/Common/Results.antt =====
-- Go's `(value, error)` results: a value, or the error with the value dropped.
use mathlib.Core.Path.{◌≡◌, refl}
use mathlib.Core.Logic.{◌⊎◌, ◌↔◌, inl, inr}
use mathlib.Core.Bool.{Bool, true, false}
use mathlib.Core.Option.{Option, none, some}
use mathlib.Core.List.{List, [], ◌∷◌}

pub data Result {ℓ κ} (E : Type ℓ) (A : Type κ) : Type (ℓ ⊔ κ) where
  ok : A → Result E A
  err : E → Result E A

infixl 5 ◌>>=◌ ◌>>◌
abbrev pub ◌>>=◌ {ℓ κ λ'} :
    {E : Type ℓ} {A : Type κ} {B : Type λ'} → Result E A → (A → Result E B) → Result E B
ok a >>= f = f a
err e >>= f = err e

abbrev pub ◌>>◌ {ℓ κ} : {E : Type ℓ} {B : Type κ} → Result E (Unit {0}) → Result E B → Result E B
m >> k = m >>= λ _. k

-- `if cond { return err }`
abbrev pub fail_if {ℓ} : {E : Type ℓ} → Bool → E → Result E (Unit {0})
fail_if true e = err e
fail_if false e = ok tt

-- `fmt.Errorf("...: %w", err)`
abbrev pub wrap {ℓ κ λ'} :
    {E : Type ℓ} {F : Type κ} {A : Type λ'} → (E → F) → Result E A → Result F A
wrap f (ok a) = ok a
wrap f (err e) = err (f e)

abbrev pub or_fail {ℓ κ} : {E : Type ℓ} {A : Type κ} → Option A → E → Result E A
or_fail (some a) e = ok a
or_fail none e = err e

pub Result-cases {ℓ κ} :
    {E : Type ℓ} {A : Type κ} (r : Result E A) → ((a : A) × (r ≡ ok a)) ⊎ ((e : E) × (r ≡ err e))
Result-cases (ok a) = inl (a, refl)
Result-cases (err e) = inr (e, refl)

-- Inversion of a chain that returned a value.
pub bind_ok {ℓ κ λ'} :
    {E : Type ℓ} {A : Type κ} {B : Type λ'} (m : Result E A) (f : A → Result E B) {b : B}
    → (m >>= f) ≡ ok b
    → (a : A) × (m ≡ ok a) × (f a ≡ ok b)
bind_ok (ok a) f h = (a, refl, h)
bind_ok (err e) f h = cc

pub or_fail_ok {ℓ κ} :
    {E : Type ℓ} {A : Type κ} (o : Option A) (e : E) {a : A} → or_fail o e ≡ ok a → o ≡ some a
or_fail_ok (some b) e h = cc
or_fail_ok none e h = cc

pub wrap_ok {ℓ κ λ'} :
    {E : Type ℓ} {F : Type κ} {A : Type λ'} (f : E → F) (r : Result E A) {a : A}
    → wrap f r ≡ ok a
    → r ≡ ok a
wrap_ok f (ok b) h = cc
wrap_ok f (err e) h = cc

pub fail_if_ok {ℓ} : {E : Type ℓ} (b : Bool) (e : E) {u : Unit {0}} → fail_if b e ≡ ok u → b ≡ false
fail_if_ok true e h = cc
fail_if_ok false e h = refl

-- A sequence of tests passes if both parts do.
pub then_iff {ℓ} :
    {E : Type ℓ} (m k : Result E (Unit {0})) → ((m >> k) ≡ ok tt) ↔ ((m ≡ ok tt) × (k ≡ ok tt))
then_iff (ok u) k = (λ h. (refl, h), λ (_, h). h)
then_iff (err e) k = (λ h. cc, λ (h, _). cc)

pub fail_if_iff {ℓ} : {E : Type ℓ} (b : Bool) (e : E) → (fail_if b e ≡ ok tt) ↔ (b ≡ false)
fail_if_iff true e = (λ h. cc, λ h. cc)
fail_if_iff false e = (λ h. refl, λ h. refl)

pub wrap_iff {ℓ κ} :
    {E : Type ℓ} {F : Type κ} (f : E → F) (m : Result E (Unit {0}))
    → (wrap f m ≡ ok tt) ↔ (m ≡ ok tt)
wrap_iff f (ok u) = (λ h. refl, λ h. refl)
wrap_iff f (err e) = (λ h. cc, λ h. cc)

pub ok-injective {ℓ κ} :
    {E : Type ℓ} {A : Type κ} {a b : A} → ◌≡◌ {A = Result E A} (ok a) (ok b) → a ≡ b
ok-injective h = cc (h)

-- `if cond { return err }`, for several conditions in turn.
abbrev pub first_error {ℓ} : {E : Type ℓ} → List (Bool × E) → Result E (Unit {0})
first_error [] = ok tt
first_error ((bad, e) ∷ rest) = fail_if bad e >> first_error rest

abbrev pub AllPass {ℓ} : {E : Type ℓ} → List (Bool × E) → Type 0
AllPass [] = Unit
AllPass ((bad, e) ∷ rest) = (bad ≡ false) × AllPass rest

pub first_error-AllPass {ℓ} :
    {E : Type ℓ} (checks : List (Bool × E)) → first_error checks ≡ ok tt → AllPass checks
first_error-AllPass [] h = tt
first_error-AllPass ((true, e) ∷ rest) h = cc
first_error-AllPass ((false, e) ∷ rest) h = (refl, first_error-AllPass rest h)
