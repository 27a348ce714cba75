-- ===== src/Base/Effects.antt =====
-- Go errors as values, and effects on an outside world. What was written before an error stays
-- written, so the world comes back beside the error too.
use Prim.Native.Nat.{ℕ}
use mathlib.Core.Path.{◌≡◌, refl, ap}
use mathlib.Core.Logic.{◌⊎◌, inl, inr}
use mathlib.Core.Option.{Option, none, some}
use easytask.Base.Strings.{Text}

pub data Error : Type 0 where
  -- *errs.BizError: the code and the message
  biz : ℕ → Text → Error
  -- errors.New
  new : Text → Error
  -- *strconv.NumError
  num_syntax num_range : Error
  -- gorm.ErrRecordNotFound
  record_not_found : Error
  -- a nil dereference or another run-time panic
  panic : Error
  -- any other error of a library, by a number
  foreign : ℕ → Error

pub data Result {ℓ} (A : Type ℓ) : Type ℓ where
  ok : A → Result A
  err : Error → Result A

abbrev pub Io : Type 0 → Type 0 → Type 0
Io W A = W → Result A × W

module _ {W A B : Type 0} where
  abbrev pub continue : Result A → (A → Io W B) → Io W B
  continue (ok a) f w = f a w
  continue (err e) f w = (err e, w)

  infixl 5 ◌>>=◌
  abbrev pub ◌>>=◌ : Io W A → (A → Io W B) → Io W B
  ◌>>=◌ m f w = let r = m w in continue r.0 f r.1

module _ {W : Type 0} where
  infixl 5 ◌>>◌
  abbrev pub ◌>>◌ : {B : Type 0} → Io W (Unit {0}) → Io W B → Io W B
  m >> n = m >>= λ _. n

  abbrev pub pure : {A : Type 0} → A → Io W A
  pure a w = (ok a, w)

  abbrev pub fail : {A : Type 0} → Error → Io W A
  fail e w = (err e, w)

  abbrev pub lift : {A : Type 0} → Result A → Io W A
  lift r w = (r, w)

  -- The error as a value, for callers that go on.
  abbrev pub attempt : {A : Type 0} → Io W A → Io W (Result A)
  attempt m w = let r = m w in (ok r.0, r.1)

-- A pointer that may be nil, dereferenced.
abbrev pub deref {ℓ} : {A : Type ℓ} → Option A → Result A
deref none = err panic
deref (some a) = ok a

pub ok-injective {ℓ} : {A : Type ℓ} {a b : A} → ok a ≡ ok b → a ≡ b
ok-injective e = cc

-- Inversion of a chain of effects that succeeds.
pub continue-eq-ok :
    {W A B : Type 0} (r : Result A) (f : A → Io W B) (w : W) {b : B}
    → (continue r f w).0 ≡ ok b
    → (a : A) × (r ≡ ok a) × ((f a w).0 ≡ ok b) × (continue r f w ≡ f a w)
continue-eq-ok (ok a) f w e = (a, refl, e, refl)
continue-eq-ok (err x) f w e = cc

-- A chain goes on after a call that succeeds.
pub ok-continue :
    {W A B : Type 0} {r : Result A} {a : A} (f : A → Io W B) (w : W)
    → r ≡ ok a
    → continue r f w ≡ f a w
ok-continue f w e = ap (λ r. continue r f w) e

pub Result-cases {ℓ} :
    {A : Type ℓ} (r : Result A) → ((a : A) × (r ≡ ok a)) ⊎ ((e : Error) × (r ≡ err e))
Result-cases (ok a) = inl (a, refl)
Result-cases (err e) = inr (e, refl)

-- A property of the world that the rest of a chain keeps, whatever the result so far.
pub continue-keeps {ℓ} :
    {W A B : Type 0} (P : W → Type ℓ) (r : Result A) (f : A → Io W B) (w : W)
    → P w
    → ((a : A) → P (f a w).1)
    → P (continue r f w).1
continue-keeps P (ok a) f w h k = k a
continue-keeps P (err x) f w h k = h

-- The same for the rest of a chain that looks at the result.
pub continue-keeps_ok {ℓ} :
    {W A B : Type 0} (P : W → Type ℓ) (r : Result A) (f : A → Io W B) (w : W)
    → P w
    → ((a : A) → r ≡ ok a → P (f a w).1)
    → P (continue r f w).1
continue-keeps_ok P (ok a) f w h k = k a refl
continue-keeps_ok P (err x) f w h k = h
