-- ===== src/Errors/Exec.antt =====
-- A Go function with a `(value, error)` result over a state. What a call changed before it fails
-- stays changed, so the state comes back beside the error too. The value that Go returns beside a
-- non-nil error is not kept: no caller of the modelled code reads it.
pub mod Inversion
use cluster_api_provider_lib.Shared.{String, ◌≡◌, refl, ◌⊎◌, inl, inr, subst}
use cluster_api_provider_lib.Errors.{Error, wrap}

pub data Result {ℓ} (A : Type ℓ) : Type ℓ where
  ok : A → Result A
  err : Error → Result A

abbrev pub Exec {ℓ} : Type 0 → Type ℓ → Type ℓ
Exec S A = S → Result A × S

-- `if err != nil { return ..., fmt.Errorf("<m>%w", err) }`
abbrev pub wrap_result {ℓ} : {A : Type ℓ} → String → Result A → Result A
wrap_result m (ok a) = ok a
wrap_result m (err e) = err (wrap m e)

module _ {ℓ} {S : Type 0} {A : Type ℓ} where
  unfoldable pub pure : A → Exec S A
  pure a s = (ok a, s)

  unfoldable pub fail : Error → Exec S A
  fail e s = (err e, s)

  unfoldable pub lift : Result A → Exec S A
  lift r s = (r, s)

  unfoldable pub wrapping : String → Exec S A → Exec S A
  wrapping m f s = (wrap_result m (f s).0, (f s).1)

  -- `defer`: the clean-up runs on every way out of the body, and its own result is not read.
  unfoldable pub deferring : (S → S) → Exec S A → Exec S A
  deferring clean_up body s = ((body s).0, clean_up (body s).1)

module _ {ℓ κ} {S : Type 0} {A : Type ℓ} {B : Type κ} where
  -- A call whose outcome the code branches on.
  unfoldable pub attempt : Exec S A → (Result A → Exec S B) → Exec S B
  attempt m f s = f (m s).0 (m s).1

  abbrev pub continue : Result A → (A → Exec S B) → Exec S B
  continue (ok a) f s = f a s
  continue (err e) f s = (err e, s)

  infixl 5 ◌>>=◌
  -- Opening this opens the other ways to build an action too.
  unfoldable pub ◌>>=◌ : Exec S A → (A → Exec S B) → Exec S B
  unfolding pure fail lift wrapping deferring attempt
  ◌>>=◌ m f s = continue (m s).0 f (m s).1

module _ {ℓ} {S : Type 0} {B : Type ℓ} where
  infixl 5 ◌>>◌
  abbrev pub ◌>>◌ : Exec S (Unit {0}) → Exec S B → Exec S B
  m >> k = m >>= λ _. k

pub Result-cases {ℓ} :
    {A : Type ℓ} (r : Result A) → ((a : A) × (r ≡ ok a)) ⊎ ((e : Error) × (r ≡ err e))
Result-cases (ok a) = inl (a, refl)
Result-cases (err e) = inr (e, refl)

-- The result is an error.
abbrev pub IsErr {ℓ} : {A : Type ℓ} → Result A → Type 0
IsErr (ok a) = ⊥
IsErr (err e) = Unit

pub ok-injective {ℓ} : {A : Type ℓ} {a b : A} → ok a ≡ ok b → a ≡ b
ok-injective e = cc

-- An error is no `ok`.
pub ok_not_IsErr {ℓ} : {A : Type ℓ} {r : Result A} {a : A} → IsErr r → r ≡ ok a → ⊥
ok_not_IsErr x e = subst IsErr e x
