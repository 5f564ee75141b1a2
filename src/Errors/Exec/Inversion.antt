-- ===== src/Errors/Exec/Inversion.antt =====
-- What a chain of calls that succeeded says of each call, one lemma for each way to build a call.
use cluster_api_provider_lib.Shared.{String, ◌≡◌, refl, sym, subst, inl, inr, arith}
use cluster_api_provider_lib.Errors.{Error}
use cluster_api_provider_lib.Errors.Exec.{
  Result, ok, err, Exec, lift, wrapping, ◌>>=◌, continue, wrap_result, attempt, deferring, IsErr,
  ok_not_IsErr, Result-cases,
}

-- The call gives the value and leaves the second state.
abbrev pub Gives : {S A : Type 0} → Exec S A → S → A → S → Type 0
Gives m s a s' = ((m s).0 ≡ ok a) × ((m s).1 ≡ s')

module _ {S A : Type 0} where
  pub wrapping-Gives :
      (t : String) (m : Exec S A) (s s' : S) (a : A) → Gives (wrapping t m) s a s' → Gives m s a s'
  unfolding wrapping
  wrapping-Gives t m s s' a g = ground arith

  -- The body succeeded, and its clean-up ran.
  pub deferring-Gives :
      (clean_up : S → S) (m : Exec S A) (s s' : S) (a : A)
      → Gives (deferring clean_up m) s a s'
      → (mid : S) × Gives m s a mid × (s' ≡ clean_up mid)
  unfolding deferring
  deferring-Gives clean_up m s s' a g = ((m s).1, (g.0, refl), sym g.1)

module _ {S A B : Type 0} where
  continue-Gives :
      (r : Result A) (f : A → Exec S B) (mid s' : S) (b : B)
      → Gives (continue r f) mid b s'
      → (a : A) × (r ≡ ok a) × Gives (f a) mid b s'
  continue-Gives (ok a) f mid s' b g = (a, refl, g)
  continue-Gives (err e) f mid s' b g = absurd (cc (g.0))

  -- The first call gives a value, and the rest goes on from there.
  pub bind-Gives :
      (m : Exec S A) (f : A → Exec S B) (s s' : S) (b : B)
      → Gives (m >>= f) s b s'
      → (a : A) × (mid : S) × Gives m s a mid × Gives (f a) mid b s'
  unfolding ◌>>=◌
  bind-Gives m f s s' b g =
      let (a, e, h) = continue-Gives (m s).0 f (m s).1 s' b g in (a, (m s).1, (e, refl), h)

  -- A pure step changes no state.
  pub bind-lift-Gives :
      (t : String) (r : Result A) (f : A → Exec S B) (s s' : S) (b : B)
      → Gives (lift (wrap_result t r) >>= f) s b s'
      → (a : A) × (r ≡ ok a) × Gives (f a) s b s'
  unfolding ◌>>=◌
  bind-lift-Gives t (ok a) f s s' b g = (a, refl, g)
  bind-lift-Gives t (err e) f s s' b g = absurd (cc (g.0))

module _ {S A B : Type 0} where
  -- A call whose failure the rest always reports succeeded.
  pub attempt-Gives :
      (m : Exec S A) (f : Result A → Exec S B) (s s' : S) (b : B)
      → ((e : Error) (mid : S) → IsErr (f (err e) mid).0)
      → Gives (attempt m f) s b s'
      → (a : A) × (mid : S) × Gives m s a mid × Gives (f (ok a)) mid b s'
  unfolding attempt
  attempt-Gives m f s s' b reported g = elim (Result-cases (m s).0) [
    | inl (a, e) ↦ (a, (m s).1, (e, refl), subst (λ r. Gives (f r) (m s).1 b s') e g)
    | inr (x, e) ↦
        absurd (ok_not_IsErr (reported x (m s).1) (subst (λ r. (f r (m s).1).0 ≡ ok b) e g.0))
  ]
