-- ===== src/System/Inversion.antt =====
-- What the success of a call that holds a libvirt handle says of the calls that it makes.
use cluster_api_provider_lib.Shared.{
  String, Bool, true, ◌≡◌, refl, sym, ◌⊎◌, inl, inr, if◌then◌else◌, arith,
}
use cluster_api_provider_lib.Errors.{Error, wrap}
use cluster_api_provider_lib.Errors.Exec.{
  Result, ok, err, IsErr, ok_not_IsErr, Exec, deferring, attempt, fail, pure,
}
use cluster_api_provider_lib.Errors.Exec.Inversion.{Gives}
use cluster_api_provider_lib.System.{System, Session, using, opened, opened_result, free}

module _ {sys : System} {A B : Type 0} where
  opened_result-Gives :
      (failed : Error → Exec (Session sys) B) (body : A → Exec (Session sys) B) (r : Result A)
      (mid s' : Session sys) (b : B)
      → ((e : Error) → IsErr (failed e mid).0)
      → Gives (opened_result failed body r) mid b s'
      → (a : A) × (after : Session sys) × (r ≡ ok a)
        × Gives (body a) mid b after
        × (s' ≡ free after)
  unfolding deferring
  opened_result-Gives failed body (ok a) mid s' b fails (e, left) =
      (a, (body a mid).1, refl, (e, refl), sym left)
  opened_result-Gives failed body (err x) mid s' b fails (e, left) =
      absurd (ok_not_IsErr (fails x) e)

  -- The handle was opened, the body succeeded with it, and it was freed.
  pub using-Gives :
      (open_call : Exec (Session sys) A) (t : String) (body : A → Exec (Session sys) B)
      (s s' : Session sys) (b : B)
      → Gives (using open_call t body) s b s'
      → (a : A) × (mid after : Session sys) × Gives open_call s a mid
        × Gives (body a) mid b after
        × (s' ≡ free after)
  unfolding opened attempt fail
  using-Gives open_call t body s s' b g =
      let (a, after, e, h, left) =
        opened_result-Gives (λ e. fail (wrap t e)) body (open_call s).0 (open_call s).1 s' b
          (λ e. tt) g in
      (a, (open_call s).1, after, (e, refl), h, left)

module _ {sys : System} {A B : Type 0} (open_call : Exec (Session sys) A)
    (failed : Error → Exec (Session sys) B) (body : A → Exec (Session sys) B) (s s' : Session sys)
    (b : B) where
  opened_by_result :
      (r : Result A)
      → (open_call s).0 ≡ r
      → Gives (opened_result failed body r) (open_call s).1 b s'
      → ((a : A) × (mid after : Session sys) × Gives open_call s a mid
          × Gives (body a) mid b after
          × (s' ≡ free after))
        ⊎ ((e : Error) × ((open_call s).0 ≡ err e) × Gives (failed e) (open_call s).1 b s')
  unfolding deferring
  opened_by_result (ok a) e (gave, left) =
      inl (a, (open_call s).1, (body a (open_call s).1).1, (e, refl), (gave, refl), sym left)
  opened_by_result (err x) e g = inr (x, e, g)

  -- The handle was opened, the body gave the value with it, and it was freed; or it was not opened,
  -- and the error branch gave the value.
  pub opened-Gives :
      Gives (opened open_call failed body) s b s'
      → ((a : A) × (mid after : Session sys) × Gives open_call s a mid
          × Gives (body a) mid b after
          × (s' ≡ free after))
        ⊎ ((e : Error) × ((open_call s).0 ≡ err e) × Gives (failed e) (open_call s).1 b s')
  unfolding opened attempt
  opened-Gives g = opened_by_result (open_call s).0 refl g

-- Something was looked up from `s`: it was not there, which the error says by `tolerated`, or it was
-- found, `done` holds of it and the two sessions that follow, and its handle was freed.
pub data Tolerates {sys : System} {A : Type 0} (open_call : Exec (Session sys) A)
    (tolerated : Error → Bool) (done : A → Session sys → Session sys → Type 0) (s s' : Session sys)
    : Type 0 where
  absent :
      (e : Error)
      → (open_call s).0 ≡ err e
      → tolerated e ≡ true
      → (open_call s).1 ≡ s'
      → Tolerates open_call tolerated done s s'
  removed :
      (a : A) (mid after : Session sys)
      → Gives open_call s a mid
      → done a mid after
      → s' ≡ free after
      → Tolerates open_call tolerated done s s'

module _ {sys : System} {A : Type 0} (open_call : Exec (Session sys) A) (tolerated : Error → Bool)
    (wrapped : Error → Error) (body : A → Exec (Session sys) (Unit {0}))
    (done : A → Session sys → Session sys → Type 0)
    (does : (a : A) (mid after : Session sys)
      → Gives (body a) mid tt after
      → done a mid after) where
  tolerated_only :
      (e : Error) (mid s' : Session sys)
      → Gives (if tolerated e then pure tt else fail (wrapped e)) mid tt s'
      → (tolerated e ≡ true) × (mid ≡ s')
  unfolding pure fail
  tolerated_only e mid s' g = ground arith

  opened_result-Tolerates :
      (s s' : Session sys) (r : Result A)
      → (open_call s).0 ≡ r
      → Gives
          (opened_result (λ e. if tolerated e then pure tt else fail (wrapped e)) body r)
          (open_call s).1
          tt
          s'
      → Tolerates open_call tolerated done s s'
  unfolding deferring
  opened_result-Tolerates s s' (ok a) e (g, left) =
      removed a (open_call s).1 (body a (open_call s).1).1 (e, refl)
        (does a (open_call s).1 (body a (open_call s).1).1 (g, refl)) (sym left)
  opened_result-Tolerates s s' (err x) e g =
      let (yes_tolerated, left) = tolerated_only x (open_call s).1 s' g in
      absent x e yes_tolerated left

  -- Looking something up and removing it, or finding that it is not there.
  pub opened-Tolerates :
      (s s' : Session sys)
      → Gives
          (opened open_call (λ e. if tolerated e then pure tt else fail (wrapped e)) body)
          s
          tt
          s'
      → Tolerates open_call tolerated done s s'
  unfolding opened attempt
  opened-Tolerates s s' g = opened_result-Tolerates s s' (open_call s).0 refl g
