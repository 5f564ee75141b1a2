-- ===== src/System/Handles.antt =====
-- Calls that give back every handle that they open, one rule for each way to build a call.
use cluster_api_provider_lib.Shared.{
  ℕ, suc, pred, String, Bool, true, false, ◌≡◌, refl, ap, ◌∙◌, arith, if◌then◌else◌,
}
use cluster_api_provider_lib.Errors.{Error, wrap}
use cluster_api_provider_lib.Errors.Exec.{
  Result, ok, err, Exec, pure, fail, lift, wrapping, attempt, deferring, ◌>>=◌, continue,
  wrap_result,
}
use cluster_api_provider_lib.System.{
  System, Session, on_host, on_files, opening, more_handles, free, opened, opened_result,
}

-- The call holds as many handles when it returns, in success and in failure, as when it began.
pub record IsBalanced {sys : System} {A : Type 0} (m : Exec (Session sys) A) : Type 0 where
  pub at : (s : Session sys) → (m s).1.handles ≡ s.handles

-- The call holds one handle more when it succeeds, and as many as before when it fails.
pub record IsOpener {sys : System} {A : Type 0} (m : Exec (Session sys) A) : Type 0 where
  pub at : (s : Session sys) → (m s).1.handles ≡ more_handles sys (m s).0 s.handles

module _ {sys : System} {A : Type 0} where
  pub IsOpener-opening : (f : Exec sys.lv.Host A) → IsOpener (opening sys f)
  unfolding opening
  IsOpener-opening f = record { at = λ s. refl }

  pub IsBalanced-pure : (a : A) → IsBalanced {sys = sys} (pure a)
  unfolding pure
  IsBalanced-pure a = record { at = λ s. refl }

  pub IsBalanced-fail : (e : Error) → IsBalanced {sys = sys} (fail {A = A} e)
  unfolding fail
  IsBalanced-fail e = record { at = λ s. refl }

  pub IsBalanced-lift : (r : Result A) → IsBalanced {sys = sys} (lift r)
  unfolding lift
  IsBalanced-lift r = record { at = λ s. refl }

  pub IsBalanced-on_host : (f : Exec sys.lv.Host A) → IsBalanced (on_host sys f)
  unfolding on_host
  IsBalanced-on_host f = record { at = λ s. refl }

  pub IsBalanced-on_files : (f : Exec sys.os.Files A) → IsBalanced (on_files sys f)
  unfolding on_files
  IsBalanced-on_files f = record { at = λ s. refl }

  pub IsBalanced-wrapping :
      (t : String) (m : Exec (Session sys) A) → IsBalanced m → IsBalanced (wrapping t m)
  unfolding wrapping
  IsBalanced-wrapping t m b = record { at = b.at }

  pub IsBalanced-if :
      (c : Bool) (m n : Exec (Session sys) A)
      → IsBalanced m
      → IsBalanced n
      → IsBalanced (if c then m else n)
  IsBalanced-if true m n bm bn = bm
  IsBalanced-if false m n bm bn = bn

module _ {sys : System} {A B : Type 0} where
  pub IsBalanced-bind :
      (m : Exec (Session sys) A) (f : A → Exec (Session sys) B)
      → IsBalanced m
      → ((a : A) → IsBalanced (f a))
      → IsBalanced (m >>= f)
  unfolding ◌>>=◌
  IsBalanced-bind m f bm bf = record { at = λ s. go (m s).0 (m s).1 ∙ bm.at s }
    where
      go : (r : Result A) (s : Session sys) → (continue r f s).1.handles ≡ s.handles
      go (ok a) s = (bf a).at s
      go (err e) s = refl

  pub IsBalanced-attempt :
      (m : Exec (Session sys) A) (f : Result A → Exec (Session sys) B)
      → IsBalanced m
      → ((r : Result A) → IsBalanced (f r))
      → IsBalanced (attempt m f)
  unfolding attempt
  IsBalanced-attempt m f bm bf = record { at = λ s. (bf (m s).0).at (m s).1 ∙ bm.at s }

  pub IsBalanced-opened :
      (m : Exec (Session sys) A) (failed : Error → Exec (Session sys) B)
      (body : A → Exec (Session sys) B)
      → IsOpener m
      → ((e : Error) → IsBalanced (failed e))
      → ((a : A) → IsBalanced (body a))
      → IsBalanced (opened m failed body)
  unfolding opened attempt deferring free
  IsBalanced-opened m failed body o bf bb = record {
    at = λ s. go (m s).0 (m s).1 s.handles (o.at s);
  }
    where
      go :
          (r : Result A) (s : Session sys) (n : ℕ)
          → s.handles ≡ more_handles sys r n
          → (opened_result failed body r s).1.handles ≡ n
      go (ok a) s n e =
          let one_more : (body a s).1.handles ≡ suc n = (bb a).at s ∙ e in
          let back : pred (body a s).1.handles ≡ n = omega arith in back
      go (err e) s n h = (bf e).at s ∙ h

module _ {sys : System} {A : Type 0} where
  pub IsOpener-wrapping :
      (t : String) (m : Exec (Session sys) A) → IsOpener m → IsOpener (wrapping t m)
  unfolding wrapping
  IsOpener-wrapping t m o = record { at = λ s. o.at s ∙ same (m s).0 s.handles }
    where
      same : (r : Result A) (n : ℕ) → more_handles sys r n ≡ more_handles sys (wrap_result t r) n
      same (ok a) n = refl
      same (err e) n = refl

  pub IsOpener-deferring :
      (clean_up : Session sys → Session sys) (m : Exec (Session sys) A)
      → ((s : Session sys) → (clean_up s).handles ≡ s.handles)
      → IsOpener m
      → IsOpener (deferring clean_up m)
  unfolding deferring
  IsOpener-deferring clean_up m keep o = record { at = λ s. keep (m s).1 ∙ o.at s }

module _ {sys : System} {A B : Type 0} where
  pub IsOpener-bind :
      (m : Exec (Session sys) A) (f : A → Exec (Session sys) B)
      → IsBalanced m
      → ((a : A) → IsOpener (f a))
      → IsOpener (m >>= f)
  unfolding ◌>>=◌
  IsOpener-bind m f bm of = record { at = λ s. go (m s).0 (m s).1 s.handles (bm.at s) }
    where
      go :
          (r : Result A) (s : Session sys) (n : ℕ)
          → s.handles ≡ n
          → (continue r f s).1.handles ≡ more_handles sys (continue r f s).0 n
      go (ok a) s n e = (of a).at s ∙ ap (more_handles sys (f a s).0) e
      go (err e) s n h = h

pub ruleset balance_rules = (
  IsBalanced-pure, IsBalanced-fail, IsBalanced-lift, IsBalanced-on_host, IsBalanced-on_files,
  IsBalanced-wrapping, IsBalanced-if, IsBalanced-bind, IsBalanced-opened, IsOpener-opening,
  IsOpener-wrapping, IsBalanced-attempt,
)

-- A call that, when it succeeds, returns with one handle more than it began with.
pub record Leaks {sys : System} {A : Type 0} (m : Exec (Session sys) A) : Type 0 where
  pub at : (s : Session sys) (a : A) → (m s).0 ≡ ok a → (m s).1.handles ≡ suc s.handles

module _ {sys : System} {A B : Type 0} where
  pub Leaks-bind :
      (m : Exec (Session sys) A) (f : A → Exec (Session sys) B)
      → IsOpener m
      → ((a : A) → IsBalanced (f a))
      → Leaks (m >>= f)
  unfolding ◌>>=◌
  Leaks-bind m f o bf = record { at = λ s b. go (m s).0 (m s).1 s.handles b (o.at s) }
    where
      go :
          (r : Result A) (s : Session sys) (n : ℕ) (b : B)
          → s.handles ≡ more_handles sys r n
          → (continue r f s).0 ≡ ok b
          → (continue r f s).1.handles ≡ suc n
      go (ok a) s n b e h = (bf a).at s ∙ e
      go (err x) s n b e h = cc

  pub Leaks-opened :
      (m : Exec (Session sys) A) (t : String) (body : A → Exec (Session sys) B)
      → IsOpener m
      → ((a : A) → Leaks (body a))
      → Leaks (opened m (λ e. fail (wrap t e)) body)
  unfolding opened attempt deferring free fail
  Leaks-opened m t body o lb = record { at = λ s b. go (m s).0 (m s).1 s.handles b (o.at s) }
    where
      go :
          (r : Result A) (s : Session sys) (n : ℕ) (b : B)
          → s.handles ≡ more_handles sys r n
          → (opened_result (λ e. fail (wrap t e)) body r s).0 ≡ ok b
          → (opened_result (λ e. fail (wrap t e)) body r s).1.handles ≡ suc n
      go (ok a) s n b e h =
          ap pred ((lb a).at s b h) ∙ (let e' : pred (suc s.handles) ≡ suc n = omega arith in e')
      go (err x) s n b e h = cc
