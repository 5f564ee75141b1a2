-- ===== src/Controller/Effects.antt =====
-- What the steps of a reconcile do to its state. A condition that each read keeps, and from which the
-- last step leads to another, is led there by the whole chain; a reflexive and transitive relation
-- that each step keeps to is kept to by the chain.
use cluster_api_provider_lib.Shared.{◌≡◌, refl, Bool, true, false, if◌then◌else◌}
use cluster_api_provider_lib.Errors.Exec.{Result, ok, err, Exec, pure, continue, ◌>>=◌}
use cluster_api_provider_lib.Controller.{Run, reading}

-- A reflexive and transitive relation.
pub record IsPreorder {S : Type 0} (R : S → S → Type 0) : Type 0 where
  pub same : (s : S) → R s s
  pub trans : (s t u : S) → R s t → R t u → R s u

-- Whatever the action returns, the state that it leaves stands in the relation to that before it.
pub record Within {S A : Type 0} (R : S → S → Type 0) (act : Exec S A) : Type 0 where
  pub at : (s : S) → R s (act s).1

-- From a state that meets the first condition the action leads to one that meets the second, whatever
-- it returns.
pub record Leads {S A : Type 0} (Pre Post : S → Type 0) (act : Exec S A) : Type 0 where
  pub at : (s : S) → Pre s → Post (act s).1

module _ {S : Type 0} {Pre Post : S → Type 0} (weaken : (s : S) → Pre s → Post s) where
  pub Leads-pure : {A : Type 0} (a : A) → Leads Pre Post (pure a)
  unfolding pure
  Leads-pure a = record { at = weaken }

  Leads-continue :
      {A B : Type 0} (r : Result A) (f : A → Exec S B)
      → ((a : A) → Leads Pre Post (f a))
      → Leads Pre Post (continue r f)
  Leads-continue (ok a) f next = record { at = (next a).at }
  Leads-continue (err e) f next = record { at = weaken }

  pub Leads-bind :
      {A B : Type 0} (act : Exec S A) (f : A → Exec S B)
      → Leads Pre Pre act
      → ((a : A) → Leads Pre Post (f a))
      → Leads Pre Post (act >>= f)
  unfolding ◌>>=◌
  Leads-bind act f first next = record {
    at = λ s pre. (Leads-continue (act s).0 f next).at (act s).1 (first.at s pre);
  }

module _ {S A : Type 0} (Post : S → Type 0) where
  pub Leads-branch :
      (b : Bool) (f g : Exec S A) (s : S)
      → (b ≡ true → Post (f s).1)
      → (b ≡ false → Post (g s).1)
      → Post ((if b then f else g) s).1
  Leads-branch true f g s first second = first refl
  Leads-branch false f g s first second = second refl

module _ {W Obj A : Type 0} {Pre Post : Run W Obj → Type 0} where
  pub Leads-reading :
      (f : Obj → Exec (Run W Obj) A)
      → ((run : Run W Obj) → Pre run → Post (f run.obj run).1)
      → Leads Pre Post (reading f)
  unfolding reading
  Leads-reading f each = record { at = each }

-- Keeping to a preorder is leading from what is related to a first state to what is related to it.
module _ {S A : Type 0} {R : S → S → Type 0} (order : IsPreorder R) (start : S) where
  pub Leads-of_Within : (act : Exec S A) → Within R act → Leads (R start) (R start) act
  Leads-of_Within act w = record { at = λ s r. order.trans start s (act s).1 r (w.at s) }
