-- ===== src/Controller/Lifetime.antt =====
-- The life of a LibvirtMachine over any number of reconciles of
-- internal/controller/libvirtmachine_controller.go: the object that the API server stores, the world
-- outside, how often CreateMachine succeeded, and whether it was called without a DeleteMachine call
-- that succeeded since. Between reconciles the world changes as it likes, and others change the object
-- as the relation `Others` has it.
pub mod Creations
pub mod Finalizer
use cluster_api_provider_lib.Shared.{ℕ, suc, String, ◌≡◌, Bool, true, false}
use cluster_api_provider_lib.Errors.{Error}
use cluster_api_provider_lib.Errors.Exec.{Result, ok, err, Exec}
use cluster_api_provider_lib.Api.{LibvirtMachine}
use cluster_api_provider_lib.Controller.{Provider, Kube, KubeLib, Run}
use cluster_api_provider_lib.Controller.Credentials.{CredentialsLoader}
use cluster_api_provider_lib.Controller.MachineReconciler.{reconcile_body, reconcile_object}

-- A world with the number of successful CreateMachine calls so far; `owed` when CreateMachine was
-- called, and may have left something on the host, and no DeleteMachine succeeded since.
pub record Counted (W : Type 0) : Type 0 where
  pub inner : W
  pub created : ℕ
  pub owed : Bool

-- One more when the call succeeded.
abbrev pub one_more : Result (Unit {0}) → ℕ → ℕ
one_more (ok _) n = suc n
one_more (err e) n = n

-- Nothing is owed once the call succeeded.
abbrev pub settle : Result (Unit {0}) → Bool → Bool
settle (ok _) owed = false
settle (err e) owed = owed

module _ {W : Type 0} where
  -- A call that is not counted.
  unfoldable pub uncounted : {A : Type 0} → Exec W A → Exec (Counted W) A
  uncounted f s = ((f s.inner).0, record s { inner = (f s.inner).1 })

  unfoldable pub counted : Exec W (Unit {0}) → Exec (Counted W) (Unit {0})
  counted f s = (
    (f s.inner).0,
    record { inner = (f s.inner).1; created = one_more (f s.inner).0 s.created; owed = true },
  )

  unfoldable pub settling : Exec W (Unit {0}) → Exec (Counted W) (Unit {0})
  settling f s =
      ((f s.inner).0, record s { inner = (f s.inner).1; owed = settle (f s.inner).0 s.owed })

  -- The same provider, with its CreateMachine calls and its successful DeleteMachine calls noted.
  unfoldable pub counting_provider : Provider W → Provider (Counted W)
  counting_provider p = record {
    ensure_infra = λ cfg. uncounted (p.ensure_infra cfg);
    get_machine_state = λ cfg. uncounted (p.get_machine_state cfg);
    create_machine = λ cfg. counted (p.create_machine cfg);
    start_machine = λ cfg. uncounted (p.start_machine cfg);
    delete_machine = λ cfg. settling (p.delete_machine cfg);
    get_machine_address = λ cfg. uncounted (p.get_machine_address cfg);
  }

  unfoldable pub counting_kube : Kube W → Kube (Counted W)
  counting_kube kube = record {
    get_libvirt_machine = λ key. uncounted (kube.get_libvirt_machine key);
    get_libvirt_cluster = λ key. uncounted (kube.get_libvirt_cluster key);
    get_secret = λ key. uncounted (kube.get_secret key);
    get_owner_machine = λ m. uncounted (kube.get_owner_machine m);
    get_owner_cluster = λ m. uncounted (kube.get_owner_cluster m);
    get_cluster_from_metadata = λ m. uncounted (kube.get_cluster_from_metadata m);
    new_machine_helper = λ m. uncounted (kube.new_machine_helper m);
    new_cluster_helper = λ c. uncounted (kube.new_cluster_helper c);
    patch_machine = λ before after. uncounted (kube.patch_machine before after);
    patch_cluster = λ before after. uncounted (kube.patch_cluster before after);
    list_all = uncounted kube.list_all;
    list_in = λ namespace value. uncounted (kube.list_in namespace value);
  }

-- The stored object, the world, and how many reconciles ended with a failed patch.
pub record Life (W : Type 0) : Type 0 where
  pub object : LibvirtMachine
  pub outside : Counted W
  pub unsaved : ℕ

module _ {W : Type 0} (lib : KubeLib) (kube : Kube W) (p : Provider W)
    (sha256_hex : String → String) (loader : CredentialsLoader) where
  -- The run of the reconcile when it comes to the patch.
  abbrev pub before_patch : Life W → Run (Counted W) LibvirtMachine
  before_patch s =
      (reconcile_body lib (counting_kube kube) (counting_provider p) sha256_hex loader
        (record { world = s.outside; obj = s.object })).1

  abbrev pub patch_result : Life W → Result (Unit {0})
  patch_result s =
      let run = before_patch s in ((counting_kube kube).patch_machine s.object run.obj run.world).0

  abbrev pub outside_after : Life W → Counted W
  outside_after s =
      (reconcile_object lib (counting_kube kube) (counting_provider p) sha256_hex loader s.object
        s.outside).1

module _ {W : Type 0} (lib : KubeLib) (kube : Kube W) (p : Provider W)
    (sha256_hex : String → String) (loader : CredentialsLoader)
    (Others : LibvirtMachine → LibvirtMachine → Type 0) where
  -- One step: a reconcile whose patch stores the object, one whose patch fails, or a change by others.
  pub data Step (s t : Life W) : Type 0 where
    saved :
        patch_result lib kube p sha256_hex loader s ≡ ok tt
        → t ≡ record {
          object = (before_patch lib kube p sha256_hex loader s).obj;
          outside = outside_after lib kube p sha256_hex loader s;
          unsaved = s.unsaved;
        }
        → Step s t
    lost :
        (e : Error)
        → patch_result lib kube p sha256_hex loader s ≡ err e
        → t ≡ record {
          object = s.object;
          outside = outside_after lib kube p sha256_hex loader s;
          unsaved = suc s.unsaved;
        }
        → Step s t
    changed :
        (object : LibvirtMachine) (inner : W)
        → Others s.object object
        → t ≡ record {
          object = object;
          outside = record s.outside { inner = inner };
          unsaved = s.unsaved;
        }
        → Step s t

  pub data Reach (s : Life W) : Life W → Type 0 where
    here : Reach s s
    next : {t u : Life W} → Reach s t → Step t u → Reach s u
