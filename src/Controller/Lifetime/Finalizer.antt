-- ===== src/Controller/Lifetime/Finalizer.antt =====
-- The finalizer in the life of a machine: it stands guard over what CreateMachine made.
use cluster_api_provider_lib.Shared.{String, ◌≡◌, refl, Bool, true, false, ◌⊎◌, inl, arith}
use cluster_api_provider_lib.Errors.Exec.{Exec, ◌>>=◌}
use cluster_api_provider_lib.Client.Domains.{DomainState, not_found, running, stopped, unknown}
use cluster_api_provider_lib.Api.{LibvirtMachine}
use cluster_api_provider_lib.Api.Status.{libvirt_machine_finalizer}
use cluster_api_provider_lib.Controller.{Provider, Kube, KubeLib, Run, on_world, modify, reading}
use cluster_api_provider_lib.Controller.Credentials.{CredentialsLoader, load, load_ref}
use cluster_api_provider_lib.Controller.Effects.{Leads}
use cluster_api_provider_lib.Controller.Identity.{set_provider_id}
use cluster_api_provider_lib.Controller.Lifetime.{
  Counted, uncounted, counted, settling, counting_provider, counting_kube, Life, Step, saved, lost,
  changed, Reach, here, next, before_patch, outside_after,
}
use cluster_api_provider_lib.Controller.MachineReconciler.{
  MachineScope, observe_result, create_result, start_result, create_missing, reconcile_state,
  reconcile_normal, drop_finalizer, reconcile_delete, reconcile_object, get_cloud_init_data,
}
use cluster_api_provider_lib.Controller.MachineReconciler.Body.{ReadsKeep, Leads-reconcile_body}
use cluster_api_provider_lib.Controller.MachineStatus.{
  set_ready, set_available, set_addresses, set_finalizers, put_condition,
}

module _ (lib : KubeLib) where
  abbrev pub has_finalizer : LibvirtMachine → Bool
  has_finalizer m = lib.contains_finalizer m.metadata.finalizers libvirt_machine_finalizer

  -- Others may change the object, and do not take its finalizer off.
  abbrev pub KeepsFinalizer : LibvirtMachine → LibvirtMachine → Type 0
  KeepsFinalizer m n = (has_finalizer m ≡ false) ⊎ (has_finalizer n ≡ true)

  -- Nothing is owed, or the machine has the finalizer.
  abbrev pub IsGuarded : (owed : Bool) → LibvirtMachine → Type 0
  IsGuarded owed m = (owed ≡ false) ⊎ (has_finalizer m ≡ true)

-- What a reconcile of a guarded machine leaves is guarded, whether its patch is stored or not.
abbrev Guards :
    {W : Type 0}
    → KubeLib
    → Run (Counted W) LibvirtMachine
    → Run (Counted W) LibvirtMachine
    → Type 0
Guards lib run after =
    IsGuarded lib after.world.owed after.obj × IsGuarded lib after.world.owed run.obj

module _ {W : Type 0} (lib : KubeLib) (kube : Kube W) (p : Provider W) (scope : MachineScope) where
  state_finalizers :
      (state : DomainState) (run : Run (Counted W) LibvirtMachine)
      → (reconcile_state lib
          (counting_kube kube)
          (counting_provider p)
          scope
          state
          run).1.obj.metadata.finalizers
        ≡ run.obj.metadata.finalizers
  unfolding reconcile_state start_result create_result observe_result on_world modify reading
      set_ready set_available put_condition set_provider_id set_addresses create_missing
      get_cloud_init_data counting_provider counting_kube counted settling uncounted ◌>>=◌
  state_finalizers not_found run = ground arith
  state_finalizers stopped run = ground arith
  state_finalizers running run = ground arith
  state_finalizers unknown run = ground arith

  normal-Guards :
      (run : Run (Counted W) LibvirtMachine)
      → run.obj.metadata.deleting ≡ false
      → IsGuarded lib run.world.owed run.obj
      → Guards lib run (reconcile_normal lib (counting_kube kube) (counting_provider p) scope run).1
  unfolding reconcile_normal on_world modify reading set_available set_finalizers put_condition
      counting_provider uncounted ◌>>=◌
  normal-Guards run alive guarded = grind (arith, state_finalizers)

  delete-Guards :
      (run : Run (Counted W) LibvirtMachine)
      → IsGuarded lib run.world.owed run.obj
      → Guards lib run (reconcile_delete lib (counting_kube kube) (counting_provider p) scope run).1
  unfolding reconcile_delete drop_finalizer on_world modify reading set_finalizers counting_provider
      settling ◌>>=◌
  delete-Guards run guarded = ground arith

-- The machine and what is owed are as at the start.
abbrev IsLike :
    {W : Type 0} → Run (Counted W) LibvirtMachine → Run (Counted W) LibvirtMachine → Type 0
IsLike start run = (run.obj ≡ start.obj) × (run.world.owed ≡ start.world.owed)

module _ {W : Type 0} (kube : Kube W) (loader : CredentialsLoader)
    (start : Run (Counted W) LibvirtMachine) where
  Leads-uncounted :
      {A : Type 0} (f : Exec W A) → Leads (IsLike start) (IsLike start) (on_world (uncounted f))
  unfolding on_world uncounted
  Leads-uncounted f = record { at = λ run like. like }

  reads-IsLike : ReadsKeep (counting_kube kube) loader (IsLike start)
  unfolding counting_kube on_world uncounted load load_ref ◌>>=◌
  reads-IsLike = record {
    owner = λ m. Leads-uncounted (kube.get_owner_machine m);
    cluster = λ m. Leads-uncounted (kube.get_cluster_from_metadata m);
    infra = λ key. Leads-uncounted (kube.get_libvirt_cluster key);
    creds = λ c. record { at = λ run like. ground arith };
  }

module _ {W : Type 0} (lib : KubeLib) (start : Run (Counted W) LibvirtMachine) where
  IsLike-Guards :
      (run : Run (Counted W) LibvirtMachine)
      → IsGuarded lib start.world.owed start.obj
      → IsLike start run
      → Guards lib start run
  IsLike-Guards run guarded like = ground arith

  IsLike-IsGuarded :
      (run : Run (Counted W) LibvirtMachine)
      → IsGuarded lib start.world.owed start.obj
      → IsLike start run
      → IsGuarded lib run.world.owed run.obj
  IsLike-IsGuarded run guarded like = ground arith

  Guards-IsLike :
      (run after : Run (Counted W) LibvirtMachine)
      → IsLike start run
      → Guards lib run after
      → Guards lib start after
  Guards-IsLike run after like guards = ground arith

module _ {W : Type 0} (lib : KubeLib) (kube : Kube W) (p : Provider W)
    (sha256_hex : String → String) (loader : CredentialsLoader) where
  body-Guards :
      (s : Life W)
      → IsGuarded lib s.outside.owed s.object
      → Guards lib
          (record { world = s.outside; obj = s.object })
          (before_patch lib kube p sha256_hex loader s)
  body-Guards s guarded =
      let start : Run (Counted W) LibvirtMachine = record { world = s.outside; obj = s.object } in
      (Leads-reconcile_body lib (counting_kube kube) (counting_provider p) sha256_hex loader
          {Pre = IsLike start} {Post = Guards lib start}
          (λ run like. IsLike-Guards lib start run guarded like) (reads-IsLike kube loader start)
          (λ scope run like alive.
            Guards-IsLike lib start run
              (reconcile_normal lib (counting_kube kube) (counting_provider p) scope run).1 like
              (normal-Guards lib kube p scope run alive
                (IsLike-IsGuarded lib start run guarded like)))
          (λ scope run like.
            Guards-IsLike lib start run
              (reconcile_delete lib (counting_kube kube) (counting_provider p) scope run).1 like
              (delete-Guards lib kube p scope run
                (IsLike-IsGuarded lib start run guarded like)))).at
        start (refl, refl)

  -- The patch deletes nothing and creates nothing.
  outside_after-owed :
      (s : Life W)
      → (outside_after lib kube p sha256_hex loader s).owed
        ≡ (before_patch lib kube p sha256_hex loader s).world.owed
  unfolding reconcile_object counting_kube uncounted
  outside_after-owed s = refl

  Step-IsGuarded :
      {s t : Life W}
      → Step lib kube p sha256_hex loader (KeepsFinalizer lib) s t
      → IsGuarded lib s.outside.owed s.object
      → IsGuarded lib t.outside.owed t.object
  Step-IsGuarded {s} (saved stored e) h = ground (arith, body-Guards s h, outside_after-owed s)
  Step-IsGuarded {s} (lost x failed e) h = ground (arith, body-Guards s h, outside_after-owed s)
  Step-IsGuarded {s} (changed object inner kept e) h = ground arith

  Reach-IsGuarded :
      {s t : Life W}
      → IsGuarded lib s.outside.owed s.object
      → Reach lib kube p sha256_hex loader (KeepsFinalizer lib) s t
      → IsGuarded lib t.outside.owed t.object
  Reach-IsGuarded h here = h
  Reach-IsGuarded h (next r step) = Step-IsGuarded step (Reach-IsGuarded h r)

  -- In the life of a machine, from a state in which CreateMachine was not called, or not since a
  -- DeleteMachine call that succeeded: once CreateMachine was called, even in vain, the stored object
  -- has the finalizer until a DeleteMachine call has succeeded. Any patch may fail, the world changes
  -- in any way between reconciles, and so does the object, but for the finalizer, which others do not
  -- take off.
  pub owed_has_finalizer :
      (s t : Life W)
      → s.outside.owed ≡ false
      → Reach lib kube p sha256_hex loader (KeepsFinalizer lib) s t
      → (t.outside.owed ≡ false) ⊎ (has_finalizer lib t.object ≡ true)
  owed_has_finalizer s t nothing reach = Reach-IsGuarded (inl nothing) reach
