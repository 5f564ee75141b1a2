-- ===== src/Lib.antt =====
-- The Cluster API infrastructure provider for libvirt: two Kubernetes reconcilers that keep
-- LibvirtCluster and LibvirtMachine objects in step with libvirt hosts, and the libvirt client that
-- they call.
--
-- The parts and their files:
--   Errors, Errors/Exec   Go's error values, and a function that returns `(value, error)` as a
--                         function from a state to a result and the state that it leaves, also after
--                         an error. Errors/Exec/Inversion and System/Inversion take a call that
--                         succeeded apart into its steps.
--   Api, Api/Status       api/v1alpha1: the objects, as records of what the controllers read and
--                         write, and the names of conditions, reasons and finalizers (status.go).
--   Api/Validation        the kubebuilder markers of the types: what the API server admits.
--   Controller            internal/controller: the interfaces of the reconcilers. `Provider` is the
--                         interface of libvirt_provider.go, `Kube` the Kubernetes client, `KubeLib`
--                         the pure helpers of cluster-api, `Run` a reconcile's state: the world
--                         outside and the object that it changes in memory.
--     Setup               SetupWithManager of both reconcilers, as what the manager is asked for.
--     Effects             what the steps of a chain of calls do to the state, and so the chain:
--                         from a condition before to one after, or within a relation.
--     Lifetime            the life of a machine over any number of reconciles, as a step relation
--                         that counts what CreateMachine made and notes what is still owed.
--     MachineStatus       what libvirtmachine_controller.go writes into a machine's status.
--     MachineScope        the scope of a reconcile of a machine, and newMachineConfig.
--     MachineReconciler   libvirtmachine_controller.go: Reconcile, reconcileNormal (reconcile_normal,
--                         whose switch is reconcile_state), reconcileDelete and their helpers.
--     ClusterReconciler   libvirtcluster_controller.go, in the same form.
--     Credentials         credentials.go, and newCredentialsLoader of cmd/main.go.
--     LibvirtProvider     the libvirt client as an instance of `Provider`.
--     MockProvider        mock_provider.go, the provider of the controllers' tests, as one too.
--     Identity            the names of a machine: domainName, setProviderID, domainUUID.
--   Client                internal/libvirtclient: Connection is connect of config.go with
--                         credentials.go, Infra infra.go, Volumes volume.go, CloudInit cloudinit.go,
--                         Domains domain.go, Provider provider.go.
--   Network               internal/libvirtclient/machine_network.go: Candidates the addresses that a
--                         machine may get, Allocation the choice among them, Reservation the DHCP
--                         host entries and the leases. Ledger is what the reservations do to the
--                         network document over a run of calls, seen as a book of addresses; what
--                         libvirt does with the document is its record UpdateLaws, and what the code
--                         relies on of strings.EqualFold and IP.String its record TextLaws.
--   Utils                 pkg/utils/ip.go: tests on addresses, the first host of a subnet.
--   Startup               cmd/main.go: flags, options, and the order of the start-up; what
--                         flag.Parse makes of the arguments is a parameter.
--   Builders, Config      internal/libvirtclient/builders and the structs of config.go.
--   System                what the client calls and the repository does not implement, as records of
--                         operations over a state of their own: the libvirt bindings, os, net/url,
--                         the ISO image library. A Session counts the libvirt handles that are open.
--   Shared                names of the libraries, Boolean tests and lists measured by native numbers.
--   Tests                 a small host and a small cluster, and the theorems applied there.
--
-- The reconcilers call the client through Provider; the client's operations open a connection each,
-- and CreateMachine and DeleteMachine reserve and release an address through the network's interface
-- networkOperations.
--
-- Numbers: an IPv4 address is its uint32, and the sums on it are taken modulo 2^32 as in the code.
-- The address loops run on a fuel of 2^32 + 1 rounds; the loop over uint32 values takes at most one
-- round for each value and one to end, so that it needs no more unless it never ends, which the
-- outcome `never_returns` stands for. Every other loop is a recursion on a list.
--
-- Not modelled: logging; the generated deep copies, the template and list types, which no controller
-- reads, and the scheme registration. The int32 fields of a machine's spec are natural numbers, by
-- their validation markers.
pub mod Shared
pub mod System
pub mod Api
pub mod Builders
pub mod Client
pub mod Config
pub mod Controller
pub mod Errors
pub mod Network
pub mod Startup
pub mod Utils
pub mod Tests
