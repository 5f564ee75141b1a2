-- ===== src/Network/Allocation/Exclusion.antt =====
-- The addresses that the network document holds for other MACs, as allocateMachineIPIn sees them.
use cluster_api_provider_lib.Shared.{
  String, ◌≡◌, ◌≢◌, ◌⊎◌, inl, inr, false, List, [], ◌∷◌, arith, All, eq_iff, str_eq, if◌then◌else◌,
}
use cluster_api_provider_lib.Network.{NetLib, NetworkDhcpHost}
use cluster_api_provider_lib.Network.Allocation.{IpSet, lookup, add_hosts, is_free}

-- Some element of the list is so.
abbrev pub Any : {A : Type 0} → (A → Type 0) → List A → Type 0
Any P [] = ⊥
Any P (x ∷ xs) = P x ⊎ Any P xs

module _ (lib : NetLib) (mac a : String) where
  -- The entry has another address, or it is another MAC's.
  abbrev pub IsOther : NetworkDhcpHost → Type 0
  IsOther h = (h.ip ≢ a) ⊎ (lib.equal_fold h.mac mac ≡ false)

  -- One assignment.
  abbrev put : IpSet → NetworkDhcpHost → IpSet
  put set h = if str_eq h.ip "" then set else (h.ip, h.mac) ∷ set

  put_kept :
      (set : IpSet) (h : NetworkDhcpHost)
      → is_free lib set mac a ≡ false
      → IsOther h
      → is_free lib (put set h) mac a ≡ false
  unfolding is_free lookup
  put_kept set h taken other = ground (arith, eq_iff h.ip a)

  put_held :
      (set : IpSet) (h : NetworkDhcpHost)
      → a ≢ ""
      → h.ip ≡ a
      → IsOther h
      → is_free lib (put set h) mac a ≡ false
  unfolding is_free lookup
  put_held set h full there other = ground (arith, eq_iff h.ip a, eq_iff h.ip "")

  add_hosts_kept :
      (set : IpSet) (hosts : List NetworkDhcpHost)
      → is_free lib set mac a ≡ false
      → All IsOther hosts
      → is_free lib (add_hosts set hosts) mac a ≡ false
  unfolding add_hosts
  add_hosts_kept set [] taken other = taken
  add_hosts_kept set (h ∷ hosts) taken (o, other) =
      add_hosts_kept (put set h) hosts (put_kept set h taken o) other

  pub add_hosts_held :
      (set : IpSet) (hosts : List NetworkDhcpHost)
      → a ≢ ""
      → Any (λ h. h.ip ≡ a) hosts
      → All IsOther hosts
      → is_free lib (add_hosts set hosts) mac a ≡ false
  unfolding add_hosts
  add_hosts_held set [] full h other = absurd h
  add_hosts_held set (h ∷ hosts) full (inl e) (o, other) =
      add_hosts_kept (put set h) hosts (put_held set h full e o) other
  add_hosts_held set (h ∷ hosts) full (inr later) (o, other) =
      add_hosts_held (put set h) hosts full later other
