-- ===== src/Network/Ledger/Claims.antt =====
-- In a ledger, an address that is free for a MAC is on no entry of another MAC.
use cluster_api_provider_lib.Shared.{
  ◌≡◌, String, Bool, true, false, not, ◌&&◌, ◌⊎◌, inl, inr, List, [], ◌∷◌, arith, All, eq_iff,
  str_eq, Bool-cases, ap,
}
use cluster_api_provider_lib.Network.{NetLib, Network, NetworkDhcpHost}
use cluster_api_provider_lib.Network.Allocation.{host_ip_set, is_free}
use cluster_api_provider_lib.Network.Allocation.Exclusion.{Any, IsOther, add_hosts_held}
use cluster_api_provider_lib.Network.Ledger.{entries, AreApart, IsLedger}
use cluster_api_provider_lib.Network.Ledger.Entries.{host_ip_set-entries}

module _ (lib : NetLib) (mac a : String) where
  -- The entry has the address, and is another MAC's.
  abbrev pub claims : NetworkDhcpHost → Bool
  claims h = str_eq h.ip a && not (lib.equal_fold h.mac mac)

  pub claims_cases :
      (hs : List NetworkDhcpHost) → All (λ h. claims h ≡ false) hs ⊎ Any (λ h. claims h ≡ true) hs
  claims_cases [] = inl tt
  claims_cases (h ∷ hs) = elim (Bool-cases (claims h)) [
    | inl c ↦ inr (inl c)
    | inr c ↦ elim (claims_cases hs) [ inl rest ↦ inl (c, rest) | inr later ↦ inr (inr later) ]
  ]

  pub claimed : (hs : List NetworkDhcpHost) → Any (λ h. claims h ≡ true) hs → Any (λ h. h.ip ≡ a) hs
  claimed [] claim = claim
  claimed (h ∷ hs) (inl c) = inl (ground (arith, eq_iff h.ip a))
  claimed (h ∷ hs) (inr later) = inr (claimed hs later)

  apart_of_claimed :
      (h : NetworkDhcpHost) (hs : List NetworkDhcpHost)
      → str_eq a "" ≡ false
      → h.ip ≡ a
      → All (AreApart lib h) hs
      → All (IsOther lib mac a) hs
  apart_of_claimed h [] full there all = tt
  apart_of_claimed h (k ∷ ks) full there (apart, all) =
      let ips = apart.ips in
      (inl (λ e. cc (ips, full, (eq_iff h.ip k.ip).1 (cc))), apart_of_claimed h ks full there all)

  apart_from_claimed :
      (h : NetworkDhcpHost) (hs : List NetworkDhcpHost)
      → str_eq a "" ≡ false
      → All (AreApart lib h) hs
      → Any (λ k. k.ip ≡ a) hs
      → str_eq h.ip a ≡ false
  apart_from_claimed h [] full all held = absurd held
  apart_from_claimed h (k ∷ ks) full (apart, all) (inl e) =
      let ips = apart.ips in ground (arith, eq_iff h.ip a, eq_iff h.ip k.ip)
  apart_from_claimed h (k ∷ ks) full (apart, all) (inr later) =
      apart_from_claimed h ks full all later

  pub only_claim :
      (hs : List NetworkDhcpHost)
      → str_eq a "" ≡ false
      → IsLedger lib hs
      → Any (λ h. claims h ≡ true) hs
      → All (IsOther lib mac a) hs
  only_claim [] full ledger claim = tt
  only_claim (h ∷ hs) full (apart, ledger) (inl c) =
      (inr (ground arith), apart_of_claimed h hs full (ground (arith, eq_iff h.ip a)) apart)
  only_claim (h ∷ hs) full (apart, ledger) (inr later) =
      let differs = apart_from_claimed h hs full apart (claimed hs later) in
      (inl (λ e. cc ((eq_iff h.ip a).1 e, differs)), only_claim hs full ledger later)

  -- An address that is free for the MAC is claimed by no entry of the ledger.
  pub free_unclaimed :
      (network : Network)
      → str_eq a "" ≡ false
      → IsLedger lib (entries network)
      → is_free lib (host_ip_set network) mac a ≡ true
      → All (λ h. claims h ≡ false) (entries network)
  free_unclaimed network full ledger free = elim (claims_cases (entries network)) [
    | inl all ↦ all
    | inr claim ↦
        let taken =
          add_hosts_held lib mac a [] (entries network) (λ e. cc ((eq_iff a "").1 e, full))
            (claimed (entries network) claim) (only_claim (entries network) full ledger claim) in
        absurd (cc (free, taken, ap (λ set. is_free lib set mac a) (host_ip_set-entries network)))
  ]
