-- ===== src/Network/Candidates/Subnets.antt =====
-- allocationCandidates reads the subnets of a document, and none of its host entries.
use cluster_api_provider_lib.Shared.{
  ℕ, ◌≡◌, refl, sym, ap, ◌∙◌, true, false, Option, none, some, List, [], ◌∷◌, arith, inl, inr,
  str_eq, Bool-cases,
}
use cluster_api_provider_lib.Errors.Exec.{Result, ok, err, Result-cases}
use cluster_api_provider_lib.Network.{NetLib, NetworkIp, NetworkDhcp, NetworkDhcpRange, IpNet}
use cluster_api_provider_lib.Network.Candidates.{
  allocation_candidates, subnet_candidates, first_inet, first_dhcp_range, dhcp_range, parse_subnet,
}

abbrev ranges_of : Option NetworkDhcp → List NetworkDhcpRange
ranges_of none = []
ranges_of (some dhcp) = dhcp.ranges

-- Two documents differ in their host entries at most.
abbrev pub SameSubnets : List NetworkIp → List NetworkIp → Type 0
SameSubnets [] [] = Unit
SameSubnets (i ∷ is) (j ∷ js) =
    (i.family ≡ j.family)
    × (i.address ≡ j.address)
    × (i.netmask ≡ j.netmask)
    × (ranges_of i.dhcp ≡ ranges_of j.dhcp)
    × SameSubnets is js
SameSubnets _ _ = ⊥

module _ (lib : NetLib) where
  dhcp_range-ranges :
      (d : Option NetworkDhcp) → dhcp_range lib d ≡ first_dhcp_range lib (ranges_of d)
  unfolding first_dhcp_range
  dhcp_range-ranges none = refl
  dhcp_range-ranges (some dhcp) = refl

  subnet_candidates-ranges :
      (d d' : Option NetworkDhcp) (net : IpNet lib.Ip)
      → ranges_of d ≡ ranges_of d'
      → subnet_candidates lib d net ≡ subnet_candidates lib d' net
  unfolding subnet_candidates
  subnet_candidates-ranges d d' net same =
      rw (dhcp_range-ranges d, dhcp_range-ranges d', same, subnet_candidates) refl

  abbrev of_subnet : NetworkIp → Result (List ℕ)
  of_subnet ip = elim (parse_subnet lib ip.address ip.netmask) [
    | err e ↦ err e
    | ok net ↦ subnet_candidates lib ip.dhcp net
  ]

  of_subnet-same :
      (i j : NetworkIp)
      → i.address ≡ j.address
      → i.netmask ≡ j.netmask
      → ranges_of i.dhcp ≡ ranges_of j.dhcp
      → of_subnet i ≡ of_subnet j
  of_subnet-same i j address netmask ranges =
      elim (Result-cases (parse_subnet lib j.address j.netmask)) [
        | inl (net, parsed) ↦
            ground (arith, parsed, subnet_candidates-ranges i.dhcp j.dhcp net ranges)
        | inr (e, failed) ↦ ground (arith, failed)
      ]

  first_is_inet :
      (i : NetworkIp) (is : List NetworkIp)
      → str_eq i.family "inet" ≡ true
      → allocation_candidates lib (record { ips = i ∷ is }) ≡ of_subnet i
  unfolding allocation_candidates first_inet
  first_is_inet i is inet = rw (inet, allocation_candidates, first_inet) refl

  first_is_other :
      (i : NetworkIp) (is : List NetworkIp)
      → str_eq i.family "inet" ≡ false
      → allocation_candidates lib (record { ips = i ∷ is })
        ≡ allocation_candidates lib (record { ips = is })
  unfolding allocation_candidates first_inet
  first_is_other i is other = rw (other, allocation_candidates, first_inet) refl

  -- Documents that differ in their host entries have the same candidates.
  pub allocation_candidates-SameSubnets :
      (is js : List NetworkIp)
      → SameSubnets is js
      → allocation_candidates lib (record { ips = is })
        ≡ allocation_candidates lib (record { ips = js })
  allocation_candidates-SameSubnets [] [] same = refl
  allocation_candidates-SameSubnets [] (j ∷ js) same = absurd same
  allocation_candidates-SameSubnets (i ∷ is) [] same = absurd same
  allocation_candidates-SameSubnets (i ∷ is) (j ∷ js) (family, address, netmask, ranges, same) =
      elim (Bool-cases (str_eq j.family "inet")) [
        | inl inet ↦
            first_is_inet i is (ap (λ f. str_eq f "inet") family ∙ inet)
            ∙ of_subnet-same i j address netmask ranges
            ∙ sym (first_is_inet j js inet)
        | inr other ↦
            first_is_other i is (ap (λ f. str_eq f "inet") family ∙ other)
            ∙ allocation_candidates-SameSubnets is js same
            ∙ sym (first_is_other j js other)
      ]
