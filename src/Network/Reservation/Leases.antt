-- ===== src/Network/Reservation/Leases.antt =====
-- What leaseAddressForMac of internal/libvirtclient/machine_network.go finds in a list of leases, and
-- what machineAddress asks.
use cluster_api_provider_lib.Shared.{
  String, ◌≡◌, ◌≢◌, ◌↔◌, ◌⊎◌, refl, sym, ap, inl, inr, true, false, ◌&&◌, not, List, [], ◌∷◌, ◌++◌,
  ◌∙◌, arith, str_eq, eq_iff, All, Bool-cases,
}
use cluster_api_provider_lib.Errors.Exec.{pure}
use cluster_api_provider_lib.Errors.Exec.Inversion.{Gives, bind-Gives, wrapping-Gives}
use cluster_api_provider_lib.Network.{NetLib, NetworkDhcpLease}
use cluster_api_provider_lib.Network.Reservation.{
  NetworkOperations, lease_address_for_mac, machine_address,
}

module _ (lib : NetLib) where
  -- The lease is of another MAC, or has no address.
  abbrev IsPassedOver : String → NetworkDhcpLease → Type 0
  IsPassedOver mac l = (lib.equal_fold l.mac mac ≡ false) ⊎ (l.ip_addr ≡ "")

  -- The lease lookup gives "" exactly when no lease of the MAC has an address.
  lease_address_for_mac_none :
      (mac : String) (leases : List NetworkDhcpLease)
      → (lease_address_for_mac lib leases mac ≡ "") ↔ All (IsPassedOver mac) leases
  unfolding lease_address_for_mac
  lease_address_for_mac_none mac [] = (λ _. tt, λ _. refl)
  lease_address_for_mac_none mac (l ∷ ls) =
      let (there, back) = lease_address_for_mac_none mac ls in
      (ground (arith, there, eq_iff l.ip_addr ""), ground (arith, back, eq_iff l.ip_addr ""))

  -- The address is that of the first lease of the MAC that has one.
  pub record IsLeased (leases : List NetworkDhcpLease) (mac address : String) : Type 0 where
    pub earlier : List NetworkDhcpLease
    pub lease : NetworkDhcpLease
    pub later : List NetworkDhcpLease
    pub listed : leases ≡ earlier ++ (lease ∷ later)
    pub passed_over : All (IsPassedOver mac) earlier
    pub of_mac : lib.equal_fold lease.mac mac ≡ true
    pub addressed : lease.ip_addr ≡ address

  module _ {mac address : String} (l : NetworkDhcpLease) (ls : List NetworkDhcpLease) where
    skip-IsLeased : IsPassedOver mac l → IsLeased ls mac address → IsLeased (l ∷ ls) mac address
    skip-IsLeased over r = record {
      earlier = l ∷ r.earlier;
      lease = r.lease;
      later = r.later;
      listed = ap (λ k. l ∷ k) r.listed;
      passed_over = (over, r.passed_over);
      of_mac = r.of_mac;
      addressed = r.addressed;
    }

    head-IsLeased :
        lib.equal_fold l.mac mac ≡ true → l.ip_addr ≡ address → IsLeased (l ∷ ls) mac address
    head-IsLeased same e = record {
      earlier = [];
      lease = l;
      later = ls;
      listed = refl;
      passed_over = tt;
      of_mac = same;
      addressed = e;
    }

  lease_address_for_mac-IsLeased :
      {mac : String} (leases : List NetworkDhcpLease) (address : String)
      → lease_address_for_mac lib leases mac ≡ address
      → address ≢ ""
      → IsLeased leases mac address
  unfolding lease_address_for_mac
  lease_address_for_mac-IsLeased [] address e given = absurd (given (sym e))
  lease_address_for_mac-IsLeased {mac} (l ∷ ls) address e given =
      elim (Bool-cases (lib.equal_fold l.mac mac && not (str_eq l.ip_addr ""))) [
        | inl e' ↦ head-IsLeased l ls (ground arith) (ground arith)
        | inr e' ↦
            skip-IsLeased l ls (ground (arith, eq_iff l.ip_addr ""))
              (lease_address_for_mac-IsLeased ls address (ground arith) given)
      ]

  module _ {S : Type 0} (n : NetworkOperations S) where
    -- The leases were read from `s`, and the address is that of one of them.
    pub record IsLookedUp (mac address : String) (s s' : S) : Type 0 where
      pub leases : List NetworkDhcpLease
      pub read : Gives n.get_dhcp_leases s leases s'
      pub leased : IsLeased leases mac address

    pub machine_address-IsLookedUp :
        (net_name mac : String) (s s' : S) (address : String)
        → address ≢ ""
        → Gives (machine_address lib n net_name mac) s address s'
        → IsLookedUp mac address s s'
    unfolding machine_address pure
    machine_address-IsLookedUp net_name mac s s' address given g =
        let (leases, read_at, read, (found, left)) = bind-Gives _ _ s s' address g in
        record {
          leases = leases;
          read = wrapping-Gives _ _ s s' leases (read.0, read.1 ∙ left);
          leased = lease_address_for_mac-IsLeased leases address (cc (found)) given;
        }
