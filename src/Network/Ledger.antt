-- ===== src/Network/Ledger.antt =====
-- The DHCP host entries of a libvirt network as a ledger of addresses: what the reservations of
-- internal/libvirtclient/machine_network.go do to the network document over a run of calls. libvirt
-- keeps the document; what its Update and GetXMLDesc do with it is the record `UpdateLaws`.
pub mod Entries
pub mod Unique
pub mod Claims
pub mod Lookup
pub mod Planned
pub mod Carried
pub mod Reading
pub mod Reserving
pub mod Releasing
pub mod Owner
pub mod Freedom
pub mod Again
pub mod History
use cluster_api_provider_lib.Shared.{
  ℕ, str_eq, String, ◌≡◌, ◌≢◌, Bool, true, false, not, ◌&&◌, Option, none, some, List, [], ◌∷◌,
  ◌++◌, All, if◌then◌else◌,
}
use cluster_api_provider_lib.Errors.{Error}
use cluster_api_provider_lib.Errors.Exec.{ok, err}
use cluster_api_provider_lib.Network.{NetLib, Network, NetworkIp, NetworkDhcpHost}
use cluster_api_provider_lib.Network.Candidates.Subnets.{SameSubnets}
use cluster_api_provider_lib.Network.Allocation.{hosts_of, host_entry}
use cluster_api_provider_lib.Network.Reservation.{
  NetworkOperations, NetworkUpdateCommand, add_last, modify, delete, ip_dhcp_host,
}

-- The host entries of a document, in its order.
unfoldable pub entries_of : List NetworkIp → List NetworkDhcpHost
entries_of [] = []
entries_of (ip ∷ ips) = hosts_of ip.dhcp ++ entries_of ips

abbrev pub entries : Network → List NetworkDhcpHost
entries network = entries_of network.ips

-- The second list is the first with the entry put in somewhere.
pub data Inserted (k : NetworkDhcpHost) : List NetworkDhcpHost → List NetworkDhcpHost → Type 0 where
  here : {hs : List NetworkDhcpHost} → Inserted k hs (k ∷ hs)
  there :
      {h : NetworkDhcpHost} {hs hs' : List NetworkDhcpHost}
      → Inserted k hs hs'
      → Inserted k (h ∷ hs) (h ∷ hs')

-- Documented behaviour of strings.EqualFold: an equivalence, and equality where the second text is
-- an IPv4 address in dotted decimal, which has no letters. IP.String gives no empty text.
pub record TextLaws (lib : NetLib) : Type 0 where
  pub fold_refl : (s : String) → lib.equal_fold s s ≡ true
  pub fold_sym : (s t : String) → lib.equal_fold s t ≡ true → lib.equal_fold t s ≡ true
  pub fold_trans :
      (s t u : String)
      → lib.equal_fold s t ≡ true
      → lib.equal_fold t u ≡ true
      → lib.equal_fold s u ≡ true
  pub fold_dotted :
      (s : String) (a : ℕ) → lib.equal_fold s (lib.ipv4_string a) ≡ true → s ≡ lib.ipv4_string a
  pub dotted_full : (a : ℕ) → lib.ipv4_string a ≢ ""

-- Documented behaviour of virNetworkUpdate on the host section, of virNetworkGetXMLDesc and of
-- virNetworkGetDHCPLeases: reads leave the network as it is and give its document; an update that
-- fails changes nothing, and one that succeeds changes host entries only; ADD_LAST puts the entry that the text describes into the document, MODIFY
-- takes an entry with its MAC away for it, and DELETE takes an entry with its MAC away.
pub record UpdateLaws (lib : NetLib) {S : Type 0} (n : NetworkOperations S) : Type 0 where
  pub document : S → Network
  pub host_of : String → NetworkDhcpHost
  pub host_of_marshal :
      (h : NetworkDhcpHost) (xml : String) → lib.marshal_host h ≡ ok xml → host_of xml ≡ h
  pub read :
      (s : S) (xml : String)
      → (n.get_xml_desc s).0 ≡ ok xml
      → lib.unmarshal_network xml ≡ ok (document s)
  pub read_keeps : (s : S) → document (n.get_xml_desc s).1 ≡ document s
  pub leases_keep : (s : S) → document (n.get_dhcp_leases s).1 ≡ document s
  pub refused :
      (c : NetworkUpdateCommand) (xml : String) (s : S) (e : Error)
      → (n.update c ip_dhcp_host 0 xml s).0 ≡ err e
      → document (n.update c ip_dhcp_host 0 xml s).1 ≡ document s
  pub subnets_kept :
      (c : NetworkUpdateCommand) (xml : String) (s : S)
      → SameSubnets (document s).ips (document (n.update c ip_dhcp_host 0 xml s).1).ips
  pub added :
      (xml : String) (s : S)
      → (n.update add_last ip_dhcp_host 0 xml s).0 ≡ ok tt
      → Inserted
          (host_of xml)
          (entries (document s))
          (entries (document (n.update add_last ip_dhcp_host 0 xml s).1))
  pub modified :
      (xml : String) (s : S)
      → (n.update modify ip_dhcp_host 0 xml s).0 ≡ ok tt
      → (old : NetworkDhcpHost) × (rest : List NetworkDhcpHost) × (lib.equal_fold old.mac
            (host_of xml).mac
          ≡ true)
        × Inserted old rest (entries (document s))
        × Inserted (host_of xml) rest (entries (document (n.update modify ip_dhcp_host 0 xml s).1))
  pub deleted :
      (xml : String) (s : S)
      → (n.update delete ip_dhcp_host 0 xml s).0 ≡ ok tt
      → (old : NetworkDhcpHost) × (lib.equal_fold old.mac (host_of xml).mac ≡ true)
        × Inserted old
            (entries (document (n.update delete ip_dhcp_host 0 xml s).1))
            (entries (document s))

module _ (lib : NetLib) where
  -- Two entries have different MACs, and no address in common.
  pub record AreApart (h k : NetworkDhcpHost) : Type 0 where
    pub macs : lib.equal_fold h.mac k.mac ≡ false
    pub ips : (str_eq h.ip k.ip && not (str_eq h.ip "")) ≡ false

  -- No address is held twice, and no MAC has two entries.
  abbrev pub IsLedger : List NetworkDhcpHost → Type 0
  IsLedger [] = Unit
  IsLedger (h ∷ hs) = All (AreApart h) hs × IsLedger hs

  -- The abstract view: which address a MAC has.
  abbrev pub Book : Type 0
  Book = String → Option String

  abbrev pub address_of : Option NetworkDhcpHost → Option String
  address_of none = none
  address_of (some h) = some h.ip

  abbrev pub book : Network → Book
  book network mac = address_of (host_entry lib (entries network) mac)

  abbrev pub assign : String → String → Book → Book
  assign mac ip b m = if lib.equal_fold mac m then some ip else b m

  abbrev pub erase : String → Book → Book
  erase mac b m = if lib.equal_fold mac m then none else b m

  -- The document `after` the MAC was given the address: still a ledger, with the address booked.
  pub record IsAssigned (mac ip : String) (before after : Network) : Type 0 where
    pub ledger : IsLedger (entries after)
    pub booked : (m : String) → book after m ≡ assign mac ip (book before) m

  -- The document `after` the MAC's address was given back.
  pub record IsErased (mac : String) (before after : Network) : Type 0 where
    pub ledger : IsLedger (entries after)
    pub booked : (m : String) → book after m ≡ erase mac (book before) m
