-- ===== src/Network/Ledger/Releasing.antt =====
-- releaseMachineIP as an operation on the ledger of addresses.
use cluster_api_provider_lib.Shared.{
  ◌≡◌, refl, sym, ap, ◌∙◌, subst, String, true, inl, inr, ◌⊎◌, Option, none, some, arith,
}
use cluster_api_provider_lib.Errors.{Error}
use cluster_api_provider_lib.Errors.Exec.{ok, err, Result-cases, ◌>>=◌}
use cluster_api_provider_lib.Network.{NetLib, Network, NetworkDhcpHost}
use cluster_api_provider_lib.Network.Allocation.{host_entry}
use cluster_api_provider_lib.Network.Reservation.{
  NetworkOperations, ip_dhcp_host, delete, network_xml, release_entry, release_machine_ip,
  machine_host_xml,
}
use cluster_api_provider_lib.Network.Ledger.{entries, TextLaws, UpdateLaws, IsLedger, IsErased}
use cluster_api_provider_lib.Network.Ledger.Entries.{host_entry_in_network-entries}
use cluster_api_provider_lib.Network.Ledger.Lookup.{host_entry-fold, deleted-Erases}
use cluster_api_provider_lib.Network.Ledger.Reading.{seen, keeps, seen_document, seen-IsLedger}

module _ (lib : NetLib) (texts : TextLaws lib) {S : Type 0} (n : NetworkOperations S)
    (laws : UpdateLaws lib n) (net_name name mac : String) where
  open laws use {document, host_of}

  abbrev released : S → S
  released s = (release_machine_ip lib n net_name name mac s).1

  -- An entry that is deleted is the one of the MAC.
  delete-IsErased :
      (s : S) (xml ip : String)
      → host_of xml ≡ record { name = name; mac = mac; ip = ip }
      → IsLedger lib (entries (document s))
      → (n.update delete ip_dhcp_host 0 xml s).0 ≡ ok tt
      → IsErased lib mac (document s) (document (n.update delete ip_dhcp_host 0 xml s).1)
  delete-IsErased s xml ip text ledger done =
      let (old, same, out) = laws.deleted xml s done in
      let mine = subst (λ (h : NetworkDhcpHost). lib.equal_fold old.mac h.mac ≡ true) text same in
      let erased = deleted-Erases lib texts mac mine out ledger in
      record { ledger = erased.ledger; booked = λ m. ground (arith, erased.looked_up m) }

  absent-IsErased :
      (network : Network)
      → IsLedger lib (entries network)
      → host_entry lib (entries network) mac ≡ none
      → IsErased lib mac network network
  absent-IsErased network ledger absent = record {
    ledger = ledger;
    booked = λ m. ground (arith, host_entry-fold lib texts (entries network) mac m);
  }

  release_entry-IsErased :
      (s : S) (existing : Option NetworkDhcpHost)
      → host_entry lib (entries (document s)) mac ≡ existing
      → IsLedger lib (entries (document s))
      → (release_entry lib n net_name name mac existing s).0 ≡ ok tt
      → IsErased lib mac
          (document s)
          (document (release_entry lib n net_name name mac existing s).1)
  unfolding release_entry ◌>>=◌ machine_host_xml
  release_entry-IsErased s none absent ledger done = absent-IsErased (document s) ledger absent
  release_entry-IsErased s (some e) present ledger done =
      elim (Result-cases (lib.marshal_host (record { name = name; mac = mac; ip = e.ip }))) [
        | inr (x, failed) ↦ absurd (ground arith)
        | inl (xml, marshalled) ↦
            let text = laws.host_of_marshal _ xml marshalled in
            let gone = delete-IsErased s xml e.ip text ledger (ground arith) in rw marshalled gone
      ]

  release_entry-refused :
      (s : S) (existing : Option NetworkDhcpHost) (e : Error)
      → (release_entry lib n net_name name mac existing s).0 ≡ err e
      → document (release_entry lib n net_name name mac existing s).1 ≡ document s
  unfolding release_entry ◌>>=◌ machine_host_xml
  release_entry-refused s none e failed = refl
  release_entry-refused s (some h) e failed =
      elim (Result-cases (lib.marshal_host (record { name = name; mac = mac; ip = h.ip }))) [
        | inr (x, unmarshalled) ↦ ground arith
        | inl (xml, marshalled) ↦ elim (Result-cases (n.update delete ip_dhcp_host 0 xml s).0) [
          | inl (u, done) ↦ absurd (ground arith)
          | inr (x, refusal) ↦ ground (arith, laws.refused delete xml s x refusal)
        ]
      ]

  release_machine_ip-release_entry :
      (s : S) {network : Network}
      → (network_xml lib n s).0 ≡ ok network
      → release_machine_ip lib n net_name name mac s
        ≡ release_entry lib n net_name name mac
            (host_entry lib (entries network) mac)
            (seen lib n s)
  unfolding release_machine_ip ◌>>=◌
  release_machine_ip-release_entry s {network} read =
      ground (arith, host_entry_in_network-entries lib mac network)

  -- releaseMachineIP that fails leaves the document as it was.
  release_machine_ip_refused :
      (s : S) (e : Error)
      → (release_machine_ip lib n net_name name mac s).0 ≡ err e
      → document (released s) ≡ document s
  unfolding release_machine_ip ◌>>=◌
  release_machine_ip_refused s e failed = elim (Result-cases (network_xml lib n s).0) [
    | inr (x, unread) ↦ ground (arith, keeps lib n laws s)
    | inl (network, read) ↦
        let same = release_machine_ip-release_entry s read in
        ap (λ r. document r.1) same
        ∙ release_entry-refused (seen lib n s) _ e (sym (ap (λ r. r.0) same) ∙ failed)
        ∙ keeps lib n laws s
  ]

  released-IsErased :
      (s : S) {network : Network}
      → IsLedger lib (entries (document s))
      → (network_xml lib n s).0 ≡ ok network
      → (release_machine_ip lib n net_name name mac s).0 ≡ ok tt
      → IsErased lib mac (document s) (document (released s))
  released-IsErased s {network} ledger read done =
      let same = release_machine_ip-release_entry s read in
      let erased =
        release_entry-IsErased (seen lib n s) _
          (ap (λ d. host_entry lib (entries d) mac) (sym (seen_document lib n laws s read)))
          (seen-IsLedger lib n laws s ledger) (sym (ap (λ r. r.0) same) ∙ done) in
      subst (λ d. IsErased lib mac d (document (released s))) (keeps lib n laws s)
        (subst (λ d. IsErased lib mac (document (seen lib n s)) d)
          (sym (ap (λ r. document r.1) same)) erased)

  -- releaseMachineIP that succeeds takes the MAC out of the ledger.
  release_machine_ip-IsErased :
      (s : S)
      → IsLedger lib (entries (document s))
      → (release_machine_ip lib n net_name name mac s).0 ≡ ok tt
      → IsErased lib mac (document s) (document (released s))
  unfolding release_machine_ip ◌>>=◌
  release_machine_ip-IsErased s ledger done = elim (Result-cases (network_xml lib n s).0) [
    | inr (x, unread) ↦ absurd (ground arith)
    | inl (network, read) ↦ released-IsErased s ledger read done
  ]

  -- On a ledger, releaseMachineIP either succeeds, and the document then books no address for its MAC
  -- while every other MAC keeps what it had and the document stays a ledger, or it fails and the
  -- document is as it was.
  pub release_machine_ip_outcome :
      (s : S)
      → IsLedger lib (entries (document s))
      → (((release_machine_ip lib n net_name name mac s).0 ≡ ok tt)
          × IsErased lib mac (document s) (document (released s)))
        ⊎ ((e : Error) × ((release_machine_ip lib n net_name name mac s).0 ≡ err e)
            × (document (released s) ≡ document s))
  release_machine_ip_outcome s ledger =
      elim (Result-cases (release_machine_ip lib n net_name name mac s).0) [
        | inl (u, done) ↦ inl (done, release_machine_ip-IsErased s ledger done)
        | inr (e, failed) ↦ inr (e, failed, release_machine_ip_refused s e failed)
      ]
