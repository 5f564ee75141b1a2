-- ===== src/Network/Ledger/Reading.antt =====
-- networkXML, which both reservation calls begin with.
use cluster_api_provider_lib.Shared.{◌≡◌, sym, ◌∙◌, subst, inl, inr, arith}
use cluster_api_provider_lib.Errors.Exec.{ok, Result-cases, ◌>>=◌}
use cluster_api_provider_lib.Network.{NetLib, Network}
use cluster_api_provider_lib.Network.Reservation.{NetworkOperations, network_xml}
use cluster_api_provider_lib.Network.Ledger.{entries, UpdateLaws, IsLedger}

module _ (lib : NetLib) {S : Type 0} (n : NetworkOperations S) where
  -- The state after the document was read.
  abbrev pub seen : S → S
  seen s = (network_xml lib n s).1

module _ (lib : NetLib) {S : Type 0} (n : NetworkOperations S) (laws : UpdateLaws lib n) where
  open laws use {document}

  -- Reading the document leaves the network as it is, and gives its document.
  pub keeps : (s : S) → document (network_xml lib n s).1 ≡ document s
  unfolding network_xml ◌>>=◌
  keeps s = ground (arith, laws.read_keeps s)

  pub network_xml_true :
      (s : S) (network : Network) → (network_xml lib n s).0 ≡ ok network → network ≡ document s
  unfolding network_xml ◌>>=◌
  network_xml_true s network e = elim (Result-cases (n.get_xml_desc s).0) [
    | inl (xml, given) ↦ ground (arith, laws.read s xml)
    | inr (x, failed) ↦ absurd (ground arith)
  ]

  -- What the call read is the document, before and after it was read.
  pub seen_document :
      (s : S) {network : Network}
      → (network_xml lib n s).0 ≡ ok network
      → network ≡ document (seen lib n s)
  seen_document s {network} read = network_xml_true s network read ∙ sym (keeps s)

  pub seen-IsLedger :
      (s : S)
      → IsLedger lib (entries (document s))
      → IsLedger lib (entries (document (seen lib n s)))
  seen-IsLedger s ledger = subst (λ d. IsLedger lib (entries d)) (sym (keeps s)) ledger
