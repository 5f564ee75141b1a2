-- ===== src/Network/Ledger/Reserving.antt =====
-- reserveMachineIP as an operation on the ledger of addresses.
use cluster_api_provider_lib.Shared.{◌≡◌, ◌≢◌, sym, ap, ◌∙◌, subst, String, inl, inr, ◌⊎◌, arith}
use cluster_api_provider_lib.Errors.{Error}
use cluster_api_provider_lib.Errors.Exec.{ok, err, Result-cases, ◌>>=◌}
use cluster_api_provider_lib.Network.{NetLib, Network}
use cluster_api_provider_lib.Network.Reservation.{
  NetworkOperations, ip_dhcp_host, HostUpdate, plan_host_update, network_xml, carry_out,
  reserve_machine_ip,
}
use cluster_api_provider_lib.Network.Reservation.Distinct.{carry_out-ip}
use cluster_api_provider_lib.Network.Ledger.{entries, TextLaws, UpdateLaws, IsLedger, IsAssigned}
use cluster_api_provider_lib.Network.Ledger.Reading.{seen, keeps, seen_document, seen-IsLedger}
use cluster_api_provider_lib.Network.Ledger.Planned.{planned_dotted}
use cluster_api_provider_lib.Network.Ledger.Carried.{carry_out-IsAssigned}

module _ (lib : NetLib) (texts : TextLaws lib) {S : Type 0} (n : NetworkOperations S)
    (laws : UpdateLaws lib n) (net_name name mac : String) where
  open laws use {document, host_of}

  abbrev reserved : S → S
  reserved s = (reserve_machine_ip lib n net_name name mac s).1

  reserve_machine_ip-carry_out :
      (s : S) {network : Network} {p : HostUpdate}
      → (network_xml lib n s).0 ≡ ok network
      → plan_host_update lib network name mac ≡ ok p
      → reserve_machine_ip lib n net_name name mac s
        ≡ carry_out lib n net_name name p (seen lib n s)
  unfolding reserve_machine_ip ◌>>=◌
  reserve_machine_ip-carry_out s read planned = ground arith

  carry_out-refused :
      (s : S) (p : HostUpdate) (e : Error)
      → (carry_out lib n net_name name p s).0 ≡ err e
      → document (carry_out lib n net_name name p s).1 ≡ document s
  unfolding carry_out ◌>>=◌
  carry_out-refused s p e failed =
      elim (Result-cases (n.update p.command ip_dhcp_host 0 p.xml s).0) [
        | inl (u, done) ↦ absurd (ground arith)
        | inr (x, refusal) ↦ ground (arith, laws.refused p.command p.xml s x refusal)
      ]

  -- reserveMachineIP that fails leaves the document as it was.
  reserve_machine_ip_refused :
      (s : S) (e : Error)
      → (reserve_machine_ip lib n net_name name mac s).0 ≡ err e
      → document (reserved s) ≡ document s
  unfolding reserve_machine_ip ◌>>=◌
  reserve_machine_ip_refused s e failed = elim (Result-cases (network_xml lib n s).0) [
    | inr (x, unread) ↦ ground (arith, keeps lib n laws s)
    | inl (network, read) ↦ elim (Result-cases (plan_host_update lib network name mac)) [
      | inr (x, unplanned) ↦ ground (arith, keeps lib n laws s)
      | inl (p, planned) ↦
          let same = reserve_machine_ip-carry_out s read planned in
          ap (λ r. document r.1) same
          ∙ carry_out-refused (seen lib n s) p e (sym (ap (λ r. r.0) same) ∙ failed)
          ∙ keeps lib n laws s
    ]
  ]

  -- A reservation that gave an address read the document, and carried a plan for the address out.
  pub reserved_by_plan :
      (s : S) (ip : String)
      → (reserve_machine_ip lib n net_name name mac s).0 ≡ ok ip
      → (p : HostUpdate) × (plan_host_update lib (document s) name mac ≡ ok p)
        × (ip ≡ p.ip)
        × (reserve_machine_ip lib n net_name name mac s
            ≡ carry_out lib n net_name name p (seen lib n s))
  unfolding reserve_machine_ip ◌>>=◌
  reserved_by_plan s ip given = elim (Result-cases (network_xml lib n s).0) [
    | inr (x, unread) ↦ absurd (ground arith)
    | inl (network, read) ↦ elim (Result-cases (plan_host_update lib network name mac)) [
      | inr (x, unplanned) ↦ absurd (ground arith)
      | inl (p, planned) ↦
          let same = reserve_machine_ip-carry_out s read planned in
          (
            p,
            subst (λ d. plan_host_update lib d name mac ≡ ok p)
                (seen_document lib n laws s read ∙ keeps lib n laws s) planned,
            carry_out-ip lib n net_name name mac p (seen lib n s) ip
                (sym (ap (λ r. r.0) same) ∙ given),
            same,
          )
    ]
  ]

  -- reserveMachineIP that gives an address writes it into the ledger, for its MAC.
  pub reserve_machine_ip-IsAssigned :
      (s : S) (ip : String)
      → IsLedger lib (entries (document s))
      → (reserve_machine_ip lib n net_name name mac s).0 ≡ ok ip
      → IsAssigned lib mac ip (document s) (document (reserved s))
  reserve_machine_ip-IsAssigned s ip ledger given =
      let (p, planned, is_planned, run) = reserved_by_plan s ip given in
      let D = keeps lib n laws s in
      let assigned =
        carry_out-IsAssigned lib texts n laws net_name name mac (seen lib n s) p ip
          (subst (λ d. plan_host_update lib d name mac ≡ ok p) (sym D) planned)
          (seen-IsLedger lib n laws s ledger) (sym (ap (λ r. r.0) run) ∙ given) in
      subst (λ a. IsAssigned lib mac a (document s) (document (reserved s))) (sym is_planned)
        (subst (λ d. IsAssigned lib mac p.ip d (document (reserved s))) D
          (subst (λ d. IsAssigned lib mac p.ip (document (seen lib n s)) d)
            (sym (ap (λ r. document r.1) run)) assigned))

  -- An address that reserveMachineIP gives is no empty text.
  pub reserve_machine_ip_full :
      (s : S) (ip : String) → (reserve_machine_ip lib n net_name name mac s).0 ≡ ok ip → ip ≢ ""
  reserve_machine_ip_full s ip given empty =
      let (p, planned, is_planned, run) = reserved_by_plan s ip given in
      let (a, dotted) = planned_dotted lib (document s) name mac planned in
      texts.dotted_full a (cc (is_planned, dotted, empty))

  -- On a ledger, reserveMachineIP either gives an address, which the document then books for its MAC
  -- while every other MAC keeps what it had and the document stays a ledger, or it fails and the
  -- document is as it was.
  pub reserve_machine_ip_outcome :
      (s : S)
      → IsLedger lib (entries (document s))
      → ((ip : String) × ((reserve_machine_ip lib n net_name name mac s).0 ≡ ok ip)
          × IsAssigned lib mac ip (document s) (document (reserved s)))
        ⊎ ((e : Error) × ((reserve_machine_ip lib n net_name name mac s).0 ≡ err e)
            × (document (reserved s) ≡ document s))
  reserve_machine_ip_outcome s ledger =
      elim (Result-cases (reserve_machine_ip lib n net_name name mac s).0) [
        | inl (ip, given) ↦ inl (ip, given, reserve_machine_ip-IsAssigned s ip ledger given)
        | inr (e, failed) ↦ inr (e, failed, reserve_machine_ip_refused s e failed)
      ]
