-- ===== src/Network/Ledger/Again.antt =====
-- reserveMachineIP called again after it gave an address.
use cluster_api_provider_lib.Shared.{
  ◌≡◌, ◌≢◌, refl, sym, ap, ◌∙◌, subst, String, true, false, inl, inr, Option, some, none, arith,
  Bool-cases,
}
use cluster_api_provider_lib.Errors.Exec.{Result, ok}
use cluster_api_provider_lib.Network.{NetLib, Network, NetworkDhcpHost}
use cluster_api_provider_lib.Network.Candidates.{allocation_candidates}
use cluster_api_provider_lib.Network.Candidates.Subnets.{allocation_candidates-SameSubnets}
use cluster_api_provider_lib.Network.Allocation.{host_ip_set, is_free, host_entry}
use cluster_api_provider_lib.Network.Reservation.{
  NetworkOperations, HostUpdate, command_none, plan_host_update, carry_out, reserve_machine_ip,
}
use cluster_api_provider_lib.Network.Reservation.Plan.{IsReserved, plan_host_update_twice}
use cluster_api_provider_lib.Network.Reservation.Calls
use cluster_api_provider_lib.Network.Reservation.Calls.{carry_out_nothing}
use cluster_api_provider_lib.Network.Ledger.{
  entries, TextLaws, UpdateLaws, IsLedger, book, address_of, IsAssigned,
}
use cluster_api_provider_lib.Network.Ledger.Entries.{host_entry_in_network-entries}
use cluster_api_provider_lib.Network.Ledger.Owner.{ledger_owner}
use cluster_api_provider_lib.Network.Ledger.Freedom.{taken_booked, taken_there}
use cluster_api_provider_lib.Network.Ledger.Unique.{fold_comm}
use cluster_api_provider_lib.Network.Ledger.Reading.{seen, keeps}
use cluster_api_provider_lib.Network.Ledger.Carried.{carry_out-update}
use cluster_api_provider_lib.Network.Ledger.Reserving.{
  reserved_by_plan, reserve_machine_ip-IsAssigned, reserve_machine_ip_full,
}

module _ (lib : NetLib) (texts : TextLaws lib) (mac ip : String) (before after : Network)
    (full : ip ≢ "") (ledger : IsLedger lib (entries before))
    (assigned : IsAssigned lib mac ip before after) where
  booked_here : book lib after mac ≡ some ip
  booked_here = ground (arith, assigned.booked mac, texts.fold_refl mac)

  -- The address that was assigned is free for the MAC.
  owned_here : is_free lib (host_ip_set after) mac ip ≡ true
  owned_here = elim (Bool-cases (is_free lib (host_ip_set after) mac ip)) [
    | inl free ↦ free
    | inr taken ↦
        let (m, has, other) = taken_booked lib texts mac ip after assigned.ledger taken in
        cc (ledger_owner lib texts after m mac ip assigned.ledger has booked_here full, other)
  ]

  -- The other MACs have what they had.
  booked_before : (m : String) → lib.equal_fold m mac ≡ false → book lib after m ≡ book lib before m
  booked_before m other = ground (arith, assigned.booked m, fold_comm lib texts m mac other)

  -- Every other address is as free for the MAC as it was.
  others_here :
      (a : String)
      → a ≢ ip
      → is_free lib (host_ip_set after) mac a ≡ is_free lib (host_ip_set before) mac a
  others_here a differs = ground (
    arith,
    taken_there lib texts mac a before after ledger assigned.ledger booked_before,
    taken_there lib texts mac a after before assigned.ledger ledger
        (λ m other. sym (booked_before m other)),
  )

  IsReserved-of_booked :
      (found : Option NetworkDhcpHost)
      → host_entry lib (entries after) mac ≡ found
      → address_of lib found ≡ some ip
      → allocation_candidates lib after ≡ allocation_candidates lib before
      → IsReserved lib before after mac ip
  IsReserved-of_booked none e has ranges = absurd (cc (has))
  IsReserved-of_booked (some entry) e has ranges = record {
    ranges = ranges;
    entry = entry;
    present = host_entry_in_network-entries lib mac after ∙ e;
    bound = ground arith;
    owned = owned_here;
    others = others_here;
  }

  assigned-IsReserved :
      allocation_candidates lib after ≡ allocation_candidates lib before
      → IsReserved lib before after mac ip
  assigned-IsReserved ranges = IsReserved-of_booked _ refl booked_here ranges

module _ (lib : NetLib) (texts : TextLaws lib) {S : Type 0} (n : NetworkOperations S)
    (laws : UpdateLaws lib n) (net_name name mac : String) where
  open laws use {document}

  -- Carrying out a plan leaves the subnets as they are.
  carry_out-candidates :
      (s : S) (p : HostUpdate)
      → allocation_candidates lib (document (carry_out lib n net_name name p s).1)
        ≡ allocation_candidates lib (document s)
  carry_out-candidates s p = elim (Bool-cases p.do_update) [
    | inl asked ↦
        ap (λ t. allocation_candidates lib (document t))
          (carry_out-update lib texts n laws net_name name mac s p asked)
        ∙ sym (allocation_candidates-SameSubnets lib _ _ (laws.subnets_kept p.command p.xml s))
    | inr unasked ↦
        ap (λ r. allocation_candidates lib (document r.1))
          (carry_out_nothing lib n net_name name mac s p unasked)
  ]

  abbrev reserved : S → S
  reserved s = (reserve_machine_ip lib n net_name name mac s).1

  reserved-candidates :
      (s : S) (ip : String)
      → (reserve_machine_ip lib n net_name name mac s).0 ≡ ok ip
      → allocation_candidates lib (document (reserved s)) ≡ allocation_candidates lib (document s)
  reserved-candidates s ip given =
      let (p, planned, is_planned, run) =
        reserved_by_plan lib texts n laws net_name name mac s ip given in
      ap (λ r. allocation_candidates lib (document r.1)) run
      ∙ carry_out-candidates (seen lib n s) p
      ∙ ap (allocation_candidates lib) (keeps lib n laws s)

  -- Planning again on the document that the reservation left asks for no update.
  planned_again :
      (s : S) (ip : String)
      → IsLedger lib (entries (document s))
      → (reserve_machine_ip lib n net_name name mac s).0 ≡ ok ip
      → plan_host_update lib (document (reserved s)) name mac
        ≡ ok (record { ip = ip; xml = ""; command = command_none; do_update = false })
  planned_again s ip ledger given =
      let (p, planned, is_planned, run) =
        reserved_by_plan lib texts n laws net_name name mac s ip given in
      let full = reserve_machine_ip_full lib texts n laws net_name name mac s ip given in
      let r =
        assigned-IsReserved lib texts mac ip (document s) (document (reserved s)) full ledger
          (reserve_machine_ip-IsAssigned lib texts n laws net_name name mac s ip ledger given)
          (reserved-candidates s ip given) in
      plan_host_update_twice lib name mac (document s) (document (reserved s)) p
        (record { fold_refl = texts.fold_refl }) planned (λ empty. full (is_planned ∙ empty))
        (subst (IsReserved lib (document s) (document (reserved s)) mac) is_planned r)
      ∙ ap ok (
          ap (λ a. record { ip = a; xml = ""; command = command_none; do_update = false })
            (sym is_planned))

  -- On a ledger, once reserveMachineIP gave an address, reserveMachineIP called again gives the same
  -- address and only reads the document, provided that it can be read.
  pub reserve_machine_ip_again :
      (s : S) (ip xml : String)
      → IsLedger lib (entries (document s))
      → (reserve_machine_ip lib n net_name name mac s).0 ≡ ok ip
      → (n.get_xml_desc (reserved s)).0 ≡ ok xml
      → reserve_machine_ip lib n net_name name mac (reserved s)
        ≡ (ok ip, (n.get_xml_desc (reserved s)).1)
  reserve_machine_ip_again s ip xml ledger given reads =
      Calls.reserve_machine_ip-carry_out lib n net_name name mac (reserved s)
        (n.get_xml_desc (reserved s)).1 xml (document (reserved s)) _
        (ap (λ (r : Result String). (r, (n.get_xml_desc (reserved s)).1)) reads)
        (laws.read (reserved s) xml reads) (planned_again s ip ledger given)
      ∙ carry_out_nothing lib n net_name name mac _ _ refl
