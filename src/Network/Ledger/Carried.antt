-- ===== src/Network/Ledger/Carried.antt =====
-- The update that reserveMachineIP makes, on the ledger of addresses.
use cluster_api_provider_lib.Shared.{
  ℕ, ◌≡◌, refl, sym, ◌∙◌, subst, String, true, false, inl, inr, Option, none, some, arith, All,
  eq_iff, str_eq,
}
use cluster_api_provider_lib.Errors.Exec.{ok, ◌>>=◌}
use cluster_api_provider_lib.Network.{NetLib, Network, NetworkDhcpHost}
use cluster_api_provider_lib.Network.Allocation.{host_entry}
use cluster_api_provider_lib.Network.Reservation.{
  NetworkOperations, ip_dhcp_host, HostUpdate, command_for, plan_host_update, carry_out,
}
use cluster_api_provider_lib.Network.Ledger.{entries, TextLaws, UpdateLaws, IsLedger, IsAssigned}
use cluster_api_provider_lib.Network.Reservation.Calls.{carry_out_nothing}
use cluster_api_provider_lib.Network.Ledger.Unique.{Inserted-cast}
use cluster_api_provider_lib.Network.Ledger.Claims.{claims, free_unclaimed}
use cluster_api_provider_lib.Network.Ledger.Planned.{
  plan_host_update_cases, planned_dotted, planned_free,
}
use cluster_api_provider_lib.Network.Ledger.Lookup.{
  host_entry-fold, Rewrites, added-Rewrites, modified-Rewrites,
}

module _ (lib : NetLib) where
  IsAssigned-of_Rewrites :
      (texts : TextLaws lib) (k : NetworkDhcpHost) (before after : Network)
      → Rewrites lib texts k (entries before) (entries after)
      → IsAssigned lib k.mac k.ip before after
  IsAssigned-of_Rewrites texts k before after w = record {
    ledger = w.ledger;
    booked = λ m. ground (arith, w.looked_up m);
  }

  -- The MAC has the address already.
  IsAssigned-of_present :
      (texts : TextLaws lib) (mac : String) (e : NetworkDhcpHost) (network : Network)
      → IsLedger lib (entries network)
      → host_entry lib (entries network) mac ≡ some e
      → IsAssigned lib mac e.ip network network
  IsAssigned-of_present texts mac e network ledger present = record {
    ledger = ledger;
    booked = λ m. ground (arith, host_entry-fold lib texts (entries network) mac m);
  }

module _ (lib : NetLib) (texts : TextLaws lib) {S : Type 0} (n : NetworkOperations S)
    (laws : UpdateLaws lib n) (net_name name mac : String) where
  open laws use {document, host_of}

  same_mac :
      (old k : NetworkDhcpHost) (xml : String)
      → host_of xml ≡ k
      → lib.equal_fold old.mac (host_of xml).mac ≡ true
      → lib.equal_fold old.mac k.mac ≡ true
  same_mac old k xml text same =
      subst (λ (h : NetworkDhcpHost). lib.equal_fold old.mac h.mac ≡ true) text same

  -- The update that a plan asks for, made on the document that it was planned for.
  update-IsAssigned :
      (s : S) (existing : Option NetworkDhcpHost) (k : NetworkDhcpHost) (xml : String)
      → host_entry lib (entries (document s)) k.mac ≡ existing
      → host_of xml ≡ k
      → IsLedger lib (entries (document s))
      → All (λ h. claims lib k.mac k.ip h ≡ false) (entries (document s))
      → (n.update (command_for lib existing) ip_dhcp_host 0 xml s).0 ≡ ok tt
      → IsAssigned lib k.mac k.ip
          (document s)
          (document (n.update (command_for lib existing) ip_dhcp_host 0 xml s).1)
  unfolding command_for
  update-IsAssigned s none k xml absent text ledger unclaimed done =
      IsAssigned-of_Rewrites lib texts k _ _ (
        added-Rewrites lib texts (Inserted-cast text (laws.added xml s done)) ledger absent
          unclaimed)
  update-IsAssigned s (some e) k xml present text ledger unclaimed done =
      let (old, rest, same, out, i) = laws.modified xml s done in
      IsAssigned-of_Rewrites lib texts k _ _ (
        modified-Rewrites lib texts (same_mac old k xml text same) out (Inserted-cast text i) ledger
          unclaimed)

  -- Carrying out a plan that asks for an update is that update.
  pub carry_out-update :
      (s : S) (p : HostUpdate)
      → p.do_update ≡ true
      → (carry_out lib n net_name name p s).1 ≡ (n.update p.command ip_dhcp_host 0 p.xml s).1
  unfolding carry_out ◌>>=◌
  carry_out-update s p asked = ground arith

  carry_out-done :
      (s : S) (p : HostUpdate) (ip : String)
      → p.do_update ≡ true
      → (carry_out lib n net_name name p s).0 ≡ ok ip
      → (n.update p.command ip_dhcp_host 0 p.xml s).0 ≡ ok tt
  unfolding carry_out ◌>>=◌
  carry_out-done s p ip asked given = ground arith

  planned_unclaimed :
      (s : S) (p : HostUpdate)
      → plan_host_update lib (document s) name mac ≡ ok p
      → IsLedger lib (entries (document s))
      → All (λ h. claims lib mac p.ip h ≡ false) (entries (document s))
  planned_unclaimed s p planned ledger =
      let (a, dotted) = planned_dotted lib (document s) name mac planned in
      free_unclaimed lib mac p.ip (document s) (not_empty a dotted) ledger
        (planned_free lib (document s) name mac planned)
    where
      not_empty : (a : ℕ) → p.ip ≡ lib.ipv4_string a → str_eq p.ip "" ≡ false
      not_empty a dotted = let full = texts.dotted_full a in ground (arith, eq_iff p.ip "", full)

  pub carry_out-IsAssigned :
      (s : S) (p : HostUpdate) (ip : String)
      → plan_host_update lib (document s) name mac ≡ ok p
      → IsLedger lib (entries (document s))
      → (carry_out lib n net_name name p s).0 ≡ ok ip
      → IsAssigned lib mac p.ip (document s) (document (carry_out lib n net_name name p s).1)
  carry_out-IsAssigned s p ip planned ledger given =
      elim (plan_host_update_cases lib (document s) name mac planned) [
        | inl (unasked, e, present, bound) ↦
            let (a, dotted) = planned_dotted lib (document s) name mac planned in
            let same : e.ip ≡ p.ip =
              texts.fold_dotted e.ip a (subst (λ t. lib.equal_fold e.ip t ≡ true) dotted bound)
              ∙ sym dotted in
            rw (carry_out_nothing lib n net_name name mac s p unasked) (
              subst (λ t. IsAssigned lib mac t (document s) (document s)) same
                (IsAssigned-of_present lib texts mac e (document s) ledger present))
        | inr (asked, command, marshalled) ↦
            let done = carry_out-done s p ip asked given in
            let text =
              laws.host_of_marshal (record { name = name; mac = mac; ip = p.ip }) p.xml
                marshalled in
            rw (carry_out-update s p asked, command)
              (update-IsAssigned s (host_entry lib (entries (document s)) mac)
                (record { name = name; mac = mac; ip = p.ip }) p.xml refl text ledger
                (planned_unclaimed s p planned ledger) (rw command at done))
      ]
