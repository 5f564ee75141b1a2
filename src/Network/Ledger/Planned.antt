-- ===== src/Network/Ledger/Planned.antt =====
-- What a plan of planHostUpdate asks for, read over the list of all host entries.
use cluster_api_provider_lib.Shared.{
  ◌≡◌, String, true, false, inl, inr, ◌⊎◌, Option, none, some, ℕ, arith, str_eq, Bool-cases,
}
use cluster_api_provider_lib.Errors.Exec.{ok, Result-cases}
use cluster_api_provider_lib.Network.{NetLib, Network, NetworkDhcpHost}
use cluster_api_provider_lib.Network.Allocation.{
  host_ip_set, is_free, host_entry, allocate_machine_ip_in,
}
use cluster_api_provider_lib.Network.Allocation.Choice.{allocate_machine_ip_in-first_free}
use cluster_api_provider_lib.Network.Reservation.{
  HostUpdate, command_for, plan_with, plan_host_update,
}
use cluster_api_provider_lib.Network.Reservation.Plan.{plan_host_update-ip, candidates_of_allocated}
use cluster_api_provider_lib.Network.Reservation.Distinct.{allocated_is_free}
use cluster_api_provider_lib.Network.Ledger.{entries}
use cluster_api_provider_lib.Network.Ledger.Entries.{host_entry_in_network-entries}

module _ (lib : NetLib) (network : Network) (name mac : String) where
  -- A plan that asks for no update has found the address on the MAC's entry; another plan has the
  -- MAC's new entry as its text.
  abbrev pub AsksNothing : HostUpdate → Type 0
  AsksNothing p =
      (p.do_update ≡ false)
      × (e : NetworkDhcpHost) × (host_entry lib (entries network) mac ≡ some e)
      × (lib.equal_fold e.ip p.ip ≡ true)

  abbrev pub AsksUpdate : HostUpdate → Type 0
  AsksUpdate p =
      (p.do_update ≡ true)
      × (p.command ≡ command_for lib (host_entry lib (entries network) mac))
      × (lib.marshal_host (record { name = name; mac = mac; ip = p.ip }) ≡ ok p.xml)

  plan_with_cases :
      (ip : String) (existing : Option NetworkDhcpHost) {p : HostUpdate}
      → existing ≡ host_entry lib (entries network) mac
      → plan_with lib name mac ip existing ≡ ok p
      → AsksNothing p ⊎ AsksUpdate p
  unfolding plan_with
  plan_with_cases ip none known e = inr (ground arith)
  plan_with_cases ip (some h) known e = elim (Bool-cases (lib.equal_fold h.ip ip)) [
    | inl same ↦ elim (Bool-cases (str_eq h.ip "")) [
      | inl empty ↦ inr (ground arith)
      | inr full ↦ inl (ground arith, h, ground arith, ground arith)
    ]
    | inr differs ↦ inr (ground arith)
  ]

  pub plan_host_update_cases :
      {p : HostUpdate} → plan_host_update lib network name mac ≡ ok p → AsksNothing p ⊎ AsksUpdate p
  unfolding plan_host_update
  plan_host_update_cases e = elim (Result-cases (allocate_machine_ip_in lib network name mac)) [
    | inl (ip, chosen) ↦
        plan_with_cases ip _ (host_entry_in_network-entries lib mac network)
          (rw (chosen, plan_host_update) at e)
    | inr (x, failed) ↦ absurd (cc (rw (failed, plan_host_update) at e))
  ]

  -- A planned address is dotted decimal, and was free.
  pub planned_dotted :
      {p : HostUpdate}
      → plan_host_update lib network name mac ≡ ok p
      → (a : ℕ) × (p.ip ≡ lib.ipv4_string a)
  planned_dotted {p} e =
      let chosen = plan_host_update-ip lib name mac network e in
      let (candidates, known) = candidates_of_allocated lib network name mac p.ip chosen in
      let f = allocate_machine_ip_in-first_free lib network name mac candidates p.ip known chosen in
      (f.cand, f.result)

  pub planned_free :
      {p : HostUpdate}
      → plan_host_update lib network name mac ≡ ok p
      → is_free lib (host_ip_set network) mac p.ip ≡ true
  planned_free {p} e =
      allocated_is_free lib network name mac p.ip (plan_host_update-ip lib name mac network e)
