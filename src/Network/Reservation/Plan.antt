-- ===== src/Network/Reservation/Plan.antt =====
-- planHostUpdate is idempotent: once its update is in the network document, planning again asks for
-- no update and gives the same address.
use cluster_api_provider_lib.Shared.{
  ℕ, ◌<◌, ◌≡◌, ◌≢◌, inl, inr, sym, ap, ◌∙◌, subst, String, true, false, Option, some, List, arith,
  length, str_eq, eq_iff, Bool-cases,
}
use cluster_api_provider_lib.Errors.Exec.{ok, Result-cases}
use cluster_api_provider_lib.Network.{NetLib, EqualFoldLaws, Network, NetworkDhcpHost}
use cluster_api_provider_lib.Network.Candidates.{allocation_candidates}
use cluster_api_provider_lib.Network.Allocation.{
  host_ip_set, is_free, host_entry_in_network, allocate_machine_ip_in,
}
use cluster_api_provider_lib.Network.Allocation.Probe.{Finds}
use cluster_api_provider_lib.Network.Allocation.Choice.{
  start_offset, allocate_machine_ip_in-first_free, allocate_machine_ip_in_complete,
}
use cluster_api_provider_lib.Network.Reservation.{
  HostUpdate, command_none, plan_with, plan_host_update,
}

-- The document `after` the entry of `mac` with the address `ip` was put into the document `before`,
-- by ADD_LAST or by MODIFY: the entry is there, the address ranges are what they were, and no other
-- address became free or taken for the MAC.
pub record IsReserved (lib : NetLib) (before after : Network) (mac ip : String) : Type 0 where
  pub ranges : allocation_candidates lib after ≡ allocation_candidates lib before
  pub entry : NetworkDhcpHost
  pub present : host_entry_in_network lib after mac ≡ some entry
  pub bound : entry.ip ≡ ip
  pub owned : is_free lib (host_ip_set after) mac ip ≡ true
  pub others :
      (a : String)
      → a ≢ ip
      → is_free lib (host_ip_set after) mac a ≡ is_free lib (host_ip_set before) mac a

module _ (lib : NetLib) (before after : Network) (name mac ip : String) (candidates : List ℕ) where
  abbrev Found : Network → String → Type 0
  Found network a =
      Finds lib (host_ip_set network) name mac candidates (start_offset lib name candidates) 0
        (length candidates) a

  -- An address that is free afterwards was free before.
  free_before :
      IsReserved lib before after mac ip
      → is_free lib (host_ip_set before) mac ip ≡ true
      → (a : String) → is_free lib (host_ip_set after) mac a ≡ true
      → is_free lib (host_ip_set before) mac a ≡ true
  free_before r was a now = elim (Bool-cases (str_eq a ip)) [
    | inl same ↦
        subst (λ b. is_free lib (host_ip_set before) mac b ≡ true) (sym ((eq_iff a ip).0 same)) was
    | inr differs ↦ sym (r.others a (λ e. cc ((eq_iff a ip).1 e))) ∙ now
  ]

  -- The first free round is the same one, so the address is the same.
  same_address :
      (again : String)
      → IsReserved lib before after mac ip
      → Found before ip
      → Found after again
      → again ≡ ip
  same_address again r f g = g.result ∙ ap lib.ipv4_string same ∙ sym f.result
    where
      was : is_free lib (host_ip_set before) mac ip ≡ true
      was = subst (λ b. is_free lib (host_ip_set before) mac b ≡ true) (sym f.result) f.free

      not_earlier : g.round < f.round → ⊥
      not_earlier h =
          cc (free_before r was (lib.ipv4_string g.cand) g.free, f.first g.round g.cand h g.tries)

      held : is_free lib (host_ip_set after) mac (lib.ipv4_string f.cand) ≡ true
      held = subst (λ b. is_free lib (host_ip_set after) mac b ≡ true) f.result r.owned

      not_later : f.round < g.round → ⊥
      not_later h = cc (held, g.first f.round f.cand h f.tries)

      rounds : g.round ≡ f.round
      rounds = omega (arith, not_earlier, not_later)

      same : g.cand ≡ f.cand
      same = cc (g.tries, f.tries, rounds)

  -- The address that was chosen before is chosen again.
  allocate_again :
      allocation_candidates lib before ≡ ok candidates
      → allocate_machine_ip_in lib before name mac ≡ ok ip
      → IsReserved lib before after mac ip
      → allocate_machine_ip_in lib after name mac ≡ ok ip
  allocate_again known e r =
      let known' : allocation_candidates lib after ≡ ok candidates = r.ranges ∙ known in
      let f = allocate_machine_ip_in-first_free lib before name mac candidates ip known e in
      let (again, e') =
        allocate_machine_ip_in_complete lib after name mac candidates _ f.cand known' f.tries
          (subst (λ b. is_free lib (host_ip_set after) mac b ≡ true) f.result r.owned) in
      let g = allocate_machine_ip_in-first_free lib after name mac candidates again known' e' in
      e' ∙ ap ok (same_address again r f g)

-- An address is only ever chosen from known candidates.
pub candidates_of_allocated :
    (lib : NetLib) (network : Network) (name mac ip : String)
    → allocate_machine_ip_in lib network name mac ≡ ok ip
    → (candidates : List ℕ) × (allocation_candidates lib network ≡ ok candidates)
unfolding allocate_machine_ip_in
candidates_of_allocated lib network name mac ip e =
    elim (Result-cases (allocation_candidates lib network)) [
      | inl known ↦ known
      | inr (x, failed) ↦ absurd (cc (rw (failed, allocate_machine_ip_in) at e))
    ]

plan_with-ip :
    (lib : NetLib) (name mac ip : String) (existing : Option NetworkDhcpHost) {u : HostUpdate}
    → plan_with lib name mac ip existing ≡ ok u
    → u.ip ≡ ip
unfolding plan_with
plan_with-ip lib name mac ip existing e = ground arith

module _ (lib : NetLib) (name mac : String) where
  -- A plan is for the address that allocateMachineIPIn chooses.
  pub plan_host_update-ip :
      (network : Network) {u : HostUpdate}
      → plan_host_update lib network name mac ≡ ok u
      → allocate_machine_ip_in lib network name mac ≡ ok u.ip
  unfolding plan_host_update
  plan_host_update-ip network e =
      elim (Result-cases (allocate_machine_ip_in lib network name mac)) [
        | inl (ip, chosen) ↦
            let planned = rw (chosen, plan_host_update) at e in
            chosen ∙ ap ok (sym (plan_with-ip lib name mac ip _ planned))
        | inr (x, failed) ↦ absurd (cc (rw (failed, plan_host_update) at e))
      ]

  plan_with_bound :
      (ip : String) (entry : NetworkDhcpHost)
      → EqualFoldLaws lib
      → ip ≢ ""
      → entry.ip ≡ ip
      → plan_with lib name mac ip (some entry)
        ≡ ok (record { ip = ip; xml = ""; command = command_none; do_update = false })
  unfolding plan_with
  plan_with_bound ip entry laws full bound = ground (arith, eq_iff entry.ip "", laws.fold_refl ip)

  -- Planning again on the document that holds the planned entry asks for no update, and gives the
  -- address of the first plan.
  pub plan_host_update_twice :
      (before after : Network) (u : HostUpdate)
      → EqualFoldLaws lib
      → plan_host_update lib before name mac ≡ ok u
      → u.ip ≢ ""
      → IsReserved lib before after mac u.ip
      → plan_host_update lib after name mac
        ≡ ok (record { ip = u.ip; xml = ""; command = command_none; do_update = false })
  unfolding plan_host_update
  plan_host_update_twice before after u laws planned full r =
      let chosen = plan_host_update-ip before planned in
      let (candidates, known) = candidates_of_allocated lib before name mac u.ip chosen in
      let again = allocate_again lib before after name mac u.ip candidates known chosen r in
      rw (again, r.present, plan_host_update) (plan_with_bound u.ip r.entry laws full r.bound)
