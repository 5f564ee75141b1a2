-- ===== src/Network/Ledger/History.antt =====
-- Runs of calls of reserveMachineIP, releaseMachineIP and machineAddress for any machines, in any
-- order, some of which fail: each machine's reconciliation makes such calls, and the workers of the
-- controller make them one after another.
use cluster_api_provider_lib.Shared.{
  ◌≡◌, ◌≢◌, refl, sym, ap, ◌∙◌, subst, String, false, inl, inr, ◌⊎◌, some, List, [], ◌∷◌, arith,
  All,
}
use cluster_api_provider_lib.Errors.Exec.{ok, ◌>>=◌}
use cluster_api_provider_lib.Network.{NetLib}
use cluster_api_provider_lib.Network.Reservation.{
  NetworkOperations, reserve_machine_ip, release_machine_ip, machine_address,
}
use cluster_api_provider_lib.Network.Ledger.{
  entries, TextLaws, UpdateLaws, IsLedger, book, IsAssigned, IsErased,
}
use cluster_api_provider_lib.Network.Ledger.Reserving.{
  reserve_machine_ip-IsAssigned, reserve_machine_ip_outcome, reserve_machine_ip_full,
}
use cluster_api_provider_lib.Network.Ledger.Releasing.{release_machine_ip_outcome}
use cluster_api_provider_lib.Network.Ledger.Owner.{ledger_owner}

-- A call for the machine with the name and the MAC.
pub data Call : Type 0 where
  reserve : (name mac : String) → Call
  release : (name mac : String) → Call
  look_up : (mac : String) → Call

abbrev pub mac_of : Call → String
mac_of (reserve name mac) = mac
mac_of (release name mac) = mac
mac_of (look_up mac) = mac

module _ (lib : NetLib) {S : Type 0} (n : NetworkOperations S) (net_name : String) where
  unfoldable pub run_call : Call → S → S
  run_call (reserve name mac) s = (reserve_machine_ip lib n net_name name mac s).1
  run_call (release name mac) s = (release_machine_ip lib n net_name name mac s).1
  run_call (look_up mac) s = (machine_address lib n net_name mac s).1

  unfoldable pub run_calls : List Call → S → S
  unfolding run_call
  run_calls [] s = s
  run_calls (c ∷ calls) s = run_calls calls (run_call c s)

module _ (lib : NetLib) (texts : TextLaws lib) {S : Type 0} (n : NetworkOperations S)
    (laws : UpdateLaws lib n) (net_name : String) where
  open laws use {document}

  abbrev LedgerAt : S → Type 0
  LedgerAt s = IsLedger lib (entries (document s))

  look_up_keeps :
      (s : S) (mac : String) → document (machine_address lib n net_name mac s).1 ≡ document s
  unfolding machine_address ◌>>=◌
  look_up_keeps s mac = ground (arith, laws.leases_keep s)

  -- What a call does to the ledger: it assigns an address to its MAC, or it takes the MAC out, or it
  -- leaves the document as it was.
  abbrev Effect : String → S → S → Type 0
  Effect mac s s' =
      ((ip : String) × IsAssigned lib mac ip (document s) (document s'))
      ⊎ (IsErased lib mac (document s) (document s') ⊎ (document s' ≡ document s))

  run_call-Effect :
      (c : Call) (s : S) → LedgerAt s → Effect (mac_of c) s (run_call lib n net_name c s)
  unfolding run_call
  run_call-Effect (reserve name mac) s ledger =
      elim (reserve_machine_ip_outcome lib texts n laws net_name name mac s ledger) [
        | inl (ip, given, assigned) ↦ inl (ip, assigned)
        | inr (e, failed, same) ↦ inr (inr same)
      ]
  run_call-Effect (release name mac) s ledger =
      elim (release_machine_ip_outcome lib texts n laws net_name name mac s ledger) [
        | inl (done, erased) ↦ inr (inl erased)
        | inr (e, failed, same) ↦ inr (inr same)
      ]
  run_call-Effect (look_up mac) s ledger = inr (inr (look_up_keeps s mac))

  Effect-IsLedger : {mac : String} {s s' : S} → Effect mac s s' → LedgerAt s → LedgerAt s'
  Effect-IsLedger (inl (ip, assigned)) ledger = assigned.ledger
  Effect-IsLedger (inr (inl erased)) ledger = erased.ledger
  Effect-IsLedger (inr (inr same)) ledger = subst (λ d. IsLedger lib (entries d)) (sym same) ledger

  -- A call for one MAC leaves what the ledger books for another.
  Effect-book :
      {mac : String} {s s' : S} (m : String)
      → Effect mac s s'
      → lib.equal_fold mac m ≡ false
      → book lib (document s') m ≡ book lib (document s) m
  Effect-book m (inl (ip, assigned)) other = ground (arith, assigned.booked m)
  Effect-book m (inr (inl erased)) other = ground (arith, erased.booked m)
  Effect-book m (inr (inr same)) other = ap (λ d. book lib d m) same

  -- When no address is held twice and no MAC has two entries in the network document, this is so after
  -- every run of reservations, releases and look-ups, whatever machines they are for and whichever of
  -- them fail.
  pub run_calls-IsLedger :
      (calls : List Call) (s : S)
      → IsLedger lib (entries (document s))
      → IsLedger lib (entries (document (run_calls lib n net_name calls s)))
  unfolding run_calls
  run_calls-IsLedger [] s ledger = ledger
  run_calls-IsLedger (c ∷ calls) s ledger =
      run_calls-IsLedger calls (run_call lib n net_name c s)
        (Effect-IsLedger (run_call-Effect c s ledger) ledger)

  run_calls-book :
      (calls : List Call) (s : S) (m : String)
      → IsLedger lib (entries (document s))
      → All (λ c. lib.equal_fold (mac_of c) m ≡ false) calls
      → book lib (document (run_calls lib n net_name calls s)) m ≡ book lib (document s) m
  unfolding run_calls
  run_calls-book [] s m ledger others = refl
  run_calls-book (c ∷ calls) s m ledger (other, others) =
      let effect = run_call-Effect c s ledger in
      run_calls-book calls (run_call lib n net_name c s) m (Effect-IsLedger effect ledger) others
      ∙ Effect-book m effect other

  -- From a ledger, an address that reserveMachineIP gave to a machine stays booked for its MAC through
  -- every run of calls for other MACs, and reserveMachineIP then gives it to no other MAC.
  pub reserved_stays_apart :
      (s : S) (name mac ip name' mac' ip' : String) (calls : List Call)
      → IsLedger lib (entries (document s))
      → (reserve_machine_ip lib n net_name name mac s).0 ≡ ok ip
      → All (λ c. lib.equal_fold (mac_of c) mac ≡ false) calls
      → lib.equal_fold mac' mac ≡ false
      → (reserve_machine_ip lib n net_name name' mac'
          (run_calls lib n net_name calls (run_call lib n net_name (reserve name mac) s))).0
        ≡ ok ip'
      → (ip' ≢ ip)
        × (book lib (document (run_calls lib n net_name (reserve name mac ∷ calls) s)) mac
            ≡ some ip)
  unfolding run_calls run_call
  reserved_stays_apart s name mac ip name' mac' ip' calls ledger given others other given' = (
    λ same. cc (
      ledger_owner lib texts (document after) mac' mac ip assigned'.ledger (has' ∙ ap some same) has
          (reserve_machine_ip_full lib texts n laws net_name name mac s ip given),
      other,
    ),
    booked,
  )
    where
      assigned :
          IsAssigned lib mac ip
            (document s)
            (document (run_call lib n net_name (reserve name mac) s))
      assigned = reserve_machine_ip-IsAssigned lib texts n laws net_name name mac s ip ledger given

      between : S
      between = run_calls lib n net_name calls (run_call lib n net_name (reserve name mac) s)

      after : S
      after = run_call lib n net_name (reserve name' mac') between

      booked : book lib (document between) mac ≡ some ip
      booked =
          run_calls-book calls _ mac assigned.ledger others
          ∙ ground (arith, assigned.booked mac, texts.fold_refl mac)

      assigned' : IsAssigned lib mac' ip' (document between) (document after)
      assigned' =
          reserve_machine_ip-IsAssigned lib texts n laws net_name name' mac' between ip'
            (run_calls-IsLedger calls _ assigned.ledger) given'

      has : book lib (document after) mac ≡ some ip
      has = ground (arith, assigned'.booked mac, booked)

      has' : book lib (document after) mac' ≡ some ip'
      has' = ground (arith, assigned'.booked mac', texts.fold_refl mac')
