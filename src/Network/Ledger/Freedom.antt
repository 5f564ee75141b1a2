-- ===== src/Network/Ledger/Freedom.antt =====
-- Which addresses of a ledger are free for a MAC, told from what is booked.
use cluster_api_provider_lib.Shared.{
  ◌≡◌, ◌≢◌, refl, ap, ◌∙◌, String, true, false, inl, inr, Option, some, none, List, [], ◌∷◌, arith,
  All, eq_iff, str_eq, Bool-cases, if◌then◌else◌,
}
use cluster_api_provider_lib.Network.{NetLib, Network, NetworkDhcpHost}
use cluster_api_provider_lib.Network.Allocation.{
  IpSet, host_ip_set, is_free, add_hosts, lookup, host_entry,
}
use cluster_api_provider_lib.Network.Allocation.Exclusion.{Any, add_hosts_held}
use cluster_api_provider_lib.Network.Ledger.{
  entries, TextLaws, AreApart, IsLedger, book, address_of,
}
use cluster_api_provider_lib.Network.Ledger.Entries.{host_ip_set-entries}
use cluster_api_provider_lib.Network.Ledger.Claims.{claims, claims_cases, claimed, only_claim}
use cluster_api_provider_lib.Network.Ledger.Lookup.{host_entry-some}
use cluster_api_provider_lib.Network.Ledger.Owner.{All-host_entry}

module _ (lib : NetLib) (mac a : String) where
  put_unclaimed :
      (h : NetworkDhcpHost) (set : IpSet)
      → is_free lib set mac a ≡ true
      → claims lib mac a h ≡ false
      → is_free lib (if str_eq h.ip "" then set else (h.ip, h.mac) ∷ set) mac a ≡ true
  unfolding is_free lookup
  put_unclaimed h set free c = ground (arith, eq_iff h.ip a)

  -- An address that no entry claims is free.
  add_hosts_unclaimed :
      (hs : List NetworkDhcpHost) (set : IpSet)
      → is_free lib set mac a ≡ true
      → All (λ h. claims lib mac a h ≡ false) hs
      → is_free lib (add_hosts set hs) mac a ≡ true
  unfolding add_hosts
  add_hosts_unclaimed [] set free all = free
  add_hosts_unclaimed (h ∷ hs) set free (c, all) =
      add_hosts_unclaimed hs _ (put_unclaimed h set free c) all

  nothing_free : is_free lib [] mac a ≡ true
  unfolding is_free lookup
  nothing_free = refl

module _ (lib : NetLib) (mac : String) where
  -- No entry binds the empty address.
  add_hosts_empty :
      (hs : List NetworkDhcpHost) (set : IpSet)
      → is_free lib set mac "" ≡ true
      → is_free lib (add_hosts set hs) mac "" ≡ true
  unfolding add_hosts is_free lookup
  add_hosts_empty [] set free = free
  add_hosts_empty (h ∷ hs) set free = add_hosts_empty hs _ (ground (arith, eq_iff h.ip ""))

  pub empty_free : (network : Network) → is_free lib (host_ip_set network) mac "" ≡ true
  empty_free network =
      ap (λ set. is_free lib set mac "") (host_ip_set-entries network)
      ∙ add_hosts_empty (entries network) [] (nothing_free lib mac "")

module _ (lib : NetLib) (texts : TextLaws lib) (mac a : String) where
  -- An entry that claims the address is booked for its own MAC.
  booked_of_claimed :
      (hs : List NetworkDhcpHost)
      → IsLedger lib hs
      → Any (λ h. claims lib mac a h ≡ true) hs
      → (m : String) × (address_of lib (host_entry lib hs m) ≡ some a)
        × (lib.equal_fold m mac ≡ false)
  unfolding host_entry
  booked_of_claimed [] ledger claim = absurd claim
  booked_of_claimed (h ∷ hs) ledger (inl c) =
      (h.mac, ground (arith, texts.fold_refl h.mac, eq_iff h.ip a), ground arith)
  booked_of_claimed (h ∷ hs) (apart, ledger) (inr later) =
      let (m, has, other) = booked_of_claimed hs ledger later in
      (
        m,
        elim (Bool-cases (lib.equal_fold h.mac m)) [
          | inl mine ↦ absurd (not_shared h hs m _ apart mine refl has)
          | inr differs ↦ rw differs has
        ],
        other,
      )
    where
      not_shared :
          (h : NetworkDhcpHost) (hs : List NetworkDhcpHost) (m : String)
          (found : Option NetworkDhcpHost)
          → All (AreApart lib h) hs
          → lib.equal_fold h.mac m ≡ true
          → host_entry lib hs m ≡ found
          → address_of lib found ≡ some a
          → ⊥
      not_shared h hs m none apart mine e has = cc
      not_shared h hs m (some k) apart mine e has =
          let macs = (All-host_entry lib texts (AreApart lib h) hs m k apart e).macs in
          let found = host_entry-some lib texts hs m k e in
          cc (macs, texts.fold_trans h.mac m k.mac mine (texts.fold_sym k.mac m found))

  claimed_of_booked :
      (hs : List NetworkDhcpHost) (m : String)
      → address_of lib (host_entry lib hs m) ≡ some a
      → lib.equal_fold m mac ≡ false
      → Any (λ h. claims lib mac a h ≡ true) hs
  unfolding host_entry
  claimed_of_booked [] m has other = cc
  claimed_of_booked (h ∷ hs) m has other = elim (Bool-cases (lib.equal_fold h.mac m)) [
    | inl mine ↦
        inl
          (ground (arith, eq_iff h.ip a, texts.fold_sym h.mac m mine, texts.fold_trans m h.mac mac))
    | inr differs ↦ inr (claimed_of_booked hs m (ground arith) other)
  ]

  -- In a ledger, an address is free for the MAC unless another MAC has it booked.
  pub taken_booked :
      (network : Network)
      → IsLedger lib (entries network)
      → is_free lib (host_ip_set network) mac a ≡ false
      → (m : String) × (book lib network m ≡ some a) × (lib.equal_fold m mac ≡ false)
  taken_booked network ledger taken = elim (claims_cases lib mac a (entries network)) [
    | inl all ↦
        let free =
          add_hosts_unclaimed lib mac a (entries network) [] (nothing_free lib mac a) all in
        absurd (cc (free, taken, ap (λ set. is_free lib set mac a) (host_ip_set-entries network)))
    | inr claim ↦ booked_of_claimed (entries network) ledger claim
  ]

  pub booked_taken :
      (network : Network) (m : String)
      → IsLedger lib (entries network)
      → a ≢ ""
      → book lib network m ≡ some a
      → lib.equal_fold m mac ≡ false
      → is_free lib (host_ip_set network) mac a ≡ false
  booked_taken network m ledger full has other =
      let claim = claimed_of_booked (entries network) m has other in
      let taken =
        add_hosts_held lib mac a [] (entries network) full
          (claimed lib mac a (entries network) claim)
          (only_claim lib mac a (entries network) (not_empty full) ledger claim) in
      ap (λ set. is_free lib set mac a) (host_ip_set-entries network) ∙ taken
    where
      not_empty : a ≢ "" → str_eq a "" ≡ false
      not_empty full = ground (arith, eq_iff a "", full)

  -- What is taken in one ledger is taken in another that books the address for the same other MACs.
  pub taken_there :
      (here there : Network)
      → IsLedger lib (entries here)
      → IsLedger lib (entries there)
      → ((m : String) → lib.equal_fold m mac ≡ false → book lib there m ≡ book lib here m)
      → is_free lib (host_ip_set here) mac a ≡ false
      → is_free lib (host_ip_set there) mac a ≡ false
  taken_there here there ledger ledger' same taken =
      let (m, has, other) = taken_booked here ledger taken in
      booked_taken there m ledger' full (same m other ∙ has) other
    where
      full : a ≢ ""
      full empty =
          cc (taken, empty_free lib mac here, ap (λ t. is_free lib (host_ip_set here) mac t) empty)
