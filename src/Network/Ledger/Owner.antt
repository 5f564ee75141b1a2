-- ===== src/Network/Ledger/Owner.antt =====
-- In a ledger an address has one MAC.
use cluster_api_provider_lib.Shared.{
  ◌≡◌, ◌≢◌, refl, String, Bool-cases, inl, inr, ◌⊎◌, subst, true, Option, some, none, List, [], ◌∷◌,
  arith, All, eq_iff,
}
use cluster_api_provider_lib.Network.{NetLib, Network, NetworkDhcpHost}
use cluster_api_provider_lib.Network.Allocation.{host_entry}
use cluster_api_provider_lib.Network.Ledger.{
  entries, TextLaws, AreApart, IsLedger, book, address_of,
}

module _ (lib : NetLib) (laws : TextLaws lib) where
  -- An entry that is found is the first one of the list, or found after it.
  host_entry_cases :
      (k h : NetworkDhcpHost) (ks : List NetworkDhcpHost) (m : String)
      → host_entry lib (k ∷ ks) m ≡ some h
      → ((lib.equal_fold k.mac m ≡ true) × (k ≡ h)) ⊎ (host_entry lib ks m ≡ some h)
  unfolding host_entry
  host_entry_cases k h ks m e = elim (Bool-cases (lib.equal_fold k.mac m)) [
    | inl mine ↦ inl (mine, ground arith)
    | inr other ↦ inr (ground arith)
  ]

  not_found : (m : String) (h : NetworkDhcpHost) → host_entry lib [] m ≡ some h → ⊥
  unfolding host_entry
  not_found m h e = cc

  pub All-host_entry :
      (P : NetworkDhcpHost → Type 0) (hs : List NetworkDhcpHost) (m : String) (h : NetworkDhcpHost)
      → All P hs
      → host_entry lib hs m ≡ some h
      → P h
  All-host_entry P [] m h all e = absurd (not_found m h e)
  All-host_entry P (k ∷ ks) m h (p, all) e = elim (host_entry_cases k h ks m e) [
    | inl (mine, same) ↦ subst P same p
    | inr later ↦ All-host_entry P ks m h all later
  ]

  -- An entry of a later MAC has another address.
  apart_of_later :
      (k h : NetworkDhcpHost) (ks : List NetworkDhcpHost) (m : String)
      → All (AreApart lib k) ks
      → host_entry lib ks m ≡ some h
      → k.ip ≡ h.ip
      → k.ip ≢ ""
      → ⊥
  apart_of_later k h ks m apart e same full =
      let ips = (All-host_entry (AreApart lib k) ks m h apart e).ips in
      ground (arith, eq_iff k.ip h.ip, eq_iff k.ip "", full)

  -- Entries that are found for two MACs, with one address, are found for one MAC.
  one_owner :
      (hs : List NetworkDhcpHost) (m m' : String) (h h' : NetworkDhcpHost)
      → IsLedger lib hs
      → host_entry lib hs m ≡ some h
      → host_entry lib hs m' ≡ some h'
      → h.ip ≡ h'.ip
      → h.ip ≢ ""
      → lib.equal_fold m m' ≡ true
  one_owner [] m m' h h' ledger e e' same full = absurd (not_found m h e)
  one_owner (k ∷ ks) m m' h h' (apart, ledger) e e' same full = elim (host_entry_cases k h ks m e) [
    | inl (mine, is_h) ↦ elim (host_entry_cases k h' ks m' e') [
      | inl (mine', is_h') ↦ laws.fold_trans m k.mac m' (laws.fold_sym k.mac m mine) mine'
      | inr later' ↦ absurd (apart_of_later k h' ks m' apart later' (cc) (λ empty. full (cc)))
    ]
    | inr later ↦ elim (host_entry_cases k h' ks m' e') [
      | inl (mine', is_h') ↦ absurd (apart_of_later k h ks m apart later (cc) (λ empty. full (cc)))
      | inr later' ↦ one_owner ks m m' h h' ledger later later' same full
    ]
  ]

  owner_of_entries :
      (hs : List NetworkDhcpHost) (found found' : Option NetworkDhcpHost) (m m' a : String)
      → host_entry lib hs m ≡ found
      → host_entry lib hs m' ≡ found'
      → IsLedger lib hs
      → address_of lib found ≡ some a
      → address_of lib found' ≡ some a
      → a ≢ ""
      → lib.equal_fold m m' ≡ true
  owner_of_entries hs none found' m m' a e e' ledger has has' full = absurd (cc (has))
  owner_of_entries hs (some h) none m m' a e e' ledger has has' full = absurd (cc (has'))
  owner_of_entries hs (some h) (some h') m m' a e e' ledger has has' full =
      one_owner hs m m' h h' ledger e e' (ground arith) (λ empty. full (ground arith))

  -- Two MACs that a ledger books the same address for are the same MAC.
  pub ledger_owner :
      (network : Network) (m m' a : String)
      → IsLedger lib (entries network)
      → book lib network m ≡ some a
      → book lib network m' ≡ some a
      → a ≢ ""
      → lib.equal_fold m m' ≡ true
  ledger_owner network m m' a ledger has has' full =
      owner_of_entries (entries network) _ _ m m' a refl refl ledger has has' full
