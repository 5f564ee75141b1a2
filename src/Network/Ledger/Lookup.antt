-- ===== src/Network/Ledger/Lookup.antt =====
-- What hostEntryInNetwork finds in a ledger after an entry was added, modified or deleted.
use cluster_api_provider_lib.Shared.{
  ◌≡◌, refl, ◌∙◌, String, true, false, none, some, List, [], ◌∷◌, arith, All, eq_iff, if◌then◌else◌,
}
use cluster_api_provider_lib.Network.{NetLib, NetworkDhcpHost}
use cluster_api_provider_lib.Network.Allocation.{host_entry}
use cluster_api_provider_lib.Network.Ledger.{Inserted, here, there, TextLaws, AreApart, IsLedger}
use cluster_api_provider_lib.Network.Ledger.Unique.{
  All-Inserted_before, fold_comm, Inserted-IsLedger, remaining-IsLedger,
}
use cluster_api_provider_lib.Network.Ledger.Claims.{claims}

module _ (lib : NetLib) (laws : TextLaws lib) where
  -- Texts that fold alike are compared alike.
  fold_same : (s t u : String) → lib.equal_fold s t ≡ true → lib.equal_fold u s ≡ lib.equal_fold u t
  fold_same s t u e =
      ground (arith, laws.fold_sym s t e, laws.fold_trans u s t, laws.fold_trans u t s)

  pub host_entry-fold :
      (hs : List NetworkDhcpHost) (m m' : String)
      → lib.equal_fold m m' ≡ true
      → host_entry lib hs m ≡ host_entry lib hs m'
  unfolding host_entry
  host_entry-fold [] m m' e = refl
  host_entry-fold (h ∷ hs) m m' e =
      ground (arith, fold_same m m' h.mac e, host_entry-fold hs m m' e)

  pub host_entry-none :
      (hs : List NetworkDhcpHost) (m : String)
      → host_entry lib hs m ≡ none
      → All (λ h. lib.equal_fold h.mac m ≡ false) hs
  unfolding host_entry
  host_entry-none [] m e = tt
  host_entry-none (h ∷ hs) m e =
      let rest = host_entry-none hs m in (ground arith, ground (arith, rest))

  pub host_entry-some :
      (hs : List NetworkDhcpHost) (m : String) (found : NetworkDhcpHost)
      → host_entry lib hs m ≡ some found
      → lib.equal_fold found.mac m ≡ true
  unfolding host_entry
  host_entry-some [] m found e = cc
  host_entry-some (h ∷ hs) m found e = ground (arith, host_entry-some hs m found)

  -- No entry that is apart from one of the MAC is the MAC's.
  host_entry-apart :
      (k : NetworkDhcpHost) (hs : List NetworkDhcpHost) (m : String)
      → All (AreApart lib k) hs
      → lib.equal_fold k.mac m ≡ true
      → host_entry lib hs m ≡ none
  unfolding host_entry
  host_entry-apart k [] m apart e = refl
  host_entry-apart k (h ∷ hs) m (a, apart) e =
      let macs = a.macs in
      ground (
        arith,
        host_entry-apart k hs m apart e,
        laws.fold_sym h.mac m,
        laws.fold_sym m h.mac,
        laws.fold_trans k.mac m h.mac,
      )

  -- The entry that was put in is found for its MAC, and for other MACs what was found before.
  host_entry-Inserted :
      {k : NetworkDhcpHost} {hs hs' : List NetworkDhcpHost} (m : String)
      → Inserted k hs hs'
      → All (AreApart lib k) hs
      → host_entry lib hs' m ≡ (if lib.equal_fold k.mac m then some k else host_entry lib hs m)
  unfolding host_entry
  host_entry-Inserted m here apart = refl
  host_entry-Inserted {k} m (there {h} {hs} i) (a, apart) =
      let macs = a.macs in
      ground
        (arith, host_entry-Inserted m i apart, laws.fold_sym h.mac m, laws.fold_trans k.mac m h.mac)

  -- The ledger `after` the entry was written into the ledger `before`.
  pub record Rewrites (k : NetworkDhcpHost) (before after : List NetworkDhcpHost) : Type 0 where
    pub ledger : IsLedger lib after
    pub looked_up :
        (m : String)
        → host_entry lib after m
          ≡ (if lib.equal_fold k.mac m then some k else host_entry lib before m)

  -- A new entry is apart from entries that are not its MAC's and do not claim its address.
  apart_of_unclaimed :
      (k : NetworkDhcpHost) (hs : List NetworkDhcpHost)
      → All (λ h. lib.equal_fold h.mac k.mac ≡ false) hs
      → All (λ h. claims lib k.mac k.ip h ≡ false) hs
      → All (AreApart lib k) hs
  apart_of_unclaimed k [] others unclaimed = tt
  apart_of_unclaimed k (h ∷ hs) (o, others) (u, unclaimed) = (
    record {
      macs = fold_comm lib laws h.mac k.mac o;
      ips = ground (arith, eq_iff h.ip k.ip, eq_iff k.ip h.ip);
    },
    apart_of_unclaimed k hs others unclaimed,
  )

  pub added-Rewrites :
      {k : NetworkDhcpHost} {before after : List NetworkDhcpHost}
      → Inserted k before after
      → IsLedger lib before
      → host_entry lib before k.mac ≡ none
      → All (λ h. claims lib k.mac k.ip h ≡ false) before
      → Rewrites k before after
  added-Rewrites {k} {before} i ledger absent unclaimed =
      let apart = apart_of_unclaimed k before (host_entry-none before k.mac absent) unclaimed in
      record {
        ledger = Inserted-IsLedger lib laws i ledger apart;
        looked_up = λ m. host_entry-Inserted m i apart;
      }

  -- Entries that are apart from one of the MAC are not the MAC's.
  others_of_apart :
      (old : NetworkDhcpHost) (m : String) (hs : List NetworkDhcpHost)
      → lib.equal_fold old.mac m ≡ true
      → All (AreApart lib old) hs
      → All (λ h. lib.equal_fold h.mac m ≡ false) hs
  others_of_apart old m hs e apart = host_entry-none hs m (host_entry-apart old hs m apart e)

  -- Beside the MAC, nothing else is found than before the entry was taken away.
  looked_up_without :
      {old : NetworkDhcpHost} {rest before : List NetworkDhcpHost} (mac m : String)
      → lib.equal_fold old.mac mac ≡ true
      → Inserted old rest before
      → IsLedger lib before
      → host_entry lib rest m ≡ (if lib.equal_fold mac m then none else host_entry lib before m)
  looked_up_without {old} {rest} mac m e i ledger =
      let (apart, less) = remaining-IsLedger lib laws i ledger in
      ground (
        arith,
        host_entry-Inserted m i apart,
        host_entry-apart old rest m apart,
        laws.fold_sym old.mac mac e,
        laws.fold_trans mac old.mac m,
        laws.fold_trans old.mac mac m,
      )

  pub modified-Rewrites :
      {k old : NetworkDhcpHost} {rest before after : List NetworkDhcpHost}
      → lib.equal_fold old.mac k.mac ≡ true
      → Inserted old rest before
      → Inserted k rest after
      → IsLedger lib before
      → All (λ h. claims lib k.mac k.ip h ≡ false) before
      → Rewrites k before after
  modified-Rewrites {k} {old} {rest} e out i ledger unclaimed =
      let (apart, less) = remaining-IsLedger lib laws out ledger in
      let (mine, others) =
        All-Inserted_before (λ h. claims lib k.mac k.ip h ≡ false) out unclaimed in
      let apart' = apart_of_unclaimed k rest (others_of_apart old k.mac rest e apart) others in
      record {
        ledger = Inserted-IsLedger lib laws i less apart';
        looked_up = λ m.
            host_entry-Inserted m i apart' ∙ ground (arith, looked_up_without k.mac m e out ledger);
      }

  -- The ledger `after` the entry of the MAC was taken out of the ledger `before`.
  pub record Erases (mac : String) (before after : List NetworkDhcpHost) : Type 0 where
    pub ledger : IsLedger lib after
    pub looked_up :
        (m : String)
        → host_entry lib after m ≡ (if lib.equal_fold mac m then none else host_entry lib before m)

  pub deleted-Erases :
      {old : NetworkDhcpHost} {before after : List NetworkDhcpHost} (mac : String)
      → lib.equal_fold old.mac mac ≡ true
      → Inserted old after before
      → IsLedger lib before
      → Erases mac before after
  deleted-Erases mac e out ledger = record {
    ledger = (remaining-IsLedger lib laws out ledger).1;
    looked_up = λ m. looked_up_without mac m e out ledger;
  }
