-- ===== src/Network/Ledger/Unique.antt =====
-- Ledgers: putting an entry in that is apart from all others, and taking one away.
use cluster_api_provider_lib.Shared.{
  ◌≡◌, subst, String, false, List, [], ◌∷◌, arith, All, eq_iff, Bool-cases, inl, inr,
}
use cluster_api_provider_lib.Network.{NetLib, NetworkDhcpHost}
use cluster_api_provider_lib.Network.Ledger.{Inserted, here, there, TextLaws, AreApart, IsLedger}

pub Inserted-cast :
    {k k' : NetworkDhcpHost} {hs hs' : List NetworkDhcpHost}
    → k ≡ k'
    → Inserted k hs hs'
    → Inserted k' hs hs'
Inserted-cast {hs = hs} {hs'} e i = subst (λ h. Inserted h hs hs') e i

-- What holds of every element but the new one, and of the new one.
pub All-Inserted :
    (P : NetworkDhcpHost → Type 0) {k : NetworkDhcpHost} {hs hs' : List NetworkDhcpHost}
    → Inserted k hs hs'
    → P k × All P hs
    → All P hs'
All-Inserted P here all = all
All-Inserted P (there i) (p, (q, all)) = (q, All-Inserted P i (p, all))

pub All-Inserted_before :
    (P : NetworkDhcpHost → Type 0) {k : NetworkDhcpHost} {hs hs' : List NetworkDhcpHost}
    → Inserted k hs hs'
    → All P hs'
    → P k × All P hs
All-Inserted_before P here all = all
All-Inserted_before P (there i) (q, all) =
    let (p, rest) = All-Inserted_before P i all in (p, (q, rest))

module _ (lib : NetLib) (laws : TextLaws lib) where
  pub fold_comm : (s t : String) → lib.equal_fold s t ≡ false → lib.equal_fold t s ≡ false
  fold_comm s t e = elim (Bool-cases (lib.equal_fold t s)) [
    | inl same ↦ absurd (cc (laws.fold_sym t s same, e))
    | inr differs ↦ differs
  ]

  pub AreApart-comm : {h k : NetworkDhcpHost} → AreApart lib h k → AreApart lib k h
  AreApart-comm {h} {k} a = record {
    macs = fold_comm h.mac k.mac a.macs;
    ips =
        let apart = a.ips in
        ground (arith, eq_iff h.ip k.ip, eq_iff k.ip h.ip, eq_iff h.ip "", eq_iff k.ip "");
  }

  All-AreApart-comm :
      (k : NetworkDhcpHost) (hs : List NetworkDhcpHost)
      → All (λ h. AreApart lib h k) hs
      → All (AreApart lib k) hs
  All-AreApart-comm k [] all = tt
  All-AreApart-comm k (h ∷ hs) (a, all) = (AreApart-comm a, All-AreApart-comm k hs all)

  -- A new entry that is apart from those of a ledger.
  pub Inserted-IsLedger :
      {k : NetworkDhcpHost} {hs hs' : List NetworkDhcpHost}
      → Inserted k hs hs'
      → IsLedger lib hs
      → All (AreApart lib k) hs
      → IsLedger lib hs'
  Inserted-IsLedger here ledger apart = (apart, ledger)
  Inserted-IsLedger {k} (there {h} i) (first, ledger) (a, apart) =
      (All-Inserted (AreApart lib h) i (AreApart-comm a, first), Inserted-IsLedger i ledger apart)

  -- A ledger with an entry taken away, and how that entry stood to the rest.
  pub remaining-IsLedger :
      {k : NetworkDhcpHost} {hs hs' : List NetworkDhcpHost}
      → Inserted k hs hs'
      → IsLedger lib hs'
      → All (AreApart lib k) hs × IsLedger lib hs
  remaining-IsLedger here ledger = ledger
  remaining-IsLedger (there {h} i) (first, ledger) =
      let (a, others) = All-Inserted_before (AreApart lib h) i first in
      let (apart, rest) = remaining-IsLedger i ledger in ((AreApart-comm a, apart), (others, rest))
