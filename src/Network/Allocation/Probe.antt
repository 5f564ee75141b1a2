-- ===== src/Network/Allocation/Probe.antt =====
-- The probing loop of allocateMachineIPIn: what it returns, and that it visits every candidate.
use cluster_api_provider_lib.Shared.{
  ℕ, zero, suc, ◌+◌, ◌-◌, ◌%◌, ◌<◌, ◌≤◌, ◌≡◌, refl, inl, inr, String, true, false, some, List,
  arith, length, get_elem?, get_elem?-some, Bool-cases, leb, leb→le, subst,
}
use cluster_api_provider_lib.Errors.Exec.{Result, ok, IsErr}
use cluster_api_provider_lib.Network.{NetLib}
use cluster_api_provider_lib.Network.Allocation.{IpSet, is_free, probe}

round_above : (offset j n : ℕ) → offset ≤ j → j < n → (offset + (0 + (j - offset))) % n ≡ j
round_above offset j n le h = grind arith

round_below :
    (offset j n : ℕ) → j < offset → offset < n → j < n → (offset + (0 + (j + n - offset))) % n ≡ j
round_below offset j n lt off h =
    let sum : offset + (0 + (j + n - offset)) ≡ j + n = omega arith in rw sum (grind arith)

module _ (lib : NetLib) (taken : IpSet) (domain_name mac : String) (candidates : List ℕ)
    (offset : ℕ) where
  -- Round `i` tries the candidate `c`.
  abbrev pub Tries : ℕ → ℕ → Type 0
  Tries i c = get_elem? candidates ((offset + i) % length candidates) ≡ some c

  abbrev pub IsFree : ℕ → Type 0
  IsFree c = is_free lib taken mac (lib.ipv4_string c) ≡ true

  abbrev pub IsTaken : ℕ → Type 0
  IsTaken c = is_free lib taken mac (lib.ipv4_string c) ≡ false

  -- The first of the rounds from `i` on that tries a free candidate, with that candidate.
  pub record Finds (i rounds : ℕ) (ip : String) : Type 0 where
    pub round : ℕ
    pub cand : ℕ
    pub early : round < rounds
    pub tries : Tries (i + round) cand
    pub free : IsFree cand
    pub result : ip ≡ lib.ipv4_string cand
    pub first : (k c : ℕ) → k < round → Tries (i + k) c → IsTaken c

  pub data Outcome (i rounds : ℕ) : Result String → Type 0 where
    found : (ip : String) → Finds i rounds ip → Outcome i rounds (ok ip)
    exhausted :
        {r : Result String}
        → IsErr r
        → ((k c : ℕ) → k < rounds → Tries (i + k) c → IsTaken c)
        → Outcome i rounds r

  Tries-cast : {i j c : ℕ} → i ≡ j → Tries i c → Tries j c
  Tries-cast {c} e t = subst (λ n. Tries n c) e t

  -- What is known of the rounds after `i` carries over to the rounds from `i` on.
  IsTaken-from :
      (i cand rounds : ℕ)
      → Tries i cand
      → IsTaken cand
      → ((k c : ℕ) → k < rounds → Tries (i + 1 + k) c → IsTaken c)
      → (k c : ℕ) → k < suc rounds
      → Tries (i + k) c
      → IsTaken c
  IsTaken-from i cand rounds t taken later zero c h t' =
      let same : Tries i c = Tries-cast (omega arith) t' in
      let e : cand ≡ c = ground (arith, same, t) in subst IsTaken e taken
  IsTaken-from i cand rounds t taken later (suc k) c h t' =
      later k c (omega arith) (Tries-cast (omega arith) t')

  shift :
      {i rounds cand : ℕ} {r : Result String}
      → Tries i cand
      → IsTaken cand
      → Outcome (i + 1) rounds r
      → Outcome i (suc rounds) r
  shift {i} {rounds} {cand} t taken (found ip f) = found ip (record {
    round = suc f.round;
    cand = f.cand;
    early = omega (arith, f.early);
    tries = Tries-cast (omega arith) f.tries;
    free = f.free;
    result = f.result;
    first = IsTaken-from i cand f.round t taken f.first;
  })
  shift {i} {rounds} {cand} t taken (exhausted e none_free) =
      exhausted e (IsTaken-from i cand rounds t taken none_free)

  pub probe-Outcome :
      (rounds i : ℕ)
      → 0 < length candidates
      → Outcome i rounds (probe lib taken domain_name mac candidates offset rounds i)
  unfolding probe
  probe-Outcome zero i pos = exhausted tt (λ k c h t. elim h [ ])
  probe-Outcome (suc rounds) i pos =
      let (cand, tries) =
        get_elem?-some candidates ((offset + i) % length candidates) (grind arith) in
      elim (Bool-cases (is_free lib taken mac (lib.ipv4_string cand))) [
        | inl free ↦
            rw (tries, probe, free)
              (found (lib.ipv4_string cand) (record {
                round = 0;
                cand = cand;
                early = omega arith;
                tries = Tries-cast (omega arith) tries;
                free = free;
                result = refl;
                first = λ k c h t. absurd (omega arith);
              }))
        | inr held ↦ rw (tries, probe, held) (shift tries held (probe-Outcome rounds (i + 1) pos))
      ]

  -- Every index of the list is tried in some round, because the rounds go once round the list.
  pub round_of_index :
      (j c : ℕ)
      → offset < length candidates
      → j < length candidates
      → get_elem? candidates j ≡ some c
      → (k : ℕ) × (k < length candidates) × Tries (0 + k) c
  round_of_index j c off h e = elim (Bool-cases (leb offset j)) [
    | inl above ↦
        let le = leb→le offset j above in
        (j - offset, omega arith, rw (round_above offset j (length candidates) le h) e)
    | inr below ↦
        let lt : j < offset = ground arith in
        (
          j + length candidates - offset,
          omega arith,
          rw (round_below offset j (length candidates) lt off h) e,
        )
  ]
