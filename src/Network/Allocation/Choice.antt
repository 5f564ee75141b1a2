-- ===== src/Network/Allocation/Choice.antt =====
-- What allocateMachineIPIn promises: the address that it returns is the first free candidate in
-- probing order, and it fails only when no candidate is free.
use cluster_api_provider_lib.Shared.{
  ℕ, ◌+◌, ◌%◌, ◌<◌, ◌≡◌, refl, subst, String, true, some, List, [], ◌∷◌, arith, length, get_elem?,
  get_elem?-lt,
}
use cluster_api_provider_lib.Errors.Exec.{Result, ok, ok-injective, ok_not_IsErr}
use cluster_api_provider_lib.Network.{NetLib, Network}
use cluster_api_provider_lib.Network.Candidates.{allocation_candidates}
use cluster_api_provider_lib.Network.Allocation.{
  host_ip_set, hash_domain_name, is_free, allocate_in, allocate_machine_ip_in,
}
use cluster_api_provider_lib.Network.Allocation.Probe.{
  Finds, Outcome, found, exhausted, probe-Outcome, round_of_index,
}

-- The round that the name's hash starts with.
abbrev pub start_offset : NetLib → String → List ℕ → ℕ
start_offset lib name candidates = hash_domain_name lib name % length candidates

module _ (lib : NetLib) (network : Network) (name mac : String) where
  abbrev pub Frees : ℕ → Type 0
  Frees c = is_free lib (host_ip_set network) mac (lib.ipv4_string c) ≡ true

  Finds-of_Outcome :
      {candidates : List ℕ} {offset i rounds : ℕ} {r : Result String} {ip : String}
      → Outcome lib (host_ip_set network) name mac candidates offset i rounds r
      → r ≡ ok ip
      → Finds lib (host_ip_set network) name mac candidates offset i rounds ip
  Finds-of_Outcome {candidates} {offset} {i} {rounds} (found ip f) e =
      subst (Finds lib (host_ip_set network) name mac candidates offset i rounds) (ok-injective e) f
  Finds-of_Outcome (exhausted x n) e = absurd (ok_not_IsErr x e)

  allocate_in-Finds :
      (candidates : List ℕ) (ip : String)
      → allocate_in lib network name mac candidates ≡ ok ip
      → Finds lib
          (host_ip_set network)
          name
          mac
          candidates
          (start_offset lib name candidates)
          0
          (length candidates)
          ip
  unfolding allocate_in
  allocate_in-Finds [] ip e = cc
  allocate_in-Finds (c ∷ cs) ip e =
      Finds-of_Outcome
        (probe-Outcome lib (host_ip_set network) name mac (c ∷ cs) (start_offset lib name (c ∷ cs))
          (length (c ∷ cs)) 0 (omega arith))
        e

  complete_of_Outcome :
      {candidates : List ℕ} {offset : ℕ} {r : Result String} (c k : ℕ)
      → Outcome lib (host_ip_set network) name mac candidates offset 0 (length candidates) r
      → k < length candidates
      → get_elem? candidates ((offset + (0 + k)) % length candidates) ≡ some c
      → Frees c
      → (ip : String) × (r ≡ ok ip)
  complete_of_Outcome c k (found ip f) h t free = (ip, refl)
  complete_of_Outcome c k (exhausted x none_free) h t free = cc (none_free k c h t)

  allocate_in_complete :
      (candidates : List ℕ) (j c : ℕ)
      → get_elem? candidates j ≡ some c
      → Frees c
      → (ip : String) × (allocate_in lib network name mac candidates ≡ ok ip)
  unfolding allocate_in
  allocate_in_complete [] j c e free = cc
  allocate_in_complete (d ∷ ds) j c e free =
      let (k, h, t) =
        round_of_index lib (host_ip_set network) name mac (d ∷ ds) (start_offset lib name (d ∷ ds))
          j c (grind arith) (get_elem?-lt (d ∷ ds) j c e) e in
      complete_of_Outcome c k
        (probe-Outcome lib (host_ip_set network) name mac (d ∷ ds) (start_offset lib name (d ∷ ds))
          (length (d ∷ ds)) 0 (omega arith))
        h t free

  -- With the candidates of the network known, an address that allocateMachineIPIn returns is that of
  -- the first candidate, counted from the place that the name's hash gives and round the list, which
  -- no host entry holds or the entry of the same MAC holds.
  pub allocate_machine_ip_in-first_free :
      (candidates : List ℕ) (ip : String)
      → allocation_candidates lib network ≡ ok candidates
      → allocate_machine_ip_in lib network name mac ≡ ok ip
      → Finds lib
          (host_ip_set network)
          name
          mac
          candidates
          (start_offset lib name candidates)
          0
          (length candidates)
          ip
  unfolding allocate_machine_ip_in
  allocate_machine_ip_in-first_free candidates ip known e =
      allocate_in-Finds candidates ip (rw (known, allocate_machine_ip_in) at e)

  -- With the candidates of the network known, allocateMachineIPIn succeeds whenever some candidate is
  -- held by no host entry or by the entry of the same MAC, wherever in the list it stands.
  pub allocate_machine_ip_in_complete :
      (candidates : List ℕ) (j c : ℕ)
      → allocation_candidates lib network ≡ ok candidates
      → get_elem? candidates j ≡ some c
      → Frees c
      → (ip : String) × (allocate_machine_ip_in lib network name mac ≡ ok ip)
  unfolding allocate_machine_ip_in
  allocate_machine_ip_in_complete candidates j c known e free =
      rw (known, allocate_machine_ip_in) (allocate_in_complete candidates j c e free)
