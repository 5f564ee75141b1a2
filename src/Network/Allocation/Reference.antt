-- ===== src/Network/Allocation/Reference.antt =====
-- allocateMachineIPIn against a reference without indices: turn the list of candidates so that it
-- begins at the hash's place, and take the first one that is free.
use cluster_api_provider_lib.Shared.{
  ℕ, zero, suc, ◌+◌, ◌%◌, ◌<◌, ◌≡◌, refl, sym, ap, ◌∙◌, String, ◌<>◌, some, List, [], ◌∷◌, arith,
  length, get_elem?, if◌then◌else◌, get_elem?-rotate, length-rotate, rotate,
}
use cluster_api_provider_lib.Errors.{message}
use cluster_api_provider_lib.Errors.Exec.{Result, ok, err}
use cluster_api_provider_lib.Network.{NetLib, Network}
use cluster_api_provider_lib.Network.Candidates.{allocation_candidates}
use cluster_api_provider_lib.Network.Allocation.{
  IpSet, host_ip_set, is_free, probe, allocate_in, allocate_machine_ip_in,
}
use cluster_api_provider_lib.Network.Allocation.Choice.{start_offset}

module _ (lib : NetLib) (taken : IpSet) (name mac : String) where
  -- The address of the first free candidate of the list.
  unfoldable pub first_free : List ℕ → Result String
  first_free [] = err (
      message
        ("no free address in the machine reservation block of the network (name " <> (name <> ")")))
  first_free (c ∷ cs) =
      let rest = first_free cs in
      if is_free lib taken mac (lib.ipv4_string c) then ok (lib.ipv4_string c) else rest

  -- The loop from round `i` on searches the list that it visits.
  probe-first_free :
      (candidates visited : List ℕ) (offset i : ℕ)
      → ((j : ℕ)
          → j < length visited
          → get_elem? candidates ((offset + (i + j)) % length candidates) ≡ get_elem? visited j)
      → probe lib taken name mac candidates offset (length visited) i ≡ first_free visited
  unfolding probe first_free
  probe-first_free candidates [] offset i sees = refl
  probe-first_free candidates (c ∷ visited) offset i sees =
      let now : get_elem? candidates ((offset + i) % length candidates) ≡ some c =
        ap (λ k. get_elem? candidates ((offset + k) % length candidates)) at_start
        ∙ sees zero (omega arith) in
      let later = probe-first_free candidates visited offset (i + 1) (λ j h.
        ap (λ k. get_elem? candidates ((offset + k) % length candidates)) (next j)
        ∙ sees (suc j) (omega (arith, h))) in
      rw (now, probe) (ground (arith, later))
    where
      at_start : i ≡ i + 0
      at_start = omega arith

      next : (j : ℕ) → i + 1 + j ≡ i + suc j
      next j = omega arith

module _ (lib : NetLib) (network : Network) (name mac : String) where
  place_lt :
      (candidates : List ℕ)
      → 0 < length candidates
      → start_offset lib name candidates < length candidates
  place_lt candidates some_there = grind arith

  -- With the candidates of the network known, and not none, allocateMachineIPIn returns what the
  -- reference does: the address of the first free candidate of the list turned to the hash's place,
  -- and an error when no candidate is free.
  pub allocate_machine_ip_in_reference :
      (candidates : List ℕ)
      → allocation_candidates lib network ≡ ok candidates
      → 0 < length candidates
      → allocate_machine_ip_in lib network name mac
        ≡ first_free lib
            (host_ip_set network)
            name
            mac
            (rotate (start_offset lib name candidates) candidates)
  unfolding allocate_machine_ip_in allocate_in
  allocate_machine_ip_in_reference [] known some_there = absurd (omega arith)
  allocate_machine_ip_in_reference (c ∷ cs) known some_there =
      let offset = start_offset lib name (c ∷ cs) in
      let turned = rotate offset (c ∷ cs) in
      let whole : length turned ≡ length (c ∷ cs) =
        length-rotate offset (c ∷ cs) (omega (arith, place_lt (c ∷ cs) some_there)) in
      rw (known, allocate_machine_ip_in)
        (ap (λ rounds. probe lib (host_ip_set network) name mac (c ∷ cs) offset rounds 0)
            (sym whole)
          ∙ probe-first_free lib (host_ip_set network) name mac (c ∷ cs) turned offset 0 (λ j h.
            let from_zero : 0 + j ≡ j = omega arith in
            ap (λ k. get_elem? (c ∷ cs) ((offset + k) % length (c ∷ cs))) from_zero
            ∙ get_elem?-rotate offset j (c ∷ cs) (place_lt (c ∷ cs) some_there)
                (omega (arith, h, whole))))
