-- ===== src/Network/Candidates/Loop.antt =====
-- When the address loop of rangeCandidates and subnetTailCandidates ends, and with what.
use cluster_api_provider_lib.Shared.{
  ℕ, zero, suc, ◌+◌, ◌-◌, ◌%◌, ◌≤◌, ◌<◌, ◌≡◌, refl, ap, ◌∙◌, some, none, List, [], ◌∷◌, arith,
  length, All, get_elem?,
}
use cluster_api_provider_lib.Errors.{never_returns}
use cluster_api_provider_lib.Errors.Exec.{ok, err}
use cluster_api_provider_lib.Network.Candidates.{
  uint32_mod, append_range, loop_fuel, range_candidates,
}

-- The `n` numbers from `i` on.
abbrev pub range : ℕ → ℕ → List ℕ
range i zero = []
range i (suc n) = i ∷ range (i + 1) n

pub length-range : (i n : ℕ) → length (range i n) ≡ n
length-range i zero = refl
length-range i (suc n) = ap suc (length-range (i + 1) n)

pub get_elem?-range : (i n j : ℕ) → j < n → get_elem? (range i n) j ≡ some (i + j)
get_elem?-range i zero j h = elim h [ ]
get_elem?-range i (suc n) zero h = ap some (omega arith)
get_elem?-range i (suc n) (suc j) h =
    get_elem?-range (i + 1) n j (omega arith) ∙ ap some (omega arith)

pub range-within :
    (i n lo hi : ℕ) → lo ≤ i → i + n ≤ hi → All (λ a. (lo ≤ a) × (a < hi)) (range i n)
range-within i zero lo hi p q = tt
range-within i (suc n) lo hi p q =
    ((omega arith, omega arith), range-within (i + 1) n lo hi (omega arith) (omega arith))

-- A loop that ends below the largest uint32 collects the `m` addresses from `i` to `last`.
pub append_range-range :
    (fuel i m last : ℕ)
    → i + m ≡ last + 1
    → last + 1 < uint32_mod
    → m < fuel
    → append_range fuel i last ≡ some (range i m)
unfolding append_range
append_range-range zero i m last p q r = absurd (omega arith)
append_range-range (suc fuel) i zero last p q r = ground arith
append_range-range (suc fuel) i (suc m) last p q r =
    let next : (i + 1) % uint32_mod ≡ i + 1 = omega arith in
    rw next (ground (arith, append_range-range fuel (i + 1) m last (omega arith) q (omega arith)))

-- A loop whose last address is the largest uint32 never ends: `i++` wraps round to 0.
pub append_range-diverges :
    (fuel i : ℕ) → i < uint32_mod → append_range fuel i (uint32_mod - 1) ≡ none
unfolding append_range
append_range-diverges zero i h = refl
append_range-diverges (suc fuel) i h =
    ground (arith, append_range-diverges fuel ((i + 1) % uint32_mod))

-- For a start up to an end below the largest uint32, rangeCandidates returns exactly the addresses
-- from the one to the other, in order.
pub range_candidates-range :
    (start finish : ℕ)
    → start ≤ finish
    → finish + 1 < uint32_mod
    → range_candidates start finish ≡ ok (range start (finish + 1 - start))
unfolding range_candidates loop_fuel
range_candidates-range start finish le h = ground (
  arith,
  append_range-range loop_fuel start (finish + 1 - start) finish (omega arith) h (omega arith),
)

-- A DHCP range that ends at the largest address makes rangeCandidates loop for ever: no number of
-- rounds ends its loop, and the call never returns.
pub range_candidates-never_returns :
    (fuel start : ℕ)
    → start < uint32_mod
    → (append_range fuel start (uint32_mod - 1) ≡ none)
      × (range_candidates start (uint32_mod - 1) ≡ err never_returns)
unfolding range_candidates
range_candidates-never_returns fuel start h =
    (append_range-diverges fuel start h, ground (arith, append_range-diverges loop_fuel start h))
