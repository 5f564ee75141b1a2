-- ===== src/Client/Volumes/Upload.antt =====
-- What createISODisk uploads.
use cluster_api_provider_lib.Shared.{
  ℕ, zero, suc, ◌<◌, ◌≤◌, ◌≡◌, refl, ap, Option, none, some, [], ◌∷◌, ◌++◌, arith, length,
}
use cluster_api_provider_lib.Config.{Bytes}
use cluster_api_provider_lib.Client.Volumes.{next_chunk}

-- A chunk and what is left of it are the bytes that were left, and the chunk has the asked-for size
-- or ends the bytes.
next_chunk-append : (left : Bytes) (n : ℕ) → (next_chunk left n).0 ++ (next_chunk left n).1 ≡ left
unfolding next_chunk
next_chunk-append left zero = refl
next_chunk-append [] (suc n) = refl
next_chunk-append (b ∷ left) (suc n) = ap (◌∷◌ b) (next_chunk-append left n)

length-next_chunk_le : (left : Bytes) (n : ℕ) → length (next_chunk left n).1 ≤ length left
unfolding next_chunk
length-next_chunk_le left zero = omega arith
length-next_chunk_le [] (suc n) = omega arith
length-next_chunk_le (b ∷ left) (suc n) = omega (arith, length-next_chunk_le left n)

-- The handler called again and again with `n`, until it gives no bytes: all that it gave. `none`
-- means that it still gave bytes when the calls ran out.
abbrev pub drained : Bytes → Option Bytes → Option Bytes
drained chunk none = none
drained chunk (some rest) = some (chunk ++ rest)

pub drain : ℕ → ℕ → Bytes → Option Bytes
drain zero n left = none
drain (suc calls) n left =
    let rest = drain calls n (next_chunk left n).1 in
    elim (next_chunk left n).0 [ [] ↦ some [] | b ∷ chunk ↦ drained (b ∷ chunk) rest ]

-- The handler that storageVolUpload passes to SendAll ends: asked for a positive number of bytes each
-- time, within one call more than there are bytes it gives all of them in order, and then none.
pub drain-next_chunk :
    (calls n : ℕ) (content : Bytes)
    → 0 < n
    → length content < calls
    → drain calls n content ≡ some content
unfolding drain next_chunk
drain-next_chunk zero n content p h = absurd (omega arith)
drain-next_chunk (suc calls) zero content p h = absurd (omega arith)
drain-next_chunk (suc calls) (suc n) [] p h = refl
drain-next_chunk (suc calls) (suc n) (b ∷ content) p h =
    let ih =
      drain-next_chunk calls (suc n) (next_chunk content n).1 p
        (omega (arith, length-next_chunk_le content n)) in
    rw ih (ap (λ c. some (b ∷ c)) (next_chunk-append content n))
