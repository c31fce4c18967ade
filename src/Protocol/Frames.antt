-- ===== src/Protocol/Frames.antt =====
-- src/protocol.rs: `write_frame` and `read_frame`.
use volcano_db.Base.{
  ℕ, zero, suc, ◌+◌, ◌*◌, ◌/◌, ◌%◌, ◌^◌, ◌≤◌, ◌<◌, ◌≡◌, refl, String, Option, none, some, List, [],
  ◌∷◌, ◌++◌, arith, length, take,
}
use volcano_db.Protocol.Utf8.{as_bytes, from_utf8, from_utf8-as_bytes}

-- The end of a `read_frame`: a text and what is left on the stream, a stream that ends inside the
-- frame, or bytes that are no UTF-8.
pub data Read {ℓ} (A : Type ℓ) : Type ℓ where
  got : A → List ℕ → Read A
  unexpected_eof invalid_utf8 : Read A

-- `u32::to_be_bytes`
unfoldable pub to_be_bytes : ℕ → List ℕ
to_be_bytes n = (n / 2 ^ 24 % 256) ∷ (n / 2 ^ 16 % 256) ∷ (n / 2 ^ 8 % 256) ∷ (n % 256) ∷ []

-- `u32::from_be_bytes`
abbrev pub from_be_bytes : ℕ → ℕ → ℕ → ℕ → ℕ
from_be_bytes a b c d = a * 2 ^ 24 + b * 2 ^ 16 + c * 2 ^ 8 + d

-- What `write_frame` puts on the stream: the length as a `u32`, then the bytes.
unfoldable pub write_frame : String → List ℕ
unfolding to_be_bytes
write_frame payload = let bytes = as_bytes payload in to_be_bytes (length bytes % 2 ^ 32) ++ bytes

-- `read_exact` into a buffer of `n` bytes
unfoldable pub read_exact : ℕ → List ℕ → Option (List ℕ × List ℕ)
read_exact zero stream = some ([], stream)
read_exact (suc n) [] = none
read_exact (suc n) (b ∷ stream) = elim (read_exact n stream) [
  | none ↦ none
  | some (buf, rest) ↦ some (b ∷ buf, rest)
]

-- The rest of `read_frame`, after the length.
unfoldable pub read_payload : ℕ → List ℕ → Read String
unfolding read_exact
read_payload len stream = elim (read_exact len stream) [
  | none ↦ unexpected_eof
  | some (buf, rest) ↦ elim (from_utf8 buf) [ none ↦ invalid_utf8 | some s ↦ got s rest ]
]

unfoldable pub read_frame : List ℕ → Read String
unfolding read_payload
read_frame (a ∷ b ∷ c ∷ d ∷ stream) = read_payload (from_be_bytes a b c d) stream
read_frame _ = unexpected_eof

-- The header of a frame that fits.
from_be_bytes-to_be_bytes :
    (n : ℕ)
    → n < 2 ^ 32
    → let w = n % 2 ^ 32 in
      from_be_bytes (w / 2 ^ 24 % 256) (w / 2 ^ 16 % 256) (w / 2 ^ 8 % 256) (w % 256) ≡ n
from_be_bytes-to_be_bytes n h = omega arith

length-take-le : (k : ℕ) (xs : List ℕ) → length (take k xs) ≤ k
length-take-le zero xs = omega arith
length-take-le (suc k) [] = omega arith
length-take-le (suc k) (x ∷ xs) = omega (arith, length-take-le k xs)

read_exact-append : (buf rest : List ℕ) → read_exact (length buf) (buf ++ rest) ≡ some (buf, rest)
unfolding read_exact
read_exact-append [] rest = refl
read_exact-append (b ∷ buf) rest = rw (read_exact-append buf rest) refl

read_exact-short : (n : ℕ) (stream : List ℕ) → length stream < n → read_exact n stream ≡ none
unfolding read_exact
read_exact-short zero stream h = absurd (omega arith)
read_exact-short (suc n) [] h = refl
read_exact-short (suc n) (b ∷ stream) h = rw (read_exact-short n stream (omega arith)) refl

-- What `write_frame` has written `read_frame` reads back, and leaves the rest of the stream: for
-- every text of fewer than 2 ^ 32 bytes, of whatever characters.
pub read_frame-write_frame :
    (payload : String) (rest : List ℕ)
    → length (as_bytes payload) < 2 ^ 32
    → read_frame (write_frame payload ++ rest) ≡ got payload rest
unfolding read_frame write_frame to_be_bytes
read_frame-write_frame payload rest h =
    rw
      (
        from_be_bytes-to_be_bytes (length (as_bytes payload)) h,
        read_payload,
        read_exact-append (as_bytes payload) rest,
        from_utf8-as_bytes payload,
      )
      refl

-- A stream that ends before the frame does gives an error, and not a shorter text.
pub read_frame_of_torn :
    (payload : String) (k : ℕ)
    → length (as_bytes payload) < 2 ^ 32
    → k < length (write_frame payload)
    → read_frame (take k (write_frame payload)) ≡ unexpected_eof
unfolding read_frame write_frame to_be_bytes
read_frame_of_torn payload zero h lt = refl
read_frame_of_torn payload (suc zero) h lt = refl
read_frame_of_torn payload (suc (suc zero)) h lt = refl
read_frame_of_torn payload (suc (suc (suc zero))) h lt = refl
read_frame_of_torn payload (suc (suc (suc (suc k)))) h lt =
    rw
      (
        from_be_bytes-to_be_bytes (length (as_bytes payload)) h,
        read_payload,
        read_exact-short (length (as_bytes payload)) (take k (as_bytes payload))
            (omega (arith, length-take-le k (as_bytes payload))),
      )
      refl
