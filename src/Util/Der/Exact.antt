-- ===== src/Util/Der/Exact.antt =====
-- The reader accepts exactly the shortest DER encodings of contents below 64 KiB.

use mathlib.Core.List.{append_assoc}
use osclientcerts.Prelude.{
  ℕ, ◌/◌, ◌%◌, ◌<◌, ◌↔◌, ◌≡◌, ◌++◌, ◌∷◌, [], inl, inr, Result, ok, err, ◌>>=◌, Bytes, length, All,
  arith, if◌then◌else◌, ==_refl, ==_iff, ◌==◌, take-length-append, drop-length-append,
  length-append, take-append-drop, length-take, >>=-eq-ok, Bool-cases,
}
use osclientcerts.ByteOrder.{ByteOrder}
use osclientcerts.Util.Der.{try_read_bytes, read_length, read}
use osclientcerts.Util.Der.Encode.{encode_length, encode}

abbrev pub IsByte : ℕ → Type 0
IsByte x = x < 256

try_read_bytes-append : (xs rest : Bytes) → try_read_bytes (xs ++ rest) (length xs) ≡ ok (xs, rest)
unfolding try_read_bytes
try_read_bytes-append xs rest =
    rw (take-length-append xs rest, drop-length-append xs rest)
      (ground (arith, length-append xs rest))

module _ (o : ByteOrder) where
  read_length-encode_length :
      (n : ℕ) (rest : Bytes) → n < 65536 → read_length o (encode_length n ++ rest) ≡ ok (n, rest)
  unfolding read_length encode_length
  read_length-encode_length n rest h = ground (arith, o.read_u16_be (n / 256) (n % 256) [])

  -- `read` with the tag taken off.
  read_contents : Bytes → Result (Bytes × Bytes) Unit
  read_contents rest = do (len, to_read_from) ← read_length o rest; try_read_bytes to_read_from len

  read-cons :
      (tag t : ℕ) (rest : Bytes)
      → read o tag (t ∷ rest) ≡ (if t == tag then read_contents rest else err tt)
  unfolding read read_contents
  read-cons tag t rest = ground arith

  -- Reading an encoded element gives its contents back, and what follows it.
  pub read-encode :
      (tag : ℕ) (contents rest : Bytes)
      → length contents < 65536
      → read o tag (encode tag contents ++ rest) ≡ ok (contents, rest)
  unfolding encode read_contents
  read-encode tag contents rest h =
      rw
        (
          read-cons,
          ==_refl,
          append_assoc,
          read_length-encode_length (length contents) (contents ++ rest) h,
        )
        (try_read_bytes-append contents rest)

  -- A successful read of bytes consumed the shortest encoding of what it returns.
  read_length_sound :
      (input rest : Bytes) (n : ℕ)
      → All IsByte input
      → read_length o input ≡ ok (n, rest)
      → input ≡ encode_length n ++ rest
  unfolding read_length encode_length
  read_length_sound [] rest n bs h = cc
  read_length_sound (a ∷ []) rest n bs h = ground arith
  read_length_sound (a ∷ b ∷ []) rest n bs h = ground arith
  read_length_sound (a ∷ b ∷ c ∷ input) rest n bs h = ground (arith, o.read_u16_be b c [])

  read_length-lt :
      (input rest : Bytes) (n : ℕ)
      → All IsByte input
      → read_length o input ≡ ok (n, rest)
      → n < 65536
  unfolding read_length
  read_length-lt [] rest n bs h = cc
  read_length-lt (a ∷ []) rest n bs h = ground arith
  read_length-lt (a ∷ b ∷ []) rest n bs h = ground arith
  read_length-lt (a ∷ b ∷ c ∷ input) rest n bs h = ground (arith, o.read_u16_be b c [])

  try_read_bytes_sound :
      (input xs rest : Bytes) (n : ℕ)
      → try_read_bytes input n ≡ ok (xs, rest)
      → (input ≡ xs ++ rest) × (length xs ≡ n)
  unfolding try_read_bytes
  try_read_bytes_sound input xs rest n h =
      ground (arith, take-append-drop n input, length-take n input)

  read_contents_sound :
      (input v rest : Bytes)
      → All IsByte input
      → read_contents input ≡ ok (v, rest)
      → (length v < 65536) × (input ≡ encode_length (length v) ++ v ++ rest)
  unfolding read_contents
  read_contents_sound input v rest bs h =
      let (found, measured, cut) = >>=-eq-ok (read_length o input) _ h in
      let (split, size) = try_read_bytes_sound found.1 v rest found.0 cut in
      (
        omega (arith, read_length-lt input found.1 found.0 bs measured),
        cc (
          read_length_sound input found.1 found.0 bs measured,
          append_assoc (encode_length (length v)) v rest,
        ),
      )

  read_sound :
      (tag : ℕ) (input v rest : Bytes)
      → All IsByte input
      → read o tag input ≡ ok (v, rest)
      → (length v < 65536) × (input ≡ encode tag v ++ rest)
  unfolding encode read read_contents
  read_sound tag [] v rest bs h = cc
  read_sound tag (t ∷ input) v rest bs h = elim (Bool-cases (t == tag)) [
    | inl same ↦
        let r : read_contents input ≡ ok (v, rest) = cc (read-cons tag t input, same) in
        let (short, e) = read_contents_sound input v rest bs.1 r in
        (short, cc ((==_iff t tag).0 same))
    | inr other ↦ cc (read-cons tag t input, other)
  ]

  -- On a string of bytes the reader succeeds exactly on the shortest DER encodings, of contents
  -- below 64 KiB, with the tag that is asked for; and then it returns the contents and what
  -- follows.
  pub read_iff :
      (tag : ℕ) (input v rest : Bytes)
      → All IsByte input
      → (read o tag input ≡ ok (v, rest)) ↔ ((length v < 65536) × (input ≡ encode tag v ++ rest))
  read_iff tag input v rest bs =
      (read_sound tag input v rest bs, λ (short, e). rw e (read-encode tag v rest short))
