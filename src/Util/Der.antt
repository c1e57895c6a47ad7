-- ===== src/Util/Der.antt =====
-- src/util.rs: the DER reader `Der`, the reader of a constructed SEQUENCE and the reader of an RSA
-- public key. A reader's state is the bytes that are left; a read returns its result with them.
-- An error leaves no state, since every caller returns at once.
pub mod Encode
pub mod Exact
pub mod Keys
use Prim.Native.Nat.{bit_or}
use osclientcerts.Prelude.{
  ℕ, ◌<◌, Bool, true, false, ◌&&◌, Option, none, some, List, [], ◌∷◌, Result, ok, err, ◌>>=◌, Bytes,
  length, take, drop, ltb, ◌==◌, ◌!=◌, if◌then◌else◌,
}
use osclientcerts.ByteOrder.{ByteOrder}

abbrev pub integer_tag : ℕ
integer_tag = 0x02

abbrev pub sequence_tag : ℕ
sequence_tag = 0x10

abbrev pub constructed : ℕ
constructed = 0x20

-- The macro `try_read_bytes!`.
pub try_read_bytes : Bytes → ℕ → Result (Bytes × Bytes) Unit
try_read_bytes bytes len =
    if ltb (length bytes) len then err tt else ok (take len bytes, drop len bytes)

-- Indexing `bytes[0]`; every caller has checked that there is a first byte.
pub first_byte : Bytes → ℕ
first_byte [] = 0
first_byte (x ∷ xs) = x

pub is_empty : Bytes → Bool
is_empty [] = true
is_empty (x ∷ xs) = false

-- `.map_err(|_| ())` on the result of `read_u16`.
or_unit {ℓ} : {A : Type ℓ} → Option A → Result A (Unit {ℓ})
or_unit none = err tt
or_unit (some a) = ok a

-- The end of `read_unsigned_integer`: a leading zero is dropped.
unfoldable pub strip_leading_zero : Bytes → Result Bytes Unit
unfolding first_byte is_empty
strip_leading_zero bytes =
    if is_empty bytes
    then err tt
    else if first_byte bytes == 0 && ltb 1 (length bytes)
    then ok (drop 1 bytes)
    else ok bytes

module _ (o : ByteOrder) where
  -- The part of `Der::read` that finds the length and where the contents begin.
  unfoldable pub read_length : Bytes → Result (ℕ × Bytes) Unit
  unfolding try_read_bytes first_byte or_unit
  read_length input = do
    (length1, rest) ← try_read_bytes input 1
    if ltb (first_byte length1) 0x80
        then ok (first_byte length1, rest)
        else if first_byte length1 == 0x81
        then (do
          (len, rest) ← try_read_bytes rest 1
          if ltb (first_byte len) 0x80 then err tt else ok (first_byte len, rest))
        else if first_byte length1 == 0x82
        then (do
          (lengths, rest) ← try_read_bytes rest 2
          len ← or_unit (o.read_u16 lengths)
          if ltb len 256 then err tt else ok (len, rest))
        else err tt

  -- `Der::read`: the contents of an element with the given tag, and the bytes behind it.
  unfoldable pub read : ℕ → Bytes → Result (Bytes × Bytes) Unit
  unfolding try_read_bytes first_byte
  read tag contents = do
    (tag_read, rest) ← try_read_bytes contents 1
    if first_byte tag_read != tag
        then err tt
        else do (len, to_read_from) ← read_length rest; try_read_bytes to_read_from len

  -- `Sequence::new`
  unfoldable pub sequence_new : Bytes → Result Bytes Unit
  unfolding is_empty
  sequence_new input = do
    (sequence_bytes, left) ← read (bit_or sequence_tag constructed) input
    if is_empty left then ok sequence_bytes else err tt

  unfoldable pub read_unsigned_integer : Bytes → Result (Bytes × Bytes) Unit
  read_unsigned_integer contents = do
    (bytes, left) ← read integer_tag contents
    integer ← strip_leading_zero bytes
    ok (integer, left)

  unfoldable pub read_rsa_modulus : Bytes → Result Bytes Unit
  unfolding is_empty
  read_rsa_modulus public_key = do
    sequence ← sequence_new public_key
    (modulus_value, sequence) ← read_unsigned_integer sequence
    (exponent, sequence) ← read_unsigned_integer sequence
    if is_empty sequence then ok modulus_value else err tt

  -- `read_ec_sig_point` (compiled on macOS).
  unfoldable pub read_ec_sig_point : Bytes → Result (Bytes × Bytes) Unit
  unfolding is_empty
  read_ec_sig_point signature = do
    sequence ← sequence_new signature
    (r, sequence) ← read_unsigned_integer sequence
    (s, sequence) ← read_unsigned_integer sequence
    if is_empty sequence then ok (r, s) else err tt
