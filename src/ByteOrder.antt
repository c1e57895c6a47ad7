-- ===== src/ByteOrder.antt =====
-- What src/util.rs calls of the `byteorder` crate, which is not part of the repository: a record
-- of the two functions with the documented behaviour that the code relies on.
use osclientcerts.Prelude.{
  ℕ, zero, suc, ◌+◌, ◌*◌, ◌/◌, ◌%◌, ◌^◌, ◌<◌, ◌≡◌, refl, Option, none, some, [], ◌∷◌, Bytes, length,
  ap,
}

pub record ByteOrder : Type 0 where
  -- `read_u16::<BigEndian>` from a slice: `none` if fewer than two bytes are there.
  pub read_u16 : Bytes → Option ℕ
  -- `write_uint::<NativeEndian>(n, nbytes)` into an empty vector: the value first.
  pub write_uint : ℕ → ℕ → Option Bytes
  pub read_u16_be : (hi lo : ℕ) (rest : Bytes) → read_u16 (hi ∷ lo ∷ rest) ≡ some (hi * 256 + lo)
  -- A value that fits in `1 ≤ n ≤ 8` bytes is written in exactly `n` bytes.
  pub length-write_uint :
      (v n : ℕ)
      → 0 < n
      → n < 9
      → v < 256 ^ n
      → (bs : Bytes) × (write_uint v n ≡ some bs) × (length bs ≡ n)

-- A little-endian host, as a value that meets the record.
pub read_be : Bytes → Option ℕ
read_be [] = none
read_be (hi ∷ []) = none
read_be (hi ∷ lo ∷ rest) = some (hi * 256 + lo)

pub read_be_lem : (hi lo : ℕ) (rest : Bytes) → read_be (hi ∷ lo ∷ rest) ≡ some (hi * 256 + lo)
unfolding read_be
read_be_lem hi lo rest = refl

pub write_le : ℕ → ℕ → Bytes
write_le zero v = []
write_le (suc n) v = (v % 256) ∷ write_le n (v / 256)

length-write_le : (n v : ℕ) → length (write_le n v) ≡ n
unfolding write_le
length-write_le zero v = refl
length-write_le (suc n) v = ap suc (length-write_le n (v / 256))

pub write_le_law :
    (v n : ℕ)
    → 0 < n
    → n < 9
    → v < 256 ^ n
    → (bs : Bytes) × (some (write_le n v) ≡ some bs) × (length bs ≡ n)
write_le_law v n p q h = (write_le n v, refl, length-write_le n v)

unfoldable pub little_endian : ByteOrder
unfolding read_be write_le
little_endian = record {
  read_u16 = read_be;
  write_uint = λ v n. some (write_le n v);
  read_u16_be = read_be_lem;
  length-write_uint = write_le_law;
}
