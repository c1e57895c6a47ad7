-- ===== src/Util.antt =====
-- src/util.rs: laying integers out in memory. The children model its errors and its DER reader.
pub mod Errors
pub mod Der
pub mod Nss
use osclientcerts.Prelude.{
  ℕ, ◌+◌, ◌<◌, ◌^◌, ◌≡◌, Option, none, some, Result, ok, err, ◌>>=◌, Bytes, length, leb, arith,
}
use osclientcerts.ByteOrder.{ByteOrder}

ok_or {ℓ} : {A : Type ℓ} → Option A → Result A (Unit {ℓ})
ok_or none = err tt
ok_or (some a) = ok a

module _ (o : ByteOrder) where
  -- `serialize_uint::<T>(value)` for an unsigned `T` of `value_size` bytes: `try_into::<u64>`
  -- cannot fail for the types of at most eight bytes that the program passes.
  unfoldable pub serialize_uint : ℕ → ℕ → Result Bytes Unit
  unfolding ok_or
  serialize_uint value_size value = ok_or (o.write_uint value value_size)

  -- A value of an unsigned type of at most eight bytes is laid out in exactly the bytes of its
  -- type.
  pub length-serialize_uint :
      (size value : ℕ)
      → 0 < size
      → size < 9
      → value < 256 ^ size
      → (bs : Bytes) × (serialize_uint size value ≡ ok bs) × (length bs ≡ size)
  unfolding serialize_uint
  length-serialize_uint size value p q h =
      let (bs, written, n) = o.length-write_uint value size p q h in (bs, ground arith, n)
