-- ===== src/Tests/Provider/Sign.antt =====
-- C_Sign and C_SignFinal on the stub backend.
use osclientcerts.Prelude.{
  ℕ, ◌≡◌, ◌≤◌, refl, Option, some, ok, Bytes, replicate, take, length, arith, length-replicate,
}
use osclientcerts.ByteOrder.{little_endian}
use osclientcerts.Cryptoki.{PssParams}
use osclientcerts.Backend.Stub.{stub, stub_output_len, stub_cipher}
use osclientcerts.BTreeMap.{get}
use osclientcerts.BTreeMap
use osclientcerts.Manager.State.{Manager, as_key}
use osclientcerts.Manager.Sign
use osclientcerts.Provider.Ready.{ready}
use osclientcerts.Provider.Delivery.{to, Delivers}
use osclientcerts.Provider.Delivery
use osclientcerts.Provider.Within.{memory_after}
use osclientcerts.Provider.Within
use osclientcerts.Provider.Sign.{c_sign, c_sign_final}
use osclientcerts.Tests.Base.{B, os, signing}
use osclientcerts.Tests.Provider.{bytes, later}

sign_law :
    (first second : B.Os) (k : B.Key) (input : Bytes) (params : Option PssParams) (n : ℕ)
    (output : Bytes)
    → B.get_signature_length first k input params ≡ ok n
    → B.sign second k input params ≡ ok output
    → length output ≤ n
unfolding stub
sign_law first second k input params n output el eo =
    ground (arith, length-replicate {A = ℕ} 64 0x11)

abbrev sign_memory : Bytes
sign_memory = replicate 64 0

abbrev sign_fed : Manager B
sign_fed = (Sign.sign_update B 1 bytes signing).1

sign_needed : (Sign.get_signature_length B os 1 (take 70 bytes) signing).0 ≡ ok 64
unfolding Sign.get_signature_length stub stub_output_len stub_cipher little_endian BTreeMap.get
    BTreeMap.insert BTreeMap.remove signing Sign.start_sign Sign.accepts_sign Sign.sign_length_with
    Sign.sign_with Sign.sign_update as_key
sign_needed = refl

sign_given :
    Sign.sign B later 1 (take 70 bytes) signing
    ≡ (ok (replicate 64 0x11), (Sign.sign B later 1 (take 70 bytes) signing).1)
unfolding Sign.sign stub stub_output_len stub_cipher little_endian BTreeMap.get BTreeMap.insert
    BTreeMap.remove signing Sign.start_sign Sign.accepts_sign Sign.sign_length_with Sign.sign_with
    Sign.sign_update as_key
sign_given = refl

c_sign-Delivers_example :
    Delivers B
      (λ out. c_sign B os later 1 (some bytes) 70 (some out) (ready B signing))
      signing
      (Sign.sign B later 1 (take 70 bytes) signing).1
      64
      (replicate 64 0x11)
      sign_memory
      10
      64
c_sign-Delivers_example =
    Delivery.Sign.c_sign-Delivers B os later signing _ 1 64 (replicate 64 0x11) sign_memory 10 64
      bytes 70 (omega arith) sign_needed sign_given (omega arith) (omega arith)

sign_final_needed : (Sign.get_final_signature_length B os 1 sign_fed).0 ≡ ok 64
unfolding Sign.get_final_signature_length stub stub_output_len stub_cipher little_endian
    BTreeMap.get BTreeMap.insert BTreeMap.remove signing Sign.start_sign Sign.accepts_sign
    Sign.sign_length_with Sign.sign_with Sign.sign_update as_key
sign_final_needed = refl

sign_final_given :
    Sign.sign_final B later 1 sign_fed
    ≡ (ok (replicate 64 0x11), (Sign.sign_final B later 1 sign_fed).1)
unfolding Sign.sign_final stub stub_output_len stub_cipher little_endian BTreeMap.get
    BTreeMap.insert BTreeMap.remove signing Sign.start_sign Sign.accepts_sign Sign.sign_length_with
    Sign.sign_with Sign.sign_update as_key
sign_final_given = refl

sign_within_example :
    (memory_after
        (c_sign B os later 1 (some bytes) 70 (some (to (some sign_memory) 64)) (ready B sign_fed))
      ≡ some 64)
    × (memory_after (c_sign_final B os later 1 (some (to (some sign_memory) 64)) (ready B sign_fed))
        ≡ some 64)
sign_within_example =
    Within.Sign.sign_within B sign_law os later sign_fed 1 sign_memory 64 (omega arith) (some bytes)
      70
