-- ===== src/Tests/Provider/Decrypt.antt =====
-- C_Decrypt and C_DecryptFinal on the stub backend.
use osclientcerts.Prelude.{ℕ, ◌≡◌, ◌≤◌, refl, ok, Bytes, replicate, take, length}
use osclientcerts.ByteOrder.{little_endian}
use osclientcerts.Mechanism.{RsaCipherMechanism}
use osclientcerts.Backend.Stub.{stub, stub_output_len, stub_cipher}
use osclientcerts.BTreeMap.{get}
use osclientcerts.BTreeMap
use osclientcerts.Manager.State.{Manager, as_key}
use osclientcerts.Manager.Decrypt
use osclientcerts.Tests.Base.{B, os, decrypting}
use osclientcerts.Tests.Provider.{bytes, later, fill_law}

decrypt_law :
    (first second : B.Os) (k : B.Key) (input : Bytes) (params : RsaCipherMechanism) (n : ℕ)
    (output : Bytes)
    → B.decrypt_length first k input params ≡ ok n
    → B.decrypt second k input params ≡ ok output
    → length output ≤ n
unfolding stub
decrypt_law first second k input params n output el eo = fill_law 0xAB input n output el eo

abbrev decrypt_memory : Bytes
decrypt_memory = replicate 128 0

abbrev decrypt_fed : Manager B
decrypt_fed = (Decrypt.decrypt_update B 1 bytes decrypting).1

decrypt_needed : (Decrypt.get_decrypted_length B os 1 (take 70 bytes) decrypting).0 ≡ ok 128
unfolding Decrypt.get_decrypted_length stub stub_output_len stub_cipher little_endian BTreeMap.get
    BTreeMap.insert BTreeMap.remove decrypting Decrypt.start_decrypt Decrypt.accepts_decrypt
    Decrypt.decrypt_length_with Decrypt.decrypt_with Decrypt.decrypt_update as_key
decrypt_needed = refl

decrypt_given :
    Decrypt.decrypt B later 1 (take 70 bytes) decrypting
    ≡ (ok (replicate 128 0xAB), (Decrypt.decrypt B later 1 (take 70 bytes) decrypting).1)
unfolding Decrypt.decrypt stub stub_output_len stub_cipher little_endian BTreeMap.get
    BTreeMap.insert BTreeMap.remove decrypting Decrypt.start_decrypt Decrypt.accepts_decrypt
    Decrypt.decrypt_length_with Decrypt.decrypt_with Decrypt.decrypt_update as_key
decrypt_given = refl

decrypt_final_needed : (Decrypt.get_final_decrypted_length B os 1 decrypt_fed).0 ≡ ok 128
unfolding Decrypt.get_final_decrypted_length stub stub_output_len stub_cipher little_endian
    BTreeMap.get BTreeMap.insert BTreeMap.remove decrypting Decrypt.start_decrypt
    Decrypt.accepts_decrypt Decrypt.decrypt_length_with Decrypt.decrypt_with Decrypt.decrypt_update
    as_key
decrypt_final_needed = refl

decrypt_final_given :
    Decrypt.decrypt_final B later 1 decrypt_fed
    ≡ (ok (replicate 128 0xAB), (Decrypt.decrypt_final B later 1 decrypt_fed).1)
unfolding Decrypt.decrypt_final stub stub_output_len stub_cipher little_endian BTreeMap.get
    BTreeMap.insert BTreeMap.remove decrypting Decrypt.start_decrypt Decrypt.accepts_decrypt
    Decrypt.decrypt_length_with Decrypt.decrypt_with Decrypt.decrypt_update as_key
decrypt_final_given = refl
