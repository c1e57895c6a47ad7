-- ===== src/Tests/Provider/Encrypt.antt =====
-- C_Encrypt and C_EncryptFinal on the stub backend.
use osclientcerts.Prelude.{ℕ, ◌≡◌, ◌≤◌, refl, ok, Bytes, replicate, take, length}
use osclientcerts.ByteOrder.{little_endian}
use osclientcerts.Mechanism.{RsaCipherMechanism}
use osclientcerts.Backend.Stub.{stub, stub_output_len, stub_cipher}
use osclientcerts.BTreeMap.{get}
use osclientcerts.BTreeMap
use osclientcerts.Manager.State.{Manager}
use osclientcerts.Manager.Encrypt
use osclientcerts.Tests.Base.{B, os, encrypting}
use osclientcerts.Tests.Provider.{bytes, later, fill_law}

encrypt_cert_law :
    (first second : B.Os) (k : B.Cert) (input : Bytes) (params : RsaCipherMechanism) (n : ℕ)
    (output : Bytes)
    → B.cert_encrypt_length first k input params ≡ ok n
    → B.cert_encrypt second k input params ≡ ok output
    → length output ≤ n
unfolding stub
encrypt_cert_law first second k input params n output el eo = fill_law 0xCD input n output el eo

encrypt_key_law :
    (first second : B.Os) (k : B.Key) (input : Bytes) (params : RsaCipherMechanism) (n : ℕ)
    (output : Bytes)
    → B.key_encrypt_length first k input params ≡ ok n
    → B.key_encrypt second k input params ≡ ok output
    → length output ≤ n
unfolding stub
encrypt_key_law first second k input params n output el eo = fill_law 0xCD input n output el eo

abbrev encrypt_memory : Bytes
encrypt_memory = replicate 128 0

abbrev encrypt_fed : Manager B
encrypt_fed = (Encrypt.encrypt_update B 1 bytes encrypting).1

encrypt_needed : (Encrypt.get_encrypted_length B os 1 (take 70 bytes) encrypting).0 ≡ ok 128
unfolding Encrypt.get_encrypted_length stub stub_output_len stub_cipher little_endian BTreeMap.get
    BTreeMap.insert BTreeMap.remove encrypting Encrypt.start_encrypt Encrypt.accepts_encrypt
    Encrypt.encrypt_length_with Encrypt.encrypt_with Encrypt.encrypt_update
encrypt_needed = refl

encrypt_given :
    Encrypt.encrypt B later 1 (take 70 bytes) encrypting
    ≡ (ok (replicate 128 0xCD), (Encrypt.encrypt B later 1 (take 70 bytes) encrypting).1)
unfolding Encrypt.encrypt stub stub_output_len stub_cipher little_endian BTreeMap.get
    BTreeMap.insert BTreeMap.remove encrypting Encrypt.start_encrypt Encrypt.accepts_encrypt
    Encrypt.encrypt_length_with Encrypt.encrypt_with Encrypt.encrypt_update
encrypt_given = refl

encrypt_final_needed : (Encrypt.get_final_encrypted_length B os 1 encrypt_fed).0 ≡ ok 128
unfolding Encrypt.get_final_encrypted_length stub stub_output_len stub_cipher little_endian
    BTreeMap.get BTreeMap.insert BTreeMap.remove encrypting Encrypt.start_encrypt
    Encrypt.accepts_encrypt Encrypt.encrypt_length_with Encrypt.encrypt_with Encrypt.encrypt_update
encrypt_final_needed = refl

encrypt_final_given :
    Encrypt.encrypt_final B later 1 encrypt_fed
    ≡ (ok (replicate 128 0xCD), (Encrypt.encrypt_final B later 1 encrypt_fed).1)
unfolding Encrypt.encrypt_final stub stub_output_len stub_cipher little_endian BTreeMap.get
    BTreeMap.insert BTreeMap.remove encrypting Encrypt.start_encrypt Encrypt.accepts_encrypt
    Encrypt.encrypt_length_with Encrypt.encrypt_with Encrypt.encrypt_update
encrypt_final_given = refl
