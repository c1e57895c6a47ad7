-- ===== src/Mechanism/Accepts.antt =====
-- Which mechanisms are to be accepted, as a relation that names no test of the code.
use osclientcerts.Prelude.{ℕ, ◌≤◌, ◌≡◌, ◌≢◌, Option, none, some, Bytes, [], take}
use osclientcerts.Cryptoki.{Cryptoki, Parameter, CkMechanism}
use osclientcerts.Mechanism.{RsaCipherMechanism, pkcs1v15, oaep, max_oaep_label_len}

-- CNG takes the hash function of MGF1 to be the digest.
pub data Paired (k : Cryptoki) : ℕ → ℕ → Type 0 where
  sha1 : {h g : ℕ} → h ≡ k.ckm_sha_1 → g ≡ k.ckg_mgf1_sha1 → Paired k h g
  sha256 : {h g : ℕ} → h ≡ k.ckm_sha256 → g ≡ k.ckg_mgf1_sha256 → Paired k h g
  sha384 : {h g : ℕ} → h ≡ k.ckm_sha384 → g ≡ k.ckg_mgf1_sha384 → Paired k h g
  sha512 : {h g : ℕ} → h ≡ k.ckm_sha512 → g ≡ k.ckg_mgf1_sha512 → Paired k h g

-- The label that a pointer and a length stand for.
pub data Label : Option Bytes → ℕ → Bytes → Type 0 where
  empty : {p : Option Bytes} {n : ℕ} → n ≡ 0 → Label p n []
  bytes :
      {p : Option Bytes} {n : ℕ} {memory label : Bytes}
      → p ≡ some memory
      → n ≢ 0
      → n ≤ max_oaep_label_len
      → label ≡ take n memory
      → Label p n label

pub data Accepts (k : Cryptoki) (m : CkMechanism) : RsaCipherMechanism → Type 0 where
  accept_pkcs1 :
      m.mechanism ≡ k.ckm_rsa_pkcs → m.parameter_len ≡ 0 → m.parameter ≡ none → Accepts k m pkcs1v15
  accept_oaep :
      {p : Parameter} {label : Bytes}
      → m.mechanism ≡ k.ckm_rsa_pkcs_oaep
      → m.parameter_len ≡ k.oaep_params_size
      → m.parameter ≡ some p
      → p.oaep.source ≡ k.ckz_data_specified
      → Paired k p.oaep.hash_alg p.oaep.mgf
      → Label p.oaep.source_data p.oaep.source_data_len label
      → Accepts k m (oaep p.oaep.hash_alg label)

-- The published values of the constants that the parser compares are different.
pub record HasDistinctMechanisms (k : Cryptoki) : Type 0 where
  pub pkcs-ne-oaep : k.ckm_rsa_pkcs ≢ k.ckm_rsa_pkcs_oaep
  pub sha256-ne-sha1 : k.ckm_sha256 ≢ k.ckm_sha_1
  pub sha384-ne-sha1 : k.ckm_sha384 ≢ k.ckm_sha_1
  pub sha384-ne-sha256 : k.ckm_sha384 ≢ k.ckm_sha256
  pub sha512-ne-sha1 : k.ckm_sha512 ≢ k.ckm_sha_1
  pub sha512-ne-sha256 : k.ckm_sha512 ≢ k.ckm_sha256
  pub sha512-ne-sha384 : k.ckm_sha512 ≢ k.ckm_sha384
