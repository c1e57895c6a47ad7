-- ===== src/Mechanism.antt =====
-- src/mechanism.rs: parsing the mechanism of an RSA encryption or decryption into an owned value.
-- The log lines, and the function's name that they print, are left out.
pub mod Accepts
pub mod Exact
use osclientcerts.Prelude.{
  ℕ, ◌*◌, Bool, true, false, ◌||◌, ◌&&◌, not, Option, none, some, List, [], ◌∷◌, Result, ok, err,
  ◌>>=◌, ◌>>◌, Bytes, take, ltb, ◌==◌, ◌!=◌, if◌then◌else◌,
}
use osclientcerts.Cryptoki.{
  Rv, ckr_arguments_bad, ckr_mechanism_invalid, Cryptoki, OaepParams, Parameter, CkMechanism,
  is_null,
}

abbrev pub sha1_algorithm_string : List ℕ
sha1_algorithm_string = 83 ∷ 72 ∷ 65 ∷ 49 ∷ 0 ∷ []

abbrev pub sha256_algorithm_string : List ℕ
sha256_algorithm_string = 83 ∷ 72 ∷ 65 ∷ 50 ∷ 53 ∷ 54 ∷ 0 ∷ []

abbrev pub sha384_algorithm_string : List ℕ
sha384_algorithm_string = 83 ∷ 72 ∷ 65 ∷ 51 ∷ 56 ∷ 52 ∷ 0 ∷ []

abbrev pub sha512_algorithm_string : List ℕ
sha512_algorithm_string = 83 ∷ 72 ∷ 65 ∷ 53 ∷ 49 ∷ 50 ∷ 0 ∷ []

abbrev pub max_oaep_label_len : ℕ
max_oaep_label_len = 8 * 1024

pub data RsaCipherMechanism : Type 0 where
  pkcs1v15 : RsaCipherMechanism
  oaep : ℕ → Bytes → RsaCipherMechanism

module _ (k : Cryptoki) where
  unfoldable pub hash_algorithm_string : ℕ → Result (List ℕ) Unit
  hash_algorithm_string hash_alg =
      if hash_alg == k.ckm_sha_1
      then ok sha1_algorithm_string
      else if hash_alg == k.ckm_sha256
      then ok sha256_algorithm_string
      else if hash_alg == k.ckm_sha384
      then ok sha384_algorithm_string
      else if hash_alg == k.ckm_sha512
      then ok sha512_algorithm_string
      else err tt

  -- The `match hash_alg` of the parser.
  unfoldable pub expected_mgf : ℕ → Result ℕ Rv
  expected_mgf hash_alg =
      if hash_alg == k.ckm_sha_1
      then ok k.ckg_mgf1_sha1
      else if hash_alg == k.ckm_sha256
      then ok k.ckg_mgf1_sha256
      else if hash_alg == k.ckm_sha384
      then ok k.ckg_mgf1_sha384
      else if hash_alg == k.ckm_sha512
      then ok k.ckg_mgf1_sha512
      else err ckr_mechanism_invalid

-- The label of the OAEP parameters, copied out of the caller's memory.
unfoldable pub oaep_label : OaepParams → Result Bytes Rv
unfolding is_null
oaep_label params =
    if is_null params.source_data && params.source_data_len != 0
    then err ckr_arguments_bad
    else if ltb max_oaep_label_len params.source_data_len
    then err ckr_arguments_bad
    else if params.source_data_len == 0
    then ok []
    else elim params.source_data [
      | none ↦ ok []
      | some label ↦ ok (take params.source_data_len label)
    ]

module _ (k : Cryptoki) where
  -- The OAEP part of the parser, behind the checks of the parameters' length and pointer.
  unfoldable pub parse_oaep : OaepParams → Result RsaCipherMechanism Rv
  parse_oaep params = if params.source != k.ckz_data_specified then err ckr_arguments_bad else (do
    mgf ← expected_mgf k params.hash_alg
    if params.mgf != mgf
        then err ckr_mechanism_invalid
        else (do label ← oaep_label params; ok (oaep params.hash_alg label)))

  unfoldable pub parse_rsa_cipher_mechanism : CkMechanism → Result RsaCipherMechanism Rv
  unfolding is_null
  parse_rsa_cipher_mechanism m =
      if m.mechanism == k.ckm_rsa_pkcs
      then (if m.parameter_len != 0 || not (is_null m.parameter)
          then err ckr_arguments_bad
          else ok pkcs1v15)
      else if m.mechanism != k.ckm_rsa_pkcs_oaep
      then err ckr_mechanism_invalid
      else if m.parameter_len != k.oaep_params_size
      then err ckr_arguments_bad
      else elim m.parameter [ none ↦ err ckr_arguments_bad | some p ↦ parse_oaep p.oaep ]
