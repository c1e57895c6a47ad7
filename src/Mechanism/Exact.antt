-- ===== src/Mechanism/Exact.antt =====
-- The parser accepts exactly what `Accepts` says; what it accepts is bounded and has a digest that
-- the Windows backend knows.
use osclientcerts.Prelude.{
  ℕ, ◌≤◌, ◌≡◌, ◌↔◌, ap, is_ok, ok_of_is_ok, ◌==◌, ◌||◌, inl, inr, refl, Bool, true, Option, none,
  some, List, ok, Bytes, length, length-take, arith, Option-cases,
}
use osclientcerts.Cryptoki.{Cryptoki, CkMechanism, OaepParams, Parameter}
use osclientcerts.Mechanism.{
  RsaCipherMechanism, pkcs1v15, oaep, parse_rsa_cipher_mechanism, hash_algorithm_string,
  max_oaep_label_len, oaep_label, expected_mgf, parse_oaep,
}
use osclientcerts.Mechanism.Accepts.{
  Paired, sha1, sha256, sha384, sha512, Label, empty, bytes, Accepts, accept_pkcs1, accept_oaep,
  HasDistinctMechanisms,
}

module _ (k : Cryptoki) where
  expected_mgf-Paired : (h g : ℕ) → expected_mgf k h ≡ ok g → Paired k h g
  unfolding expected_mgf
  expected_mgf-Paired h g e = grind (arith, sha1, sha256, sha384, sha512)

  Paired-expected_mgf : (h g : ℕ) → HasDistinctMechanisms k → Paired k h g → expected_mgf k h ≡ ok g
  unfolding expected_mgf
  Paired-expected_mgf h g d (sha1 e f) = ground arith
  Paired-expected_mgf h g d (sha256 e f) = ground arith
  Paired-expected_mgf h g d (sha384 e f) = ground arith
  Paired-expected_mgf h g d (sha512 e f) = ground arith

oaep_label-Label :
    (params : OaepParams) (label : Bytes)
    → oaep_label params ≡ ok label
    → Label params.source_data params.source_data_len label
unfolding oaep_label
oaep_label-Label params label e = grind (arith, empty, bytes)

Label-oaep_label :
    (params : OaepParams) (label : Bytes)
    → Label params.source_data params.source_data_len label
    → oaep_label params ≡ ok label
unfolding oaep_label
Label-oaep_label params label (empty z) = ground arith
Label-oaep_label params label (bytes p n b e) = ground arith

module _ (k : Cryptoki) where
  parse_oaep-inv :
      (params : OaepParams) (c : RsaCipherMechanism)
      → parse_oaep k params ≡ ok c
      → (label : Bytes) × (c ≡ oaep params.hash_alg label)
        × (params.source ≡ k.ckz_data_specified)
        × (expected_mgf k params.hash_alg ≡ ok params.mgf)
        × (oaep_label params ≡ ok label)
  unfolding parse_oaep
  parse_oaep-inv params c e = ground arith

  parse-null :
      (m : CkMechanism) (c : RsaCipherMechanism)
      → m.parameter ≡ none
      → parse_rsa_cipher_mechanism k m ≡ ok c
      → (c ≡ pkcs1v15) × (m.mechanism ≡ k.ckm_rsa_pkcs) × (m.parameter_len ≡ 0)
  unfolding parse_rsa_cipher_mechanism
  parse-null m c absent e = ground arith

  parse-given :
      (m : CkMechanism) (p : Parameter) (c : RsaCipherMechanism)
      → m.parameter ≡ some p
      → parse_rsa_cipher_mechanism k m ≡ ok c
      → (m.mechanism ≡ k.ckm_rsa_pkcs_oaep)
        × (m.parameter_len ≡ k.oaep_params_size)
        × (parse_oaep k p.oaep ≡ ok c)
  unfolding parse_rsa_cipher_mechanism
  parse-given m p c given e = ground arith

  parse-Accepts :
      (m : CkMechanism) (c : RsaCipherMechanism)
      → parse_rsa_cipher_mechanism k m ≡ ok c
      → Accepts k m c
  parse-Accepts m c e = elim (Option-cases m.parameter) [
    | inl absent ↦ let (a, b, z) = parse-null m c absent e in rw a (accept_pkcs1 b z absent)
    | inr (p, given) ↦
        let (a, b, inner) = parse-given m p c given e in
        let (label, same, source, mgf, read) = parse_oaep-inv p.oaep c inner in
        rw same (
          accept_oaep a b given source (expected_mgf-Paired k _ _ mgf)
            (oaep_label-Label p.oaep label read))
  ]

  Accepts-parse :
      (m : CkMechanism) (c : RsaCipherMechanism)
      → HasDistinctMechanisms k
      → Accepts k m c
      → parse_rsa_cipher_mechanism k m ≡ ok c
  unfolding parse_rsa_cipher_mechanism parse_oaep
  Accepts-parse m c d (accept_pkcs1 e z n) = ground arith
  Accepts-parse m c d (accept_oaep {p} {label} e z n s paired l) = ground (
    arith,
    Paired-expected_mgf k p.oaep.hash_alg p.oaep.mgf d paired,
    Label-oaep_label p.oaep label l,
  )

  -- The parser accepts a mechanism, with a given result, exactly if `Accepts` holds of the two,
  -- where the published constants that it compares are different.
  pub parse_iff :
      (m : CkMechanism) (c : RsaCipherMechanism)
      → HasDistinctMechanisms k
      → (parse_rsa_cipher_mechanism k m ≡ ok c) ↔ Accepts k m c
  parse_iff m c d = (parse-Accepts m c, Accepts-parse m c d)

  Label-bounded :
      {p : Option Bytes} {n : ℕ} {label : Bytes}
      → Label p n label
      → length label ≤ max_oaep_label_len
  Label-bounded (empty z) = omega arith
  Label-bounded (bytes {n = n} {memory = memory} p z b e) =
      omega (arith, ap length e, length-take n memory)

  -- A digest of a pair is one of the four that have a name.
  is_known : ℕ → Bool
  is_known h = h == k.ckm_sha_1 || h == k.ckm_sha256 || h == k.ckm_sha384 || h == k.ckm_sha512

  Paired-is_known : {h g : ℕ} → Paired k h g → is_known h ≡ true
  unfolding is_known
  Paired-is_known (sha1 e f) = ground arith
  Paired-is_known (sha256 e f) = ground arith
  Paired-is_known (sha384 e f) = ground arith
  Paired-is_known (sha512 e f) = ground arith

  is_ok-hash_algorithm_string :
      (h : ℕ) → is_known h ≡ true → is_ok (hash_algorithm_string k h) ≡ true
  unfolding is_known hash_algorithm_string
  is_ok-hash_algorithm_string h e = ground arith

  oaep_label_eq : {h h' : ℕ} {l l' : Bytes} → oaep h l ≡ oaep h' l' → l ≡ l'
  oaep_label_eq e = cc

  Accepts-bounded :
      {m : CkMechanism} {c : RsaCipherMechanism} (h : ℕ) (label : Bytes)
      → Accepts k m c
      → c ≡ oaep h label
      → (length label ≤ max_oaep_label_len) × (s : List ℕ) × (hash_algorithm_string k h ≡ ok s)
  Accepts-bounded h label (accept_pkcs1 e z n) same = cc
  Accepts-bounded h label (accept_oaep e z n s paired l) same =
      let (s, known) = ok_of_is_ok _ (is_ok-hash_algorithm_string _ (Paired-is_known paired)) in
      (omega (arith, Label-bounded l, ap length (oaep_label_eq same)), s, cc)

  -- What the parser accepts with OAEP padding has a label of at most 8 KiB, and a digest for which
  -- `hash_algorithm_string` succeeds.
  pub parse_bounded :
      (m : CkMechanism) (h : ℕ) (label : Bytes)
      → parse_rsa_cipher_mechanism k m ≡ ok (oaep h label)
      → (length label ≤ max_oaep_label_len) × (s : List ℕ) × (hash_algorithm_string k h ≡ ok s)
  parse_bounded m h label e = Accepts-bounded h label (parse-Accepts m (oaep h label) e) refl
