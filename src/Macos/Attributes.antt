-- ===== src/Macos/Attributes.antt =====
-- src/backend_macos.rs: how an object is compared with the template of a search, and how its
-- attributes are read.
use osclientcerts.Prelude.{
  ℕ, Bool, true, false, ◌&&◌, Option, none, some, [], ◌∷◌, List, Bytes, bytes_eq, ◌==◌,
  if◌then◌else◌,
}
use osclientcerts.Cryptoki.{Cryptoki}
use osclientcerts.Backend.{Object, cert, key, trust, Attributes}
use osclientcerts.Macos.Api.{MacosApi}
use osclientcerts.Macos.Objects.{Cert, Key, Trust}

-- The loop over the template, which returns at the first attribute that does not match.
unfoldable pub all_match : (ℕ → Bytes → Bool) → Attributes → Bool
all_match f [] = true
all_match f ((a, v) ∷ attrs) = f a v && all_match f attrs

module _ (k : Cryptoki) where
  abbrev pub supported_attributes : List ℕ
  supported_attributes =
      k.cka_class ∷ k.cka_token ∷ k.cka_label ∷ k.cka_id ∷ k.cka_value ∷ k.cka_issuer
      ∷ k.cka_serial_number ∷ k.cka_subject ∷ k.cka_private ∷ k.cka_key_type ∷ k.cka_modulus
      ∷ k.cka_ec_params ∷ k.cka_sign ∷ k.cka_decrypt ∷ k.cka_sensitive ∷ k.cka_extractable
      ∷ k.cka_always_authenticate ∷ k.cka_local ∷ []

  -- One attribute in `Cert::matches`.
  unfoldable pub cert_attr_matches : Cert → ℕ → Bytes → Bool
  cert_attr_matches c a v =
      if a == k.cka_class
      then bytes_eq v c.class
      else if a == k.cka_token
      then bytes_eq v c.token
      else if a == k.cka_label
      then bytes_eq v c.label
      else if a == k.cka_id
      then bytes_eq v c.id
      else if a == k.cka_value
      then bytes_eq v c.value
      else if a == k.cka_issuer
      then bytes_eq v c.issuer
      else if a == k.cka_serial_number
      then bytes_eq v c.serial_number
      else if a == k.cka_subject
      then bytes_eq v c.subject
      else false

  -- `Cert::get_attribute`
  unfoldable pub cert_get_attribute : Cert → ℕ → Option Bytes
  cert_get_attribute c a =
      if a == k.cka_class
      then some c.class
      else if a == k.cka_token
      then some c.token
      else if a == k.cka_label
      then some c.label
      else if a == k.cka_id
      then some c.id
      else if a == k.cka_value
      then some c.value
      else if a == k.cka_issuer
      then some c.issuer
      else if a == k.cka_serial_number
      then some c.serial_number
      else if a == k.cka_subject
      then some c.subject
      else none

module _ (k : Cryptoki) (w : MacosApi) where
  -- One attribute in `Key::matches`.
  unfoldable pub key_attr_matches : Key w → ℕ → Bytes → Bool
  key_attr_matches c a v =
      if a == k.cka_class
      then bytes_eq v c.class
      else if a == k.cka_token
      then bytes_eq v c.token
      else if a == k.cka_label
      then bytes_eq v c.label
      else if a == k.cka_subject
      then bytes_eq v c.subject
      else if a == k.cka_issuer
      then bytes_eq v c.issuer
      else if a == k.cka_serial_number
      then bytes_eq v c.serial_number
      else if a == k.cka_id
      then bytes_eq v c.id
      else if a == k.cka_private
      then bytes_eq v c.private
      else if a == k.cka_sign
      then bytes_eq v c.sign
      else if a == k.cka_decrypt
      then bytes_eq v c.decrypt
      else if a == k.cka_sensitive
      then bytes_eq v c.sensitive
      else if a == k.cka_extractable
      then bytes_eq v c.extractable
      else if a == k.cka_always_authenticate
      then bytes_eq v c.always_authenticate
      else if a == k.cka_local
      then bytes_eq v c.local
      else if a == k.cka_key_type
      then bytes_eq v c.key_type
      else if a == k.cka_modulus
      then elim c.modulus [ none ↦ false | some modulus ↦ bytes_eq v modulus ]
      else if a == k.cka_ec_params
      then elim c.ec_params [ none ↦ false | some ec_params ↦ bytes_eq v ec_params ]
      else false

  -- `Key::get_attribute`
  unfoldable pub key_get_attribute : Key w → ℕ → Option Bytes
  key_get_attribute c a =
      if a == k.cka_class
      then some c.class
      else if a == k.cka_token
      then some c.token
      else if a == k.cka_label
      then some c.label
      else if a == k.cka_subject
      then some c.subject
      else if a == k.cka_issuer
      then some c.issuer
      else if a == k.cka_serial_number
      then some c.serial_number
      else if a == k.cka_id
      then some c.id
      else if a == k.cka_private
      then some c.private
      else if a == k.cka_key_type
      then some c.key_type
      else if a == k.cka_modulus
      then c.modulus
      else if a == k.cka_ec_params
      then c.ec_params
      else if a == k.cka_sign
      then some c.sign
      else if a == k.cka_decrypt
      then some c.decrypt
      else if a == k.cka_sensitive
      then some c.sensitive
      else if a == k.cka_extractable
      then some c.extractable
      else if a == k.cka_always_authenticate
      then some c.always_authenticate
      else if a == k.cka_local
      then some c.local
      else none

  -- `Object::matches`
  unfoldable pub object_matches : Object Cert (Key w) Trust → Attributes → Bool
  object_matches (cert c) attrs = all_match (cert_attr_matches k c) attrs
  object_matches (key c) attrs = all_match (key_attr_matches c) attrs
  object_matches (trust _) attrs = false

  -- `Object::get_attribute`
  unfoldable pub object_get_attribute : Object Cert (Key w) Trust → ℕ → Option Bytes
  object_get_attribute (cert c) a = cert_get_attribute k c a
  object_get_attribute (key c) a = key_get_attribute c a
  object_get_attribute (trust _) a = none
