-- ===== src/Windows/Attributes.antt =====
-- src/backend_windows.rs: how an object is compared with the template of a search, and how its
-- attributes are read.
use osclientcerts.Prelude.{
  ℕ, Bool, true, false, not, ◌&&◌, Option, none, some, [], ◌∷◌, Bytes, bytes_eq, length, ◌==◌, ◌!=◌,
  if◌then◌else◌,
}
use osclientcerts.Cryptoki.{Cryptoki}
use osclientcerts.Util.Der.{integer_tag}
use osclientcerts.Util.Nss.{
  cka_nss_trust_server_auth, cka_nss_trust_client_auth, cka_nss_trust_code_signing,
  cka_nss_trust_email_protection, cka_nss_trust_step_up_approved, cka_nss_cert_sha1_hash,
}
use osclientcerts.Backend.{Object, cert, key, trust, Attributes}
use osclientcerts.Windows.Api.{WindowsApi}
use osclientcerts.Windows.Objects.{Cert, Key, Trust}

-- A stored `CK_BBOOL`: one byte.
unfoldable pub stored_bool : Bytes → Option Bool
stored_bool (b ∷ []) = some (b != 0)
stored_bool _ = none

-- A requested boolean: one byte, or the four of a 32-bit number, which is 0 if they all are.
unfoldable pub requested_bool : Bytes → Option Bool
requested_bool (b ∷ []) = some (b != 0)
requested_bool (a ∷ b ∷ c ∷ d ∷ []) = some (not (a == 0 && b == 0 && c == 0 && d == 0))
requested_bool _ = none

same_bool : Bool → Bool → Bool
same_bool true b = b
same_bool false b = not b

unfoldable pub bool_attr_matches : Bytes → Bytes → Bool
unfolding stored_bool requested_bool same_bool
bool_attr_matches stored requested = elim (stored_bool stored) [
  | none ↦ false
  | some s ↦ elim (requested_bool requested) [ none ↦ false | some r ↦ same_bool s r ]
]

-- The bytes behind the tag and the length of a requested serial number.
unfoldable pub is_integer_of : Bytes → Bytes → Bool
is_integer_of stored (tag ∷ len ∷ contents) =
    length contents == length stored
    && tag == integer_tag
    && len == length stored
    && bytes_eq contents stored
is_integer_of stored _ = false

unfoldable pub serial_number_matches : Bytes → Bytes → Bool
unfolding is_integer_of
serial_number_matches stored requested =
    if bytes_eq requested stored then true else is_integer_of stored requested

-- `attrs.iter().all(..)`
unfoldable pub all_match : (ℕ → Bytes → Bool) → Attributes → Bool
all_match f [] = true
all_match f ((a, v) ∷ attrs) = f a v && all_match f attrs

module _ (k : Cryptoki) where
  -- The `match` of `Cert::matches`.
  unfoldable pub cert_attr_matches : Cert → ℕ → Bytes → Bool
  cert_attr_matches c a v =
      if a == k.cka_token
      then bool_attr_matches c.token v
      else if a == k.cka_serial_number
      then serial_number_matches c.serial_number v
      else if a == k.cka_class
      then bytes_eq v c.class
      else if a == k.cka_label
      then bytes_eq v c.label
      else if a == k.cka_id
      then bytes_eq v c.id
      else if a == k.cka_value
      then bytes_eq v c.value
      else if a == k.cka_issuer
      then bytes_eq v c.issuer
      else if a == k.cka_subject
      then bytes_eq v c.subject
      else false

  -- `Cert::get_attribute`
  unfoldable pub cert_get_attribute : Cert → ℕ → Option Bytes
  cert_get_attribute c a =
      if a == k.cka_class
      then some c.class
      else if a == k.cka_token
      then some c.token
      else if a == k.cka_label
      then some c.label
      else if a == k.cka_id
      then some c.id
      else if a == k.cka_value
      then some c.value
      else if a == k.cka_issuer
      then some c.issuer
      else if a == k.cka_serial_number
      then some c.serial_number
      else if a == k.cka_subject
      then some c.subject
      else none

  -- The `match` of `Trust::matches`.
  unfoldable pub trust_attr_matches : Trust → ℕ → Bytes → Bool
  trust_attr_matches t a v =
      if a == k.cka_token
      then bool_attr_matches t.token v
      else if a == k.cka_serial_number
      then serial_number_matches t.serial_number v
      else if a == k.cka_class
      then bytes_eq v t.class
      else if a == k.cka_issuer
      then bytes_eq v t.issuer
      else false

  -- `Trust::get_attribute`
  unfoldable pub trust_get_attribute : Trust → ℕ → Option Bytes
  trust_get_attribute t a =
      if a == k.cka_class
      then some t.class
      else if a == k.cka_token
      then some t.token
      else if a == k.cka_issuer
      then some t.issuer
      else if a == k.cka_serial_number
      then some t.serial_number
      else if a == cka_nss_trust_server_auth k
      then some t.server_auth
      else if a == cka_nss_trust_client_auth k
      then some t.client_auth
      else if a == cka_nss_trust_code_signing k
      then some t.code_signing
      else if a == cka_nss_trust_email_protection k
      then some t.email_protection
      else if a == cka_nss_trust_step_up_approved k
      then some t.step_up_approved
      else if a == cka_nss_cert_sha1_hash k
      then some t.sha1_hash
      else none

  module _ (w : WindowsApi) where
    -- The `match` of `Key::matches`.
    unfoldable pub key_attr_matches : Key w → ℕ → Bytes → Bool
    key_attr_matches c a v =
        if a == k.cka_token
        then bool_attr_matches c.token v
        else if a == k.cka_private
        then bool_attr_matches c.private v
        else if a == k.cka_sign
        then bool_attr_matches c.sign v
        else if a == k.cka_decrypt
        then bool_attr_matches c.decrypt v
        else if a == k.cka_sensitive
        then bool_attr_matches c.sensitive v
        else if a == k.cka_extractable
        then bool_attr_matches c.extractable v
        else if a == k.cka_always_authenticate
        then bool_attr_matches c.always_authenticate v
        else if a == k.cka_local
        then bool_attr_matches c.local v
        else if a == k.cka_serial_number
        then serial_number_matches c.serial_number v
        else if a == k.cka_class
        then bytes_eq v c.class
        else if a == k.cka_label
        then bytes_eq v c.label
        else if a == k.cka_subject
        then bytes_eq v c.subject
        else if a == k.cka_issuer
        then bytes_eq v c.issuer
        else if a == k.cka_id
        then bytes_eq v c.id
        else if a == k.cka_key_type
        then bytes_eq v c.key_type
        else if a == k.cka_modulus
        then elim c.modulus [ none ↦ false | some modulus ↦ bytes_eq v modulus ]
        else if a == k.cka_ec_params
        then elim c.ec_params [ none ↦ false | some ec_params ↦ bytes_eq v ec_params ]
        else false

    -- `Key::get_attribute`
    unfoldable pub key_get_attribute : Key w → ℕ → Option Bytes
    key_get_attribute c a =
        if a == k.cka_class
        then some c.class
        else if a == k.cka_token
        then some c.token
        else if a == k.cka_label
        then some c.label
        else if a == k.cka_subject
        then some c.subject
        else if a == k.cka_issuer
        then some c.issuer
        else if a == k.cka_serial_number
        then some c.serial_number
        else if a == k.cka_id
        then some c.id
        else if a == k.cka_private
        then some c.private
        else if a == k.cka_key_type
        then some c.key_type
        else if a == k.cka_modulus
        then c.modulus
        else if a == k.cka_ec_params
        then c.ec_params
        else if a == k.cka_sign
        then some c.sign
        else if a == k.cka_decrypt
        then some c.decrypt
        else if a == k.cka_sensitive
        then some c.sensitive
        else if a == k.cka_extractable
        then some c.extractable
        else if a == k.cka_always_authenticate
        then some c.always_authenticate
        else if a == k.cka_local
        then some c.local
        else none

    -- `Object::matches`
    unfoldable pub object_matches : Object Cert (Key w) Trust → Attributes → Bool
    object_matches (cert c) attrs = all_match (cert_attr_matches c) attrs
    object_matches (key c) attrs = all_match (key_attr_matches c) attrs
    object_matches (trust t) attrs = all_match (trust_attr_matches t) attrs

    -- `Object::get_attribute`
    unfoldable pub object_get_attribute : Object Cert (Key w) Trust → ℕ → Option Bytes
    object_get_attribute (cert c) a = cert_get_attribute c a
    object_get_attribute (key c) a = key_get_attribute c a
    object_get_attribute (trust t) a = trust_get_attribute t a
