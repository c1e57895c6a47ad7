-- ===== src/Provider/Information.antt =====
-- src/lib.rs: C_GetInfo, C_GetSlotList, C_GetSlotInfo, C_GetTokenInfo, C_GetMechanismList and
-- C_GetMechanismInfo, which do not ask the manager. The defaults of the `pkcs11` crate's structs are
-- arguments.
use Prim.Native.Nat.{bit_or}
use osclientcerts.Prelude.{
  ℕ, Option, none, some, List, [], ◌∷◌, ◌++◌, Result, ok, err, Bytes, drop, replicate, ltb, ◌==◌,
  ◌!=◌, if◌then◌else◌,
}
use osclientcerts.Cryptoki.{
  Cryptoki, Rv, ckr_ok, ckr_arguments_bad, ckr_buffer_too_small, ckr_slot_id_invalid,
  ckr_mechanism_invalid,
}
use osclientcerts.Provider.Sessions.{slot_id}

-- "Mozilla Corporation", "OS Client Cert Module", "OS Client Cert Slot", "OS Client Cert Token",
-- "osclientcerts" and "0000000000000000", padded with spaces.
abbrev pub manufacturer_id_bytes : Bytes
manufacturer_id_bytes =
    b'M'
    ∷ b'o'
    ∷ b'z'
    ∷ b'i'
    ∷ b'l'
    ∷ b'l'
    ∷ b'a'
    ∷ 0x20
    ∷ b'C'
    ∷ b'o'
    ∷ b'r'
    ∷ b'p'
    ∷ b'o'
    ∷ b'r'
    ∷ b'a'
    ∷ b't'
    ∷ b'i'
    ∷ b'o'
    ∷ b'n'
    ∷ replicate 13 0x20

abbrev pub library_description_bytes : Bytes
library_description_bytes =
    b'O'
    ∷ b'S'
    ∷ 0x20
    ∷ b'C'
    ∷ b'l'
    ∷ b'i'
    ∷ b'e'
    ∷ b'n'
    ∷ b't'
    ∷ 0x20
    ∷ b'C'
    ∷ b'e'
    ∷ b'r'
    ∷ b't'
    ∷ 0x20
    ∷ b'M'
    ∷ b'o'
    ∷ b'd'
    ∷ b'u'
    ∷ b'l'
    ∷ b'e'
    ∷ replicate 11 0x20

abbrev pub slot_description_bytes : Bytes
slot_description_bytes =
    b'O'
    ∷ b'S'
    ∷ 0x20
    ∷ b'C'
    ∷ b'l'
    ∷ b'i'
    ∷ b'e'
    ∷ b'n'
    ∷ b't'
    ∷ 0x20
    ∷ b'C'
    ∷ b'e'
    ∷ b'r'
    ∷ b't'
    ∷ 0x20
    ∷ b'S'
    ∷ b'l'
    ∷ b'o'
    ∷ b't'
    ∷ replicate 45 0x20

abbrev pub token_label_bytes : Bytes
token_label_bytes =
    b'O'
    ∷ b'S'
    ∷ 0x20
    ∷ b'C'
    ∷ b'l'
    ∷ b'i'
    ∷ b'e'
    ∷ b'n'
    ∷ b't'
    ∷ 0x20
    ∷ b'C'
    ∷ b'e'
    ∷ b'r'
    ∷ b't'
    ∷ 0x20
    ∷ b'T'
    ∷ b'o'
    ∷ b'k'
    ∷ b'e'
    ∷ b'n'
    ∷ replicate 12 0x20

abbrev pub token_model_bytes : Bytes
token_model_bytes =
    b'o'
    ∷ b's'
    ∷ b'c'
    ∷ b'l'
    ∷ b'i'
    ∷ b'e'
    ∷ b'n'
    ∷ b't'
    ∷ b'c'
    ∷ b'e'
    ∷ b'r'
    ∷ b't'
    ∷ b's'
    ∷ replicate 3 0x20

abbrev pub token_serial_number_bytes : Bytes
token_serial_number_bytes = replicate 16 b'0'

-- `CK_VERSION`: the major and the minor number.
abbrev pub Version : Type 0
Version = ℕ × ℕ

-- `CK_INFO`
pub record Info : Type 0 where
  pub cryptoki_version : Version
  pub manufacturer_id : Bytes
  pub flags : ℕ
  pub library_description : Bytes
  pub library_version : Version

-- `CK_SLOT_INFO`
pub record SlotInfo : Type 0 where
  pub slot_description : Bytes
  pub manufacturer_id : Bytes
  pub flags : ℕ
  pub hardware_version : Version
  pub firmware_version : Version

-- `CK_TOKEN_INFO`, of which the other fields are numbers.
pub record TokenInfo : Type 0 where
  pub label : Bytes
  pub manufacturer_id : Bytes
  pub model : Bytes
  pub serial_number : Bytes
  pub flags : ℕ
  pub others : List ℕ

-- `CK_MECHANISM_INFO`
pub record MechanismInfo : Type 0 where
  pub min_key_size : ℕ
  pub max_key_size : ℕ
  pub flags : ℕ

-- What `pInfo` points to is overwritten.
unfoldable pub c_get_info : Info → Option Info → Rv × Option Info
c_get_info default none = (ckr_arguments_bad, none)
c_get_info default (some _) = (
  ckr_ok,
  some (record default {
    cryptoki_version = (2, 2);
    manufacturer_id = manufacturer_id_bytes;
    library_description = library_description_bytes;
  }),
)

-- The memory behind `pSlotList`, and `*pulCount`, which is set before it is compared.
unfoldable pub c_get_slot_list : Option (List ℕ) → Option ℕ → Rv × Option (List ℕ) × Option ℕ
c_get_slot_list slot_list none = (ckr_arguments_bad, slot_list, none)
c_get_slot_list none (some _) = (ckr_ok, none, some 1)
c_get_slot_list (some memory) (some _) =
    let count : ℕ = 1 in
    if ltb count 1
    then (ckr_buffer_too_small, some memory, some count)
    else (ckr_ok, some (slot_id ∷ drop 1 memory), some count)

module _ (k : Cryptoki) where
  unfoldable pub c_get_slot_info : Version → ℕ → Option SlotInfo → Rv × Option SlotInfo
  c_get_slot_info default slot none = (ckr_arguments_bad, none)
  c_get_slot_info default slot (some info) =
      if slot != slot_id then (ckr_arguments_bad, some info) else (
        ckr_ok,
        some (record {
          slot_description = slot_description_bytes;
          manufacturer_id = manufacturer_id_bytes;
          flags = k.ckf_token_present;
          hardware_version = default;
          firmware_version = default;
        }),
      )

  unfoldable pub c_get_token_info : TokenInfo → ℕ → Option TokenInfo → Rv × Option TokenInfo
  c_get_token_info default slot none = (ckr_arguments_bad, none)
  c_get_token_info default slot (some info) =
      if slot != slot_id then (ckr_arguments_bad, some info) else (
        ckr_ok,
        some (record default {
          label = token_label_bytes;
          manufacturer_id = manufacturer_id_bytes;
          model = token_model_bytes;
          serial_number = token_serial_number_bytes;
          flags = bit_or (bit_or k.ckf_sign k.ckf_encrypt) k.ckf_decrypt;
        }),
      )

  abbrev pub mechanisms : List ℕ
  mechanisms = k.ckm_ecdsa ∷ k.ckm_rsa_pkcs ∷ k.ckm_rsa_pkcs_pss ∷ k.ckm_rsa_pkcs_oaep ∷ []

  -- The memory behind `pMechanismList`, and `*pulCount`.
  unfoldable pub c_get_mechanism_list :
      ℕ → Option (List ℕ) → Option ℕ → Rv × Option (List ℕ) × Option ℕ
  c_get_mechanism_list slot list none = (ckr_arguments_bad, list, none)
  c_get_mechanism_list slot list (some count) =
      if slot != slot_id then (ckr_arguments_bad, list, some count) else elim list [
        | none ↦ (ckr_ok, none, some 4)
        | some memory ↦
            if ltb count 4
            then (ckr_buffer_too_small, some memory, some count)
            else (ckr_ok, some (mechanisms ++ drop 4 memory), some 4)
      ]

  -- The `match mechanism_type`.
  unfoldable pub mechanism_info : ℕ → Result MechanismInfo Rv
  mechanism_info mechanism_type =
      if mechanism_type == k.ckm_rsa_pkcs
      then ok (record {
        min_key_size = 1024;
        max_key_size = 16384;
        flags = bit_or (bit_or k.ckf_sign k.ckf_decrypt) k.ckf_encrypt;
      })
      else if mechanism_type == k.ckm_rsa_pkcs_pss
      then ok (record { min_key_size = 1024; max_key_size = 16384; flags = k.ckf_sign })
      else if mechanism_type == k.ckm_rsa_pkcs_oaep
      then ok (record {
        min_key_size = 1024;
        max_key_size = 16384;
        flags = bit_or k.ckf_encrypt k.ckf_decrypt;
      })
      else if mechanism_type == k.ckm_ecdsa
      then ok (record { min_key_size = 192; max_key_size = 521; flags = k.ckf_sign })
      else err ckr_mechanism_invalid

  unfoldable pub c_get_mechanism_info : ℕ → ℕ → Option MechanismInfo → Rv × Option MechanismInfo
  c_get_mechanism_info slot mechanism_type info =
      if slot != slot_id then (ckr_slot_id_invalid, info) else elim info [
        | none ↦ (ckr_arguments_bad, none)
        | some written ↦ elim (mechanism_info mechanism_type) [
          | err rv ↦ (rv, some written)
          | ok new ↦ (ckr_ok, some new)
        ]
      ]
