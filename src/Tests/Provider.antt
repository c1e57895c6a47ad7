-- ===== src/Tests/Provider.antt =====
-- The theorems on the entry points, on the stub backend.
mod Sign
mod Decrypt
mod Encrypt
use osclientcerts.Prelude.{
  ℕ, ◌≡◌, ◌≤◌, ◌↔◌, refl, Option, none, some, ok, Bytes, replicate, take, length, arith,
  length-replicate,
}
use osclientcerts.ByteOrder.{little_endian}
use osclientcerts.Cryptoki.{
  CkMechanism, PssParams, ckr_ok, ckr_cryptoki_already_initialized, ckr_cryptoki_not_initialized,
}
use osclientcerts.Mechanism.{RsaCipherMechanism}
use osclientcerts.Backend.Stub.{stub, stub_output_len, stub_cipher}
use osclientcerts.BTreeMap.{get}
use osclientcerts.BTreeMap
use osclientcerts.Manager.State.{Manager, as_key}
use osclientcerts.Manager.Scan.{new}
use osclientcerts.Provider.{returns, c_initialize, c_finalize}
use osclientcerts.Provider.Ready.{ready}
use osclientcerts.Provider.Lifecycle.{uninitialised, lifecycle}
use osclientcerts.Provider.Faults.{IsFault, c_sign_init-faults}
use osclientcerts.Provider.Delivery.{to, Delivers}
use osclientcerts.Provider.Within.{memory_after}
use osclientcerts.Provider.Sign.{c_sign_init, c_sign, c_sign_final}
use osclientcerts.Provider.Decrypt.{c_decrypt, c_decrypt_final}
use osclientcerts.Provider.Encrypt.{c_encrypt, c_encrypt_final}
use osclientcerts.Provider.Search.{CkAttribute, c_find_objects}
use osclientcerts.Provider.Attributes.{fill_all}
use osclientcerts.Provider.Within.Search.{array_after, c_find_objects-within}
use osclientcerts.Provider.Within.Attributes.{extent, HasRoom, fill_all-within}
use osclientcerts.Prelude.{List, [], ◌∷◌, map, All}
use osclientcerts.Tests.Base.{B, os, at_time, opened, signing, decrypting, encrypting}

lifecycle_example :
    (c_initialize B os (uninitialised B) ≡ returns (ckr_ok, ready B (new B os)))
    × (c_initialize B os (ready B opened)
        ≡ returns (ckr_cryptoki_already_initialized, ready B opened))
    × (c_finalize B os (ready B opened) ≡ returns (ckr_ok, uninitialised B))
    × (c_finalize B os (uninitialised B) ≡ returns (ckr_cryptoki_not_initialized, uninitialised B))
lifecycle_example = lifecycle B os opened

abbrev null_pss : CkMechanism
null_pss = record { mechanism = 13; parameter = none; parameter_len = 12 }

c_sign_init-faults_example : IsFault (c_sign_init B os 1 (some null_pss) 2 (ready B opened)) ↔ (
    (◌≡◌ {A = ℕ} 13 B.cryptoki.ckm_rsa_pkcs_pss)
    × (◌≡◌ {A = ℕ} 12 B.cryptoki.pss_params_size)
    × (null_pss.parameter ≡ none))
c_sign_init-faults_example = c_sign_init-faults B os 1 null_pss 2 (ready B opened)

abbrev pub bytes : Bytes
bytes = replicate 70 1

abbrev pub later : B.Os
unfolding stub
later = at_time 5

pub fill_law :
    (fill : ℕ) (input : Bytes) (n : ℕ) (output : Bytes)
    → stub_output_len input ≡ ok n
    → stub_cipher input fill ≡ ok output
    → length output ≤ n
unfolding stub_cipher
fill_law fill input n output el eo = ground (arith, length-replicate {A = ℕ} n fill)

c_find_objects-within_example :
    array_after (c_find_objects B os 1 (some (7 ∷ 8 ∷ 9 ∷ [])) 2 (some 0) (ready B opened)) ≡ some 3
c_find_objects-within_example =
    c_find_objects-within B os opened 1 2 0 (7 ∷ 8 ∷ 9 ∷ []) (omega arith)

abbrev template : List CkAttribute
template =
    record { attr_type = 3; value = some (0 ∷ 0 ∷ 0 ∷ []); value_len = 3 }
    ∷ record { attr_type = 4; value = some (0 ∷ []); value_len = 1 }
    ∷ record { attr_type = 5; value = none; value_len = 0 }
    ∷ []

abbrev values : List (Option Bytes)
values = some (1 ∷ 2 ∷ []) ∷ some (1 ∷ 2 ∷ []) ∷ none ∷ []

template_room : All HasRoom template
template_room = (omega arith, (omega arith, (tt, tt)))

fill_all-within_example : map extent (fill_all 65536 template values).0 ≡ map extent template
fill_all-within_example = fill_all-within 65536 template values template_room
