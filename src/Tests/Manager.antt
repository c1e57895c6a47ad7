-- ===== src/Tests/Manager.antt =====
-- The manager's theorems on the stub backend.
use osclientcerts.Prelude.{
  ℕ, ◌≡◌, refl, ◌++◌, Option, none, some, arith, ok, err, Bytes, bytes_eq, true, false, replicate,
  List, [], ◌∷◌, flatten,
}
use osclientcerts.ByteOrder.{little_endian}
use osclientcerts.Cryptoki.{standard, PssParams}
use osclientcerts.Mechanism.{RsaCipherMechanism, pkcs1v15}
use osclientcerts.Backend.Stub.{stub, key_attrs, attrs_get, attrs_match}
use osclientcerts.Backend.{key}
use osclientcerts.BTreeMap.{get, contains_key}
use osclientcerts.BTreeMap.Values.{Grows}
use osclientcerts.Manager.State.{Manager, Operation}
use osclientcerts.Manager.Scan.{admit_all, close_session}
use osclientcerts.Manager.Search.{
  start_search, gather_handles, matching_handles, all_supported, supports,
}
use osclientcerts.Manager.Sign.{start_sign, sign, sign_final, accepts_sign}
use osclientcerts.Manager.Decrypt.{start_decrypt, accepts_decrypt}
use osclientcerts.Manager.Encrypt.{start_encrypt, accepts_encrypt}
use osclientcerts.Manager.Requests.{ManagerArguments, dispatch}
use osclientcerts.Manager.Invariant
use osclientcerts.Manager.Invariant.{IsValid}
use osclientcerts.Manager.Invariant.Scan.{HasRoom}
use osclientcerts.Manager.Invariant.Reach.{CanCount, step, Reachable-IsValid}
use osclientcerts.Manager.Untouched.{SameAt}
use osclientcerts.Manager.Isolation.{dispatch-SameAt, touches}
use osclientcerts.Manager.Permanent.{dispatch-Grows}
use osclientcerts.Manager.Found.{Holds, start_search-Holds}
use osclientcerts.Manager.Drain.{collect, collect_all}
use osclientcerts.Manager.Rescan.{admit_all-admit_all}
use osclientcerts.Manager.Closing.{close_session-ends}
use osclientcerts.Manager.Keys.{Between, nothing, request, sign-start_sign}
use osclientcerts.Manager.Unopened.{start_sign-unopened}
use osclientcerts.Manager.Multipart
use osclientcerts.Tests.Base.{
  B, os, fresh, fresh-Reachable, can_count, opened, opened-IsValid, pss, signing, decrypting,
  encrypting,
}

Reachable-IsValid_example : IsValid B (dispatch B os (ManagerArguments.open_session 6) fresh).1
Reachable-IsValid_example =
    Reachable-IsValid B
      (step {m = fresh} os (ManagerArguments.open_session 6) fresh-Reachable can_count)

abbrev sign_op : Operation (Option PssParams)
sign_op = record { handle = 2; params = none; buffer = [] }

abbrev decrypt_op : Operation RsaCipherMechanism
decrypt_op = record { handle = 2; params = pkcs1v15; buffer = [] }

abbrev encrypt_op : Operation RsaCipherMechanism
encrypt_op = record { handle = 1; params = pkcs1v15; buffer = [] }

signing_active : get signing.signs 1 ≡ some sign_op
unfolding signing start_sign accepts_sign get
signing_active = refl

abbrev sign_parts : List Bytes
sign_parts = replicate 70 1 ∷ [] ∷ replicate 2 7 ∷ []

sign_feed_final_example :
    (m : Manager B) × (Multipart.Sign.feed B 1 sign_parts signing ≡ ok m)
    × (sign_final B os 1 m ≡ sign B os 1 ([] ++ flatten sign_parts) signing)
sign_feed_final_example =
    Multipart.Sign.sign_feed_final B os 1 sign_parts signing sign_op signing_active (omega arith)

decrypting_active : get decrypting.decrypts 1 ≡ some decrypt_op
unfolding decrypting start_decrypt accepts_decrypt get
decrypting_active = refl

abbrev decrypt_parts : List Bytes
decrypt_parts = replicate 70 1 ∷ [] ∷ replicate 2 7 ∷ []

encrypting_active : get encrypting.encrypts 1 ≡ some encrypt_op
unfolding encrypting start_encrypt accepts_encrypt get
encrypting_active = refl

abbrev encrypt_parts : List Bytes
encrypt_parts = replicate 70 1 ∷ [] ∷ replicate 2 7 ∷ []

-- A part of 65,537 bytes.
abbrev large_parts : List Bytes
large_parts = replicate 65_537 0 ∷ []

dispatch-SameAt_example :
    SameAt 2 opened (dispatch B os (ManagerArguments.close_session 1) opened).1
unfolding touches
dispatch-SameAt_example = dispatch-SameAt B os (ManagerArguments.close_session 1) 2 opened refl

dispatch-Grows_example :
    Grows fresh.objects (dispatch B os (ManagerArguments.open_session 6) fresh).1.objects
dispatch-Grows_example =
    dispatch-Grows B os (ManagerArguments.open_session 6) fresh can_count
      (Reachable-IsValid B fresh-Reachable)

-- `CKA_TOKEN` is true of both objects.
abbrev on_token : List (ℕ × Bytes)
on_token = (1, 1 ∷ []) ∷ []

opened_idle : get opened.searches 1 ≡ none
unfolding opened get
opened_idle = refl

opened_room : HasRoom B os opened
unfolding opened stub
opened_room = omega arith

token_supported : all_supported B.supported_attributes on_token ≡ true
unfolding all_supported supports stub
token_supported = refl

start_search-Holds_example :
    ((start_search B os 1 on_token opened).0 ≡ ok tt)
    × Holds B (start_search B os 1 on_token opened).1 1 on_token
start_search-Holds_example =
    start_search-Holds B os 1 on_token opened opened-IsValid opened_room opened_idle token_supported

searching : Manager B
unfolding opened start_search gather_handles matching_handles all_supported supports attrs_match
    attrs_get bytes_eq
searching = (start_search B os 1 on_token opened).1

searching_holds : get searching.searches 1 ≡ some (1 ∷ 2 ∷ [])
unfolding searching get
searching_holds = refl

collect_all_example : collect B 3 1 1 searching ≡ 1 ∷ 2 ∷ []
collect_all_example =
    collect_all B 3 1 1 searching (1 ∷ 2 ∷ []) searching_holds (omega arith) (omega arith)

admit_all-admit_all_example :
    admit_all B (admit_all B opened (B.list_objects os)) (B.list_objects os)
    ≡ admit_all B opened (B.list_objects os)
admit_all-admit_all_example = admit_all-admit_all B (B.list_objects os) opened

opened_open : get opened.sessions 1 ≡ some 6
unfolding opened get
opened_open = refl

close_session-ends_example :
    ((close_session B 1 opened).0 ≡ ok tt)
    × (get (close_session B 1 opened).1.sessions 1 ≡ none)
    × (get (close_session B 1 opened).1.searches 1 ≡ none)
    × (get (close_session B 1 opened).1.signs 1 ≡ none)
    × (get (close_session B 1 opened).1.decrypts 1 ≡ none)
    × (get (close_session B 1 opened).1.encrypts 1 ≡ none)
    × ((close_session B 1 (close_session B 1 opened).1).0 ≡ err tt)
close_session-ends_example = close_session-ends B opened 1 6 opened_open

signing-IsValid : IsValid B signing
unfolding signing
signing-IsValid = Invariant.Sign.start_sign-IsValid B opened opened-IsValid 1 2 pss

decrypting-IsValid : IsValid B decrypting
unfolding decrypting
decrypting-IsValid = Invariant.Decrypt.start_decrypt-IsValid B opened opened-IsValid 1 2 pkcs1v15

encrypting-IsValid : IsValid B encrypting
unfolding encrypting
encrypting-IsValid = Invariant.Encrypt.start_encrypt-IsValid B opened opened-IsValid 1 1 pkcs1v15

the_key : (k : B.Key) × (get opened.objects 2 ≡ some (key k))
unfolding opened get stub
the_key = (_, refl)

unsigned : contains_key opened.signs 1 ≡ false
unfolding opened get
unsigned = refl

signing-CanCount : CanCount B os (start_sign B 1 2 pss opened).1
unfolding opened fresh start_sign accepts_sign stub
signing-CanCount = record { objects = omega arith; sessions = omega arith }

-- Another session is opened while session 1 signs.
opened-Between :
    Between B 1
      (start_sign B 1 2 pss opened).1
      (dispatch B os (ManagerArguments.open_session 4) (start_sign B 1 2 pss opened).1).1
unfolding touches
opened-Between = request os (ManagerArguments.open_session 4) nothing signing-CanCount refl

sign-start_sign_example :
    ((start_sign B 1 2 pss opened).0 ≡ ok tt)
    × ((sign B os 1
          (7 ∷ [])
          (dispatch B os (ManagerArguments.open_session 4) (start_sign B 1 2 pss opened).1).1).0
        ≡ B.sign os the_key.0 (7 ∷ []) pss)
sign-start_sign_example =
    sign-start_sign B opened opened-IsValid 1 2 the_key.0 the_key.1 pss os (7 ∷ []) unsigned
      opened-Between

start_sign-unopened_example :
    ((start_sign B 7 2 pss opened).0 ≡ ok tt)
    × (close_session B 7 (start_sign B 7 2 pss opened).1
        ≡ (err tt, (start_sign B 7 2 pss opened).1))
    × (get (start_sign B 7 2 pss opened).1.signs 7
        ≡ some (record { handle = 2; params = pss; buffer = [] }))
unfolding opened get stub
start_sign-unopened_example =
    start_sign-unopened B opened 7 2 (record { attrs = key_attrs standard little_endian }) pss refl
      refl refl
