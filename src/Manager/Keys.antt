-- ===== src/Manager/Keys.antt =====
-- An operation is carried out with the key that its handle named when it was started.
use osclientcerts.Prelude.{ℕ, ◌≡◌, refl, sym, subst, ◌∙◌, false, Option, some, ok, Bytes, []}
use osclientcerts.Cryptoki.{PssParams}
use osclientcerts.Mechanism.{RsaCipherMechanism}
use osclientcerts.BTreeMap.{get, contains_key}
use osclientcerts.BTreeMap.Laws.{get-insert_self}
use osclientcerts.BTreeMap.Values.{Grows, Grows-refl, Grows-trans}
use osclientcerts.Backend.{Backend, key}
use osclientcerts.Manager.State.{Manager, as_key}
use osclientcerts.Manager.Sign.{accepts_sign, start_sign, sign_with, sign}
use osclientcerts.Manager.Decrypt.{accepts_decrypt, start_decrypt, decrypt_with, decrypt}
use osclientcerts.Manager.Requests.{ManagerArguments, dispatch}
use osclientcerts.Manager.Invariant.{IsValid}
use osclientcerts.Manager.Invariant.Sign
use osclientcerts.Manager.Invariant.Decrypt
use osclientcerts.Manager.Invariant.Reach.{CanCount, dispatch-IsValid}
use osclientcerts.Manager.Isolation.{touches, dispatch-SameAt}
use osclientcerts.Manager.Permanent.{dispatch-Grows, objects-start_sign, objects-start_decrypt}

module _ (B : Backend) where
  -- Requests of other sessions, in any states of the system, while the counters do not wrap round.
  pub data Between (session : ℕ) (m : Manager B) : Manager B → Type 0 where
    nothing : Between session m m
    request :
        {n : Manager B} (os : B.Os) (r : ManagerArguments)
        → Between session m n
        → CanCount B os n
        → touches r session ≡ false
        → Between session m (dispatch B os r n).1

  -- They leave its operations, and every object its handle.
  record Keeps (session : ℕ) (m n : Manager B) : Type 0 where
    valid : IsValid B n
    grows : Grows m.objects n.objects
    signs : get n.signs session ≡ get m.signs session
    decrypts : get n.decrypts session ≡ get m.decrypts session

  Between-Keeps :
      {session : ℕ} {m n : Manager B} → IsValid B m → Between session m n → Keeps session m n
  Between-Keeps {session} {m} v nothing = record {
    valid = v;
    grows = Grows-refl m.objects;
    signs = refl;
    decrypts = refl;
  }
  Between-Keeps {session} v (request {n} os r before c other) =
      let kept = Between-Keeps v before in
      let same = dispatch-SameAt B os r session n other in
      record {
        valid = dispatch-IsValid B os r n c kept.valid;
        grows = Grows-trans kept.grows (dispatch-Grows B os r n c kept.valid);
        signs = same.signs ∙ kept.signs;
        decrypts = same.decrypts ∙ kept.decrypts;
      }

  module _ (m : Manager B) (valid : IsValid B m) (session handle : ℕ) (k : B.Key)
      (named : get m.objects handle ≡ some (key k)) where
    start_sign-active :
        (params : Option PssParams)
        → contains_key m.signs session ≡ false
        → ((start_sign B session handle params m).0 ≡ ok tt)
          × (get (start_sign B session handle params m).1.signs session
              ≡ some (record { handle = handle; params = params; buffer = [] }))
    unfolding start_sign accepts_sign as_key
    start_sign-active params idle =
        (rw (idle, named) refl, rw (idle, named) (get-insert_self m.signs session _))

    sign-active :
        (n : Manager B) (os : B.Os) (params : Option PssParams) (input : Bytes)
        → get n.signs session ≡ some (record { handle = handle; params = params; buffer = [] })
        → get n.objects handle ≡ some (key k)
        → (sign B os session input n).0 ≡ B.sign os k input params
    unfolding sign sign_with as_key
    sign-active n os params input active there = rw (active, there, sign, sign_with) refl

    start_decrypt-active :
        (params : RsaCipherMechanism)
        → contains_key m.decrypts session ≡ false
        → ((start_decrypt B session handle params m).0 ≡ ok tt)
          × (get (start_decrypt B session handle params m).1.decrypts session
              ≡ some (record { handle = handle; params = params; buffer = [] }))
    unfolding start_decrypt accepts_decrypt as_key
    start_decrypt-active params idle =
        (rw (idle, named) refl, rw (idle, named) (get-insert_self m.decrypts session _))

    decrypt-active :
        (n : Manager B) (os : B.Os) (params : RsaCipherMechanism) (input : Bytes)
        → get n.decrypts session ≡ some (record { handle = handle; params = params; buffer = [] })
        → get n.objects handle ≡ some (key k)
        → (decrypt B os session input n).0 ≡ B.decrypt os k input params
    unfolding decrypt decrypt_with as_key
    decrypt-active n os params input active there = rw (active, there, decrypt, decrypt_with) refl

    -- In a valid manager without an active sign operation of a session, a sign operation for the
    -- handle of a key is started; and after any requests that do not name the session and do not end
    -- all sessions, while the counters do not wrap round, signing any data in it asks the backend to
    -- sign these data, with the parameters of the operation, by that key.
    pub sign-start_sign :
        (params : Option PssParams) {n : Manager B} (os : B.Os) (data_to_sign : Bytes)
        → contains_key m.signs session ≡ false
        → Between session (start_sign B session handle params m).1 n
        → ((start_sign B session handle params m).0 ≡ ok tt)
          × ((sign B os session data_to_sign n).0 ≡ B.sign os k data_to_sign params)
    sign-start_sign params {n} os data_to_sign idle between =
        let (started, active) = start_sign-active params idle in
        let kept =
          Between-Keeps (Sign.start_sign-IsValid B m valid session handle params) between in
        let there =
          subst (λ o. get o handle ≡ some (key k))
            (sym (objects-start_sign B m session handle params)) named in
        (
          started,
          sign-active n os params data_to_sign (kept.signs ∙ active)
              (kept.grows.at handle (key k) there),
        )

    -- In a valid manager without an active decrypt operation of a session, a decrypt operation for the
    -- handle of a key is started; and after any requests that do not name the session and do not end
    -- all sessions, while the counters do not wrap round, decrypting any data in it asks the backend to
    -- decrypt these data, with the mechanism of the operation, by that key.
    pub decrypt-start_decrypt :
        (params : RsaCipherMechanism) {n : Manager B} (os : B.Os) (encrypted : Bytes)
        → contains_key m.decrypts session ≡ false
        → Between session (start_decrypt B session handle params m).1 n
        → ((start_decrypt B session handle params m).0 ≡ ok tt)
          × ((decrypt B os session encrypted n).0 ≡ B.decrypt os k encrypted params)
    decrypt-start_decrypt params {n} os encrypted idle between =
        let (started, active) = start_decrypt-active params idle in
        let kept =
          Between-Keeps (Decrypt.start_decrypt-IsValid B m valid session handle params) between in
        let there =
          subst (λ o. get o handle ≡ some (key k))
            (sym (objects-start_decrypt B m session handle params)) named in
        (
          started,
          decrypt-active n os params encrypted (kept.decrypts ∙ active)
              (kept.grows.at handle (key k) there),
        )
