-- ===== src/Manager/Invariant/Grow.antt =====
-- One more object under a fresh handle keeps what is said of the objects.
use native.Mathlib.Nat.{mod-eq_of_lt}
use osclientcerts.Prelude.{
  ℕ, ◌+◌, ◌<◌, ◌≡◌, ◌≢◌, true, false, Option, none, some, List, [], ◌∷◌, Result, ok, All, Bytes,
  inl, inr, Option-cases, arith,
}
use osclientcerts.Util.Errors.{CryptoError}
use osclientcerts.BTreeMap
use osclientcerts.BTreeMap.{BTreeMap, contains_key}
use osclientcerts.BTreeMap.Laws.{get-insert}
use osclientcerts.BTreeMap.Sorted.{IsSorted-insert}
use osclientcerts.BTreeMap.Values.{AllValues-insert, AllValues-map, Grows, Grows-insert}
use osclientcerts.Backend.{Backend, ObjectOf}
use osclientcerts.Manager.State.{Operation, Manager, as_key, ulong_suc}
use osclientcerts.Manager.Sign.{accepts_sign}
use osclientcerts.Manager.Decrypt.{accepts_decrypt}
use osclientcerts.Manager.Encrypt.{accepts_encrypt}
use osclientcerts.Manager.Invariant.{OpIsValid, IsKnown, same_identity, IsValid}

module _ (B : Backend) where
  pub ulong_suc-eq-add : (n : ℕ) → n + 1 < B.cryptoki.ulong_mod → ulong_suc B n ≡ n + 1
  ulong_suc-eq-add n h = mod-eq_of_lt h

  pub contains_key-grow :
      {objects more : BTreeMap (ObjectOf B)} (h : ℕ)
      → Grows objects more
      → contains_key objects h ≡ true
      → contains_key more h ≡ true
  contains_key-grow {objects} h g e = elim (Option-cases (BTreeMap.get objects h)) [
    | inl missing ↦ cc
    | inr (o, found) ↦ rw (g.at h o found, contains_key)
  ]

  All-grow :
      {objects more : BTreeMap (ObjectOf B)} (handles : List ℕ)
      → Grows objects more
      → All (λ h. contains_key objects h ≡ true) handles
      → All (λ h. contains_key more h ≡ true) handles
  All-grow [] g all = tt
  All-grow (h ∷ handles) g (e, all) = (contains_key-grow h g e, All-grow handles g all)

  pub OpIsValid-grow :
      {accepts : Option (ObjectOf B) → Result (Unit {0}) CryptoError}
      {objects more : BTreeMap (ObjectOf B)} {P : Type 0} (op : Operation P)
      → accepts none ≢ ok tt
      → Grows objects more
      → OpIsValid B accepts objects op
      → OpIsValid B accepts more op
  OpIsValid-grow {accepts} {objects} op refuses g v =
      elim (Option-cases (BTreeMap.get objects op.handle)) [
        | inl missing ↦ absurd (refuses (cc (v.accepted)))
        | inr (o, found) ↦ record {
          accepted = cc (v.accepted, g.at op.handle o found);
          bounded = v.bounded;
        }
      ]

  pub accepts_sign-none : accepts_sign B none ≢ ok tt
  unfolding accepts_sign as_key
  accepts_sign-none e = cc

  pub accepts_decrypt-none : accepts_decrypt B none ≢ ok tt
  unfolding accepts_decrypt as_key
  accepts_decrypt-none e = cc

  pub accepts_encrypt-none : accepts_encrypt B none ≢ ok tt
  unfolding accepts_encrypt
  accepts_encrypt-none e = cc

  -- The manager with one more object under the next handle, and other sets of identifiers.
  module _ (m : Manager B) (o : ObjectOf B) (certs keys trusts : List Bytes) (valid : IsValid B m)
      (room : m.next_handle + 1 < B.cryptoki.ulong_mod) where
    abbrev pub grown : Manager B
    grown = record m {
      objects = BTreeMap.insert m.objects m.next_handle o;
      next_handle = ulong_suc B m.next_handle;
      cert_ids = certs;
      key_ids = keys;
      trust_ids = trusts;
    }

    next_handle-free : BTreeMap.get m.objects m.next_handle ≡ none
    next_handle-free = elim (Option-cases (BTreeMap.get m.objects m.next_handle)) [
      | inl free ↦ free
      | inr (p, taken) ↦ absurd (omega (arith, valid.objects_below.at m.next_handle p taken))
    ]

    pub grown-Grows : Grows m.objects grown.objects
    grown-Grows = Grows-insert m.objects m.next_handle o next_handle-free

    grown-distinct :
        ((h : ℕ) (p : ObjectOf B) → BTreeMap.get m.objects h ≡ some p → same_identity B p o ≡ false)
        → ((h : ℕ) (p : ObjectOf B)
            → BTreeMap.get m.objects h ≡ some p
            → same_identity B o p ≡ false)
        → (h j : ℕ) (p q : ObjectOf B) → BTreeMap.get grown.objects h ≡ some p
        → BTreeMap.get grown.objects j ≡ some q
        → same_identity B p q ≡ true
        → h ≡ j
    grown-distinct new new' h j p q eh ej same = ground (
      arith,
      get-insert m.objects m.next_handle o h,
      get-insert m.objects m.next_handle o j,
      new h p,
      new' j q,
      valid.objects_distinct h j p q,
    )

    pub grown-IsValid :
        IsKnown B grown o
        → ((h : ℕ) (p : ObjectOf B) → IsKnown B m p → IsKnown B grown p)
        → ((h : ℕ) (p : ObjectOf B)
            → BTreeMap.get m.objects h ≡ some p
            → same_identity B p o ≡ false)
        → ((h : ℕ) (p : ObjectOf B)
            → BTreeMap.get m.objects h ≡ some p
            → same_identity B o p ≡ false)
        → IsValid B grown
    grown-IsValid knows known new new' = record {
      sessions_below = valid.sessions_below;
      objects_below =
          AllValues-insert m.objects m.next_handle o
            (omega (arith, ulong_suc-eq-add m.next_handle room))
            (AllValues-map m.objects (λ h p b. omega (arith, ulong_suc-eq-add m.next_handle room))
              valid.objects_below);
      objects_sorted = IsSorted-insert m.objects m.next_handle o valid.objects_sorted;
      objects_known =
          AllValues-insert m.objects m.next_handle o knows
            (AllValues-map m.objects (λ h p b. known h p b) valid.objects_known);
      objects_distinct = grown-distinct new new';
      searches_valid =
          AllValues-map m.searches (λ s handles all. All-grow handles grown-Grows all)
            valid.searches_valid;
      signs_valid =
          AllValues-map m.signs (λ s op v. OpIsValid-grow op accepts_sign-none grown-Grows v)
            valid.signs_valid;
      decrypts_valid =
          AllValues-map m.decrypts (λ s op v. OpIsValid-grow op accepts_decrypt-none grown-Grows v)
            valid.decrypts_valid;
      encrypts_valid =
          AllValues-map m.encrypts (λ s op v. OpIsValid-grow op accepts_encrypt-none grown-Grows v)
            valid.encrypts_valid;
    }
