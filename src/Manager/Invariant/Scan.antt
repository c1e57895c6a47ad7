-- ===== src/Manager/Invariant/Scan.antt =====
-- A scan keeps the invariant, as long as the object handles do not wrap round.

use osclientcerts.Prelude.{
  ℕ, ◌+◌, ◌≤◌, ◌<◌, ◌≡◌, ◌⊎◌, refl, true, false, some, List, [], ◌∷◌, length, Bytes, bytes_eq,
  bytes_eq_iff, bytes_eq_refl, inl, inr, Bool-cases, arith,
}
use osclientcerts.BTreeMap
use osclientcerts.BTreeMap.{BTreeMap, contains_key}
use osclientcerts.BTreeMap.Values.{Grows, Grows-refl, Grows-trans}
use osclientcerts.Backend.{Backend, ObjectOf, cert, key, trust}
use osclientcerts.Manager.State.{Manager, ulong_suc}
use osclientcerts.Manager.Scan.{
  contains, add_object, admit, admit_all, scanned_recently, maybe_find_new_objects,
}
use osclientcerts.Manager.Invariant.Grow.{ulong_suc-eq-add, grown-Grows, grown-IsValid}
use osclientcerts.Manager.Invariant.{IsKnown, same_identity, IsValid}

contains-cons : (x y : Bytes) (ys : List Bytes) → contains ys y ≡ true → contains (x ∷ ys) y ≡ true
unfolding contains
contains-cons x y ys h = ground arith

contains_self : (x : Bytes) (ys : List Bytes) → contains (x ∷ ys) x ≡ true
unfolding contains
contains_self x ys = ground (arith, bytes_eq_refl x)

-- A known identifier differs from one that is not in the set.
contains-ne :
    (x y : Bytes) (ys : List Bytes)
    → contains ys x ≡ true
    → ¬ (contains ys y ≡ true)
    → (bytes_eq x y ≡ false) × (bytes_eq y x ≡ false)
unfolding contains
contains-ne x y ys h g = ground (arith, bytes_eq_iff x y, bytes_eq_iff y x)

module _ (B : Backend) where
  IsKnown-new :
      (m : Manager B) (p o : ObjectOf B)
      → IsKnown B m p
      → ¬ IsKnown B m o
      → (same_identity B p o ≡ false) × (same_identity B o p ≡ false)
  unfolding same_identity
  IsKnown-new m (cert c) (cert d) h g = contains-ne (B.cert_id c) (B.cert_id d) m.cert_ids h g
  IsKnown-new m (cert c) (key d) h g = (refl, refl)
  IsKnown-new m (cert c) (trust d) h g = (refl, refl)
  IsKnown-new m (key c) (cert d) h g = (refl, refl)
  IsKnown-new m (key c) (key d) h g = contains-ne (B.key_id c) (B.key_id d) m.key_ids h g
  IsKnown-new m (key c) (trust d) h g = (refl, refl)
  IsKnown-new m (trust c) (cert d) h g = (refl, refl)
  IsKnown-new m (trust c) (key d) h g = (refl, refl)
  IsKnown-new m (trust c) (trust d) h g = contains-ne (B.trust_id c) (B.trust_id d) m.trust_ids h g

  pub admit-known : (m : Manager B) (o : ObjectOf B) → IsKnown B m o → admit B m o ≡ m
  unfolding admit
  admit-known m (cert c) h = rw h
  admit-known m (key c) h = rw h
  admit-known m (trust c) h = rw h

  -- The three sets of identifiers, with that of the object put into its own.
  abbrev pub certs_with : Manager B → ObjectOf B → List Bytes
  certs_with m (cert c) = B.cert_id c ∷ m.cert_ids
  certs_with m (key c) = m.cert_ids
  certs_with m (trust c) = m.cert_ids

  abbrev pub keys_with : Manager B → ObjectOf B → List Bytes
  keys_with m (cert c) = m.key_ids
  keys_with m (key c) = B.key_id c ∷ m.key_ids
  keys_with m (trust c) = m.key_ids

  abbrev pub trusts_with : Manager B → ObjectOf B → List Bytes
  trusts_with m (cert c) = m.trust_ids
  trusts_with m (key c) = m.trust_ids
  trusts_with m (trust c) = B.trust_id c ∷ m.trust_ids

  abbrev pub admitted : Manager B → ObjectOf B → Manager B
  admitted m o = record m {
    objects = BTreeMap.insert m.objects m.next_handle o;
    next_handle = ulong_suc B m.next_handle;
    cert_ids = certs_with m o;
    key_ids = keys_with m o;
    trust_ids = trusts_with m o;
  }

  pub admit-new : (m : Manager B) (o : ObjectOf B) → ¬ IsKnown B m o → admit B m o ≡ admitted m o
  unfolding admit add_object
  admit-new m (cert c) h = ground arith
  admit-new m (key c) h = ground arith
  admit-new m (trust c) h = ground arith

  pub IsKnown-cases : (m : Manager B) (o : ObjectOf B) → IsKnown B m o ⊎ (¬ IsKnown B m o)
  IsKnown-cases m (cert c) = ground arith
  IsKnown-cases m (key c) = ground arith
  IsKnown-cases m (trust c) = ground arith

  pub IsKnown-admitted :
      (m : Manager B) (o p : ObjectOf B) → IsKnown B m p → IsKnown B (admitted m o) p
  IsKnown-admitted m (cert c) (cert d) h = contains-cons (B.cert_id c) (B.cert_id d) m.cert_ids h
  IsKnown-admitted m (cert c) (key d) h = h
  IsKnown-admitted m (cert c) (trust d) h = h
  IsKnown-admitted m (key c) (cert d) h = h
  IsKnown-admitted m (key c) (key d) h = contains-cons (B.key_id c) (B.key_id d) m.key_ids h
  IsKnown-admitted m (key c) (trust d) h = h
  IsKnown-admitted m (trust c) (cert d) h = h
  IsKnown-admitted m (trust c) (key d) h = h
  IsKnown-admitted m (trust c) (trust d) h =
      contains-cons (B.trust_id c) (B.trust_id d) m.trust_ids h

  pub IsKnown-admitted_self : (m : Manager B) (o : ObjectOf B) → IsKnown B (admitted m o) o
  IsKnown-admitted_self m (cert c) = contains_self (B.cert_id c) m.cert_ids
  IsKnown-admitted_self m (key c) = contains_self (B.key_id c) m.key_ids
  IsKnown-admitted_self m (trust c) = contains_self (B.trust_id c) m.trust_ids

  module _ (m : Manager B) (o : ObjectOf B) (valid : IsValid B m)
      (room : m.next_handle + 1 < B.cryptoki.ulong_mod) where
    admit-IsValid : IsValid B (admit B m o)
    admit-IsValid = elim (IsKnown-cases m o) [
      | inl known ↦ rw (admit-known m o known) valid
      | inr new ↦ rw (admit-new m o new) (
          grown-IsValid B m o (certs_with m o) (keys_with m o) (trusts_with m o) valid room
            (IsKnown-admitted_self m o) (λ h p. IsKnown-admitted m o p)
            (λ h p found. (IsKnown-new m p o (valid.objects_known.at h p found) new).0)
            (λ h p found. (IsKnown-new m p o (valid.objects_known.at h p found) new).1))
    ]

    admit-Grows : Grows m.objects (admit B m o).objects
    admit-Grows = elim (IsKnown-cases m o) [
      | inl known ↦ rw (admit-known m o known) (Grows-refl m.objects)
      | inr new ↦
          rw (admit-new m o new)
            (grown-Grows B m o (certs_with m o) (keys_with m o) (trusts_with m o) valid room)
    ]

    next_handle-admit : (admit B m o).next_handle ≤ m.next_handle + 1
    next_handle-admit = elim (IsKnown-cases m o) [
      | inl known ↦ rw (admit-known m o known) (omega arith)
      | inr new ↦ rw (admit-new m o new) (omega (arith, ulong_suc-eq-add B m.next_handle room))
    ]

  admit_all-IsValid :
      (objects : List (ObjectOf B)) (m : Manager B)
      → IsValid B m
      → m.next_handle + length objects < B.cryptoki.ulong_mod
      → IsValid B (admit_all B m objects)
  unfolding admit_all
  admit_all-IsValid [] m v room = v
  admit_all-IsValid (o ∷ objects) m v room =
      admit_all-IsValid objects (admit B m o) (admit-IsValid m o v (omega arith))
        (omega (arith, next_handle-admit m o v (omega arith)))

  admit_all-Grows :
      (objects : List (ObjectOf B)) (m : Manager B)
      → IsValid B m
      → m.next_handle + length objects < B.cryptoki.ulong_mod
      → Grows m.objects (admit_all B m objects).objects
  unfolding admit_all
  admit_all-Grows [] m v room = Grows-refl m.objects
  admit_all-Grows (o ∷ objects) m v room = Grows-trans (admit-Grows m o v (omega arith)) (
      admit_all-Grows objects (admit B m o) (admit-IsValid m o v (omega arith))
        (omega (arith, next_handle-admit m o v (omega arith))))

  -- There are handles left for all the objects that a scan may find.
  abbrev pub HasRoom : B.Os → Manager B → Type 0
  HasRoom os m = m.next_handle + length (B.list_objects os) < B.cryptoki.ulong_mod

  scanned : B.Os → Manager B → Manager B
  scanned os m = record m { last_scan_time = some (B.now os) }

  scanned-IsValid : (os : B.Os) (m : Manager B) → IsValid B m → IsValid B (scanned os m)
  unfolding scanned
  scanned-IsValid os m v = record {
    sessions_below = v.sessions_below;
    objects_below = v.objects_below;
    objects_sorted = v.objects_sorted;
    objects_known = v.objects_known;
    objects_distinct = v.objects_distinct;
    searches_valid = v.searches_valid;
    signs_valid = v.signs_valid;
    decrypts_valid = v.decrypts_valid;
    encrypts_valid = v.encrypts_valid;
  }

  module _ (os : B.Os) (interval : ℕ) (m : Manager B) (v : IsValid B m) (room : HasRoom os m) where
    pub maybe_find_new_objects-IsValid : IsValid B (maybe_find_new_objects B os interval m)
    unfolding maybe_find_new_objects scanned
    maybe_find_new_objects-IsValid =
        elim (Bool-cases (scanned_recently m.last_scan_time (B.now os) interval)) [
          | inl early ↦ rw early v
          | inr late ↦
              rw late
                (admit_all-IsValid (B.list_objects os) (scanned os m) (scanned-IsValid os m v) room)
        ]

    pub maybe_find_new_objects-Grows :
        Grows m.objects (maybe_find_new_objects B os interval m).objects
    unfolding maybe_find_new_objects scanned
    maybe_find_new_objects-Grows =
        elim (Bool-cases (scanned_recently m.last_scan_time (B.now os) interval)) [
          | inl early ↦ rw early (Grows-refl m.objects)
          | inr late ↦
              rw late
                (admit_all-Grows (B.list_objects os) (scanned os m) (scanned-IsValid os m v) room)
        ]
