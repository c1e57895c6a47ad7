-- ===== src/Manager/Rescan.antt =====
-- A scan that finds the same objects again adds none of them.
use osclientcerts.Prelude.{◌≡◌, refl, [], ◌∷◌, List, All, inl, inr}
use osclientcerts.Backend.{Backend, ObjectOf}
use osclientcerts.Manager.State.{Manager}
use osclientcerts.Manager.Scan.{admit, admit_all}
use osclientcerts.Manager.Invariant.{IsKnown}
use osclientcerts.Manager.Invariant.Scan.{
  admit-known, admit-new, IsKnown-cases, IsKnown-admitted, IsKnown-admitted_self,
}

module _ (B : Backend) where
  IsKnown-admit : (m : Manager B) (o p : ObjectOf B) → IsKnown B m p → IsKnown B (admit B m o) p
  IsKnown-admit m o p h = elim (IsKnown-cases B m o) [
    | inl known ↦ rw (admit-known B m o known) h
    | inr new ↦ rw (admit-new B m o new) (IsKnown-admitted B m o p h)
  ]

  IsKnown-admit_self : (m : Manager B) (o : ObjectOf B) → IsKnown B (admit B m o) o
  IsKnown-admit_self m o = elim (IsKnown-cases B m o) [
    | inl known ↦ rw (admit-known B m o known) known
    | inr new ↦ rw (admit-new B m o new) (IsKnown-admitted_self B m o)
  ]

  IsKnown-admit_all :
      (objects : List (ObjectOf B)) (m : Manager B) (p : ObjectOf B)
      → IsKnown B m p
      → IsKnown B (admit_all B m objects) p
  unfolding admit_all
  IsKnown-admit_all [] m p h = h
  IsKnown-admit_all (o ∷ objects) m p h =
      IsKnown-admit_all objects (admit B m o) p (IsKnown-admit m o p h)

  All-admit_all :
      (objects : List (ObjectOf B)) (m : Manager B)
      → All (IsKnown B (admit_all B m objects)) objects
  unfolding admit_all
  All-admit_all [] m = tt
  All-admit_all (o ∷ objects) m = (
    IsKnown-admit_all objects (admit B m o) o (IsKnown-admit_self m o),
    All-admit_all objects (admit B m o),
  )

  admit_all-known :
      (objects : List (ObjectOf B)) (m : Manager B)
      → All (IsKnown B m) objects
      → admit_all B m objects ≡ m
  unfolding admit_all
  admit_all-known [] m all = refl
  admit_all-known (o ∷ objects) m (known, all) =
      rw (admit-known B m o known) (admit_all-known objects m all)

  -- To admit a list of objects a second time changes nothing, whatever the manager held before and
  -- however often the list names an object.
  pub admit_all-admit_all :
      (objects : List (ObjectOf B)) (m : Manager B)
      → admit_all B (admit_all B m objects) objects ≡ admit_all B m objects
  admit_all-admit_all objects m =
      admit_all-known objects (admit_all B m objects) (All-admit_all objects m)
