-- ===== src/Provider/Liveness/Search.antt =====
-- The entry points of searches and attributes do not wait for ever.

use osclientcerts.Prelude.{
  ℕ, Option, none, some, List, map, take, ltb, ◌==◌, ◌!=◌, inl, inr, Result-cases, Bool-cases,
  length,
}
use osclientcerts.Cryptoki.{ckr_arguments_bad}
use osclientcerts.Backend.{Backend, Attributes}
use osclientcerts.Manager.Search
use osclientcerts.Proxy.Calls
use osclientcerts.Proxy.Identical.{proxy-IsIdentical}
use osclientcerts.Provider.{Provider}
use osclientcerts.Provider.Calls.{settle, settle_both}
use osclientcerts.Provider.Live.{
  IsSettled, Lives, Serves, call_manager-Returns, status-Lives, guard-Lives,
}
use osclientcerts.Provider.Search.{
  max_template_count, CkAttribute, read_template, c_find_objects_init, c_find_objects,
  c_find_objects_final,
}
use osclientcerts.Provider.Attributes.{c_get_attribute_value}

module _ (B : Backend) (os : B.Os) where
  start_search-Serves :
      (session : ℕ) (attrs : Attributes) → Serves B (Calls.start_search B os session attrs)
  start_search-Serves session attrs m = (
    (Search.start_search B os session attrs m).0,
    (Search.start_search B os session attrs m).1,
    (proxy-IsIdentical B os m).start_search session attrs,
  )

  search-Serves : (session max_objects : ℕ) → Serves B (Calls.search B os session max_objects)
  search-Serves session max_objects m = (
    (Search.search B session max_objects m).0,
    (Search.search B session max_objects m).1,
    (proxy-IsIdentical B os m).search session max_objects,
  )

  clear_search-Serves : (session : ℕ) → Serves B (Calls.clear_search B os session)
  clear_search-Serves session m = (
    (Search.clear_search B session m).0,
    (Search.clear_search B session m).1,
    (proxy-IsIdentical B os m).clear_search session,
  )

  get_attributes-Serves :
      (object : ℕ) (attr_types : List ℕ) → Serves B (Calls.get_attributes B os object attr_types)
  get_attributes-Serves object attr_types m = (
    (Search.get_attributes B object attr_types m).0,
    (Search.get_attributes B object attr_types m).1,
    (proxy-IsIdentical B os m).get_attributes object attr_types,
  )

module _ (B : Backend) (s : Provider B) (h : IsSettled B s) where
  pub c_find_objects_final-Lives :
      (os : B.Os) (session : ℕ) → Lives B (c_find_objects_final B os session s)
  unfolding c_find_objects_final
  c_find_objects_final-Lives os session =
      status-Lives B _ (call_manager-Returns B _ _ (clear_search-Serves B os session) s h)

  pub c_find_objects_init-Lives :
      (os : B.Os) (session : ℕ) (template : Option (List CkAttribute)) (count : ℕ)
      → Lives B (c_find_objects_init B os session template count s)
  unfolding c_find_objects_init
  c_find_objects_init-Lives os session none count = h
  c_find_objects_init-Lives os session (some template) count =
      elim (Result-cases (read_template (take count template))) [
        | inl (rv, e) ↦
            rw (c_find_objects_init, e) (guard-Lives B (ltb max_template_count count) _ _ h h)
        | inr (attrs, e) ↦
            rw (c_find_objects_init, e)
              (guard-Lives B (ltb max_template_count count) _ _ h (
                status-Lives B _
                  (call_manager-Returns B _ _ (start_search-Serves B os session attrs) s h)))
      ]

  pub c_find_objects-Lives :
      (os : B.Os) (session : ℕ) (memory : Option (List ℕ)) (max_count : ℕ) (count : Option ℕ)
      → Lives B (settle_both (c_find_objects B os session memory max_count count s))
  unfolding c_find_objects
  c_find_objects-Lives os session none max_count count = h
  c_find_objects-Lives os session (some memory) max_count none = h
  c_find_objects-Lives os session (some memory) max_count (some count) =
      let r =
        call_manager-Returns B (λ _. ckr_arguments_bad) (Calls.search B os session max_count)
          (search-Serves B os session max_count) s h in
      elim (Bool-cases (max_count == 0)) [
        | inl none_wanted ↦ rw (c_find_objects, none_wanted) h
        | inr wanted ↦ elim (Result-cases r.result) [
          | inl (rv, e) ↦ rw (c_find_objects, wanted, r.same, e) r.settled
          | inr (handles, e) ↦ elim (Bool-cases (ltb max_count (length handles))) [
            | inl more ↦ rw (c_find_objects, wanted, r.same, e, more) r.settled
            | inr fit ↦ rw (c_find_objects, wanted, r.same, e, fit) r.settled
          ]
        ]
      ]

  pub c_get_attribute_value-Lives :
      (os : B.Os) (object : ℕ) (template : Option (List CkAttribute)) (count : ℕ)
      → Lives B (settle (c_get_attribute_value B os object template count s))
  unfolding c_get_attribute_value
  c_get_attribute_value-Lives os object none count = h
  c_get_attribute_value-Lives os object (some memory) count =
      let types = map (λ (attr : CkAttribute). attr.attr_type) (take count memory) in
      let r =
        call_manager-Returns B (λ _. ckr_arguments_bad) (Calls.get_attributes B os object types)
          (get_attributes-Serves B os object types) s h in
      elim (Bool-cases (ltb max_template_count count)) [
        | inl many ↦ rw (c_get_attribute_value, many) h
        | inr few ↦ elim (Result-cases r.result) [
          | inl (rv, e) ↦ rw (c_get_attribute_value, few, r.same, e) r.settled
          | inr (values, e) ↦ elim (Bool-cases (length values != count)) [
            | inl other ↦ rw (c_get_attribute_value, few, r.same, e, other) r.settled
            | inr each ↦ rw (c_get_attribute_value, few, r.same, e, each) r.settled
          ]
        ]
      ]
