-- ===== src/Provider/Advertised.antt =====
-- What the module says of itself.
use osclientcerts.Prelude.{ℕ, ◌≤◌, ◌≡◌, ◌↔◌, true, some, List, drop, ◌++◌, arith}
use osclientcerts.Cryptoki.{Cryptoki, ckr_ok}
use osclientcerts.Manager.Search.{supports}
use osclientcerts.Provider.Sessions.{slot_id}
use osclientcerts.Provider.Information.{
  MechanismInfo, mechanisms, mechanism_info, c_get_mechanism_info, c_get_mechanism_list,
}

-- C_GetMechanismInfo has an answer for exactly the mechanisms that C_GetMechanismList hands out to
-- a caller with memory for them.
pub mechanism_info_iff :
    (k : Cryptoki) (mechanism : ℕ) (written : MechanismInfo) (memory : List ℕ) (count : ℕ)
    → 4 ≤ count
    → (c_get_mechanism_list k slot_id (some memory) (some count)
        ≡ (ckr_ok, some (mechanisms k ++ drop 4 memory), some 4))
      × ((supports (mechanisms k) mechanism ≡ true)
          ↔ ((c_get_mechanism_info k slot_id mechanism (some written)).0 ≡ ckr_ok))
unfolding supports mechanism_info c_get_mechanism_info c_get_mechanism_list
mechanism_info_iff k mechanism written memory count enough = (ground arith, ground arith)
