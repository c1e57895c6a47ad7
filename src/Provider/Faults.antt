-- ===== src/Provider/Faults.antt =====
-- The null pointer that C_SignInit may read through.
use osclientcerts.Prelude.{ℕ, ◌≡◌, ◌↔◌, none, some, arith}
use osclientcerts.Cryptoki.{CkMechanism}
use osclientcerts.Backend.{Backend}
use osclientcerts.Provider.{Outcome, returns, waits, faults, Provider, call_manager, status}
use osclientcerts.Provider.Sign.{c_sign_init}

abbrev pub IsFault {ℓ} : {A : Type ℓ} → Outcome A → Type 0
IsFault (returns _) = ⊥
IsFault waits = ⊥
IsFault faults = Unit

-- C_SignInit with a mechanism that is not null reads through a null pointer exactly if the
-- mechanism is RSA-PSS with the right parameter length and a null parameter.
pub c_sign_init-faults :
    (B : Backend) (os : B.Os) (session : ℕ) (m : CkMechanism) (key_handle : ℕ) (s : Provider B)
    → IsFault (c_sign_init B os session (some m) key_handle s) ↔ (
        (m.mechanism ≡ B.cryptoki.ckm_rsa_pkcs_pss)
        × (m.parameter_len ≡ B.cryptoki.pss_params_size)
        × (m.parameter ≡ none))
unfolding c_sign_init call_manager status
c_sign_init-faults B os session m key_handle s = ground arith
