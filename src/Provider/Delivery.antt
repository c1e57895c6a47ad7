-- ===== src/Provider/Delivery.antt =====
-- What an entry point with an output answers in each of the three ways of calling it.
pub mod Sign
pub mod Decrypt
pub mod Encrypt
use osclientcerts.Prelude.{
  ℕ, ◌%◌, ◌≤◌, ◌<◌, ◌≡◌, refl, none, some, ok, Bytes, length, ltb, arith, Option, true, false,
}
use osclientcerts.Cryptoki.{Rv, ckr_ok, ckr_buffer_too_small}
use osclientcerts.Backend.{Backend}
use osclientcerts.Manager.State.{Manager}
use osclientcerts.Provider.{Outcome, returns, Provider, Step}
use osclientcerts.Provider.Buffers.{Output, copied, deliver, handed_out}
use osclientcerts.Provider.Ready.{ready}

abbrev pub to : Option Bytes → ℕ → Output
to memory len = record { memory = memory; len = len }

-- Without memory, or with memory for `small` bytes, the needed length is reported and the manager
-- is as before; memory for `large` bytes receives the result.
abbrev pub Delivers :
    (B : Backend)
    → (Output → Outcome (Rv × Option Output × Provider B))
    → Manager B
    → Manager B
    → ℕ
    → Bytes
    → Bytes
    → ℕ
    → ℕ
    → Type 0
Delivers B call m m_after needed output memory small large =
    (call (to none small)
      ≡ returns (ckr_ok, some (to none (needed % B.cryptoki.ulong_mod)), ready B m))
    × (call (to (some memory) small)
        ≡ returns (
          ckr_buffer_too_small,
          some (to (some memory) (needed % B.cryptoki.ulong_mod)),
          ready B m,
        ))
    × (call (to (some memory) large)
        ≡ returns (
          ckr_ok,
          some (to (some (copied output memory)) (length output % B.cryptoki.ulong_mod)),
          ready B m_after,
        ))

module _ (B : Backend) (get_length : Provider B → Step B ℕ)
    (operation : Provider B → Step B Bytes) where
  pub deliver-Delivers :
      (m m_after : Manager B) (needed : ℕ) (output memory : Bytes) (small large : ℕ)
      → get_length (ready B m) ≡ returns (ok needed, ready B m)
      → operation (ready B m) ≡ returns (ok output, ready B m_after)
      → small < needed
      → needed ≤ large
      → Delivers B
          (λ out. handed_out B (deliver B get_length operation out (ready B m)))
          m
          m_after
          needed
          output
          memory
          small
          large
  unfolding deliver
  deliver-Delivers m m_after needed output memory small large el eo hs hl =
      let too_small : ltb small needed ≡ true = ground arith in
      let big_enough : ltb large needed ≡ false = ground arith in
      (
        rw (handed_out, el) refl,
        rw (handed_out, el, too_small) refl,
        rw (handed_out, el, big_enough, eo) refl,
      )
