-- ===== src/Backend/Lengths.antt =====
-- What a client of a backend relies on when it first asks for a length: a law that a backend may
-- satisfy, between the operations and the queries of one state of the system.
use osclientcerts.Prelude.{ℕ, ◌≤◌, ◌≡◌, Option, refl, Result, ok, err, Bytes, length}
use osclientcerts.Cryptoki.{PssParams}
use osclientcerts.Mechanism.{RsaCipherMechanism}
use osclientcerts.Util.Errors.{CryptoError}
use osclientcerts.Backend.{Backend}

-- The query of an output's length answers just that length, where there is an output.
abbrev pub Announces : Result ℕ CryptoError → Result Bytes CryptoError → Type 0
Announces query (err _) = Unit
Announces query (ok output) = query ≡ ok (length output)

-- The query answers a length that is no less than the output's, where there is an output.
abbrev pub Bounds : Result ℕ CryptoError → Result Bytes CryptoError → Type 0
Bounds query (err _) = Unit
Bounds query (ok output) = (n : ℕ) × (query ≡ ok n) × (length output ≤ n)

pub announces :
    (query : Result ℕ CryptoError) (r : Result Bytes CryptoError)
    → ((output : Bytes) → r ≡ ok output → query ≡ ok (length output))
    → Announces query r
announces query (err _) h = tt
announces query (ok output) h = h output refl

pub bounds :
    (query : Result ℕ CryptoError) (r : Result Bytes CryptoError)
    → ((output : Bytes) → r ≡ ok output → (n : ℕ) × (query ≡ ok n) × (length output ≤ n))
    → Bounds query r
bounds query (err _) h = tt
bounds query (ok output) h = h output refl

-- The queries of signing and encrypting answer the output's length, that of decrypting a length
-- that may be more, since the padding is not known before.
pub record AnnouncesLengths (B : Backend) : Type 0 where
  pub sign :
      (os : B.Os) (c : B.Key) (input : Bytes) (params : Option PssParams)
      → Announces (B.get_signature_length os c input params) (B.sign os c input params)
  pub decrypt :
      (os : B.Os) (c : B.Key) (input : Bytes) (mechanism : RsaCipherMechanism)
      → Bounds (B.decrypt_length os c input mechanism) (B.decrypt os c input mechanism)
  pub cert_encrypt :
      (os : B.Os) (c : B.Cert) (input : Bytes) (mechanism : RsaCipherMechanism)
      → Announces (B.cert_encrypt_length os c input mechanism) (B.cert_encrypt os c input mechanism)
  pub key_encrypt :
      (os : B.Os) (c : B.Key) (input : Bytes) (mechanism : RsaCipherMechanism)
      → Announces (B.key_encrypt_length os c input mechanism) (B.key_encrypt os c input mechanism)
