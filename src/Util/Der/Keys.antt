-- ===== src/Util/Der/Keys.antt =====
-- Reading an RSA public key and an ECDSA signature: both directions against the encoder.

use mathlib.Core.List.{append-nil}
use osclientcerts.Prelude.{
  ℕ, ◌<◌, ◌≡◌, ◌≢◌, subst, ◌++◌, ◌∷◌, [], Bool, true, refl, ok, err, Bytes, length, All, arith,
  if◌then◌else◌, >>=-eq-ok, length-append, ◌≤◌, All-append,
}
use osclientcerts.ByteOrder.{ByteOrder}
use osclientcerts.Util.Der.{
  integer_tag, is_empty, read, sequence_new, strip_leading_zero, read_unsigned_integer,
  read_rsa_modulus, read_ec_sig_point,
}
use osclientcerts.Util.Der.Encode.{encode, encode_length, encode_unsigned}
use osclientcerts.Util.Der.Exact.{IsByte, read-encode, read_iff}

-- The big-endian bytes of a positive number: there are some, and the first is not zero.
abbrev pub IsPositive : Bytes → Type 0
IsPositive [] = ⊥
IsPositive (x ∷ xs) = x ≢ 0

strip-encode_unsigned : (n : Bytes) → IsPositive n → strip_leading_zero (encode_unsigned n) ≡ ok n
unfolding strip_leading_zero encode_unsigned
strip-encode_unsigned [] h = absurd h
strip-encode_unsigned (x ∷ xs) h = ground arith

is_empty_sound : (xs : Bytes) → is_empty xs ≡ true → xs ≡ []
unfolding is_empty
is_empty_sound [] h = refl
is_empty_sound (x ∷ xs) h = cc

>>=-accepted :
    {A : Type 0} (b : Bool) (x y : A)
    → (if b then ok x else err (tt {0})) ≡ ok y
    → (b ≡ true) × (x ≡ y)
>>=-accepted b x y h = ground arith

length-le-encode : (tag : ℕ) (v : Bytes) → length v ≤ length (encode tag v)
unfolding encode
length-le-encode tag v = omega (arith, length-append (encode_length (length v)) v)

module _ (o : ByteOrder) where
  read_unsigned_integer-encode :
      (n rest : Bytes)
      → IsPositive n
      → length (encode_unsigned n) < 65536
      → read_unsigned_integer o (encode integer_tag (encode_unsigned n) ++ rest) ≡ ok (n, rest)
  unfolding read_unsigned_integer
  read_unsigned_integer-encode n rest h short =
      rw (read-encode o integer_tag (encode_unsigned n) rest short, strip-encode_unsigned n h)

  sequence_new-encode :
      (contents : Bytes)
      → length contents < 65536
      → sequence_new o (encode 0x30 contents) ≡ ok contents
  unfolding sequence_new
  sequence_new-encode contents short =
      cc (read-encode o 0x30 contents [] short, append-nil (encode 0x30 contents))

  module _ (n e : Bytes) (n_positive : IsPositive n) (e_positive : IsPositive e)
      (short : length
          (encode integer_tag (encode_unsigned n) ++ encode integer_tag (encode_unsigned e))
        < 65536) where
    read_both :
        (read_unsigned_integer o
            (encode integer_tag (encode_unsigned n) ++ encode integer_tag (encode_unsigned e))
          ≡ ok (n, encode integer_tag (encode_unsigned e)))
        × (read_unsigned_integer o (encode integer_tag (encode_unsigned e)) ≡ ok (e, []))
    read_both = (
      read_unsigned_integer-encode n _ n_positive
          (omega (arith, length-append {0}, length-le-encode)),
      cc (
        read_unsigned_integer-encode e [] e_positive
            (omega (arith, length-append {0}, length-le-encode)),
        append-nil (encode integer_tag (encode_unsigned e)),
      ),
    )

    -- The modulus of an encoded public key is read back.
    pub read_rsa_modulus-encode :
        read_rsa_modulus o (
          encode 0x30
            (encode integer_tag (encode_unsigned n) ++ encode integer_tag (encode_unsigned e)))
        ≡ ok n
    unfolding read_rsa_modulus
    read_rsa_modulus-encode = rw (sequence_new-encode _ short, read_both.0, read_both.1)

    -- The two numbers of an encoded ECDSA signature are read back.
    pub read_ec_sig_point-encode :
        read_ec_sig_point o (
          encode 0x30
            (encode integer_tag (encode_unsigned n) ++ encode integer_tag (encode_unsigned e)))
        ≡ ok (n, e)
    unfolding read_ec_sig_point
    read_ec_sig_point-encode = rw (sequence_new-encode _ short, read_both.0, read_both.1)

  read_unsigned_integer_sound :
      (input n rest : Bytes)
      → All IsByte input
      → read_unsigned_integer o input ≡ ok (n, rest)
      → (v : Bytes) × (strip_leading_zero v ≡ ok n) × (input ≡ encode integer_tag v ++ rest)
  unfolding read_unsigned_integer
  read_unsigned_integer_sound input n rest bs h =
      let (r, element, h') = >>=-eq-ok (read o integer_tag input) _ h in
      let (i, stripped, done) = >>=-eq-ok (strip_leading_zero r.0) _ h' in
      let (short, e) = (read_iff o integer_tag input r.0 r.1 bs).0 element in (r.0, cc, cc)

  sequence_new_sound :
      (input s : Bytes) → All IsByte input → sequence_new o input ≡ ok s → input ≡ encode 0x30 s
  unfolding sequence_new
  sequence_new_sound input s bs h =
      let (r, element, h') = >>=-eq-ok (read o 0x30 input) _ h in
      let (short, e) = (read_iff o 0x30 input r.0 r.1 bs).0 element in
      let (at_end, same) = >>=-accepted (is_empty r.1) r.0 s h' in
      cc (is_empty_sound r.1 at_end, append-nil (encode 0x30 r.0))

  contents_bytes : (s : Bytes) → All IsByte (encode 0x30 s) → All IsByte s
  unfolding encode
  contents_bytes s h = (All-append IsByte (encode_length (length s)) s h.1).1

  two_integers :
      (s : Bytes) (r1 r2 : Bytes × Bytes)
      → All IsByte s
      → read_unsigned_integer o s ≡ ok r1
      → read_unsigned_integer o r1.1 ≡ ok r2
      → r2.1 ≡ []
      → (a b : Bytes) × (s ≡ encode integer_tag a ++ encode integer_tag b)
        × (strip_leading_zero a ≡ ok r1.0)
        × (strip_leading_zero b ≡ ok r2.0)
  two_integers s r1 r2 bs first second at_end =
      let (a, stripped, e) = read_unsigned_integer_sound s r1.0 r1.1 bs first in
      let rest_bytes =
        (All-append IsByte (encode integer_tag a) r1.1 (subst (All IsByte) e bs)).1 in
      let (b, stripped', e') = read_unsigned_integer_sound r1.1 r2.0 r2.1 rest_bytes second in
      (a, b, cc (append-nil (encode integer_tag b)), stripped, stripped')

  -- Whenever a modulus is returned for a string of bytes, the string is one DER SEQUENCE of exactly
  -- two non-empty INTEGERs, and the modulus is the first of them without its leading zero.
  pub read_rsa_modulus_sound :
      (input m : Bytes)
      → All IsByte input
      → read_rsa_modulus o input ≡ ok m
      → (a b e : Bytes) × (input ≡ encode 0x30 (encode integer_tag a ++ encode integer_tag b))
        × (strip_leading_zero a ≡ ok m)
        × (strip_leading_zero b ≡ ok e)
  unfolding read_rsa_modulus
  read_rsa_modulus_sound input m bs h =
      let (s, opened, h1) = >>=-eq-ok (sequence_new o input) _ h in
      let (r1, first, h2) = >>=-eq-ok (read_unsigned_integer o s) _ h1 in
      let (r2, second, h3) = >>=-eq-ok (read_unsigned_integer o r1.1) _ h2 in
      let (at_end, same) = >>=-accepted (is_empty r2.1) r1.0 m h3 in
      let e = sequence_new_sound input s bs opened in
      let (a, b, parts, stripped, stripped') =
        two_integers s r1 r2 (contents_bytes s (subst (All IsByte) e bs)) first second
          (is_empty_sound r2.1 at_end) in
      (a, b, r2.0, cc, cc, stripped')
