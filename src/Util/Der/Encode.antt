-- ===== src/Util/Der/Encode.antt =====
-- A reference encoder for the DER elements that the reader accepts, in the shortest form.
use osclientcerts.Prelude.{ℕ, ◌/◌, ◌%◌, ◌∷◌, [], ◌++◌, Bytes, length, ltb, if◌then◌else◌}

unfoldable pub encode_length : ℕ → Bytes
encode_length n =
    if ltb n 0x80
    then n ∷ []
    else if ltb n 256
    then 0x81 ∷ n ∷ []
    else 0x82 ∷ (n / 256) ∷ (n % 256) ∷ []

unfoldable pub encode : ℕ → Bytes → Bytes
encode tag contents = tag ∷ encode_length (length contents) ++ contents

-- A positive integer given by its big-endian bytes: a zero in front keeps the sign bit clear.
unfoldable pub encode_unsigned : Bytes → Bytes
encode_unsigned [] = 0 ∷ []
encode_unsigned (x ∷ xs) = if ltb x 0x80 then x ∷ xs else 0 ∷ x ∷ xs
