-- ===== src/Windows/Serial.antt =====
-- The two forms of a serial number that a search may ask for.
use osclientcerts.Prelude.{◌<◌, ◌≡◌, ◌↔◌, ◌⊎◌, true, [], ◌∷◌, Bytes, bytes_eq_iff, length, arith}
use osclientcerts.Util.Der.{integer_tag}
use osclientcerts.Util.Der.Encode.{encode, encode_length}
use osclientcerts.Windows.Attributes.{is_integer_of, serial_number_matches}

is_integer_of_iff :
    (stored requested : Bytes)
    → (is_integer_of stored requested ≡ true) ↔ (requested ≡ integer_tag ∷ length stored ∷ stored)
unfolding is_integer_of
is_integer_of_iff stored [] = ground arith
is_integer_of_iff stored (a ∷ []) = ground arith
is_integer_of_iff stored (tag ∷ len ∷ contents) = ground (arith, bytes_eq_iff contents stored)

-- A requested serial number matches the one of an object exactly where it is that number, or its
-- tag and its length, in one byte, stand before it.
pub serial_number_matches_iff :
    (stored requested : Bytes)
    → (serial_number_matches stored requested ≡ true)
      ↔ ((requested ≡ stored) ⊎ (requested ≡ integer_tag ∷ length stored ∷ stored))
unfolding serial_number_matches
serial_number_matches_iff stored requested =
    ground (arith, bytes_eq_iff requested stored, is_integer_of_iff stored requested)

-- A requested serial number matches one of less than 128 bytes exactly where it is that number, or
-- its DER encoding as an integer.
pub serial_number_matches-encode :
    (stored requested : Bytes)
    → length stored < 128
    → (serial_number_matches stored requested ≡ true)
      ↔ ((requested ≡ stored) ⊎ (requested ≡ encode integer_tag stored))
unfolding encode encode_length
serial_number_matches-encode stored requested short =
    ground (arith, serial_number_matches_iff stored requested)
