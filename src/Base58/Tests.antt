-- ===== src/Base58/Tests.antt =====
-- src/libcryptoutility/cryptoutility.cpp: conversions of some texts, and the theorems about them.
use mesh_pp.Prelude.{ℕ, ◌≡◌, refl, some, List, [], ◌∷◌, ◌++◌, ◌>>=◌, ◌⊎◌, arith}
use mesh_pp.Base58.Convert.{to_base58, from_base58, count_leading, to_letters, replicate}
use mesh_pp.Base58.Numeral.{value}
use mesh_pp.Base58.Encode.{IsNumeral, to_base58-IsNumeral}
use mesh_pp.Base58.Reads.{Decoded, from_base58-Decoded}
use mesh_pp.Base58.RoundTrip.{from_base58-to_base58}

abbrev some_bytes : List ℕ
some_bytes = 0 ∷ 0 ∷ 1 ∷ 255 ∷ []

abbrev some_text : List ℕ
some_text = 32 ∷ 49 ∷ 49 ∷ 57 ∷ 112 ∷ 32 ∷ []

to_base58_test : to_base58 some_bytes ≡ some (49 ∷ 49 ∷ 57 ∷ 112 ∷ [])
unfolding to_base58
to_base58_test = refl

from_base58_test : from_base58 some_text ≡ some some_bytes
unfolding from_base58
from_base58_test = refl

-- The letter 'O' is not in the alphabet.
from_base58_invalid : from_base58 (57 ∷ 79 ∷ []) ≡ some []
unfolding from_base58
from_base58_invalid = refl

to_base58-IsNumeral_example :
    (ds : List ℕ) × (to_base58 some_bytes
      ≡ some (replicate (count_leading 0 some_bytes).0 49 ++ to_letters ds))
    × IsNumeral 58 (value 256 0 some_bytes) ds
to_base58-IsNumeral_example =
    to_base58-IsNumeral some_bytes (omega arith, (omega arith, (omega arith, (omega arith, tt))))

from_base58-to_base58_example : (to_base58 some_bytes >>= from_base58) ≡ some some_bytes
from_base58-to_base58_example =
    from_base58-to_base58 some_bytes (omega arith, (omega arith, (omega arith, (omega arith, tt))))

from_base58-Decoded_example : (from_base58 some_text ≡ some []) ⊎ Decoded some_text
from_base58-Decoded_example = from_base58-Decoded some_text
