-- ===== src/MapLoader/Filename.antt =====
-- src/libsystemutility/fileutility.cpp: the `filename` of both loaders. The text of a number is
-- what `std::to_string` gives; `std::hash` is a parameter.
use Prim.Native.String.{◌++◌ as ◌+++◌}
use mesh_pp.Prelude.{
  ℕ, zero, suc, ◌/◌, ◌%◌, List, [], ◌∷◌, ◌++◌, String, ltb, if◌then◌else◌, length, get_elem?, none,
  some,
}

-- The decimal digits; the number itself is fuel enough.
unfoldable pub decimal : ℕ → ℕ → List ℕ
decimal zero n = n ∷ []
decimal (suc fuel) n =
    let higher = decimal fuel (n / 10) in if ltb n 10 then n ∷ [] else higher ++ n % 10 ∷ []

-- The loop that pads to four characters.
unfoldable pub pad : ℕ → List ℕ → List ℕ
pad zero strh = strh
pad (suc fuel) strh =
    let padded = pad fuel (0 ∷ strh) in if ltb (length strh) 4 then padded else strh

abbrev digit_texts : List String
digit_texts = "0" ∷ "1" ∷ "2" ∷ "3" ∷ "4" ∷ "5" ∷ "6" ∷ "7" ∷ "8" ∷ "9" ∷ []

unfoldable pub digit_text : ℕ → String
unfolding get_elem?
digit_text d = elim (get_elem? digit_texts d) [ none ↦ "" | some t ↦ t ]

unfoldable pub text_of : List ℕ → String
unfolding digit_text
text_of [] = ""
text_of (d ∷ ds) = digit_text d +++ text_of ds

unfoldable pub block_filename : String → ℕ → String
unfolding decimal pad text_of
block_filename name h = name +++ "." +++ text_of (pad 4 (decimal h h))

-- `map_loader_internals::filename`.
unfoldable pub map_filename : (String → ℕ) → String → ℕ → String → String
unfolding block_filename
map_filename hasher name limit key = block_filename name (hasher key % limit)

-- `vector_loader_internals::filename`.
unfoldable pub vector_filename : String → ℕ → ℕ → ℕ → String
unfolding block_filename
vector_filename name limit group index = block_filename name (index / group % limit)
