-- ===== src/Base58/Convert.antt =====
-- src/libcryptoutility/cryptoutility.cpp: `to_base58`, `detail::from_base58` and the tables of both.
-- A `std::string` or a `vector<unsigned char>` is the list of its bytes.
use mesh_pp.Prelude.{
  ℕ, zero, suc, ◌+◌, ◌*◌, ◌/◌, ◌%◌, Bool, not, ◌&&◌, ◌||◌, Option, none, some, ◌>>=◌, List, [], ◌∷◌,
  ◌++◌, ltb, leb, ◌==◌, if◌then◌else◌, length, get_elem?,
}

-- `vector<T>(n)` and `assign(n, x)`.
unfoldable pub replicate {ℓ} : {A : Type ℓ} → ℕ → A → List A
replicate zero x = []
replicate (suc n) x = x ∷ replicate n x

-- What a reverse iterator reads, in front of what was read before.
unfoldable pub reverse_onto : List ℕ → List ℕ → List ℕ
reverse_onto [] ys = ys
reverse_onto (x ∷ xs) ys = reverse_onto xs (x ∷ ys)

abbrev pub reverse : List ℕ → List ℕ
reverse xs = reverse_onto xs []

unfoldable pub take : ℕ → List ℕ → List ℕ
take zero xs = []
take (suc n) [] = []
take (suc n) (x ∷ xs) = x ∷ take n xs

-- `pszBase58`; the terminating zero stands behind its last letter.
abbrev pub alphabet : List ℕ
alphabet =
    49 ∷ 50 ∷ 51 ∷ 52 ∷ 53 ∷ 54 ∷ 55 ∷ 56 ∷ 57 ∷ 65 ∷ 66 ∷ 67 ∷ 68 ∷ 69 ∷ 70 ∷ 71 ∷ 72 ∷ 74 ∷ 75
    ∷ 76 ∷ 77 ∷ 78 ∷ 80 ∷ 81 ∷ 82 ∷ 83 ∷ 84 ∷ 85 ∷ 86 ∷ 87 ∷ 88 ∷ 89 ∷ 90 ∷ 97 ∷ 98 ∷ 99 ∷ 100 ∷ 101
    ∷ 102 ∷ 103 ∷ 104 ∷ 105 ∷ 106 ∷ 107 ∷ 109 ∷ 110 ∷ 111 ∷ 112 ∷ 113 ∷ 114 ∷ 115 ∷ 116 ∷ 117 ∷ 118
    ∷ 119 ∷ 120 ∷ 121 ∷ 122 ∷ []

-- The entry of a table, with what an index outside of it reads.
unfoldable pub get {ℓ} : {A : Type ℓ} → List A → ℕ → A → A
unfolding get_elem?
get xs i outside = elim (get_elem? xs i) [ none ↦ outside | some x ↦ x ]

unfoldable pub letter : ℕ → ℕ
unfolding get
letter d = get alphabet d 0

-- The entries of `mapBase58`, in runs: `none` for -1, and digits in a row.
unfoldable pub bad : ℕ → List (Option ℕ)
unfolding replicate
bad n = replicate n none

unfoldable pub run : ℕ → ℕ → List (Option ℕ)
run first zero = []
run first (suc n) = some first ∷ run (suc first) n

unfoldable pub map_base58 : List (Option ℕ)
unfolding bad run
map_base58 =
    bad 49
    ++ run 0 9
    ++ bad 7
    ++ run 9 8
    ++ bad 1
    ++ run 17 5
    ++ bad 1
    ++ run 22 11
    ++ bad 6
    ++ run 33 11
    ++ bad 1
    ++ run 44 14
    ++ bad 133

unfoldable pub digit : ℕ → Option ℕ
unfolding get map_base58
digit c = get map_base58 c none

-- The inner loop of both conversions, over the buffer as `rbegin` reads it: what is left in the
-- buffer, the carry and `i`.
unfoldable pub absorb : (from to carry i length : ℕ) → List ℕ → List ℕ × ℕ × ℕ
absorb from to carry i length [] = ([], carry, i)
absorb from to carry i length (x ∷ rest) =
    let after = absorb from to ((carry + from * x) / to) (suc i) length rest in
    if not (carry == 0) || ltb i length
    then ((carry + from * x) % to ∷ after.0, after.1, after.2)
    else (x ∷ rest, carry, i)

-- One turn of the outer loop on the buffer and `length`; the assertion fails at `none`.
unfoldable pub absorb_digit : (from to : ℕ) → ℕ → List ℕ × ℕ → Option (List ℕ × ℕ)
unfolding absorb
absorb_digit from to carry (buffer, length) =
    let after = absorb from to carry 0 length buffer in
    if after.1 == 0 then some (after.0, after.2) else none

unfoldable pub absorb_all : (from to : ℕ) → List ℕ → List ℕ × ℕ → Option (List ℕ × ℕ)
unfolding absorb_digit
absorb_all from to [] state = some state
absorb_all from to (x ∷ xs) state = do
  state' ← absorb_digit from to x state
  absorb_all from to xs state'

-- The leading bytes that are equal to one, counted, and the rest.
unfoldable pub count_leading : ℕ → List ℕ → ℕ × List ℕ
count_leading c [] = (0, [])
count_leading c (x ∷ xs) =
    let after = count_leading c xs in if x == c then (suc after.0, after.1) else (0, x ∷ xs)

unfoldable pub skip_zeros : List ℕ → List ℕ
skip_zeros [] = []
skip_zeros (x ∷ xs) = let after = skip_zeros xs in if x == 0 then after else x ∷ xs

-- The buffer from `begin() + (size - length)`, in the order of its iterators, without leading zeroes.
unfoldable pub significant : List ℕ × ℕ → List ℕ
unfolding skip_zeros take reverse_onto
significant (buffer, length) = skip_zeros (reverse (take length buffer))

unfoldable pub to_letters : List ℕ → List ℕ
unfolding letter
to_letters [] = []
to_letters (d ∷ ds) = letter d ∷ to_letters ds

abbrev pub b58_size : ℕ → ℕ
b58_size size = size * 138 / 100 + 1

abbrev pub b256_size : ℕ → ℕ
b256_size size = size * 733 / 1000 + 1

unfoldable pub to_base58 : List ℕ → Option (List ℕ)
unfolding count_leading absorb_all significant to_letters replicate
to_base58 raw_str = do
  let (zeroes, bytes) = count_leading 0 raw_str
  state ← absorb_all 256 58 bytes (replicate (b58_size (length raw_str)) 0, 0)
  some (replicate zeroes 49 ++ to_letters (significant state))

-- `isspace` in the C locale.
unfoldable pub isspace : ℕ → Bool
isspace c = c == 32 || leb 9 c && leb c 13

-- What `c_str()` points at, up to its terminating zero.
unfoldable pub c_str : List ℕ → List ℕ
c_str [] = []
c_str (c ∷ cs) = let rest = c_str cs in if c == 0 then [] else c ∷ rest

unfoldable pub skip_spaces : List ℕ → List ℕ
unfolding isspace
skip_spaces [] = []
skip_spaces (c ∷ cs) = let after = skip_spaces cs in if isspace c then after else c ∷ cs

-- How the loop over the characters leaves: the assertion fails, a character is invalid, or the text
-- is read up to a space or its end.
pub data Reading : Type 0 where
  failed : Reading
  invalid : Reading
  stopped : List ℕ × ℕ → List ℕ → Reading

unfoldable pub read_digits : List ℕ → List ℕ × ℕ → Reading
unfolding isspace digit absorb_digit
read_digits [] state = stopped state []
read_digits (c ∷ cs) state = if isspace c then stopped state (c ∷ cs) else elim (digit c) [
  | none ↦ invalid
  | some d ↦ elim (absorb_digit 58 256 d state) [
    | none ↦ failed
    | some state' ↦ read_digits cs state'
  ]
]

-- Nothing but spaces may be left of the text.
unfoldable pub if_ended : List ℕ → List ℕ → List ℕ
if_ended [] vch = vch
if_ended (c ∷ cs) vch = []

-- What is behind the loop.
unfoldable pub finish : ℕ → Reading → Option (List ℕ)
unfolding skip_spaces significant replicate if_ended
finish count failed = none
finish count invalid = some []
finish count (stopped state rest) =
    some (if_ended (skip_spaces rest) (replicate count 0 ++ significant state))

-- The characters behind the leading '1's, which are counted.
unfoldable pub decode : ℕ × List ℕ → Option (List ℕ)
unfolding read_digits replicate finish
decode (zeroes, psz) = finish zeroes (read_digits psz (replicate (b256_size (length psz)) 0, 0))

unfoldable pub from_base58 : List ℕ → Option (List ℕ)
unfolding c_str skip_spaces count_leading decode
from_base58 str_b58 = decode (count_leading 49 (skip_spaces (c_str str_b58)))

-- `from_base58`, and `hash`, which writes a digest.
unfoldable pub hash : (List ℕ → List ℕ) → List ℕ → Option (List ℕ)
unfolding to_base58
hash sha256 message = to_base58 (sha256 message)
