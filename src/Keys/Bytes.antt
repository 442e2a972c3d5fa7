-- ===== src/Keys/Bytes.antt =====
-- Parts of byte strings, as src/libcryptoutility/cryptoutility.cpp takes them.
use mesh_pp.Prelude.{
  ℕ, zero, suc, ◌≤◌, ◌≡◌, refl, ap, ◌∙◌, Bool, true, false, ◌&&◌, Option, none, some, List, [], ◌∷◌,
  ◌++◌, ◌==◌, length, ◌>>=◌, arith, All,
}
use mesh_pp.Base58.Convert.{replicate, take}

unfoldable pub drop : ℕ → List ℕ → List ℕ
drop zero xs = xs
drop (suc n) [] = []
drop (suc n) (x ∷ xs) = drop n xs

-- `resize(4)`, which pads with zeroes.
unfoldable pub resize4 : List ℕ → List ℕ
unfolding take replicate
resize4 xs = take 4 (xs ++ replicate 4 0)

unfoldable pub same_bytes : List ℕ → List ℕ → Bool
same_bytes [] [] = true
same_bytes [] (y ∷ ys) = false
same_bytes (x ∷ xs) [] = false
same_bytes (x ∷ xs) (y ∷ ys) = x == y && same_bytes xs ys

pub length-take : (n : ℕ) (xs : List ℕ) → n ≤ length xs → length (take n xs) ≡ n
unfolding take
length-take zero xs l = refl
length-take (suc n) [] l = absurd (omega (arith, l))
length-take (suc n) (x ∷ xs) l = ap suc (length-take n xs (omega (arith, l)))

pub take-append : (n : ℕ) (xs ys : List ℕ) → n ≤ length xs → take n (xs ++ ys) ≡ take n xs
unfolding take
take-append zero xs ys l = refl
take-append (suc n) [] ys l = absurd (omega (arith, l))
take-append (suc n) (x ∷ xs) ys l = ap (λ t. x ∷ t) (take-append n xs ys (omega (arith, l)))

pub take-append_length : (n : ℕ) (xs ys : List ℕ) → n ≡ length xs → take n (xs ++ ys) ≡ xs
unfolding take
take-append_length zero [] ys e = refl
take-append_length zero (x ∷ xs) ys e = absurd (omega (arith, e))
take-append_length (suc n) [] ys e = absurd (omega (arith, e))
take-append_length (suc n) (x ∷ xs) ys e =
    ap (λ t. x ∷ t) (take-append_length n xs ys (omega (arith, e)))

pub drop-append_length : (n : ℕ) (xs ys : List ℕ) → n ≡ length xs → drop n (xs ++ ys) ≡ ys
unfolding drop
drop-append_length zero [] ys e = refl
drop-append_length zero (x ∷ xs) ys e = absurd (omega (arith, e))
drop-append_length (suc n) [] ys e = absurd (omega (arith, e))
drop-append_length (suc n) (x ∷ xs) ys e = drop-append_length n xs ys (omega (arith, e))

pub take-drop : (n : ℕ) (xs : List ℕ) → take n xs ++ drop n xs ≡ xs
unfolding take drop
take-drop zero xs = refl
take-drop (suc n) [] = refl
take-drop (suc n) (x ∷ xs) = ap (λ t. x ∷ t) (take-drop n xs)

pub resize4-take : (xs : List ℕ) → 4 ≤ length xs → resize4 xs ≡ take 4 xs
unfolding resize4
resize4-take xs l = take-append 4 xs (replicate 4 0) l

pub same_bytes_eq : (xs ys : List ℕ) → same_bytes xs ys ≡ true → xs ≡ ys
unfolding same_bytes
same_bytes_eq [] [] e = refl
same_bytes_eq [] (y ∷ ys) e = absurd (ground (arith, e))
same_bytes_eq (x ∷ xs) [] e = absurd (ground (arith, e))
same_bytes_eq (x ∷ xs) (y ∷ ys) e =
    let same : x ≡ y = ground (arith, e) in
    ap (λ t. t ∷ xs) same ∙ ap (λ t. y ∷ t) (same_bytes_eq xs ys (ground (arith, e)))

pub same_bytes_self : (xs : List ℕ) → same_bytes xs xs ≡ true
unfolding same_bytes
same_bytes_self [] = refl
same_bytes_self (x ∷ xs) = ground (arith, same_bytes_self xs)

pub All-append : (P : ℕ → Type 0) (xs ys : List ℕ) → All P xs → All P ys → All P (xs ++ ys)
All-append P [] ys a b = b
All-append P (x ∷ xs) ys a b = (a.0, All-append P xs ys a.1 b)

pub All-append_left : (P : ℕ → Type 0) (xs ys : List ℕ) → All P (xs ++ ys) → All P xs
All-append_left P [] ys a = tt
All-append_left P (x ∷ xs) ys a = (a.0, All-append_left P xs ys a.1)

-- What a first result is given to.
pub bind-some :
    {A B C : Type 0} (o : Option A) (f : A → Option B) (g : B → C) {b : B}
    → (o >>= f) ≡ some b
    → (o >>= λ a. f a >>= λ x. some (g x)) ≡ some (g b)
bind-some none f g e = absurd (ground (arith, e))
bind-some (some a) f g e = rw e refl
