-- ===== src/Upload/Chunk/Prefix.antt =====
-- Lists of bytes that begin another, for the uploads.
use nexa_drive.Prelude.{
  ℕ, zero, suc, ◌≤◌, ◌≡◌, refl, ap, List, [], ◌∷◌, ◌++◌, arith, length, take, drop,
}

abbrev pub IsPrefix : List ℕ → List ℕ → Type 0
IsPrefix [] ys = Unit {0}
IsPrefix (x ∷ xs) [] = ⊥
IsPrefix (x ∷ xs) (y ∷ ys) = (x ≡ y) × IsPrefix xs ys

pub take-IsPrefix : (k : ℕ) (xs ys : List ℕ) → IsPrefix xs ys → IsPrefix (take k xs) ys
take-IsPrefix zero xs ys h = tt
take-IsPrefix (suc k) [] ys h = tt
take-IsPrefix (suc k) (x ∷ xs) [] h = absurd h
take-IsPrefix (suc k) (x ∷ xs) (y ∷ ys) h = (h.0, take-IsPrefix k xs ys h.1)

pub IsPrefix-take : (k : ℕ) (ys : List ℕ) → IsPrefix (take k ys) ys
IsPrefix-take zero ys = tt
IsPrefix-take (suc k) [] = tt
IsPrefix-take (suc k) (y ∷ ys) = (refl, IsPrefix-take k ys)

-- A prefix goes on with what stands behind it.
pub append-IsPrefix :
    (xs zs ys : List ℕ)
    → IsPrefix xs ys
    → IsPrefix zs (drop (length xs) ys)
    → IsPrefix (xs ++ zs) ys
append-IsPrefix [] zs ys h k = k
append-IsPrefix (x ∷ xs) zs [] h k = absurd h
append-IsPrefix (x ∷ xs) zs (y ∷ ys) h k = (h.0, append-IsPrefix xs zs ys h.1 k)

pub length-IsPrefix : (xs ys : List ℕ) → IsPrefix xs ys → length xs ≤ length ys
length-IsPrefix [] ys h = omega arith
length-IsPrefix (x ∷ xs) [] h = absurd h
length-IsPrefix (x ∷ xs) (y ∷ ys) h = omega (arith, length-IsPrefix xs ys h.1)

-- A prefix of full length is the whole.
pub eq_of_IsPrefix : (xs ys : List ℕ) → IsPrefix xs ys → length ys ≤ length xs → xs ≡ ys
eq_of_IsPrefix [] [] h k = refl
eq_of_IsPrefix [] (y ∷ ys) h k = absurd (omega arith)
eq_of_IsPrefix (x ∷ xs) [] h k = absurd h
eq_of_IsPrefix (x ∷ xs) (y ∷ ys) h k = cc (h.0, eq_of_IsPrefix xs ys h.1 (omega arith))

-- A prefix is what is taken at its length.
pub IsPrefix-eq : (xs ys : List ℕ) → IsPrefix xs ys → xs ≡ take (length xs) ys
IsPrefix-eq [] ys h = refl
IsPrefix-eq (x ∷ xs) [] h = absurd h
IsPrefix-eq (x ∷ xs) (y ∷ ys) h = cc (h.0, IsPrefix-eq xs ys h.1)

-- Taking no more than a prefix holds does not look behind it.
pub take-append : (k : ℕ) (xs zs : List ℕ) → k ≤ length xs → take k (xs ++ zs) ≡ take k xs
take-append zero xs zs h = refl
take-append (suc k) [] zs h = absurd (omega arith)
take-append (suc k) (x ∷ xs) zs h = ap (◌∷◌ x) (take-append k xs zs (omega arith))

pub drop_all : (k : ℕ) (xs : List ℕ) → length xs ≤ k → drop k xs ≡ []
drop_all zero [] h = refl
drop_all zero (x ∷ xs) h = absurd (omega arith)
drop_all (suc k) [] h = refl
drop_all (suc k) (x ∷ xs) h = drop_all k xs (omega arith)
