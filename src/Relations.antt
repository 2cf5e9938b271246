-- ===== src/Relations.antt =====
-- Relations between lists, with which the effects of the program's loops are described.
use lol_overlay.Prelude.{
  Bool, true, false, ◌≡◌, none, some, List, [], ◌∷◌, map, All, find, modify_first, Bool-cases,
  Option-cases, arith, inl, inr,
}

-- The first element that passes the test has changed, and nothing else has.
pub data ChangesFirst {A : Type 0} (p : A → Bool) (R : A → A → Type 0)
    : List A → List A → Type 0 where
  here : (x y : A) (rest : List A) → p x ≡ true → R x y → ChangesFirst p R (x ∷ rest) (y ∷ rest)
  later :
      (x : A) (xs ys : List A)
      → p x ≡ false
      → ChangesFirst p R xs ys
      → ChangesFirst p R (x ∷ xs) (x ∷ ys)

-- The elements of two lists are related, one by one.
pub data Pointwise {A B : Type 0} (R : A → B → Type 0) : List A → List B → Type 0 where
  ends : Pointwise R [] []
  goes_on :
      (x : A) (y : B) (xs : List A) (ys : List B)
      → R x y
      → Pointwise R xs ys
      → Pointwise R (x ∷ xs) (y ∷ ys)

pub map-Pointwise :
    {A B : Type 0} (R : A → B → Type 0) (f : A → B)
    → ((x : A) → R x (f x))
    → (xs : List A) → Pointwise R xs (map f xs)
map-Pointwise R f h [] = ends
map-Pointwise R f h (x ∷ xs) = goes_on x (f x) xs (map f xs) (h x) (map-Pointwise R f h xs)

module _ {A : Type 0} (p : A → Bool) where
  pub modify_first-Changes :
      (R : A → A → Type 0) (f : A → A) (xs ys : List A)
      → ((x : A) → R x (f x))
      → modify_first p f xs ≡ some ys
      → ChangesFirst p R xs ys
  modify_first-Changes R f [] ys h e = cc
  modify_first-Changes R f (x ∷ xs) ys h e = elim (Bool-cases (p x)) [
    | inl e1 ↦ let same : ys ≡ f x ∷ xs = ground arith in rw same (here x (f x) xs e1 (h x))
    | inr e2 ↦ elim (Option-cases (modify_first p f xs)) [
      | inl n ↦ absurd (ground arith)
      | inr (zs, m) ↦
          let same : ys ≡ x ∷ zs = ground arith in
          rw same (later x xs zs e2 (modify_first-Changes R f xs zs h m))
    ]
  ]

  pub modify_first-none :
      (f : A → A) (xs : List A) → modify_first p f xs ≡ none → All (λ x. p x ≡ false) xs
  modify_first-none f [] e = tt
  modify_first-none f (x ∷ xs) e = elim (Bool-cases (p x)) [
    | inl e1 ↦ absurd (ground arith)
    | inr e2 ↦ elim (Option-cases (modify_first p f xs)) [
      | inl n ↦ (e2, modify_first-none f xs n)
      | inr (zs, m) ↦ absurd (ground arith)
    ]
  ]

  pub find-none : (xs : List A) → find p xs ≡ none → All (λ x. p x ≡ false) xs
  find-none [] e = tt
  find-none (x ∷ xs) e = elim (Bool-cases (p x)) [
    | inl e1 ↦ absurd (ground arith)
    | inr e2 ↦ (e2, find-none xs (ground arith))
  ]
