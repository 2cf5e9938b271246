-- ===== src/Prelude/Finds.antt =====
-- What a search finds after a write through the pointer that another search returned.
use mathlib.Core.Path.{◌≡◌, refl}
use mathlib.Core.Bool.{Bool, true, false}
use mathlib.Core.Option
use mathlib.Core.Option.{Option, none, some}
use mathlib.Core.List.{List, [], ◌∷◌, ◌++◌}
use native.Mathlib.Omega.{arith}
use lol_overlay.Prelude.Lists.{find, modify_first}

-- `p` is the test of the write, `q` of the search; `same` says whether they look for the same thing.
module _ {A : Type 0} (p q : A → Bool) (f : A → A) where
  pub find-modify_same :
      ((x : A) → q x ≡ p x)
      → ((x : A) → q (f x) ≡ q x)
      → (xs xs' : List A) → modify_first p f xs ≡ some xs'
      → find q xs' ≡ Option.map f (find q xs)
  find-modify_same agree keeps [] xs' h = cc
  find-modify_same agree keeps (x ∷ rest) [] h = ground arith
  find-modify_same agree keeps (x ∷ rest) (x' ∷ rest') h =
      ground (arith, agree x, keeps x, find-modify_same agree keeps rest rest')

  pub find-modify_other :
      ((x : A) → p x ≡ true → q x ≡ false)
      → ((x : A) → q (f x) ≡ q x)
      → (xs xs' : List A) → modify_first p f xs ≡ some xs'
      → find q xs' ≡ find q xs
  find-modify_other apart keeps [] xs' h = cc
  find-modify_other apart keeps (x ∷ rest) [] h = ground arith
  find-modify_other apart keeps (x ∷ rest) (x' ∷ rest') h =
      ground (arith, apart x, keeps x, find-modify_other apart keeps rest rest')

module _ {A : Type 0} (p : A → Bool) (f : A → A) where
  pub modify_none-find : (xs : List A) → modify_first p f xs ≡ none → find p xs ≡ none
  modify_none-find [] h = refl
  modify_none-find (x ∷ rest) h = ground (arith, modify_none-find rest)

  pub modify_some-find : (xs xs' : List A) → modify_first p f xs ≡ some xs' → find p xs ≡ none → ⊥
  modify_some-find [] xs' h e = cc
  modify_some-find (x ∷ rest) [] h e = ground arith
  modify_some-find (x ∷ rest) (x' ∷ rest') h e = ground (arith, modify_some-find rest rest')

module _ {A : Type 0} (q : A → Bool) where
  pub find-append : (xs ys : List A) → find q xs ≡ none → find q (xs ++ ys) ≡ find q ys
  find-append [] ys h = refl
  find-append (x ∷ rest) ys h = ground (arith, find-append rest ys)

  pub find-append_some : (xs ys : List A) (y : A) → find q xs ≡ some y → find q (xs ++ ys) ≡ some y
  find-append_some [] ys y h = cc
  find-append_some (x ∷ rest) ys y h = ground (arith, find-append_some rest ys y)

  pub find-append_skip : (xs ys : List A) → find q ys ≡ none → find q (xs ++ ys) ≡ find q xs
  find-append_skip [] ys h = h
  find-append_skip (x ∷ rest) ys h = ground (arith, find-append_skip rest ys)
