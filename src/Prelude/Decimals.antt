-- ===== src/Prelude/Decimals.antt =====
-- Decimal numbers in texts, as `%d` of fmt.Sprintf prints them, and how they are read back. A print is
-- put in front of the text that follows it.
use lol_overlay.Prelude.{
  ◌==◌, eq_iff, sym, false, ℕ, zero, suc, ◌+◌, ◌-◌, ◌*◌, ◌/◌, ◌%◌, ◌≤◌, ◌<◌, String, ◌≡◌, refl, ap,
  ◌∙◌, inl, inr, Bool, true, ◌&&◌, arith, leb, nat_eq, if◌then◌else◌, ℤ, Bool-cases, pos, negsuc,
}
use Prim.Native.Char.{Char, code}

-- The digit of a number below 10.
abbrev pub digit : ℕ → Char
digit zero = "0"
digit (suc zero) = "1"
digit (suc (suc zero)) = "2"
digit (suc (suc (suc zero))) = "3"
digit (suc (suc (suc (suc zero)))) = "4"
digit (suc (suc (suc (suc (suc zero))))) = "5"
digit (suc (suc (suc (suc (suc (suc zero)))))) = "6"
digit (suc (suc (suc (suc (suc (suc (suc zero))))))) = "7"
digit (suc (suc (suc (suc (suc (suc (suc (suc zero)))))))) = "8"
digit _ = "9"

-- The digits of a positive number in front of `rest`, in at most `rounds` rounds.
digits : ℕ → ℕ → String → String
digits zero n rest = rest
digits (suc rounds) n rest =
    let longer = digits rounds (n / 10) (String.◌∷◌ (digit (n % 10)) rest) in
    if nat_eq n 0 then rest else longer

-- A number has fewer digits than its value, or is 0.
unfoldable pub decimal : ℕ → String → String
unfolding digits
decimal n rest = if nat_eq n 0 then String.◌∷◌ "0" rest else digits n n rest

unfoldable pub signed_decimal : ℤ → String → String
signed_decimal (pos n) rest = decimal n rest
signed_decimal (negsuc n) rest = String.◌∷◌ "-" (decimal (n + 1) rest)

abbrev pub is_digit : Char → Bool
is_digit c = leb b'0' (code c) && leb (code c) b'9'

-- The number that a text begins with, and what follows it.
read : ℕ → String → ℕ × String
read n String.[] = (n, String.[])
read n (String.◌∷◌ c s) =
    let longer = read (n * 10 + (code c - b'0')) s in
    if is_digit c then longer else (n, String.◌∷◌ c s)

code-digit : (d : ℕ) → d < 10 → code (digit d) ≡ 48 + d
code-digit zero h = refl
code-digit (suc zero) h = refl
code-digit (suc (suc zero)) h = refl
code-digit (suc (suc (suc zero))) h = refl
code-digit (suc (suc (suc (suc zero)))) h = refl
code-digit (suc (suc (suc (suc (suc zero))))) h = refl
code-digit (suc (suc (suc (suc (suc (suc zero)))))) h = refl
code-digit (suc (suc (suc (suc (suc (suc (suc zero))))))) h = refl
code-digit (suc (suc (suc (suc (suc (suc (suc (suc zero)))))))) h = refl
code-digit (suc (suc (suc (suc (suc (suc (suc (suc (suc zero))))))))) h = refl
code-digit (suc (suc (suc (suc (suc (suc (suc (suc (suc (suc m)))))))))) h = absurd (omega arith)

is_digit-digit : (d : ℕ) → d < 10 → is_digit (digit d) ≡ true
is_digit-digit d h = ground (arith, code-digit d h)

read_step :
    (n d : ℕ) (rest : String) → d < 10 → read n (String.◌∷◌ (digit d) rest) ≡ read (n * 10 + d) rest
unfolding read
read_step n d rest h =
    let is : is_digit (digit d) ≡ true = is_digit-digit d h in
    let value : code (digit d) - 48 ≡ d = omega (arith, code-digit d h) in rw (is, value)

read-digits :
    (rounds n : ℕ) (rest : String) → n ≤ rounds → read 0 (digits rounds n rest) ≡ read n rest
unfolding digits
read-digits zero n rest h = let e : n ≡ 0 = omega arith in rw e
read-digits (suc rounds) n rest h = elim (Bool-cases (nat_eq n 0)) [
  | inl z ↦ let e : n ≡ 0 = ground arith in rw e
  | inr p ↦
      let same : n / 10 * 10 + n % 10 ≡ n = omega arith in
      rw p (
        read-digits rounds (n / 10) (String.◌∷◌ (digit (n % 10)) rest) (ground arith)
        ∙ read_step (n / 10) (n % 10) rest (omega arith)
        ∙ ap (λ (m : ℕ). read m rest) same)
]

read-decimal : (n : ℕ) (rest : String) → read 0 (decimal n rest) ≡ read n rest
unfolding decimal
read-decimal n rest = elim (Bool-cases (nat_eq n 0)) [
  | inl z ↦ let e : n ≡ 0 = ground arith in rw e (unfold read in refl)
  | inr p ↦ rw p (read-digits n n rest (omega arith))
]

abbrev pub starts_digit : String → Bool
starts_digit String.[] = false
starts_digit (String.◌∷◌ c s) = is_digit c

read_rest : (n : ℕ) (rest : String) → starts_digit rest ≡ false → read n rest ≡ (n, rest)
unfolding read
read_rest n String.[] h = refl
read_rest n (String.◌∷◌ c s) h = rw h

starts_digit-digits :
    (rounds n : ℕ) (rest : String)
    → starts_digit rest ≡ true
    → starts_digit (digits rounds n rest) ≡ true
unfolding digits
starts_digit-digits zero n rest h = h
starts_digit-digits (suc rounds) n rest h = elim (Bool-cases (nat_eq n 0)) [
  | inl z ↦ rw z h
  | inr p ↦ rw p (
      starts_digit-digits rounds (n / 10) (String.◌∷◌ (digit (n % 10)) rest)
        (is_digit-digit (n % 10) (omega arith)))
]

starts_digit-positive :
    (rounds n : ℕ) (rest : String)
    → nat_eq n 0 ≡ false
    → n ≤ rounds
    → starts_digit (digits rounds n rest) ≡ true
unfolding digits
starts_digit-positive zero n rest p h = absurd (ground arith)
starts_digit-positive (suc rounds) n rest p h = rw p (
    starts_digit-digits rounds (n / 10) (String.◌∷◌ (digit (n % 10)) rest)
      (is_digit-digit (n % 10) (omega arith)))

pub starts_digit-decimal : (n : ℕ) (rest : String) → starts_digit (decimal n rest) ≡ true
unfolding decimal
starts_digit-decimal n rest = elim (Bool-cases (nat_eq n 0)) [
  | inl z ↦ rw z refl
  | inr p ↦ rw p (starts_digit-positive n n rest p (omega arith))
]

-- Two prints that are equal, each followed by no further digit, are of the same number.
pub decimal_inj :
    (m n : ℕ) (rest rest' : String)
    → starts_digit rest ≡ false
    → starts_digit rest' ≡ false
    → decimal m rest ≡ decimal n rest'
    → (m ≡ n) × (rest ≡ rest')
decimal_inj m n rest rest' h h' e =
    let same : (m, rest) ≡ (n, rest') =
      sym (read_rest m rest h)
      ∙ sym (read-decimal m rest)
      ∙ ap (read 0) e
      ∙ read-decimal n rest'
      ∙ read_rest n rest' h' in
    (ap (λ (p : ℕ × String). p.0) same, ap (λ (p : ℕ × String). p.1) same)

-- A text that begins with a minus sign begins with no digit.
pub minus : (rest : String) → starts_digit (String.◌∷◌ "-" rest) ≡ false
minus rest = refl

drop_sign : String → String
drop_sign String.[] = String.[]
drop_sign (String.◌∷◌ c s) = s

pub after_sign_inj : (c : Char) (s s' : String) → String.◌∷◌ c s ≡ String.◌∷◌ c s' → s ≡ s'
unfolding drop_sign
after_sign_inj c s s' e = ap drop_sign e

pub signed_decimal_inj :
    (m n : ℤ) (rest rest' : String)
    → starts_digit rest ≡ false
    → starts_digit rest' ≡ false
    → signed_decimal m rest ≡ signed_decimal n rest'
    → (m ≡ n) × (rest ≡ rest')
unfolding signed_decimal drop_sign
signed_decimal_inj (pos m) (pos n) rest rest' h h' e =
    let same = decimal_inj m n rest rest' h h' e in (ap pos same.0, same.1)
signed_decimal_inj (negsuc m) (negsuc n) rest rest' h h' e =
    let same = decimal_inj (m + 1) (n + 1) rest rest' h h' (ap drop_sign e) in
    (ap negsuc (omega (arith, same.0)), same.1)
signed_decimal_inj (pos m) (negsuc n) rest rest' h h' e =
    cc (starts_digit-decimal m rest, minus (decimal (n + 1) rest'), e)
signed_decimal_inj (negsuc m) (pos n) rest rest' h h' e =
    cc (starts_digit-decimal n rest', minus (decimal (m + 1) rest), e)

pub text_not_empty : (c : Char) (s : String) → (String.◌∷◌ c s == "") ≡ false
text_not_empty c s = elim (Bool-cases (String.◌∷◌ c s == "")) [
  | inl e ↦ absurd (cc ((eq_iff (String.◌∷◌ c s) "").0 e))
  | inr e ↦ e
]
