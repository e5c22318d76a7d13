-- ===== src/Text/Numbers.antt =====
-- Decimal numbers: `Atoi` reads back what `Itoa` prints.
use sipgox.Prelude.{
  ℕ, zero, suc, ◌+◌, ◌-◌, ◌*◌, ◌/◌, ◌%◌, ◌<◌, ◌≡◌, refl, ap, ◌∙◌, true, false, none, [], ◌∷◌, arith,
  ltb, Bool-cases, inl, inr,
}
use sipgox.Prelude.Int.{pos}
use sipgox.Text.Words.{IsWord, unspaced}
use sipgox.Text.{
  Text, contains, parse_digits, parse_uint, signed, atoi, is_digit, digits_onto, itoa_ℕ, itoa,
}

abbrev max_uint : ℕ
max_uint = 0x1_0000_0000_0000_0000

-- A digit is read, while the value stays in range.
parse_digits_digit :
    (acc d : ℕ) (rest : Text)
    → d < 10
    → acc * 10 + d < max_uint
    → parse_digits acc ((b'0' + d) ∷ rest) ≡ parse_digits (acc * 10 + d) rest
unfolding parse_digits
parse_digits_digit acc d rest small h =
    let e : b'0' + d - b'0' ≡ d = omega arith in rw e (ground arith)

-- The digits of `n` are read onto an accumulator `0`, with any digits behind.
parse_digits-digits_onto :
    (fuel n : ℕ) (tail : Text)
    → n < fuel
    → n < max_uint
    → parse_digits 0 (digits_onto fuel n tail) ≡ parse_digits n tail
unfolding digits_onto
parse_digits-digits_onto zero n tail h lt = absurd (omega arith)
parse_digits-digits_onto (suc fuel) n tail h lt = elim (Bool-cases (ltb n 10)) [
  | inl one ↦ rw one (parse_digits_digit 0 n tail (ground arith) (omega arith) ∙ rw zero_digits)
  | inr more ↦ rw more (
      parse_digits-digits_onto fuel (n / 10) ((b'0' + n % 10) ∷ tail) (ground arith) (omega arith)
      ∙ parse_digits_digit (n / 10) (n % 10) tail (omega arith) (omega arith)
      ∙ ap (λ k. parse_digits k tail) (omega arith))
]
  where
    zero_digits : 0 * 10 + n ≡ n
    zero_digits = omega arith

-- What `Itoa` prints of a number begins with a digit.
digits_onto_head :
    (fuel n : ℕ) (tail : Text)
    → n < fuel
    → (d : ℕ) × (rest : Text) × (digits_onto fuel n tail ≡ (b'0' + d) ∷ rest) × (d < 10)
unfolding digits_onto
digits_onto_head zero n tail h = absurd (omega arith)
digits_onto_head (suc fuel) n tail h = elim (Bool-cases (ltb n 10)) [
  | inl one ↦ (n, tail, rw one, ground arith)
  | inr more ↦ rw more (digits_onto_head fuel (n / 10) ((b'0' + n % 10) ∷ tail) (ground arith))
]

atoi_of_digit :
    (s rest : Text) (d : ℕ)
    → s ≡ (b'0' + d) ∷ rest
    → d < 10
    → atoi s ≡ signed false (parse_digits 0 s)
unfolding atoi parse_uint
atoi_of_digit s rest d e h = rw e (ground arith)

signed_small :
    (n : ℕ) → n < 0x8000_0000_0000_0000 → signed false (parse_digits n []) ≡ (pos n, none)
unfolding signed parse_digits
signed_small n h = ground arith

-- Printing a number that fits a signed 64-bit integer, and reading it, gives it back.
pub atoi-itoa : (n : ℕ) → n < 0x8000_0000_0000_0000 → atoi (itoa (pos n)) ≡ (pos n, none)
unfolding itoa itoa_ℕ
atoi-itoa n h =
    let (d, rest, e, small) = digits_onto_head (suc n) n [] (omega arith) in
    atoi_of_digit _ rest d e small
    ∙ ap (signed false) (parse_digits-digits_onto (suc n) n [] (omega arith) (omega arith))
    ∙ signed_small n h

-- A byte that is no digit does not stand in a printed number.
contains-digits_onto :
    (fuel n c : ℕ) (tail : Text)
    → n < fuel
    → is_digit c ≡ false
    → contains (digits_onto fuel n tail) c ≡ contains tail c
unfolding digits_onto contains is_digit
contains-digits_onto zero n c tail h other = refl
contains-digits_onto (suc fuel) n c tail h other =
    ground (arith, contains-digits_onto fuel (n / 10) c ((b'0' + n % 10) ∷ tail))

pub contains-itoa : (n c : ℕ) → is_digit c ≡ false → contains (itoa (pos n)) c ≡ false
unfolding itoa itoa_ℕ
contains-itoa n c h = contains-digits_onto (suc n) n c [] (omega arith) h ∙ unfold contains in refl

unspaced-digits_onto :
    (fuel n : ℕ) (tail : Text) → unspaced tail ≡ true → unspaced (digits_onto fuel n tail) ≡ true
unfolding digits_onto unspaced
unspaced-digits_onto zero n tail h = h
unspaced-digits_onto (suc fuel) n tail h =
    ground (arith, unspaced-digits_onto fuel (n / 10) ((b'0' + n % 10) ∷ tail))

-- A printed number is a word.
pub itoa-IsWord : (n : ℕ) → IsWord (itoa (pos n))
unfolding itoa itoa_ℕ
itoa-IsWord n =
    let (d, rest, e, small) = digits_onto_head (suc n) n [] (omega arith) in
    (unspaced-digits_onto (suc n) n [] (unfold unspaced in refl), rw e (λ h. cc))
