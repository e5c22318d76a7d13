-- ===== src/Text.antt =====
-- The functions of Go's `strings` and `strconv` that the program calls, over the bytes of a text.
-- Whitespace is that of ASCII: `strings.Fields` splits at U+0085, U+00A0 and the other Unicode
-- spaces as well, which no text of this model holds.
pub mod Lemmas
pub mod Words
pub mod Numbers
use Prim.Native.Char.{code}
use Prim.Native.String.{String}
use sipgox.Prelude.{
  ℕ, zero, suc, ◌+◌, ◌-◌, ◌*◌, ◌/◌, ◌%◌, Bool, true, false, ◌&&◌, ◌||◌, Option, none, some, List,
  [], ◌∷◌, ◌++◌, ltb, leb, ◌==◌, if◌then◌else◌,
}
use mathlib.Core.Option
use sipgox.Prelude.Int.{ℤ, pos, negsuc, sub_ℕ}

abbrev pub Text : Type 0
Text = List ℕ

-- The bytes of a literal, which is ASCII.
abbrev pub codes : String → Text
codes String.[] = []
codes (String.◌∷◌ c s) = code c ∷ codes s

-- `==` on strings.
unfoldable pub eq_text : Text → Text → Bool
eq_text [] [] = true
eq_text (x ∷ xs) (y ∷ ys) = x == y && eq_text xs ys
eq_text _ _ = false

-- `strings.Contains` and `strings.Index`, for a separator of one byte.
unfoldable pub contains : Text → ℕ → Bool
contains [] c = false
contains (x ∷ xs) c = x == c || contains xs c

unfoldable pub index : Text → ℕ → Option ℕ
index [] c = none
index (x ∷ xs) c = let later = index xs c in if x == c then some 0 else Option.map suc later

-- `strings.HasPrefix(s, prefix)`.
unfoldable pub has_prefix : Text → Text → Bool
has_prefix s [] = true
has_prefix [] (y ∷ ys) = false
has_prefix (x ∷ xs) (y ∷ ys) = x == y && has_prefix xs ys

onto_head : ℕ → List Text → List Text
onto_head c [] = (c ∷ []) ∷ []
onto_head c (w ∷ ws) = (c ∷ w) ∷ ws

-- `strings.Split`, for a separator of one byte. The result is never empty.
unfoldable pub split : Text → ℕ → List Text
unfolding onto_head
split [] sep = [] ∷ []
split (x ∷ xs) sep = let rest = split xs sep in if x == sep then [] ∷ rest else onto_head x rest

unfoldable pub is_space : ℕ → Bool
is_space c = (leb 9 c && leb c 13) || c == 32

end_word : Text → List Text → List Text
end_word [] ws = ws
end_word (c ∷ cs) ws = (c ∷ cs) ∷ ws

-- `strings.Fields`, with the word read so far.
unfoldable pub fields_from : Text → Text → List Text
unfolding end_word is_space
fields_from word [] = end_word word []
fields_from word (x ∷ xs) =
    let next = fields_from [] xs in
    let more = fields_from (word ++ x ∷ []) xs in if is_space x then end_word word next else more

abbrev pub fields : Text → List Text
fields = fields_from []

-- `strings.Join`.
unfoldable pub join : List Text → Text → Text
join [] sep = []
join (x ∷ []) sep = x
join (x ∷ y ∷ ys) sep = x ++ (sep ++ join (y ∷ ys) sep)

pub data NumError : Type 0 where
  syntax_error range_error : NumError

unfoldable pub is_digit : ℕ → Bool
is_digit c = leb b'0' c && leb c b'9'

-- The loop of `strconv.ParseUint` in base 10: a value past 64 bits stops it at once.
unfoldable pub parse_digits : ℕ → Text → ℕ × Option NumError
unfolding is_digit
parse_digits n [] = (n, none)
parse_digits n (c ∷ cs) =
    let more = parse_digits (n * 10 + (c - b'0')) cs in
    if is_digit c
    then if ltb (n * 10 + (c - b'0')) 0x1_0000_0000_0000_0000
      then more
      else (0xffff_ffff_ffff_ffff, some range_error)
    else (0, some syntax_error)

unfoldable pub parse_uint : Text → ℕ × Option NumError
unfolding parse_digits
parse_uint [] = (0, some syntax_error)
parse_uint (c ∷ cs) = parse_digits 0 (c ∷ cs)

-- The end of `strconv.ParseInt`: a value out of range is clamped.
unfoldable pub signed : Bool → ℕ × Option NumError → ℤ × Option NumError
signed negative (n, some syntax_error) = (pos 0, some syntax_error)
signed false (n, e) =
    if ltb n 0x8000_0000_0000_0000
    then (pos n, e)
    else (pos 0x7fff_ffff_ffff_ffff, some range_error)
signed true (n, e) =
    if leb n 0x8000_0000_0000_0000
    then (sub_ℕ 0 n, e)
    else (negsuc 0x7fff_ffff_ffff_ffff, some range_error)

-- `strconv.Atoi`, on a 64-bit `int`.
unfoldable pub atoi : Text → ℤ × Option NumError
unfolding parse_uint signed
atoi [] = (pos 0, some syntax_error)
atoi (c ∷ cs) =
    if c == b'-'
    then signed true (parse_uint cs)
    else if c == b'+'
    then signed false (parse_uint cs)
    else signed false (parse_uint (c ∷ cs))

-- The decimal digits of `n`, before those of `tail`; `fuel` above `n` is enough.
unfoldable pub digits_onto : ℕ → ℕ → Text → Text
digits_onto zero n tail = tail
digits_onto (suc fuel) n tail =
    let more = digits_onto fuel (n / 10) ((b'0' + n % 10) ∷ tail) in
    if ltb n 10 then (b'0' + n) ∷ tail else more

unfoldable pub itoa_ℕ : ℕ → Text
unfolding digits_onto
itoa_ℕ n = digits_onto (suc n) n []

-- `strconv.Itoa`, and `%d` of `fmt.Sprintf`.
unfoldable pub itoa : ℤ → Text
unfolding itoa_ℕ
itoa (pos n) = itoa_ℕ n
itoa (negsuc n) = b'-' ∷ itoa_ℕ (n + 1)
