-- ===== src/Ip/Dotted.antt =====
-- A dotted address is read back as it was printed.
use sipgox.Prelude.{
  ℕ, ◌<◌, ◌≡◌, refl, ap, ◌∙◌, Bool, true, false, Option, none, some, [], ◌∷◌, ◌++◌, arith, ◌==◌,
  ==_iff,
}
use sipgox.Prelude.Int.{pos}
use sipgox.Prelude.Tables.{holds_below, holds_below_at}
use sipgox.Text.{eq_text, Text, contains, split, is_digit, itoa, itoa_ℕ}
use sipgox.Text.Lemmas.{contains-append, contains-append}
use sipgox.Text.Numbers.{itoa-IsWord, contains-itoa}
use sipgox.Text.Words.{unspaced-append, append-ne-nil, IsWord, split_at, split_none, unspaced}
use sipgox.Ip.{
  Ip, Ip6Notation, v4_in_v6_prefix, to4, octet, first_separator, parse_ip, dotted, ip_string,
}

abbrev reads : ℕ → Option ℕ → Bool
reads n none = false
reads n (some m) = m == n

octet_table : holds_below (λ n. reads n (octet (itoa_ℕ n))) 256 ≡ true
unfolding holds_below octet itoa_ℕ
octet_table = refl

reads-eq : (n : ℕ) (r : Option ℕ) → reads n r ≡ true → r ≡ some n
reads-eq n none h = cc
reads-eq n (some m) h = ap some ((==_iff m n).0 h)

octet-itoa : (n : ℕ) → n < 256 → octet (itoa (pos n)) ≡ some n
unfolding itoa
octet-itoa n h = reads-eq n _ (holds_below_at _ 256 n h octet_table)

first_separator_skip :
    (s rest : Text)
    → contains s b'.' ≡ false
    → contains s b':' ≡ false
    → contains s b'%' ≡ false
    → first_separator (s ++ rest) ≡ first_separator rest
unfolding first_separator contains
first_separator_skip [] rest h k l = refl
first_separator_skip (x ∷ s) rest h k l = ground (arith, first_separator_skip s rest)

first_separator-dotted :
    (n : ℕ) (rest : Text) → first_separator (itoa (pos n) ++ b'.' ∷ rest) ≡ b'.'
unfolding is_digit
first_separator-dotted n rest =
    first_separator_skip (itoa (pos n)) (b'.' ∷ rest) (contains-itoa n _ refl)
      (contains-itoa n _ refl) (contains-itoa n _ refl)
    ∙ unfold first_separator in refl

-- The four octets of an address.
pub record IsAddress (a b c d : ℕ) : Type 0 where
  pub first : a < 256
  pub second : b < 256
  pub third : c < 256
  pub fourth : d < 256

abbrev pub address : ℕ → ℕ → ℕ → ℕ → Ip
address a b c d = a ∷ b ∷ c ∷ d ∷ []

split-dotted :
    (a b c d : ℕ)
    → split (dotted (address a b c d)) b'.'
      ≡ itoa (pos a) ∷ itoa (pos b) ∷ itoa (pos c) ∷ itoa (pos d) ∷ []
unfolding dotted is_digit
split-dotted a b c d = rw (
  split_at (itoa (pos a)) _ b'.' (contains-itoa a _ refl),
  split_at (itoa (pos b)) _ b'.' (contains-itoa b _ refl),
  split_at (itoa (pos c)) _ b'.' (contains-itoa c _ refl),
  split_none (itoa (pos d)) b'.' (contains-itoa d _ refl),
)

pub ip_string_address :
    (v6 : Ip6Notation) (a b c d : ℕ) → ip_string v6 (address a b c d) ≡ dotted (address a b c d)
unfolding ip_string to4
ip_string_address v6 a b c d = refl

pub parse_ip-dotted :
    (v6 : Ip6Notation) (a b c d : ℕ)
    → IsAddress a b c d
    → parse_ip v6 (dotted (address a b c d)) ≡ v4_in_v6_prefix ++ address a b c d
unfolding parse_ip dotted
parse_ip-dotted v6 a b c d w = rw (first_separator-dotted a _) (
    rw (split-dotted a b c d) (
      rw
        (octet-itoa a w.first, octet-itoa b w.second, octet-itoa c w.third, octet-itoa d w.fourth)))

pub to4-mapped : (a b c d : ℕ) → to4 (v4_in_v6_prefix ++ address a b c d) ≡ address a b c d
unfolding to4 eq_text
to4-mapped a b c d = refl

-- Printing four octets and parsing the text gives them back, in the sixteen-byte form whose `To4`
-- is the address.
pub to4-parse_ip-ip_string :
    (v6 : Ip6Notation) (a b c d : ℕ)
    → IsAddress a b c d
    → to4 (parse_ip v6 (ip_string v6 (address a b c d))) ≡ address a b c d
to4-parse_ip-ip_string v6 a b c d w =
    ap (λ s. to4 (parse_ip v6 s)) (ip_string_address v6 a b c d)
    ∙ ap to4 (parse_ip-dotted v6 a b c d w)
    ∙ to4-mapped a b c d

contains-itoa-append :
    (n sep : ℕ) (rest : Text)
    → is_digit sep ≡ false
    → contains (itoa (pos n) ++ rest) sep ≡ contains rest sep
contains-itoa-append n sep rest h = rw (contains-append, contains-itoa n sep h)

contains_dot :
    (sep : ℕ) (rest : Text) → (b'.' == sep) ≡ false → contains (b'.' ∷ rest) sep ≡ contains rest sep
unfolding contains
contains_dot sep rest h = rw h

-- Nothing but digits and dots stands in a printed address.
pub contains-dotted :
    (a b c d sep : ℕ)
    → is_digit sep ≡ false
    → (b'.' == sep) ≡ false
    → contains (dotted (address a b c d)) sep ≡ false
unfolding dotted
contains-dotted a b c d sep h k =
    contains-itoa-append a sep _ h
    ∙ contains_dot sep _ k
    ∙ contains-itoa-append b sep _ h
    ∙ contains_dot sep _ k
    ∙ contains-itoa-append c sep _ h
    ∙ contains_dot sep _ k
    ∙ contains-itoa d sep h

-- A number and a dot in front of a word.
dot_word :
    (n : ℕ) (rest : Text) → unspaced rest ≡ true → unspaced (itoa (pos n) ++ b'.' ∷ rest) ≡ true
dot_word n rest h =
    unspaced-append (itoa (pos n)) (b'.' ∷ rest) (itoa-IsWord n).0 (unfold unspaced in h)

pub dotted-IsWord : (a b c d : ℕ) → IsWord (dotted (address a b c d))
unfolding dotted
dotted-IsWord a b c d =
    (dot_word a _ (dot_word b _ (dot_word c _ (itoa-IsWord d).0)), append-ne-nil (itoa (pos a)) _ _)
