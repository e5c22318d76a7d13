-- ===== src/Ip.antt =====
-- Go's `net.IP`: its bytes, none of them for nil, with dotted IPv4 notation. The notation of IPv6
-- is a parameter, `Ip6Notation`.
pub mod Dotted
use sipgox.Prelude.{
  ℕ, zero, suc, ◌+◌, ◌-◌, ◌*◌, ◌/◌, ◌%◌, Bool, true, false, ◌&&◌, ◌||◌, Option, none, some, List,
  [], ◌∷◌, ◌++◌, ltb, leb, ◌==◌, if◌then◌else◌, length, replicate, take, drop,
}
use sipgox.Text.{Text, codes, eq_text, split, is_digit, itoa}
use sipgox.Prelude.Int.{pos}

abbrev pub Ip : Type 0
Ip = List ℕ

-- How the standard library reads a text whose first separator is a colon, and prints sixteen bytes
-- that are no IPv4 address.
pub record Ip6Notation : Type 0 where
  pub parse : Text → Option Ip
  pub print : Ip → Text

abbrev pub v4_in_v6_prefix : Ip
v4_in_v6_prefix = 0 ∷ 0 ∷ 0 ∷ 0 ∷ 0 ∷ 0 ∷ 0 ∷ 0 ∷ 0 ∷ 0 ∷ 255 ∷ 255 ∷ []

unfoldable pub to4 : Ip → Ip
to4 ip =
    if length ip == 4
    then ip
    else if length ip == 16 && eq_text (take 12 ip) v4_in_v6_prefix
    then drop 12 ip
    else []

unfoldable pub to16 : Ip → Ip
to16 ip = if length ip == 4 then v4_in_v6_prefix ++ ip else if length ip == 16 then ip else []

-- The digits of one field of a dotted address: no leading zero, at most 255.
octet_from : ℕ → Text → Option ℕ
octet_from val [] = some val
octet_from val (c ∷ cs) =
    let more = octet_from (val * 10 + (c - b'0')) cs in
    if is_digit c && leb 1 val && leb (val * 10 + (c - b'0')) 255 then more else none

unfoldable pub octet : Text → Option ℕ
unfolding octet_from is_digit
octet [] = none
octet (c ∷ []) = if is_digit c then some (c - b'0') else none
octet (c ∷ d ∷ cs) = if is_digit c then octet_from (c - b'0') (d ∷ cs) else none

four : Option ℕ → Option ℕ → Option ℕ → Option ℕ → Option Ip
four (some a) (some b) (some c) (some d) = some (v4_in_v6_prefix ++ a ∷ b ∷ c ∷ d ∷ [])
four _ _ _ _ = none

four_fields : List Text → Option Ip
unfolding octet four
four_fields (a ∷ b ∷ c ∷ d ∷ []) = four (octet a) (octet b) (octet c) (octet d)
four_fields _ = none

-- The first of `.`, `:` and `%` in a text.
first_separator : Text → ℕ
first_separator [] = 0
first_separator (c ∷ cs) = if c == b'.' || c == b':' || c == b'%' then c else first_separator cs

or_nil : Option Ip → Ip
or_nil none = []
or_nil (some ip) = ip

-- `net.ParseIP`, whose result is nil or has sixteen bytes.
unfoldable pub parse_ip : Ip6Notation → Text → Ip
unfolding four_fields first_separator or_nil
parse_ip v6 s =
    if first_separator s == b'.'
    then or_nil (four_fields (split s b'.'))
    else if first_separator s == b':'
    then or_nil (v6.parse s)
    else []

unfoldable pub dotted : Ip → Text
dotted (a ∷ b ∷ c ∷ d ∷ []) =
    itoa (pos a) ++ (b'.' ∷ (itoa (pos b) ++ (b'.' ∷ (itoa (pos c) ++ (b'.' ∷ itoa (pos d))))))
dotted _ = []

hex_digit : ℕ → ℕ
hex_digit n = if ltb n 10 then b'0' + n else b'a' + n - 10

hex_string : Ip → Text
unfolding hex_digit
hex_string [] = []
hex_string (b ∷ bs) = hex_digit (b / 16) ∷ hex_digit (b % 16) ∷ hex_string bs

-- `IP.String`.
unfoldable pub ip_string : Ip6Notation → Ip → Text
unfolding dotted hex_string
ip_string v6 [] = codes "<nil>"
ip_string v6 (b ∷ bs) =
    if length (to4 (b ∷ bs)) == 4
    then dotted (to4 (b ∷ bs))
    else if length bs == 15
    then v6.print (b ∷ bs)
    else b'?' ∷ hex_string (b ∷ bs)
