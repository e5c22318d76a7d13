-- ===== src/Sdp/Media.antt =====
-- sdp/sdp.go: the media and connection lines of a description, and sdp/formats.go.
pub mod Reread
pub mod Address
pub mod Endings
use sipgox.Prelude.{
  ℕ, zero, suc, ◌+◌, ◌-◌, Bool, true, false, Option, none, some, List, [], ◌∷◌, ◌++◌, ltb, ◌==◌,
  if◌then◌else◌, length, take, drop,
}
use sipgox.Prelude.Int.{ℤ, pos, negsuc}
use sipgox.Text.{Text, codes, eq_text, index, fields, split, atoi, itoa, join, NumError}
use sipgox.Ip.{Ip, Ip6Notation, parse_ip, to4, to16}
use sipgox.Outcome.{
  Outcome, ◌>>=◌, ok, err, panic, GoError, media_not_found, not_enough_fields, no_connection,
  not_ip4,
}
use sipgox.Sdp.{SessionDescription, values, value}

pub record MediaDescription : Type 0 where
  pub media_type : Text
  pub port : ℤ
  pub port_numbers : ℤ
  pub proto : Text
  pub formats : List Text

unfoldable pub ports_text : ℤ → ℤ → Text
ports_text port (pos (suc n)) = itoa port ++ b'/' ∷ itoa (pos (suc n))
ports_text port (pos zero) = itoa port
ports_text port (negsuc n) = itoa port

-- `MediaDescription.String`.
unfoldable pub media_string : MediaDescription → Text
unfolding ports_text
media_string m =
    codes "m="
    ++ (m.media_type
        ++ (b' '
            ∷ (ports_text m.port m.port_numbers
                ++ (b' ' ∷ (m.proto ++ (b' ' ∷ join m.formats (codes " ")))))))

-- Whether the value is one of the wanted media: the text before its first space, unless that is empty.
is_media : Text → Text → Option ℕ → Bool
is_media val media_type none = false
is_media val media_type (some zero) = false
is_media val media_type (some (suc i)) = eq_text (take (suc i) val) media_type

-- The loop over the values, which leaves the empty text when none fits.
unfoldable pub find_media : List Text → Text → Text
unfolding is_media
find_media [] media_type = []
find_media (val ∷ vals) media_type =
    if is_media val media_type (index val b' ') then val else find_media vals media_type

first_number : List Text → ℤ
first_number [] = pos 0
first_number (p ∷ ps) = (atoi p).0

-- `Atoi`'s error is dropped, and its value kept.
second_number : List Text → ℤ
second_number [] = pos 0
second_number (p ∷ []) = pos 0
second_number (p ∷ q ∷ ps) = (atoi q).0

media_of_fields : List Text → Outcome MediaDescription
unfolding first_number second_number
media_of_fields (media ∷ ports ∷ proto ∷ f ∷ fs) = ok (record {
  media_type = media;
  port = first_number (split ports b'/');
  port_numbers = second_number (split ports b'/');
  proto = proto;
  formats = f ∷ fs;
})
media_of_fields _ = err not_enough_fields

media_of_value : Text → Outcome MediaDescription
unfolding media_of_fields
media_of_value [] = err media_not_found
media_of_value (c ∷ cs) = media_of_fields (fields (c ∷ cs))

-- `SessionDescription.MediaDescription`.
unfoldable pub media_description : SessionDescription → Text → Outcome MediaDescription
unfolding media_of_value
media_description sd media_type = media_of_value (find_media (values sd (codes "m")) media_type)

pub record ConnectionInformation : Type 0 where
  pub network_type : Text
  pub address_type : Text
  pub ip : Ip
  pub ttl : ℤ
  pub range : ℤ

first_part : List Text → Text
first_part [] = []
first_part (p ∷ ps) = p

third_number : List Text → ℤ
third_number (p ∷ q ∷ r ∷ ps) = (atoi r).0
third_number _ = pos 0

non_nil : Ip → Outcome Ip
non_nil [] = err not_ip4
non_nil (b ∷ bs) = ok (b ∷ bs)

with_ip : Text → Text → List Text → Outcome Ip → Outcome ConnectionInformation
unfolding second_number third_number
with_ip network address_type parts ip = ip >>= λ ip. ok (record {
  network_type = network;
  address_type = address_type;
  ip = ip;
  ttl = second_number parts;
  range = third_number parts;
})

-- The `switch` on the address type.
converted : Text → Ip → Outcome Ip
unfolding non_nil
converted address_type ip =
    if eq_text address_type (codes "IP4")
    then non_nil (to4 ip)
    else if eq_text address_type (codes "IP6")
    then non_nil (to16 ip)
    else ok ip

connection_of_fields : Ip6Notation → List Text → Outcome ConnectionInformation
unfolding with_ip converted first_part
connection_of_fields v6 (network ∷ address_type ∷ address ∷ rest) =
    with_ip network address_type (split address b'/')
      (converted address_type (parse_ip v6 (first_part (split address b'/'))))
connection_of_fields v6 _ = panic

connection_of_value : Ip6Notation → Text → Outcome ConnectionInformation
unfolding connection_of_fields
connection_of_value v6 [] = err no_connection
connection_of_value v6 (c ∷ cs) = connection_of_fields v6 (fields (c ∷ cs))

-- `SessionDescription.ConnectionInformation`. A value of fewer than three fields is read out of range.
unfoldable pub connection_information :
    Ip6Notation → SessionDescription → Outcome ConnectionInformation
unfolding connection_of_value
connection_information v6 sd = connection_of_value v6 (value sd (codes "c"))

abbrev pub format_type_ulaw : Text
format_type_ulaw = codes "0"

abbrev pub format_type_alaw : Text
format_type_alaw = codes "8"

number_onto : ℤ × Option NumError → List ℤ × Option NumError → List ℤ × Option NumError
number_onto (n, some e) rest = ([], some e)
number_onto (n, none) (ns, some e) = ([], some e)
number_onto (n, none) (ns, none) = (n ∷ ns, none)

-- `Formats.ToNumeric`: no numbers beside an error.
unfoldable pub to_numeric : List Text → List ℤ × Option NumError
unfolding number_onto
to_numeric [] = ([], none)
to_numeric (f ∷ fs) = number_onto (atoi f) (to_numeric fs)

unfoldable pub format_numeric : Text → ℕ
format_numeric f =
    if eq_text f format_type_alaw then 8 else if eq_text f format_type_ulaw then 0 else 0
