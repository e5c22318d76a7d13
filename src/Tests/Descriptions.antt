-- ===== src/Tests/Descriptions.antt =====
-- Addresses and session descriptions.
use sipgox.Prelude.{ℕ, ◌≡◌, ◌≢◌, refl, true, false, none, List, [], ◌∷◌, ◌++◌, arith, All, drop}
use sipgox.Prelude.Int.{pos}
use sipgox.Text.{Text, codes, eq_text, contains, is_space}
use sipgox.Text.Words.{IsWord, unspaced}
use sipgox.Outcome.{ok, panic, diverges}
use sipgox.Ip.{Ip, Ip6Notation}
use sipgox.Ip.Dotted.{IsAddress, address}
use sipgox.Sdp.{SessionDescription, values, unmarshal}
use sipgox.Sdp.Reading.{Line, IsLine, ends_with, render, collected}
use sipgox.Sdp.Reading.Lines.{unmarshal_lines, unmarshal_empty_line}
use sipgox.Sdp.Reading.Totality.{unmarshal_total}
use sipgox.Sdp.Media.{MediaDescription, media_string, media_description}
use sipgox.Sdp.Media.Reread.{IsPrintable, media_description-media_string}
use sipgox.Sdp.Generate.{mode_sendrecv}
use sipgox.Sdp.Generate.Lines.{IsOffer, crlf_line}

-- No IPv6 address is used here.
abbrev pub no_ip6 : Ip6Notation
no_ip6 = record { parse = λ s. none; print = λ ip. codes "::" }

abbrev pub host : Ip
host = address 192 168 0 7

host-IsAddress : IsAddress 192 168 0 7
host-IsAddress = ground arith

abbrev owner : Line
owner = crlf_line (codes "o") (codes "me")

abbrev attribute : Line
attribute = record { key = codes "a"; content = codes "x=y"; crlf = false }

abbrev two_lines : List Line
two_lines = owner ∷ attribute ∷ []

owner-IsLine : IsLine owner
unfolding contains
owner-IsLine = record {
  key_ne_nil = λ e. cc;
  key_plain = refl;
  one_line = refl;
  no_return = λ e. cc;
}

attribute-IsLine : IsLine attribute
unfolding contains ends_with
attribute-IsLine = record {
  key_ne_nil = λ e. cc;
  key_plain = refl;
  one_line = refl;
  no_return = λ e. refl;
}

two_lines-IsLine : All IsLine two_lines
two_lines-IsLine = (owner-IsLine, (attribute-IsLine, tt))

no_newline : contains (codes "b=cut") b'\n' ≡ false
unfolding contains
no_newline = refl

unmarshal_lines_example :
    let text = render two_lines (codes "b=cut") in
    ((unmarshal text []).1 ≡ ok tt)
    × ((key : Text) → values (unmarshal text []).0 key ≡ values [] key ++ collected key two_lines)
unmarshal_lines_example = unmarshal_lines two_lines (codes "b=cut") [] two_lines-IsLine no_newline

unmarshal_empty_line_example : (unmarshal (render two_lines (b'\n' ∷ codes "t=0 0")) []).1 ≡ panic
unmarshal_empty_line_example = unmarshal_empty_line two_lines (codes "t=0 0") [] two_lines-IsLine

unmarshal_total_example : (unmarshal (codes "v=0\r\nx") []).1 ≢ diverges
unmarshal_total_example = unmarshal_total (codes "v=0\r\nx") []

abbrev audio : MediaDescription
audio = record {
  media_type = codes "audio";
  port = pos 4000;
  port_numbers = pos 2;
  proto = codes "RTP/AVP";
  formats = codes "0" ∷ codes "8" ∷ [];
}

word : (c : ℕ) (cs : Text) → unspaced (c ∷ cs) ≡ true → IsWord (c ∷ cs)
word c cs h = (h, λ e. cc)

audio-IsPrintable : IsPrintable audio 4000 2 (codes "0") (codes "8" ∷ [])
unfolding unspaced is_space
audio-IsPrintable = record {
  media_word = word b'a' (codes "udio") refl;
  proto_word = word b'R' (codes "TP/AVP") refl;
  format_words = (word b'0' [] refl, (word b'8' [] refl, tt));
  formats_are = refl;
  port_is = refl;
  port_numbers_is = refl;
  port_count = omega arith;
  port_numbers_count = omega arith;
}

abbrev one_media : SessionDescription
one_media = (codes "m", drop 2 (media_string audio) ∷ []) ∷ []

values-one_media : values one_media (codes "m") ≡ drop 2 (media_string audio) ∷ []
unfolding values eq_text
values-one_media = refl

media_description-media_string_example : media_description one_media (codes "audio") ≡ ok audio
media_description-media_string_example =
    media_description-media_string audio 4000 2 (codes "0") (codes "8" ∷ []) [] one_media
      audio-IsPrintable values-one_media

abbrev pub both : List Text
both = codes "0" ∷ codes "8" ∷ []

pub host-IsOffer : IsOffer host mode_sendrecv both
unfolding contains unspaced is_space
host-IsOffer = record {
  a = 192;
  b = 168;
  c = 0;
  d = 7;
  ip_is = refl;
  in_range = host-IsAddress;
  mode_line = refl;
  format_words = (word b'0' [] refl, (word b'8' [] refl, tt));
}
