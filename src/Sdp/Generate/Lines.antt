-- ===== src/Sdp/Generate/Lines.antt =====
-- The lines of a generated offer.
use sipgox.Prelude.{
  ℕ, ◌≡◌, refl, ap, ◌∙◌, true, false, List, [], ◌∷◌, ◌++◌, arith, map, ◌==◌, if◌then◌else◌, All,
}
use sipgox.Prelude.Int.{ℤ, pos}
use sipgox.Text.{Text, codes, eq_text, contains, itoa, join, is_digit, is_space}
use sipgox.Text.Lemmas.{contains-append}
use sipgox.Text.Numbers.{contains-itoa}
use sipgox.Text.Words.{contains-join, IsWord}
use sipgox.Ip.{Ip, Ip6Notation, ip_string}
use sipgox.Ip.Dotted.{IsAddress, address, ip_string_address, contains-dotted}
use sipgox.Sdp.Reading.{Line, line_text, IsLine, render, collected}
use sipgox.Sdp.Generate.{Mode, formats_map, generate_for_audio, ntp_timestamp}

-- All of `l ∷ ls` but the last, and the last.
abbrev pub all_but_last : Line → List Line → List Line
all_but_last l [] = []
all_but_last l (x ∷ ls) = l ∷ all_but_last x ls

abbrev pub last_line : Line → List Line → Line
last_line l [] = l
last_line l (x ∷ ls) = last_line x ls

abbrev pub crlf_line : Text → Text → Line
crlf_line key content = record { key = key; content = content; crlf = true }

abbrev pub EndsCrlf : Line → Type 0
EndsCrlf l = l.crlf ≡ true

-- Lines joined by CRLF are complete, but for the last.
pub join-render :
    (l : Line) (ls : List Line)
    → All EndsCrlf (l ∷ ls)
    → join (map line_text (l ∷ ls)) (codes "\r\n")
      ≡ render (all_but_last l ls) (line_text (last_line l ls))
unfolding join
join-render l [] h = refl
join-render l (x ∷ ls) h =
    rw h.0 (ap (λ t. line_text l ++ b'\r' ∷ b'\n' ∷ t) (join-render x ls h.1))

pub All-all_but_last {κ} :
    (P : Line → Type κ) (l : Line) (ls : List Line)
    → All P (l ∷ ls)
    → All P (all_but_last l ls) × P (last_line l ls)
All-all_but_last P l [] h = (tt, h.0)
All-all_but_last P l (x ∷ ls) h =
    let (init, last) = All-all_but_last P x ls h.1 in ((h.0, init), last)

-- The attribute lines of the formats.
unfoldable pub format_lines : List Text → List Line
format_lines [] = []
format_lines (f ∷ fs) =
    let rest = format_lines fs in
    if eq_text f (codes "0")
    then crlf_line (codes "a") (codes "rtpmap:0 PCMU/8000") ∷ rest
    else if eq_text f (codes "8")
    then crlf_line (codes "a") (codes "rtpmap:8 PCMA/8000") ∷ rest
    else rest

formats_map-format_lines : (fs : List Text) → formats_map fs ≡ map line_text (format_lines fs)
unfolding formats_map format_lines
formats_map-format_lines [] = refl
formats_map-format_lines (f ∷ fs) = ground (arith, formats_map-format_lines fs)

-- A well-formed line that CRLF ends.
abbrev pub Good : Line → Type 0
Good l = IsLine l × EndsCrlf l

crlf_line-Good :
    (key : ℕ) (content : Text)
    → (key == b'=') ≡ false
    → (key == b'\n') ≡ false
    → contains content b'\n' ≡ false
    → Good (crlf_line (key ∷ []) content)
unfolding contains
crlf_line-Good key content h k l = ground arith

format_lines-Good : (fs : List Text) → All Good (format_lines fs)
unfolding format_lines contains
format_lines-Good [] = tt
format_lines-Good (f ∷ fs) = ground (
  arith,
  format_lines-Good fs,
  crlf_line-Good b'a' (codes "rtpmap:0 PCMU/8000") refl refl refl,
  crlf_line-Good b'a' (codes "rtpmap:8 PCMA/8000") refl refl refl,
)

pub collected_other :
    (key : Text) (ls : List Line) → All (λ l. eq_text l.key key ≡ false) ls → collected key ls ≡ []
collected_other key [] h = refl
collected_other key (l ∷ ls) h = rw h.0 (collected_other key ls h.1)

pub attributes_other :
    (key : Text) (fs : List Text)
    → eq_text (codes "a") key ≡ false
    → All (λ l. eq_text l.key key ≡ false) (format_lines fs)
unfolding format_lines
attributes_other key [] h = tt
attributes_other key (f ∷ fs) h = ground (arith, attributes_other key fs h)

-- The offer's lines behind the first.
abbrev pub offer_lines : Ip6Notation → ℤ → Ip → ℤ → Mode → List Text → List Line
offer_lines v6 now ip port mode fmts =
    crlf_line (codes "o") (
      codes "user1 "
      ++ (itoa (pos (ntp_timestamp now))
          ++ (b' ' ∷ (itoa (pos (ntp_timestamp now)) ++ (codes " IN IP4 " ++ ip_string v6 ip)))))
    ∷ crlf_line (codes "s") (codes "Sip Go Media")
    ∷ crlf_line (codes "c") (codes "IN IP4 " ++ ip_string v6 ip)
    ∷ crlf_line (codes "t") (codes "0 0")
    ∷ crlf_line (codes "m") (
        codes "audio "
        ++ (itoa port ++ (codes " RTP/AVP " ++ (join fmts (codes " ") ++ codes " 101"))))
    ∷ crlf_line (codes "a") mode
    ∷ crlf_line (codes "a") (codes "rtpmap:101 telephone-event/8000")
    ∷ crlf_line (codes "a") (codes "fmtp:101 0-16")
    ∷ format_lines fmts

abbrev pub version_line : Line
version_line = crlf_line (codes "v") (codes "0")

pub generate-offer_lines :
    (v6 : Ip6Notation) (now : ℤ) (ip : Ip) (port : ℤ) (mode : Mode) (fmts : List Text)
    → generate_for_audio v6 now ip ip port mode fmts
      ≡ join (map line_text (version_line ∷ offer_lines v6 now ip port mode fmts)) (codes "\r\n")
unfolding generate_for_audio
generate-offer_lines v6 now ip port mode fmts = rw (formats_map-format_lines fmts)

-- What the offer is made from: an IPv4 address, a port, a mode on one line and formats that are words.
pub record IsOffer (ip : Ip) (mode : Mode) (fmts : List Text) : Type 0 where
  pub a : ℕ
  pub b : ℕ
  pub c : ℕ
  pub d : ℕ
  pub ip_is : ip ≡ address a b c d
  pub in_range : IsAddress a b c d
  pub mode_line : contains mode b'\n' ≡ false
  pub format_words : All IsWord fmts

contains-ip_string :
    (v6 : Ip6Notation) {ip : Ip} {mode : Mode} {fmts : List Text}
    → IsOffer ip mode fmts
    → contains (ip_string v6 ip) b'\n' ≡ false
unfolding is_digit
contains-ip_string v6 w =
    rw (w.ip_is, ip_string_address v6 w.a w.b w.c w.d)
      (contains-dotted w.a w.b w.c w.d b'\n' refl refl)

contains-itoa-append :
    (n sep : ℕ) (rest : Text)
    → is_digit sep ≡ false
    → contains (itoa (pos n) ++ rest) sep ≡ contains rest sep
contains-itoa-append n sep rest h = rw (contains-append, contains-itoa n sep h)

numbered :
    (n : ℕ) (rest : Text)
    → contains rest b'\n' ≡ false
    → contains (itoa (pos n) ++ rest) b'\n' ≡ false
unfolding is_digit
numbered n rest h = contains-itoa-append n b'\n' rest refl ∙ h

formats_line :
    (fmts : List Text)
    → All IsWord fmts
    → contains (join fmts (codes " ") ++ codes " 101") b'\n' ≡ false
unfolding is_space
formats_line fmts h =
    contains-append (join fmts (codes " ")) _ _
    ∙ rw (contains-join fmts b'\n' refl refl h) (unfold contains in refl)

pub offer_lines-Good :
    (v6 : Ip6Notation) (now : ℤ) (ip : Ip) (port : ℕ) (mode : Mode) (fmts : List Text)
    → IsOffer ip mode fmts
    → All Good (version_line ∷ offer_lines v6 now ip (pos port) mode fmts)
unfolding contains
offer_lines-Good v6 now ip port mode fmts w = (
  crlf_line-Good b'v' _ refl refl refl,
  (
    crlf_line-Good b'o' _ refl refl (numbered _ _ (numbered _ _ (contains-ip_string v6 w))),
    (
      crlf_line-Good b's' _ refl refl refl,
      (
        crlf_line-Good b'c' _ refl refl (contains-ip_string v6 w),
        (
          crlf_line-Good b't' _ refl refl refl,
          (
            crlf_line-Good b'm' _ refl refl (numbered port _ (formats_line fmts w.format_words)),
            (
              crlf_line-Good b'a' _ refl refl w.mode_line,
              (
                crlf_line-Good b'a' _ refl refl refl,
                (crlf_line-Good b'a' _ refl refl refl, format_lines-Good fmts),
              ),
            ),
          ),
        ),
      ),
    ),
  ),
)
