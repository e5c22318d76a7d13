-- ===== src/Sdp/Generate/Offer.antt =====
-- What `Unmarshal` reads from a generated offer.
use sipgox.Prelude.{ℕ, ◌≡◌, ◌≢◌, refl, ◌∙◌, false, List, [], ◌∷◌, ◌++◌, arith, map, All}
use sipgox.Prelude.Int.{ℤ, pos}
use sipgox.Text.{Text, codes, eq_text, itoa, join, is_space}
use sipgox.Text.Words.{unspaced, fields-join, unspaced, fields-join}
use sipgox.Outcome.{ok}
use sipgox.Ip.{Ip, Ip6Notation, ip_string}
use sipgox.Sdp.Media.Address.{connection_information_address}
use sipgox.Sdp.Media.{media_description, connection_information, ports_text}
use sipgox.Sdp.Media.Reread.{IsCount, media_description_first}
use sipgox.Sdp.{SessionDescription, values, unmarshal}
use sipgox.Sdp.Reading.{Line, line_text, IsLine, collected}
use sipgox.Sdp.Reading.Lines.{unmarshal_lines}
use sipgox.Sdp.Generate.{Mode, generate_for_audio}
use sipgox.Sdp.Generate.Lines.{
  all_but_last, last_line, IsOffer, join-render, All-all_but_last, format_lines, Good, EndsCrlf,
  crlf_line, collected_other, attributes_other, offer_lines, version_line, generate-offer_lines,
  offer_lines-Good,
}

Good-IsLine : (ls : List Line) → All Good ls → All IsLine ls
Good-IsLine [] h = tt
Good-IsLine (l ∷ ls) h = (h.0.0, Good-IsLine ls h.1)

Good-EndsCrlf : (ls : List Line) → All Good ls → All EndsCrlf ls
Good-EndsCrlf [] h = tt
Good-EndsCrlf (l ∷ ls) h = (h.0.1, Good-EndsCrlf ls h.1)

-- Of good lines joined by CRLF, `Unmarshal` collects all but the last.
unmarshal-join :
    (l : Line) (ls : List Line)
    → All Good (l ∷ ls)
    → let text = join (map line_text (l ∷ ls)) (codes "\r\n") in
      ((unmarshal text []).1 ≡ ok tt)
      × ((key : Text) → values (unmarshal text []).0 key ≡ collected key (all_but_last l ls))
unfolding values
unmarshal-join l ls h =
    let (init, last) = All-all_but_last IsLine l ls (Good-IsLine (l ∷ ls) h) in
    rw (join-render l ls (Good-EndsCrlf (l ∷ ls) h))
      (unmarshal_lines (all_but_last l ls) (line_text (last_line l ls)) [] init last.one_line)

attributes_none :
    (key : Text) (fs : List Text)
    → eq_text (codes "a") key ≡ false
    → collected key (all_but_last (crlf_line (codes "a") (codes "fmtp:101 0-16")) (format_lines fs))
      ≡ []
attributes_none key fs h =
    collected_other key _
      (All-all_but_last (λ l. eq_text l.key key ≡ false) _ _ (h, attributes_other key fs h)).0

collected-offer :
    (v6 : Ip6Notation) (now : ℤ) (ip : Ip) (port : ℤ) (mode : Mode) (fmts : List Text)
    → let ls = all_but_last version_line (offer_lines v6 now ip port mode fmts) in
      (collected (codes "m") ls
        ≡ (codes "audio "
            ++ (itoa port ++ (codes " RTP/AVP " ++ (join fmts (codes " ") ++ codes " 101"))))
          ∷ [])
      × (collected (codes "c") ls ≡ (codes "IN IP4 " ++ ip_string v6 ip) ∷ [])
unfolding eq_text
collected-offer v6 now ip port mode fmts =
    rw (attributes_none (codes "m") fmts refl, attributes_none (codes "c") fmts refl) (refl, refl)

-- A generated offer is parsed without an error. Its one media value and its one connection value
-- are those that were written, whatever formats it lists.
pub unmarshal-generate_for_audio :
    (v6 : Ip6Notation) (now : ℤ) (ip : Ip) (port : ℕ) (mode : Mode) (fmts : List Text)
    → IsOffer ip mode fmts
    → let read = unmarshal (generate_for_audio v6 now ip ip (pos port) mode fmts) [] in
      (read.1 ≡ ok tt)
      × (values read.0 (codes "m")
          ≡ (codes "audio "
              ++ (itoa (pos port)
                  ++ (codes " RTP/AVP " ++ (join fmts (codes " ") ++ codes " 101"))))
            ∷ [])
      × (values read.0 (codes "c") ≡ (codes "IN IP4 " ++ ip_string v6 ip) ∷ [])
unmarshal-generate_for_audio v6 now ip port mode fmts w =
    let (done, all) =
      unmarshal-join version_line (offer_lines v6 now ip (pos port) mode fmts)
        (offer_lines-Good v6 now ip port mode fmts w) in
    let (m, c) = collected-offer v6 now ip (pos port) mode fmts in
    rw (generate-offer_lines v6 now ip (pos port) mode fmts)
      (done, all (codes "m") ∙ m, all (codes "c") ∙ c)

append-ne_nil : (fs : List Text) (t : Text) → fs ++ t ∷ [] ≢ []
append-ne_nil [] t e = cc
append-ne_nil (f ∷ fs) t e = cc

connection_first :
    (v6 : Ip6Notation) (sd : SessionDescription) (ip : Ip) {mode : Mode} {fmts : List Text}
    → IsOffer ip mode fmts
    → values sd (codes "c") ≡ (codes "IN IP4 " ++ ip_string v6 ip) ∷ []
    → connection_information v6 sd
      ≡ ok (record {
        network_type = codes "IN";
        address_type = codes "IP4";
        ip = ip;
        ttl = pos 0;
        range = pos 0;
      })
connection_first v6 sd ip w e =
    rw w.ip_is
      (connection_information_address v6 w.a w.b w.c w.d sd [] w.in_range (rw (← w.ip_is) e))

-- Reading an offer that is made from an IPv4 address, a port of 63 bits, a mode on one line and formats
-- that are words gives back what it was made from: its port, its formats with 101 behind
-- them, and its address.
pub read_offer :
    (v6 : Ip6Notation) (now : ℤ) (port : ℕ) (ip : Ip) (mode : Mode) (fmts : List Text)
    → IsOffer ip mode fmts
    → IsCount port
    → let sd = (unmarshal (generate_for_audio v6 now ip ip (pos port) mode fmts) []).0 in
      (media_description sd (codes "audio")
        ≡ ok (record {
          media_type = codes "audio";
          port = pos port;
          port_numbers = pos 0;
          proto = codes "RTP/AVP";
          formats = fmts ++ codes "101" ∷ [];
        }))
      × (connection_information v6 sd
          ≡ ok (record {
            network_type = codes "IN";
            address_type = codes "IP4";
            ip = ip;
            ttl = pos 0;
            range = pos 0;
          }))
unfolding unspaced is_space ports_text
read_offer v6 now port ip mode fmts w count =
    let (done, m, c) = unmarshal-generate_for_audio v6 now ip port mode fmts w in
    (
      media_description_first _ port 0 (codes "audio") (codes "RTP/AVP")
          (join fmts (codes " ") ++ codes " 101") (fmts ++ codes "101" ∷ []) [] m (refl, λ e. cc)
          (refl, λ e. cc) count (omega arith) (append-ne_nil fmts (codes "101"))
          (fields-join fmts (codes "101") w.format_words (refl, λ e. cc)),
      connection_first v6 _ ip w c,
    )
