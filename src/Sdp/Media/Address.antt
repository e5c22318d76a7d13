-- ===== src/Sdp/Media/Address.antt =====
-- A connection line with a dotted address is read as that address; a short one is a panic.
use sipgox.Prelude.{ℕ, ◌<◌, ◌≡◌, ◌≢◌, refl, ap, List, [], ◌∷◌, ◌++◌, arith, length}
use sipgox.Prelude.Int.{pos}
use sipgox.Text.{Text, codes, eq_text, fields, fields_from, is_digit, is_space}
use sipgox.Text.Words.{IsWord, fields_word, split_none}
use sipgox.Outcome.{ok, panic}
use sipgox.Ip.{Ip6Notation, ip_string, dotted, parse_ip}
use sipgox.Ip.Dotted.{
  IsAddress, address, ip_string_address, contains-dotted, dotted-IsWord, parse_ip-dotted,
  to4-mapped,
}
use sipgox.Sdp.{SessionDescription, values, value}
use sipgox.Sdp.Media.{
  second_number, third_number, with_ip, converted, connection_of_fields, connection_of_value,
  connection_information,
}

fields_ip4 :
    (w : Text) → IsWord w → fields (codes "IN IP4 " ++ w) ≡ codes "IN" ∷ codes "IP4" ∷ w ∷ []
unfolding fields_from is_space
fields_ip4 w h = ap (λ ws. codes "IN" ∷ codes "IP4" ∷ ws) (fields_word h)

converted_address :
    (v6 : Ip6Notation) (a b c d : ℕ)
    → IsAddress a b c d
    → converted (codes "IP4") (parse_ip v6 (dotted (address a b c d))) ≡ ok (address a b c d)
unfolding converted eq_text
converted_address v6 a b c d w = rw (parse_ip-dotted v6 a b c d w) (rw (to4-mapped a b c d))

connection_of_fields-address :
    (v6 : Ip6Notation) (a b c d : ℕ)
    → IsAddress a b c d
    → connection_of_fields v6 (codes "IN" ∷ codes "IP4" ∷ dotted (address a b c d) ∷ [])
      ≡ ok (record {
        network_type = codes "IN";
        address_type = codes "IP4";
        ip = address a b c d;
        ttl = pos 0;
        range = pos 0;
      })
unfolding connection_of_fields with_ip second_number third_number is_digit
connection_of_fields-address v6 a b c d w =
    rw (split_none (dotted (address a b c d)) b'/' (contains-dotted a b c d b'/' refl refl))
      (rw (converted_address v6 a b c d w))

-- The connection value that is written for an IPv4 address, first of its type, is read as that
-- address, with no TTL and no range.
pub connection_information_address :
    (v6 : Ip6Notation) (a b c d : ℕ) (sd : SessionDescription) (others : List Text)
    → IsAddress a b c d
    → values sd (codes "c") ≡ (codes "IN IP4 " ++ ip_string v6 (address a b c d)) ∷ others
    → connection_information v6 sd
      ≡ ok (record {
        network_type = codes "IN";
        address_type = codes "IP4";
        ip = address a b c d;
        ttl = pos 0;
        range = pos 0;
      })
unfolding connection_information value connection_of_value
connection_information_address v6 a b c d sd others w e =
    rw (e, ip_string_address v6 a b c d)
      (rw (fields_ip4 _ (dotted-IsWord a b c d)) (connection_of_fields-address v6 a b c d w))

on_fields : (v6 : Ip6Notation) (fs : List Text) → length fs < 3 → connection_of_fields v6 fs ≡ panic
unfolding connection_of_fields
on_fields v6 (a ∷ b ∷ c ∷ fs) h = absurd (omega arith)
on_fields v6 _ h = refl

on_value :
    (v6 : Ip6Notation) (v : Text)
    → v ≢ []
    → length (fields v) < 3
    → connection_of_value v6 v ≡ panic
unfolding connection_of_value
on_value v6 [] ne h = absurd (ne refl)
on_value v6 (c ∷ cs) ne h = on_fields v6 (fields (c ∷ cs)) h

-- A connection value that is not empty and has fewer than three fields makes
-- `ConnectionInformation` read out of range.
pub connection_information_short :
    (v6 : Ip6Notation) (sd : SessionDescription)
    → value sd (codes "c") ≢ []
    → length (fields (value sd (codes "c"))) < 3
    → connection_information v6 sd ≡ panic
unfolding connection_information
connection_information_short v6 sd ne h = on_value v6 (value sd (codes "c")) ne h
