-- ===== src/Sdp/Media/Endings.antt =====
-- The two readers of a description return or panic: they hold no loop that could go on.
use sipgox.Prelude.{◌≢◌, refl, List, [], ◌∷◌, arith}
use sipgox.Text.{Text, fields}
use sipgox.Ip.{Ip, Ip6Notation}
use sipgox.Outcome.{Outcome, ok, diverges}
use sipgox.Sdp.{SessionDescription}
use sipgox.Sdp.Media.{
  media_of_fields, media_of_value, media_description, non_nil, converted, with_ip,
  connection_of_fields, connection_of_value, connection_information,
}

media_of_fields-ne-diverges : (fs : List Text) → media_of_fields fs ≢ diverges
unfolding media_of_fields
media_of_fields-ne-diverges (a ∷ b ∷ c ∷ d ∷ fs) e = cc
media_of_fields-ne-diverges _ e = cc

media_of_value-ne-diverges : (v : Text) → media_of_value v ≢ diverges
unfolding media_of_value
media_of_value-ne-diverges [] e = cc
media_of_value-ne-diverges (c ∷ cs) e = media_of_fields-ne-diverges (fields (c ∷ cs)) e

pub media_description-ne-diverges :
    (sd : SessionDescription) (media_type : Text) → media_description sd media_type ≢ diverges
unfolding media_description
media_description-ne-diverges sd media_type = media_of_value-ne-diverges _

non_nil-ne-diverges : (ip : Ip) → non_nil ip ≢ diverges
unfolding non_nil
non_nil-ne-diverges [] e = cc
non_nil-ne-diverges (b ∷ bs) e = cc

converted-ne-diverges : (address_type : Text) (ip : Ip) → converted address_type ip ≢ diverges
unfolding converted non_nil
converted-ne-diverges address_type ip e = ground arith

with_ip-ne-diverges :
    (network address_type : Text) (parts : List Text) (ip : Outcome Ip)
    → ip ≢ diverges
    → with_ip network address_type parts ip ≢ diverges
unfolding with_ip
with_ip-ne-diverges network address_type parts (ok ip) h e = cc
with_ip-ne-diverges network address_type parts diverges h e = h refl
with_ip-ne-diverges network address_type parts _ h e = cc

connection_of_fields-ne-diverges :
    (v6 : Ip6Notation) (fs : List Text) → connection_of_fields v6 fs ≢ diverges
unfolding connection_of_fields
connection_of_fields-ne-diverges v6 (network ∷ address_type ∷ address ∷ rest) =
    with_ip-ne-diverges network address_type _ _ (converted-ne-diverges address_type _)
connection_of_fields-ne-diverges v6 _ = λ e. cc

connection_of_value-ne-diverges :
    (v6 : Ip6Notation) (v : Text) → connection_of_value v6 v ≢ diverges
unfolding connection_of_value
connection_of_value-ne-diverges v6 [] = λ e. cc
connection_of_value-ne-diverges v6 (c ∷ cs) = connection_of_fields-ne-diverges v6 (fields (c ∷ cs))

pub connection_information-ne-diverges :
    (v6 : Ip6Notation) (sd : SessionDescription) → connection_information v6 sd ≢ diverges
unfolding connection_information
connection_information-ne-diverges v6 sd = connection_of_value-ne-diverges v6 _
