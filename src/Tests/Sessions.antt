-- ===== src/Tests/Sessions.antt =====
-- The negotiation of a session by descriptions.
use sipgox.Prelude.{◌*◌, ◌≡◌, ◌≢◌, refl, none, some, [], ◌∷◌, ◌++◌, arith}
use sipgox.Prelude.Int.{pos}
use sipgox.Text.{Text, codes, eq_text}
use sipgox.Outcome.{ok}
use sipgox.Sdp.{values, unmarshal, unmarshal_loop, next_line, read_string}
use sipgox.Sdp.Media.{media_description, find_media}
use sipgox.Sdp.Generate.{mode_sendrecv}
use sipgox.MediaSession.{
  unset, MediaSession, update_formats, local_sdp, remote_sdp, received_description,
  update_destination_sdp,
}
use sipgox.MediaSession.Formats.{occurrences, IsDistinct, update_formats_after_mismatch}
use sipgox.MediaSession.Negotiation.{CanOffer, received_local_sdp}
use sipgox.MediaSession.Reinvite.{update_destination_sdp-remote_sdp}
use sipgox.Tests.Descriptions.{no_ip6, host, both, host-IsOffer}

abbrev pub local_session : MediaSession
local_session = record {
  raddr = none;
  laddr = record { ip = host; port = pos 4000 };
  rtp_conn = unset;
  rtcp_conn = unset;
  rtcp_raddr = none;
  formats = both;
  mode = mode_sendrecv;
}

pub local_session-CanOffer : CanOffer local_session 4000
local_session-CanOffer = record { offer = host-IsOffer; port_is = refl; port_count = omega arith }

abbrev connected : MediaSession
connected = record local_session { raddr = some (record { ip = host; port = pos 9 }) }

-- A text without a line.
unreadable : (remote_sdp no_ip6 local_session (codes "v=0")).1 ≢ ok tt
unfolding remote_sdp received_description unmarshal unmarshal_loop next_line read_string
    media_description find_media values
unreadable e = cc

pub both-IsDistinct : IsDistinct both
unfolding eq_text
both-IsDistinct [] = omega arith
both-IsDistinct (x ∷ []) = ground arith
both-IsDistinct (x ∷ y ∷ ys) = ground arith

none_common : (f : Text) → occurrences f (codes "9" ∷ []) * occurrences f both ≡ 0
unfolding eq_text
none_common [] = omega arith
none_common (x ∷ []) = ground arith
none_common (x ∷ y ∷ ys) = ground arith

update_formats_after_mismatch_example :
    let s = update_formats local_session (codes "9" ∷ []) in
    (s.formats ≡ []) × ((update_formats s (codes "7" ∷ [])).formats ≡ codes "7" ∷ [])
update_formats_after_mismatch_example =
    update_formats_after_mismatch local_session (codes "9" ∷ []) (codes "7" ∷ []) (omega arith)
      none_common

-- What another session's offer says.
readable :
    received_description no_ip6 (local_sdp no_ip6 (pos 1000) local_session)
    ≡ ok (
      record {
        media_type = codes "audio";
        port = pos 4000;
        port_numbers = pos 0;
        proto = codes "RTP/AVP";
        formats = both ++ codes "101" ∷ [];
      },
      record {
        network_type = codes "IN";
        address_type = codes "IP4";
        ip = host;
        ttl = pos 0;
        range = pos 0;
      },
    )
readable = received_local_sdp no_ip6 (pos 1000) local_session 4000 local_session-CanOffer

update_destination_sdp-remote_sdp_example :
    let offer = local_sdp no_ip6 (pos 1000) local_session in
    update_destination_sdp no_ip6 connected offer
    ≡ (record (remote_sdp no_ip6 connected offer).0 { rtcp_raddr = none }, ok tt)
update_destination_sdp-remote_sdp_example =
    update_destination_sdp-remote_sdp no_ip6 connected (record { ip = host; port = pos 9 })
      (local_sdp no_ip6 (pos 1000) local_session) refl readable
