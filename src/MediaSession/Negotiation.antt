-- ===== src/MediaSession/Negotiation.antt =====
-- An offer of one session, taken by another.
use sipgox.Prelude.{ℕ, ◌<◌, ◌≡◌, ◌≢◌, refl, some, [], ◌∷◌, ◌++◌, arith}
use sipgox.Prelude.Int.{ℤ, pos, increment}
use sipgox.Text.{Text, codes}
use sipgox.Ip.{Ip6Notation}
use sipgox.Outcome.{Outcome, ok, err, panic, diverges}
use sipgox.Sdp.{SessionDescription, unmarshal}
use sipgox.Sdp.Generate.Lines.{IsOffer}
use sipgox.Sdp.Generate.Offer.{read_offer, unmarshal-generate_for_audio}
use sipgox.Sdp.Reading.Totality.{unmarshal_total}
use sipgox.Sdp.Media.Endings.{media_description-ne-diverges, connection_information-ne-diverges}
use sipgox.Sdp.Media.{MediaDescription, ConnectionInformation}
use sipgox.MediaSession.{
  MediaSession, set_remote_addr, local_sdp, update_formats, received_description, read_description,
  remote_sdp, applied, with_remote,
}

-- A session that can offer: an IPv4 address, a port, a mode on one line and formats that are words.
pub record CanOffer (s : MediaSession) (port : ℕ) : Type 0 where
  pub offer : IsOffer s.laddr.ip s.mode s.formats
  pub port_is : s.laddr.port ≡ pos port
  pub port_count : port < 0x8000_0000_0000_0000

pub received_local_sdp :
    (v6 : Ip6Notation) (now : ℤ) (s : MediaSession) (port : ℕ)
    → CanOffer s port
    → received_description v6 (local_sdp v6 now s)
      ≡ ok (
        record {
          media_type = codes "audio";
          port = pos port;
          port_numbers = pos 0;
          proto = codes "RTP/AVP";
          formats = s.formats ++ codes "101" ∷ [];
        },
        record {
          network_type = codes "IN";
          address_type = codes "IP4";
          ip = s.laddr.ip;
          ttl = pos 0;
          range = pos 0;
        },
      )
unfolding received_description read_description local_sdp
received_local_sdp v6 now s port w =
    let (md, ci) = read_offer v6 now port s.laddr.ip s.mode s.formats w.offer w.port_count in
    let (done, _, _) =
      unmarshal-generate_for_audio v6 now s.laddr.ip port s.mode s.formats w.offer in
    rw w.port_is (rw (done, md, ci))

-- A session that takes the offer of another, which has an IPv4 address, a port, a mode on one line and
-- formats that are words, sends to the offering session's address, RTCP to the port
-- above it, and negotiates with the offered formats, to which 101 has been added. Its own address
-- and mode stay.
pub remote_sdp-local_sdp :
    (v6 : Ip6Notation) (now : ℤ) (peer s : MediaSession) (port : ℕ)
    → CanOffer peer port
    → remote_sdp v6 s (local_sdp v6 now peer) ≡ (
      record (update_formats s (peer.formats ++ codes "101" ∷ [])) {
        raddr = some peer.laddr;
        rtcp_raddr = some (record peer.laddr { port = increment (pos port) });
      },
      ok tt,
    )
unfolding remote_sdp set_remote_addr update_formats
remote_sdp-local_sdp v6 now peer s port w =
    rw (received_local_sdp v6 now peer port w) (ground arith)

applied_refused :
    (s : MediaSession) (r : Outcome (MediaDescription × ConnectionInformation))
    → (applied s (with_remote s) r).1 ≢ ok tt
    → (applied s (with_remote s) r).0 ≡ s
unfolding applied with_remote
applied_refused s (ok (md, ci)) h = absurd (h refl)
applied_refused s _ h = refl

-- A description that cannot be read leaves the session as it was, in whatever way the reading
-- ended.
pub remote_sdp_refused :
    (v6 : Ip6Notation) (s : MediaSession) (received : Text)
    → (remote_sdp v6 s received).1 ≢ ok tt
    → (remote_sdp v6 s received).0 ≡ s
unfolding remote_sdp
remote_sdp_refused v6 s received h = applied_refused s (received_description v6 received) h

read_description-ne-diverges :
    (v6 : Ip6Notation) (sd : SessionDescription) (r : Outcome (Unit {0}))
    → r ≢ diverges
    → read_description v6 (sd, r) ≢ diverges
unfolding read_description
read_description-ne-diverges v6 sd r h e = ground (
  arith,
  media_description-ne-diverges sd (codes "audio"),
  connection_information-ne-diverges v6 sd,
)

applied_total :
    (s : MediaSession) (r : Outcome (MediaDescription × ConnectionInformation))
    → r ≢ diverges
    → (applied s (with_remote s) r).1 ≢ diverges
unfolding applied with_remote
applied_total s (ok (md, ci)) h = λ e. cc
applied_total s diverges h = absurd (h refl)
applied_total s _ h = λ e. cc

-- `RemoteSDP` ends on every input.
pub remote_sdp_total :
    (v6 : Ip6Notation) (s : MediaSession) (received : Text)
    → (remote_sdp v6 s received).1 ≢ diverges
unfolding remote_sdp received_description
remote_sdp_total v6 s received = applied_total s _ (
    read_description-ne-diverges v6 (unmarshal received []).0 (unmarshal received []).1
      (unmarshal_total received []))

abbrev pub HasSameSockets : MediaSession → MediaSession → Type 0
HasSameSockets s t = (s.rtp_conn ≡ t.rtp_conn) × (s.rtcp_conn ≡ t.rtcp_conn)

applied-HasSameSockets :
    (s : MediaSession) (r : Outcome (MediaDescription × ConnectionInformation))
    → HasSameSockets (applied s (with_remote s) r).0 s
unfolding applied with_remote update_formats set_remote_addr
applied-HasSameSockets s (ok (md, ci)) = (refl, refl)
applied-HasSameSockets s (err e) = (refl, refl)
applied-HasSameSockets s panic = (refl, refl)
applied-HasSameSockets s diverges = (refl, refl)

-- However it ends, `RemoteSDP` leaves the session its sockets.
pub remote_sdp-HasSameSockets :
    (v6 : Ip6Notation) (s : MediaSession) (received : Text)
    → HasSameSockets (remote_sdp v6 s received).0 s
unfolding remote_sdp
remote_sdp-HasSameSockets v6 s received =
    applied-HasSameSockets s (received_description v6 received)
