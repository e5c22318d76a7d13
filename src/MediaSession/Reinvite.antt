-- ===== src/MediaSession/Reinvite.antt =====
-- A second offer within a call.
use sipgox.Prelude.{◌≡◌, refl, Option, none, some}
use sipgox.Text.{Text}
use sipgox.Ip.{Ip6Notation}
use sipgox.Outcome.{Outcome, ok, err, panic, diverges}
use sipgox.Sdp.Media.{MediaDescription, ConnectionInformation}
use sipgox.MediaSession.{
  UdpAddr, MediaSession, received_description, update_destination_sdp, applied, with_destination,
  update_formats, set_remote_addr, remote_sdp,
}

-- A readable second offer moves the RTP destination and the formats exactly as a first one would,
-- and leaves the RTCP destination where it was.
pub update_destination_sdp-remote_sdp :
    (v6 : Ip6Notation) (s : MediaSession) (old : UdpAddr) (received : Text)
    {d : MediaDescription × ConnectionInformation}
    → s.raddr ≡ some old
    → received_description v6 received ≡ ok d
    → update_destination_sdp v6 s received
      ≡ (record (remote_sdp v6 s received).0 { rtcp_raddr = s.rtcp_raddr }, ok tt)
unfolding update_destination_sdp remote_sdp update_formats set_remote_addr
update_destination_sdp-remote_sdp v6 s old received e h =
    rw h (rw (e, applied, with_destination) refl)

with_destination_unset :
    (s : MediaSession) (r : Option UdpAddr) (d : MediaDescription × ConnectionInformation)
    → r ≡ none
    → with_destination s r d ≡ (s, panic)
unfolding with_destination
with_destination_unset s none d e = refl
with_destination_unset s (some a) d e = cc

-- Before any remote address is known, a readable offer is a panic.
pub update_destination_sdp_unset :
    (v6 : Ip6Notation) (s : MediaSession) (received : Text)
    {d : MediaDescription × ConnectionInformation}
    → s.raddr ≡ none
    → received_description v6 received ≡ ok d
    → update_destination_sdp v6 s received ≡ (s, panic)
unfolding update_destination_sdp
update_destination_sdp_unset v6 s received {d} e h = rw h (with_destination_unset s s.raddr d e)

applied_laddr :
    (m : MediaSession)
    (f : MediaDescription × ConnectionInformation → MediaSession × Outcome (Unit {0}))
    → ((x : MediaDescription × ConnectionInformation) → (f x).0.laddr ≡ m.laddr)
    → (r : Outcome (MediaDescription × ConnectionInformation)) → (applied m f r).0.laddr ≡ m.laddr
unfolding applied
applied_laddr m f h (ok x) = h x
applied_laddr m f h (err e) = refl
applied_laddr m f h panic = refl
applied_laddr m f h diverges = refl

with_destination_laddr :
    (m : MediaSession) (r : Option UdpAddr) (x : MediaDescription × ConnectionInformation)
    → (with_destination m r x).0.laddr ≡ m.laddr
unfolding with_destination update_formats
with_destination_laddr m none x = refl
with_destination_laddr m (some a) (md, ci) = refl

pub update_destination_sdp_laddr :
    (v6 : Ip6Notation) (m : MediaSession) (received : Text)
    → (update_destination_sdp v6 m received).0.laddr ≡ m.laddr
unfolding update_destination_sdp
update_destination_sdp_laddr v6 m received =
    applied_laddr m (with_destination m m.raddr) (with_destination_laddr m m.raddr)
      (received_description v6 received)
