-- ===== src/MediaSession.antt =====
-- media.go: the media session, its remote address, and the negotiation of formats. A pointer that
-- may be nil is an `Option`; a method on the session returns the session as it then is, beside the
-- way it ended.
pub mod Agreement
pub mod Formats
pub mod Negotiation
pub mod Reinvite
pub mod Select
use sipgox.Prelude.{
  ℕ, suc, zero, Bool, true, false, Option, none, some, List, [], ◌∷◌, ◌++◌, ◌==◌, if◌then◌else◌,
  length, ltb,
}
use sipgox.Prelude.Int.{ℤ, pos, increment}
use sipgox.Text.{Text, codes, eq_text}
use sipgox.Ip.{Ip, Ip6Notation}
use sipgox.Outcome.{Outcome, ◌>>=◌, ◌>>◌, ok, err, panic, diverges}
use sipgox.Sdp.{SessionDescription, Unmarshalled, unmarshal}
use sipgox.Sdp.Media.{
  MediaDescription, ConnectionInformation, media_description, connection_information,
  format_type_ulaw, format_type_alaw,
}
use sipgox.Sdp.Generate.{Mode, mode_sendrecv, generate_for_audio}

pub record UdpAddr : Type 0 where
  pub ip : Ip
  pub port : ℤ

-- An open socket: its local address, and a number that tells sockets apart.
pub record Conn : Type 0 where
  pub local_addr : UdpAddr
  pub handle : ℕ

-- A field of interface type: nil, a nil `*net.UDPConn`, which is what a failed `net.ListenUDP`
-- leaves there, or a socket.
pub data ConnField : Type 0 where
  unset null_conn : ConnField
  conn : Conn → ConnField

pub record MediaSession : Type 0 where
  pub raddr : Option UdpAddr
  pub laddr : UdpAddr
  pub rtp_conn : ConnField
  pub rtcp_conn : ConnField
  pub rtcp_raddr : Option UdpAddr
  pub formats : List Text
  pub mode : Mode

-- What `NewMediaSession` builds before it listens.
unfoldable pub initial_session : UdpAddr → MediaSession
initial_session laddr = record {
  raddr = none;
  laddr = laddr;
  rtp_conn = unset;
  rtcp_conn = unset;
  rtcp_raddr = none;
  formats = format_type_ulaw ∷ format_type_alaw ∷ [];
  mode = mode_sendrecv;
}

unfoldable pub set_remote_addr : MediaSession → UdpAddr → MediaSession
set_remote_addr s raddr = record s {
  raddr = some raddr;
  rtcp_raddr = some (record raddr { port = increment raddr.port });
}

unfoldable pub local_sdp : Ip6Notation → ℤ → MediaSession → Text
local_sdp v6 now s = generate_for_audio v6 now s.laddr.ip s.laddr.ip s.laddr.port s.mode s.formats

-- The inner loop: `cr` once for each equal local format.
pub matching : Text → List Text → List Text
matching cr [] = []
matching cr (cs ∷ local) = let rest = matching cr local in if eq_text cr cs then cr ∷ rest else rest

unfoldable pub common_formats : List Text → List Text → List Text
unfolding matching
common_formats [] local = []
common_formats (cr ∷ remote) local = matching cr local ++ common_formats remote local

unfoldable pub update_formats : MediaSession → List Text → MediaSession
update_formats s formats = record s {
  formats = if ltb 0 (length s.formats) then common_formats formats s.formats else formats;
}

-- The reading of a description, which `RemoteSDP` and `UpdateDestinationSDP` begin with.
read_description : Ip6Notation → Unmarshalled → Outcome (MediaDescription × ConnectionInformation)
read_description v6 (sd, result) = do
  result
  md ← media_description sd (codes "audio")
  ci ← connection_information v6 sd
  ok (md, ci)

unfoldable pub received_description :
    Ip6Notation → Text → Outcome (MediaDescription × ConnectionInformation)
unfolding read_description
received_description v6 received = read_description v6 (unmarshal received [])

-- A session that changes only where what came before succeeded.
applied :
    {A : Type 0}
    → MediaSession
    → (A → MediaSession × Outcome (Unit {0}))
    → Outcome A
    → MediaSession × Outcome (Unit {0})
applied s f (ok a) = f a
applied s f (err e) = (s, err e)
applied s f panic = (s, panic)
applied s f diverges = (s, diverges)

with_remote :
    MediaSession → MediaDescription × ConnectionInformation → MediaSession × Outcome (Unit {0})
with_remote s (md, ci) =
    (update_formats (set_remote_addr s (record { ip = ci.ip; port = md.port })) md.formats, ok tt)

unfoldable pub remote_sdp : Ip6Notation → MediaSession → Text → MediaSession × Outcome (Unit {0})
unfolding applied with_remote
remote_sdp v6 s received = applied s (with_remote s) (received_description v6 received)

-- `s.Raddr.IP = …` through the pointer: a nil `Raddr` is a panic.
with_destination :
    MediaSession
    → Option UdpAddr
    → MediaDescription × ConnectionInformation
    → MediaSession × Outcome (Unit {0})
with_destination s none _ = (s, panic)
with_destination s (some raddr) (md, ci) = (
  update_formats (record s { raddr = some (record { ip = ci.ip; port = md.port }) }) md.formats,
  ok tt,
)

unfoldable pub update_destination_sdp :
    Ip6Notation → MediaSession → Text → MediaSession × Outcome (Unit {0})
unfolding applied with_destination
update_destination_sdp v6 s received =
    applied s (with_destination s s.raddr) (received_description v6 received)
