-- ===== src/Rtp.antt =====
-- The RTP packets that the program builds and takes apart: rtp_parse.go here, rtp_writer.go and
-- rtp_reader.go in the children. The packet's wire format is the package pion/rtp's, a parameter.
pub mod Parse
pub mod Writer
pub mod Reader
pub mod Session
pub mod Dummy
use sipgox.Prelude.{
  ℕ, suc, zero, ◌+◌, ◌-◌, ◌<◌, ◌≡◌, Bool, true, false, List, [], ◌∷◌, length, if◌then◌else◌, ltb,
  ◌==◌, take, drop,
}
use sipgox.Outcome.{Outcome, ok, err, panic, diverges, short_buffer}
use sipgox.Sdp.{byte_at}

abbrev pub Bytes : Type 0
Bytes = List ℕ

-- `rtp.Header`.
pub record Header : Type 0 where
  pub version : ℕ
  pub padding : Bool
  pub extension : Bool
  pub marker : Bool
  pub payload_type : ℕ
  pub sequence_number : ℕ
  pub timestamp : ℕ
  pub ssrc : ℕ
  pub csrc : List ℕ
  pub extensions : List (ℕ × Bytes)

-- `rtp.Packet`, which embeds its header.
pub record Packet : Type 0 where
  pub header : Header
  pub open header use *
  pub payload : Bytes
  pub padding_size : ℕ

-- `Header.Unmarshal` with the number of bytes read, `Packet.Unmarshal` on a new packet, and
-- `Packet.Marshal`.
pub record RtpCodec : Type 0 where
  pub header_unmarshal : Bytes → Header → Header × Outcome ℕ
  pub unmarshal : Bytes → Outcome Packet
  pub marshal : Packet → Outcome Bytes

-- `if p.Header.Extension { … }`.
unfoldable pub without_extensions : Header → Header
without_extensions h = if h.extension then record h { extensions = []; extension = false } else h

-- From `end := len(buf)` on, for a padding of `pad` bytes.
cut_payload : Bytes → ℕ → ℕ → Packet → Packet × Outcome (Unit {0})
cut_payload buf n pad p =
    if ltb (length buf) (n + pad)
    then (p, err short_buffer)
    else (record p { payload = drop n (take (length buf - pad) buf) }, ok tt)

-- `buf[end-1]` of an empty buffer is a panic.
padded : Bytes → ℕ → Packet → Packet × Outcome (Unit {0})
unfolding cut_payload
padded [] n p = (p, panic)
padded (b ∷ buf) n p =
    let pad = byte_at (b ∷ buf) (length buf) in
    cut_payload (b ∷ buf) n pad (record p { padding_size = pad })

unmarshalled : Bytes → Packet → Header × Outcome ℕ → Packet × Outcome (Unit {0})
unfolding padded without_extensions
unmarshalled buf p (h, err e) = (record p { header = h }, err e)
unmarshalled buf p (h, panic) = (record p { header = h }, panic)
unmarshalled buf p (h, diverges) = (record p { header = h }, diverges)
unmarshalled buf p (h, ok n) =
    let p' : Packet = record p { header = without_extensions h } in
    if h.padding then padded buf n p' else cut_payload buf n 0 p'

-- `rtpUnmarshal`, which writes to the packet that it is given.
unfoldable pub rtp_unmarshal : RtpCodec → Bytes → Packet → Packet × Outcome (Unit {0})
unfolding unmarshalled
rtp_unmarshal codec buf p = unmarshalled buf p (codec.header_unmarshal buf p.header)
