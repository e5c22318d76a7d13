-- ===== src/Rtcp.antt =====
-- RTCP: `rtcpUnmarshal` of rtp_parse.go, and the reading and writing of media.go. The packets and their
-- wire format are the package pion/rtcp's, a parameter. The caller's slice of packets is a list of
-- slots, which are empty at first; a function returns the slots as they then are.
pub mod Compound
use sipgox.Prelude.{
  ℕ, zero, suc, ◌+◌, ◌*◌, ◌%◌, Option, none, some, List, [], ◌∷◌, ltb, ◌==◌, if◌then◌else◌, length,
  take, drop,
}
use sipgox.Outcome.{Outcome, ◌>>=◌, ok, err, panic, diverges, packet_too_short, short_write}
use sipgox.MediaSession.{ConnField, unset, null_conn, conn}
use sipgox.Rtp.{Bytes}

-- The types that `rtcpTypedPacket` makes packets of.
pub data PacketKind : Type 0 where
  sender_report receiver_report source_description goodbye raw_packet : PacketKind

-- `rtcp.Packet`; `Header.Unmarshal`, which gives the type and the length field; the `Unmarshal` of the
-- packet of a kind; `Packet.Marshal`; and `rtcp.Marshal`.
pub record RtcpCodec : Type 1 where
  pub Message : Type 0
  pub header_unmarshal : Bytes → Outcome (ℕ × ℕ)
  pub unmarshal : PacketKind → Bytes → Outcome Message
  pub marshal : Message → Outcome Bytes
  pub marshal_all : List Message → Outcome Bytes

-- The packet types as RFC 3550 numbers them.
unfoldable pub rtcp_typed_packet : ℕ → PacketKind
rtcp_typed_packet htype =
    if htype == 200
    then sender_report
    else if htype == 201
    then receiver_report
    else if htype == 202
    then source_description
    else if htype == 203
    then goodbye
    else raw_packet

-- `int(h.Length+1) * 4`, where the sum is a uint16.
abbrev pub packet_length : ℕ → ℕ
packet_length field = (field + 1) % 65536 * 4

module _ (codec : RtcpCodec) where
  open codec use {Message, header_unmarshal, unmarshal, marshal, marshal_all}

  abbrev pub Slots : Type 0
  Slots = List (Option Message)

  -- The packet in the first `pkt_len` bytes, and what follows them.
  cut_packet : Bytes → ℕ → ℕ → Outcome (Message × Bytes)
  cut_packet bytes htype pkt_len =
      if ltb (length bytes) pkt_len
      then err packet_too_short
      else (unmarshal (rtcp_typed_packet htype) (take pkt_len bytes) >>= λ packet.
          ok (packet, drop pkt_len bytes))

  -- One round of the loop, up to the packet that it stores.
  pub first_packet : Bytes → Outcome (Message × Bytes)
  unfolding cut_packet
  first_packet bytes =
      header_unmarshal bytes >>= λ (h : ℕ × ℕ). cut_packet bytes h.0 (packet_length h.1)

  pub stored :
      Option Message
      → Slots
      → (Bytes → Slots × Outcome ℕ)
      → Outcome (Message × Bytes)
      → Slots × Outcome ℕ
  stored slot slots go (ok (packet, rest)) = let (slots', n) = go rest in (some packet ∷ slots', n)
  stored slot slots go (err e) = (slot ∷ slots, err e)
  stored slot slots go panic = (slot ∷ slots, panic)
  stored slot slots go diverges = (slot ∷ slots, diverges)

  -- The loop, with the packets counted so far: it ends where the data or the slots do.
  pub unmarshal_from : Bytes → Slots → ℕ → Slots × Outcome ℕ
  unfolding stored first_packet
  unmarshal_from [] slots n = (slots, ok n)
  unmarshal_from (b ∷ bytes) [] n = ([], ok n)
  unmarshal_from (b ∷ bytes) (slot ∷ slots) n =
      stored slot slots (λ rest. unmarshal_from rest slots (n + 1)) (first_packet (b ∷ bytes))

  unfoldable pub rtcp_unmarshal : Bytes → Slots → Slots × Outcome ℕ
  unfolding unmarshal_from
  rtcp_unmarshal bytes slots = unmarshal_from bytes slots 0

  -- `ReadRTCPRaw`, from what the connection's read gives; a session without a connection blocks.
  unfoldable pub read_rtcp_raw : ConnField → Outcome Bytes → Outcome Bytes
  read_rtcp_raw unset received = diverges
  read_rtcp_raw null_conn received = received
  read_rtcp_raw (conn c) received = received

  -- From a datagram, of which the buffer of 1600 bytes takes the first bytes.
  read_into : Slots → Outcome Bytes → Slots × Outcome ℕ
  read_into slots (ok bytes) = rtcp_unmarshal (take 1600 bytes) slots
  read_into slots (err e) = (slots, err e)
  read_into slots panic = (slots, panic)
  read_into slots diverges = (slots, diverges)

  -- `ReadRTCP`.
  unfoldable pub read_rtcp : ConnField → Outcome Bytes → Slots → Slots × Outcome ℕ
  unfolding read_into read_rtcp_raw
  read_rtcp c received slots = read_into slots (read_rtcp_raw c received)

  -- `writeRTCP`, over the write of the connection, which returns the bytes that it took.
  unfoldable pub write_rtcp_raw : (Bytes → Outcome ℕ) → Bytes → Outcome (Unit {0})
  write_rtcp_raw send bytes =
      send bytes >>= λ n. if n == length bytes then ok tt else err short_write

  unfoldable pub write_rtcp : (Bytes → Outcome ℕ) → Message → Outcome (Unit {0})
  unfolding write_rtcp_raw
  write_rtcp send p = marshal p >>= write_rtcp_raw send

  unfoldable pub write_rtcps : (Bytes → Outcome ℕ) → List Message → Outcome (Unit {0})
  unfolding write_rtcp_raw
  write_rtcps send pkts = marshal_all pkts >>= write_rtcp_raw send
