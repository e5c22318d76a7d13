-- ===== src/Rtp/Reader.antt =====
-- rtp_reader.go. The datagram that the connection has is a parameter of `read`; it is read into the caller's
-- buffer of `size` bytes, header included, and what does not fit is lost, as with every read of a datagram.
-- The bytes that are left in the buffer for the caller are the result. A warning of the
-- sequencer is logged, and changes nothing else.
pub mod Stream
use sipgox.Prelude.{ℕ, ◌-◌, not, List, [], ◌∷◌, length, take, drop, if◌then◌else◌, ltb, ◌==◌}
use Prim.Native.Nat.{min}
use sipgox.Text.{Text}
use sipgox.Outcome.{
  Outcome, GoError, ok, err, panic, diverges, end_of_file, net_closed, payload_type_mismatch,
}
use sipgox.Sdp.Media.{format_numeric}
use sipgox.Sequencer.{ExtendedSequenceNumber, init_seq, update_seq}
use sipgox.Rtp.{Bytes, Header, Packet, RtpCodec}
use sipgox.Rtp.Writer.{zero_packet}

pub record RtpReader : Type 0 where
  pub packet_header : Header
  pub on_rtp : Packet → Packet
  pub payload_type : ℕ  -- uint8
  pub seq : ExtendedSequenceNumber
  pub unread_payload : Bytes
  pub unread : ℕ
  pub last_ssrc : ℕ  -- uint32

-- `NewRTPReader`. A session without formats is a panic.
unfoldable pub new_rtp_reader : List Text → Outcome RtpReader
new_rtp_reader [] = panic
new_rtp_reader (f ∷ formats) = ok (record {
  packet_header = zero_packet.header;
  on_rtp = λ p. p;
  payload_type = format_numeric f;
  seq = record { seq_num = 0; wrap_arround_count = 0; bad_seq = 0 };
  unread_payload = [];
  unread = 0;
  last_ssrc = 0;
})

-- `copy` into a buffer of `size` bytes, and what remains for the next call.
unfoldable pub read_payload : RtpReader → ℕ → Bytes → RtpReader × Bytes
read_payload r size payload =
    let n = min size (length payload) in
    (
      if ltb n (length payload)
          then record r { unread_payload = drop n payload; unread = length payload - n }
          else record r { unread = 0 },
      take n payload,
    )

track : RtpReader → Packet → ExtendedSequenceNumber
track r pkt =
    if r.last_ssrc == pkt.ssrc
    then (update_seq r.seq pkt.sequence_number).0
    else init_seq r.seq pkt.sequence_number

delivered : RtpReader × Bytes → RtpReader × Outcome Bytes
delivered (r, b) = (r, ok b)

-- From the comparison of the payload types on.
accept_packet : RtpReader → ℕ → Packet → RtpReader × Outcome Bytes
unfolding track delivered
accept_packet r size pkt =
    if not (r.payload_type == pkt.payload_type)
    then (r, err payload_type_mismatch)
    else delivered (
        read_payload
          (record r { seq = track r pkt; last_ssrc = pkt.ssrc; packet_header = pkt.header }) size
          (r.on_rtp pkt).payload)

unmarshalled : RtpReader → ℕ → Outcome Packet → RtpReader × Outcome Bytes
unfolding accept_packet
unmarshalled r size (ok pkt) = accept_packet r size pkt
unmarshalled r size (err e) = (r, err e)
unmarshalled r size panic = (r, panic)
unmarshalled r size diverges = (r, diverges)

-- A connection that was closed is the end of the stream.
closed_as_end : GoError → GoError
closed_as_end net_closed = end_of_file
closed_as_end e = e

received_raw : RtpCodec → RtpReader → ℕ → Outcome Bytes → RtpReader × Outcome Bytes
unfolding unmarshalled closed_as_end
received_raw codec r size (ok wire) = unmarshalled r size (codec.unmarshal (take size wire))
received_raw codec r size (err e) = (r, err (closed_as_end e))
received_raw codec r size panic = (r, panic)
received_raw codec r size diverges = (r, diverges)

unfoldable pub read : RtpCodec → RtpReader → ℕ → Outcome Bytes → RtpReader × Outcome Bytes
unfolding received_raw delivered
read codec r size received =
    if ltb 0 r.unread
    then delivered (read_payload r size r.unread_payload)
    else received_raw codec r size received
