-- ===== src/Rtp/Writer.antt =====
-- rtp_writer.go, and the RTP half of `MediaSession`'s writing. The duration of a frame is in
-- milliseconds, and the timestamp's step exact: the program computes it in floating point. The ticker
-- that paces the writes is not modelled. `OnRTP` gets the packet before it is sent and may change it;
-- a nil `OnRTP` is the identity.
use sipgox.Prelude.{ℕ, ◌+◌, ◌*◌, ◌/◌, ◌%◌, Bool, false, List, [], ◌∷◌, length, if◌then◌else◌, ◌==◌}
use sipgox.Text.{Text}
use sipgox.Outcome.{Outcome, ◌>>=◌, ok, err, panic, short_write}
use sipgox.Sdp.Media.{format_numeric}
use sipgox.Sequencer.{ExtendedSequenceNumber, new_rtp_sequencer, next_seq_number}
use sipgox.Rtp.{Bytes, Packet, RtpCodec}

pub record RtpWriter : Type 0 where
  pub seq : ExtendedSequenceNumber
  pub payload_type : ℕ  -- uint8
  pub ssrc : ℕ  -- uint32
  pub sample_rate : ℕ  -- uint32
  pub clock_rate_timestamp : ℕ  -- uint32
  pub next_timestamp : ℕ  -- uint32
  pub last_packet : Packet
  pub on_rtp : Packet → Packet

abbrev pub zero_packet : Packet
zero_packet = record {
  header = record {
    version = 0;
    padding = false;
    extension = false;
    marker = false;
    payload_type = 0;
    sequence_number = 0;
    timestamp = 0;
    ssrc = 0;
    csrc = [];
    extensions = [];
  };
  payload = [];
  padding_size = 0;
}

unfoldable pub update_clock_rate : RtpWriter → ℕ → RtpWriter
update_clock_rate w clock_rate_ms = record w {
  clock_rate_timestamp = w.sample_rate * clock_rate_ms / 1000 % 0x1_0000_0000;
}

-- `NewRTPWriter`, with the two words that `rand.Uint32` returns. A session without formats is a panic.
unfoldable pub new_rtp_writer : List Text → ℕ → ℕ → Outcome RtpWriter
unfolding update_clock_rate
new_rtp_writer [] random_seq random_ssrc = panic
new_rtp_writer (f ∷ formats) random_seq random_ssrc = ok (
    update_clock_rate
      (record {
        seq = new_rtp_sequencer random_seq;
        payload_type = format_numeric f;
        ssrc = random_ssrc;
        sample_rate = 8000;
        clock_rate_timestamp = 0;
        next_timestamp = 0;
        last_packet = zero_packet;
        on_rtp = λ p. p;
      })
      20)

-- `MediaSession.WriteRTP`, over the write of the connection, which returns the bytes that it took.
unfoldable pub write_rtp : RtpCodec → (Bytes → Outcome ℕ) → Packet → Outcome (Unit {0})
write_rtp codec send p = do
  wire ← codec.marshal p
  n ← send wire
  if n == length wire then ok tt else err short_write

-- The packet that `WriteSamples` builds.
unfoldable pub next_packet : RtpWriter → Bytes → Bool → ℕ → Packet
next_packet w payload marker payload_type = record {
  header = record {
    version = 2;
    padding = false;
    extension = false;
    marker = marker;
    payload_type = payload_type;
    sequence_number = (next_seq_number w.seq).1;
    timestamp = w.next_timestamp;
    ssrc = w.ssrc;
    csrc = [];
    extensions = [];
  };
  payload = payload;
  padding_size = 0;
}

-- The writer has moved on also where the write fails.
unfoldable pub write_samples :
    RtpCodec
    → (Bytes → Outcome ℕ)
    → RtpWriter
    → Bytes
    → ℕ
    → Bool
    → ℕ
    → RtpWriter × ℕ × Outcome (Unit {0})
unfolding next_packet
write_samples codec send w payload clock_rate_timestamp marker payload_type =
    let pkt = w.on_rtp (next_packet w payload marker payload_type) in
    (
      record w {
        seq = (next_seq_number w.seq).0;
        last_packet = pkt;
        next_timestamp = (w.next_timestamp + clock_rate_timestamp) % 0x1_0000_0000;
      },
      length pkt.payload,
      write_rtp codec send pkt,
    )

-- `Write`: the marker is set on the first packet, as its timestamp is 0.
unfoldable pub write :
    RtpCodec → (Bytes → Outcome ℕ) → RtpWriter → Bytes → RtpWriter × ℕ × Outcome (Unit {0})
unfolding write_samples
write codec send w b =
    write_samples codec send w b w.clock_rate_timestamp (w.next_timestamp == 0) w.payload_type
