-- ===== src/Rtp/Reader/Stream/Start.antt =====
-- The start of a stream: a new writer and a new reader.
use sipgox.Prelude.{
  ℕ, ◌%◌, ◌<◌, ◌≤◌, ◌≡◌, ◌≢◌, refl, ap, sym, ◌∙◌, false, not, List, ◌∷◌, map, arith, length, ltb,
  ◌==◌, All, if_false, Bool, ◌+◌, take_whole,
}
use sipgox.Text.{Text}
use sipgox.Outcome.{Outcome, ok}
use sipgox.Sdp.Media.{format_numeric}
use sipgox.Sequencer.{init_seq, new_rtp_sequencer, next_seq_number}
use sipgox.Sequencer.Words.{new_rtp_sequencer-IsWord}
use sipgox.Rtp.{Bytes, Packet, RtpCodec}
use sipgox.Rtp.Writer.{RtpWriter, next_packet, write, new_rtp_writer, update_clock_rate}
use sipgox.Rtp.Reader.{
  RtpReader, new_rtp_reader, read, track, delivered, accept_packet, unmarshalled, received_raw,
}
use sipgox.Rtp.Reader.Stream.{
  IsPlain, IsFaithful, IsSource, Follows, after_write, write_all, read_all, after_write-IsSource,
  next_packet-IsPlain, read_payload_fits, read_all-write_all,
}

-- A writer that has not sent, away from the wrap-around, and a reader that has not read.
record Begins (w : RtpWriter) (r : RtpReader) : Type 0 where
  source : IsSource w
  no_wraps : w.seq.wrap_arround_count ≡ 0
  no_wrap_next : w.seq.seq_num < 65535
  other_source : r.last_ssrc ≢ w.ssrc
  same_type : r.payload_type ≡ w.payload_type
  nothing_unread : r.unread ≡ 0
  read_callback : (p : Packet) → r.on_rtp p ≡ p

-- The reader after the first packet of a source, whose payload it has delivered whole.
abbrev started : RtpReader → Packet → RtpReader
started r p = record r {
  seq = init_seq r.seq p.sequence_number;
  last_ssrc = p.ssrc;
  packet_header = p.header;
  unread = 0;
}

read_first :
    (codec : RtpCodec) (size : ℕ) (r : RtpReader) (wire : Bytes) (p : Packet)
    → codec.unmarshal wire ≡ ok p
    → length wire ≤ size
    → r.unread ≡ 0
    → r.payload_type ≡ p.payload_type
    → r.last_ssrc ≢ p.ssrc
    → r.on_rtp p ≡ p
    → length p.payload ≤ size
    → read codec r size (ok wire) ≡ (started r p, ok p.payload)
unfolding read received_raw unmarshalled accept_packet track delivered
read_first codec size r wire p h whole none_left type other callback fits =
    let nothing : ltb 0 r.unread ≡ false = ground (arith, none_left) in
    let accepted : not (r.payload_type == p.payload_type) ≡ false = ground (arith, type) in
    let tracked : track r p ≡ init_seq r.seq p.sequence_number =
      if_false {b = r.last_ssrc == p.ssrc} _ _ (ground (arith, other)) in
    if_false _ _ nothing
    ∙ rw (take_whole size wire whole, h)
        (if_false _ _ accepted
          ∙ rw (tracked, callback) (ap delivered (read_payload_fits _ size p.payload fits)))

started-Follows :
    (codec : RtpCodec) (send : Bytes → Outcome ℕ) (w : RtpWriter) (r : RtpReader) (b : Bytes)
    (marker : Bool)
    → Begins w r
    → Follows (after_write codec send w b) (started r (next_packet w b marker w.payload_type))
unfolding write next_packet next_seq_number init_seq
started-Follows codec send w r b marker begins = record {
  same_type = begins.same_type;
  same_source = refl;
  same_number = refl;
  same_wraps = ground (arith, begins.no_wraps, begins.no_wrap_next);
  nothing_unread = refl;
  read_callback = begins.read_callback;
}

read_begun :
    (codec : RtpCodec) (size : ℕ) (w : RtpWriter) (r : RtpReader) (b : Bytes) (marker : Bool)
    (faithful : IsFaithful codec)
    (sizes : (p : Packet) → IsPlain p → length (faithful.wire p) ≡ 12 + length p.payload)
    → Begins w r
    → 12 + length b ≤ size
    → let p = next_packet w b marker w.payload_type in
      read codec r size (codec.marshal (w.on_rtp p)) ≡ (started r p, ok b)
unfolding next_packet
read_begun codec size w r b marker faithful sizes begins fits =
    let p = next_packet w b marker w.payload_type in
    let plain = next_packet-IsPlain w b marker begins.source in
    rw (begins.source.callback p, faithful.marshals p plain)
      (read_first codec size r (faithful.wire p) p (faithful.unmarshals p plain)
        (omega (arith, sizes p plain, fits)) begins.nothing_unread begins.same_type
        begins.other_source (begins.read_callback p) (omega arith))

read-write_first :
    (codec : RtpCodec) (send : Bytes → Outcome ℕ) (size : ℕ) (w : RtpWriter) (r : RtpReader)
    (b : Bytes) (faithful : IsFaithful codec)
    (sizes : (p : Packet) → IsPlain p → length (faithful.wire p) ≡ 12 + length p.payload)
    → Begins w r
    → 12 + length b ≤ size
    → let w' = after_write codec send w b in
      let x = read codec r size (codec.marshal w'.last_packet) in (x.1 ≡ ok b) × Follows w' x.0
unfolding write
read-write_first codec send size w r b faithful sizes begins fits =
    rw (read_begun codec size w r b (w.next_timestamp == 0) faithful sizes begins fits)
      (refl, started-Follows codec send w r b (w.next_timestamp == 0) begins)

-- What a constructor returned.
abbrev built : {A : Type 0} → A → Outcome A → A
built other (ok a) = a
built other _ = other

format_numeric-small : (f : Text) → format_numeric f < 128
unfolding format_numeric
format_numeric-small f = ground arith

built-Begins :
    (f : Text) (formats : List Text) (random_seq random_ssrc : ℕ) (w : RtpWriter) (r : RtpReader)
    → random_ssrc < 0x1_0000_0000
    → random_ssrc ≢ 0
    → random_seq % 65536 ≢ 65535
    → Begins
        (built w (new_rtp_writer (f ∷ formats) random_seq random_ssrc))
        (built r (new_rtp_reader (f ∷ formats)))
unfolding new_rtp_writer new_rtp_reader update_clock_rate new_rtp_sequencer init_seq
built-Begins f formats random_seq random_ssrc w r word nonzero away = record {
  source = record {
    seq_words = new_rtp_sequencer-IsWord random_seq;
    type_small = format_numeric-small f;
    source_word = word;
    stamp_word = omega arith;
    callback = λ p. refl;
  };
  no_wraps = refl;
  no_wrap_next = omega arith;
  other_source = λ e. nonzero (sym e);
  same_type = refl;
  nothing_unread = refl;
  read_callback = λ p. refl;
}

new-Begins :
    (f : Text) (formats : List Text) (random_seq random_ssrc : ℕ) (w : RtpWriter) (r : RtpReader)
    → new_rtp_writer (f ∷ formats) random_seq random_ssrc ≡ ok w
    → new_rtp_reader (f ∷ formats) ≡ ok r
    → random_ssrc < 0x1_0000_0000
    → random_ssrc ≢ 0
    → random_seq % 65536 ≢ 65535
    → Begins w r
new-Begins f formats random_seq random_ssrc w r writer reader word nonzero away =
    rw (writer, reader) at (built-Begins f formats random_seq random_ssrc w r word nonzero away)

-- A new writer and a new reader of sessions with the same formats: all payloads that fit the buffer
-- behind a header of 12 bytes, which the codec lays out, are delivered whole and in order, and in the end the reader follows the writer. The writer's random
-- source is a word other than 0, and the low half of its random start is not 65535.
pub read_all-new_rtp_writer :
    (codec : RtpCodec) (send : Bytes → Outcome ℕ) (size : ℕ) (f : Text) (formats : List Text)
    (random_seq random_ssrc : ℕ) (w : RtpWriter) (r : RtpReader) (b : Bytes) (bs : List Bytes)
    (faithful : IsFaithful codec)
    (sizes : (p : Packet) → IsPlain p → length (faithful.wire p) ≡ 12 + length p.payload)
    → new_rtp_writer (f ∷ formats) random_seq random_ssrc ≡ ok w
    → new_rtp_reader (f ∷ formats) ≡ ok r
    → random_ssrc < 0x1_0000_0000
    → random_ssrc ≢ 0
    → random_seq % 65536 ≢ 65535
    → All (λ payload. 12 + length payload ≤ size) (b ∷ bs)
    → let sent = write_all codec send w (b ∷ bs) in
      let got = read_all codec size r sent.1 in (got.1 ≡ map ok (b ∷ bs)) × Follows sent.0 got.0
unfolding write_all read_all
read_all-new_rtp_writer codec send size f formats random_seq random_ssrc w r b bs faithful sizes
      writer reader word nonzero away fits =
    let begins = new-Begins f formats random_seq random_ssrc w r writer reader word nonzero away in
    let (now, still) = read-write_first codec send size w r b faithful sizes begins fits.0 in
    let (later, last) =
      read_all-write_all codec send size bs (after_write codec send w b) _ faithful sizes
        (after_write-IsSource codec send w b begins.source) still fits.1 in
    (rw (now, later) refl, last)
