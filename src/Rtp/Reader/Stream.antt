-- ===== src/Rtp/Reader/Stream.antt =====
-- A writer's packets, read in order by a reader of another session.
pub mod Start
use sipgox.Prelude.{
  ℕ, ◌+◌, ◌<◌, ◌≤◌, ◌≡◌, refl, ap, ◌∙◌, Bool, false, not, List, [], ◌∷◌, map, arith, length, take,
  ltb, ◌==◌, All, if_true, take_whole, if_false,
}
use Prim.Native.Nat.{min}
use sipgox.Outcome.{Outcome, ok}
use sipgox.Sequencer.{next_seq_number, update_seq}
use sipgox.Sequencer.Words.{IsWord, next_seq_number-IsWord}
use sipgox.Sequencer.Receiver.{step_in_sync}
use sipgox.Rtp.{Bytes, Packet, RtpCodec}
use sipgox.Rtp.Writer.{RtpWriter, next_packet, write}
use sipgox.Rtp.Reader.{
  RtpReader, read_payload, read, received_raw, unmarshalled, accept_packet, track, delivered,
}

-- The packets that the writer makes: version 2, no padding, extensions or contributing sources, and
-- every field within its width.
pub record IsPlain (p : Packet) : Type 0 where
  pub version_is : p.version ≡ 2
  pub padding_is : p.padding ≡ false
  pub extension_is : p.extension ≡ false
  pub csrc_is : p.csrc ≡ []
  pub extensions_is : p.extensions ≡ []
  pub padding_size_is : p.padding_size ≡ 0
  pub payload_type_small : p.payload_type < 128
  pub sequence_number_word : p.sequence_number < 65536
  pub timestamp_word : p.timestamp < 0x1_0000_0000
  pub ssrc_word : p.ssrc < 0x1_0000_0000

-- What the stream relies on: a plain packet is marshalled, and its bytes are unmarshalled to it.
pub record IsFaithful (codec : RtpCodec) : Type 0 where
  pub wire : Packet → Bytes
  pub marshals : (p : Packet) → IsPlain p → codec.marshal p ≡ ok (wire p)
  pub unmarshals : (p : Packet) → IsPlain p → codec.unmarshal (wire p) ≡ ok p

-- A writer whose fields are within their widths and whose callback leaves the packet alone.
pub record IsSource (w : RtpWriter) : Type 0 where
  pub seq_words : IsWord w.seq
  pub type_small : w.payload_type < 128
  pub source_word : w.ssrc < 0x1_0000_0000
  pub stamp_word : w.next_timestamp < 0x1_0000_0000
  pub callback : (p : Packet) → w.on_rtp p ≡ p

-- A reader that follows the writer: the same source, the same place in its numbers, the same type of
-- payload, and nothing left over from a packet before.
pub record Follows (w : RtpWriter) (r : RtpReader) : Type 0 where
  pub same_type : r.payload_type ≡ w.payload_type
  pub same_source : r.last_ssrc ≡ w.ssrc
  pub same_number : r.seq.seq_num ≡ w.seq.seq_num
  pub same_wraps : r.seq.wrap_arround_count ≡ w.seq.wrap_arround_count
  pub nothing_unread : r.unread ≡ 0
  pub read_callback : (p : Packet) → r.on_rtp p ≡ p

module _ (codec : RtpCodec) (send : Bytes → Outcome ℕ) where
  -- The writer after a `Write`.
  abbrev pub after_write : RtpWriter → Bytes → RtpWriter
  after_write w b = (write codec send w b).0

  -- The writer after all the payloads, and the packets that it made of them.
  unfoldable pub write_all : RtpWriter → List Bytes → RtpWriter × List Packet
  write_all w [] = (w, [])
  write_all w (b ∷ bs) =
      let w' = after_write w b in let (last, ps) = write_all w' bs in (last, w'.last_packet ∷ ps)

-- The reader after all the packets, each as it is marshalled, and what its reads delivered.
unfoldable pub read_all : RtpCodec → ℕ → RtpReader → List Packet → RtpReader × List (Outcome Bytes)
read_all codec size r [] = (r, [])
read_all codec size r (p ∷ ps) =
    let (r', b) = read codec r size (codec.marshal p) in
    let (last, bs) = read_all codec size r' ps in (last, b ∷ bs)

after_write-IsSource :
    (codec : RtpCodec) (send : Bytes → Outcome ℕ) (w : RtpWriter) (b : Bytes)
    → IsSource w
    → IsSource (after_write codec send w b)
unfolding write
after_write-IsSource codec send w b h = record {
  seq_words = next_seq_number-IsWord h.seq_words;
  type_small = h.type_small;
  source_word = h.source_word;
  stamp_word = omega arith;
  callback = h.callback;
}

next_packet-IsPlain :
    (w : RtpWriter) (b : Bytes) (marker : Bool)
    → IsSource w
    → IsPlain (next_packet w b marker w.payload_type)
unfolding next_packet next_seq_number
next_packet-IsPlain w b marker h = ground (arith, h.type_small, h.source_word, h.stamp_word)

take_all : (b : Bytes) (size : ℕ) → length b ≤ size → take (min size (length b)) b ≡ b
take_all b size h =
    let whole : min size (length b) ≡ length b = omega arith in
    rw whole (take_whole (length b) b (omega arith))

-- What a reader with nothing left over does with a packet of its own source and type.
read_own :
    (codec : RtpCodec) (r : RtpReader) (size : ℕ) (wire : Bytes) (p : Packet)
    → codec.unmarshal wire ≡ ok p
    → length wire ≤ size
    → r.unread ≡ 0
    → r.payload_type ≡ p.payload_type
    → r.last_ssrc ≡ p.ssrc
    → read codec r size (ok wire)
      ≡ delivered (
          read_payload
            (record r {
              seq = (update_seq r.seq p.sequence_number).0;
              last_ssrc = p.ssrc;
              packet_header = p.header;
            })
            size
            (r.on_rtp p).payload)
unfolding read received_raw unmarshalled accept_packet track
read_own codec r size wire p h fits none_left type source =
    let nothing : ltb 0 r.unread ≡ false = ground (arith, none_left) in
    let accepted : not (r.payload_type == p.payload_type) ≡ false = ground (arith, type) in
    let tracked : track r p ≡ (update_seq r.seq p.sequence_number).0 =
      if_true {b = r.last_ssrc == p.ssrc} _ _ (ground (arith, source)) in
    if_false _ _ nothing
    ∙ rw (take_whole size wire fits, h) (if_false _ _ accepted ∙ rw (tracked) refl)

-- What a reader does with a payload that fits its buffer.
read_payload_fits :
    (r : RtpReader) (size : ℕ) (b : Bytes)
    → length b ≤ size
    → read_payload r size b ≡ (record r { unread = 0 }, b)
unfolding read_payload
read_payload_fits r size b fits =
    let short : ltb (min size (length b)) (length b) ≡ false = ground arith in
    rw (short, take_all b size fits) refl

-- The reader after a packet of its own source whose payload it has delivered whole.
abbrev fresh : RtpReader → Packet → RtpReader
fresh r p = record r {
  seq = (update_seq r.seq p.sequence_number).0;
  last_ssrc = p.ssrc;
  packet_header = p.header;
  unread = 0;
}

read_next :
    (codec : RtpCodec) (size : ℕ) (w : RtpWriter) (r : RtpReader) (b : Bytes) (marker : Bool)
    (faithful : IsFaithful codec)
    (sizes : (p : Packet) → IsPlain p → length (faithful.wire p) ≡ 12 + length p.payload)
    → IsSource w
    → Follows w r
    → 12 + length b ≤ size
    → let p = next_packet w b marker w.payload_type in
      read codec r size (codec.marshal (w.on_rtp p)) ≡ (fresh r p, ok b)
unfolding next_packet delivered
read_next codec size w r b marker faithful sizes source follows fits =
    let p = next_packet w b marker w.payload_type in
    let plain = next_packet-IsPlain w b marker source in
    let own =
      read_own codec r size (faithful.wire p) p (faithful.unmarshals p plain)
        (omega (arith, sizes p plain, fits)) follows.nothing_unread follows.same_type
        follows.same_source in
    rw (source.callback p, faithful.marshals p plain, own, follows.read_callback p)
      (ap delivered (read_payload_fits _ size b (omega arith)))

fresh-Follows :
    (codec : RtpCodec) (send : Bytes → Outcome ℕ) (w : RtpWriter) (r : RtpReader) (b : Bytes)
    (marker : Bool)
    → IsSource w
    → Follows w r
    → Follows (after_write codec send w b) (fresh r (next_packet w b marker w.payload_type))
unfolding write next_packet
fresh-Follows codec send w r b marker source follows =
    let (number, wraps) =
      step_in_sync w.seq r.seq source.seq_words follows.same_number follows.same_wraps in
    record {
      same_type = follows.same_type;
      same_source = refl;
      same_number = number;
      same_wraps = wraps;
      nothing_unread = refl;
      read_callback = follows.read_callback;
    }

-- The packet is delivered whole, and the reader still follows.
read-write :
    (codec : RtpCodec) (send : Bytes → Outcome ℕ) (size : ℕ) (w : RtpWriter) (r : RtpReader)
    (b : Bytes) (faithful : IsFaithful codec)
    (sizes : (p : Packet) → IsPlain p → length (faithful.wire p) ≡ 12 + length p.payload)
    → IsSource w
    → Follows w r
    → 12 + length b ≤ size
    → let w' = after_write codec send w b in
      let x = read codec r size (codec.marshal w'.last_packet) in (x.1 ≡ ok b) × Follows w' x.0
unfolding write
read-write codec send size w r b faithful sizes source follows fits =
    rw (read_next codec size w r b (w.next_timestamp == 0) faithful sizes source follows fits)
      (refl, fresh-Follows codec send w r b (w.next_timestamp == 0) source follows)

-- What a writer whose callback leaves its packets alone writes, payload after payload, a reader that
-- follows it reads, payload after payload, in order and whole, where each payload fits the buffer behind a header of 12 bytes;
-- and the reader still follows at the end. This holds through every wrap-around of the sequence
-- number and of the timestamp, for a codec that unmarshals what it marshalled and whose header has 12 bytes.
pub read_all-write_all :
    (codec : RtpCodec) (send : Bytes → Outcome ℕ) (size : ℕ) (payloads : List Bytes) (w : RtpWriter)
    (r : RtpReader) (faithful : IsFaithful codec)
    (sizes : (p : Packet) → IsPlain p → length (faithful.wire p) ≡ 12 + length p.payload)
    → IsSource w
    → Follows w r
    → All (λ b. 12 + length b ≤ size) payloads
    → let sent = write_all codec send w payloads in
      let got = read_all codec size r sent.1 in (got.1 ≡ map ok payloads) × Follows sent.0 got.0
unfolding write_all read_all
read_all-write_all codec send size [] w r faithful sizes source follows fits = (refl, follows)
read_all-write_all codec send size (b ∷ bs) w r faithful sizes source follows fits =
    let (now, still) = read-write codec send size w r b faithful sizes source follows fits.0 in
    let (later, last) =
      read_all-write_all codec send size bs (after_write codec send w b) _ faithful sizes
        (after_write-IsSource codec send w b source) still fits.1 in
    (rw (now, later) refl, last)
