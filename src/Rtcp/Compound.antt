-- ===== src/Rtcp/Compound.antt =====
-- Compound packets: several RTCP packets in one datagram.
use sipgox.Prelude.{
  ℕ, suc, ◌+◌, ◌*◌, ◌%◌, ◌<◌, ◌≤◌, ◌≡◌, ◌≢◌, refl, ap, ◌∙◌, false, Option, some, List, [], ◌∷◌,
  ◌++◌, map, arith, ltb, length, take, drop, length-append, if_true, ==_refl, take_whole,
}
use Prim.Native.Nat.{min}
use sipgox.Outcome.{Outcome, short_write, ok, err, panic, diverges}
use sipgox.Text.Lemmas.{take-append_left, drop-append_left}
use sipgox.Rtp.{Bytes}
use sipgox.MediaSession.{Conn, conn}
use sipgox.Rtcp.{
  read_rtcp, write_rtcp_raw, write_rtcps, read_into, read_rtcp_raw, RtcpCodec, rtcp_typed_packet,
  first_packet, cut_packet, stored, unmarshal_from, rtcp_unmarshal, Slots,
}

-- What the reading relies on: the bytes of a message begin with a header that counts them in words of
-- four bytes, whatever follows, and the packet of the header's kind reads them as the message.
pub record IsFaithful (codec : RtcpCodec) : Type 0 where
  pub wire : codec.Message → Bytes
  pub htype : codec.Message → ℕ
  pub words : codec.Message → ℕ
  pub words_field : (m : codec.Message) → words m < 65535
  pub wire_length : (m : codec.Message) → length (wire m) ≡ (words m + 1) * 4
  pub reads_header :
      (m : codec.Message) (rest : Bytes)
      → codec.header_unmarshal (wire m ++ rest) ≡ ok (htype m, words m)
  pub reads_message :
      (m : codec.Message) → codec.unmarshal (rtcp_typed_packet (htype m)) (wire m) ≡ ok m

module _ (codec : RtcpCodec) (faithful : IsFaithful codec) where
  open codec use {Message}
  open faithful use {wire, htype, words}

  -- The messages, one behind the other.
  abbrev pub compound : List Message → Bytes
  compound [] = []
  compound (m ∷ ms) = wire m ++ compound ms

  first_packet-wire :
      (m : Message) (rest : Bytes) → first_packet codec (wire m ++ rest) ≡ ok (m, rest)
  unfolding first_packet cut_packet
  first_packet-wire m rest =
      let counted : (words m + 1) % 65536 * 4 ≡ length (wire m) =
        omega (arith, faithful.words_field m, faithful.wire_length m) in
      let whole : ltb (length (wire m ++ rest)) (length (wire m)) ≡ false =
        ground (arith, length-append (wire m) rest) in
      rw (faithful.reads_header m rest, counted, whole, take-append_left (wire m) rest)
        (rw (faithful.reads_message m, drop-append_left (wire m) rest) refl)

  unmarshal_from_nonempty :
      (bytes : Bytes) (slot : Option Message) (slots : Slots codec) (n : ℕ)
      → bytes ≢ []
      → unmarshal_from codec bytes (slot ∷ slots) n
        ≡ stored codec slot slots
            (λ rest. unmarshal_from codec rest slots (n + 1))
            (first_packet codec bytes)
  unfolding unmarshal_from
  unmarshal_from_nonempty [] slot slots n ne = absurd (ne refl)
  unmarshal_from_nonempty (b ∷ bytes) slot slots n ne = refl

  wire_nonempty : (m : Message) (rest : Bytes) → wire m ++ rest ≢ []
  wire_nonempty m rest e =
      absurd (omega (arith, ap length e, length-append (wire m) rest, faithful.wire_length m))

  unmarshal_from-full : (bytes : Bytes) (n : ℕ) → unmarshal_from codec bytes [] n ≡ ([], ok n)
  unfolding unmarshal_from
  unmarshal_from-full [] n = refl
  unmarshal_from-full (b ∷ bytes) n = refl

  counted_to : (n k : ℕ) → n ≡ k → ◌≡◌ {A = Slots codec × Outcome ℕ} ([], ok n) ([], ok k)
  counted_to n k e = ap (λ i. ([], ok i)) e

  unmarshal_from-compound :
      (ms : List Message) (slots : Slots codec) (n : ℕ)
      → unmarshal_from codec (compound ms) slots n ≡ (
        map some (take (length slots) ms) ++ drop (length ms) slots,
        ok (n + min (length ms) (length slots)),
      )
  unfolding stored unmarshal_from
  unmarshal_from-compound [] [] n =
      unmarshal_from-full [] n ∙ counted_to n (n + min 0 0) (omega arith)
  unmarshal_from-compound (m ∷ ms) [] n =
      unmarshal_from-full (compound (m ∷ ms)) n
      ∙ counted_to n (n + min (suc (length ms)) 0) (omega arith)
  unmarshal_from-compound [] (slot ∷ slots) n =
      let none_read : n ≡ n + min 0 (suc (length slots)) = omega arith in
      ap (λ k. (slot ∷ slots, ok k)) none_read
  unmarshal_from-compound (m ∷ ms) (slot ∷ slots) n =
      let one_more : n + 1 + min (length ms) (length slots)
          ≡ n + min (suc (length ms)) (suc (length slots)) =
        omega arith in
      unmarshal_from_nonempty (compound (m ∷ ms)) slot slots n (wire_nonempty m (compound ms))
      ∙ rw (first_packet-wire m (compound ms))
          (rw (unmarshal_from-compound ms slots (n + 1)) (rw one_more refl))

  -- With a faithful codec, a datagram of any number of messages is read message by message into the caller's slots, from the
  -- first on: as many as there are slots for. The others are left out, the other slots are left as
  -- they are, and the count is that of the messages read.
  pub rtcp_unmarshal-compound :
      (ms : List Message) (slots : Slots codec)
      → rtcp_unmarshal codec (compound ms) slots ≡ (
        map some (take (length slots) ms) ++ drop (length ms) slots,
        ok (min (length ms) (length slots)),
      )
  unfolding rtcp_unmarshal
  rtcp_unmarshal-compound ms slots =
      unmarshal_from-compound ms slots 0
      ∙ ap (λ k. (map some (take (length slots) ms) ++ drop (length ms) slots, ok k)) (omega arith)

  -- What `WriteRTCPs` sends, `ReadRTCP` reads: where the codec is faithful, marshalling writes the messages one behind the
  -- other, the connections are open and lossless, they are no more than 1600 bytes in all, and there are at least as many slots as messages, the
  -- write succeeds, and the slots hold the messages in order, in front of the slots left over.
  pub read_rtcp-write_rtcps :
      (ms : List Message) (slots : Slots codec) (c : Conn)
      → codec.marshal_all ms ≡ ok (compound ms)
      → length (compound ms) ≤ 1600
      → length ms ≤ length slots
      → (write_rtcps codec (λ sent. ok (length sent)) ms ≡ ok tt)
        × (read_rtcp codec (conn c) (codec.marshal_all ms) slots
            ≡ (map some ms ++ drop (length ms) slots, ok (length ms)))
  unfolding write_rtcps write_rtcp_raw read_rtcp read_into read_rtcp_raw
  read_rtcp-write_rtcps ms slots c marshals small room =
      let counted : min (length ms) (length slots) ≡ length ms = omega arith in
      rw marshals (
        if_true (ok tt) (err short_write) (==_refl (length (compound ms))),
        ap (λ bytes. rtcp_unmarshal codec bytes slots) (take_whole 1600 (compound ms) small)
            ∙ rtcp_unmarshal-compound ms slots
            ∙ rw (take_whole (length slots) ms room, counted) refl,
      )

length-stored :
    (codec : RtcpCodec) (slot : Option codec.Message) (slots : Slots codec)
    (go : Bytes → Slots codec × Outcome ℕ) (r : Outcome (codec.Message × Bytes))
    → ((rest : Bytes) → length (go rest).0 ≡ length slots)
    → length (stored codec slot slots go r).0 ≡ suc (length slots)
unfolding stored
length-stored codec slot slots go (ok (m, rest)) h = ap suc (h rest)
length-stored codec slot slots go (err e) h = refl
length-stored codec slot slots go panic h = refl
length-stored codec slot slots go diverges h = refl

length-unmarshal_from :
    (codec : RtcpCodec) (slots : Slots codec) (bytes : Bytes) (n : ℕ)
    → length (unmarshal_from codec bytes slots n).0 ≡ length slots
unfolding unmarshal_from
length-unmarshal_from codec slots [] n = refl
length-unmarshal_from codec [] (b ∷ bytes) n = refl
length-unmarshal_from codec (slot ∷ slots) (b ∷ bytes) n =
    length-stored codec slot slots _ (first_packet codec (b ∷ bytes))
      (λ rest. length-unmarshal_from codec slots rest (n + 1))

count-stored :
    (codec : RtcpCodec) (slot : Option codec.Message) (slots : Slots codec)
    (go : Bytes → Slots codec × Outcome ℕ) (r : Outcome (codec.Message × Bytes)) (k bound : ℕ)
    → ((rest : Bytes) → (go rest).1 ≡ ok k → k ≤ bound)
    → (stored codec slot slots go r).1 ≡ ok k
    → k ≤ bound
unfolding stored
count-stored codec slot slots go (ok (m, rest)) k bound h e = h rest e
count-stored codec slot slots go (err _) k bound h e = cc
count-stored codec slot slots go panic k bound h e = cc
count-stored codec slot slots go diverges k bound h e = cc

count-unmarshal_from :
    (codec : RtcpCodec) (slots : Slots codec) (bytes : Bytes) (n k : ℕ)
    → (unmarshal_from codec bytes slots n).1 ≡ ok k
    → k ≤ n + length slots
unfolding unmarshal_from
count-unmarshal_from codec slots [] n k e = ground arith
count-unmarshal_from codec [] (b ∷ bytes) n k e = ground arith
count-unmarshal_from codec (slot ∷ slots) (b ∷ bytes) n k e =
    count-stored codec slot slots _ (first_packet codec (b ∷ bytes)) k _
      (λ rest h. omega (arith, count-unmarshal_from codec slots rest (n + 1) k h)) e

-- A successful `rtcpUnmarshal`, of whatever bytes, keeps the number of slots, and counts no more packets
-- than there are slots.
pub rtcp_unmarshal_bounds :
    (codec : RtcpCodec) (bytes : Bytes) (slots : Slots codec) (k : ℕ)
    → (rtcp_unmarshal codec bytes slots).1 ≡ ok k
    → (length (rtcp_unmarshal codec bytes slots).0 ≡ length slots) × (k ≤ length slots)
unfolding rtcp_unmarshal
rtcp_unmarshal_bounds codec bytes slots k e = (
  length-unmarshal_from codec slots bytes 0,
  omega (arith, count-unmarshal_from codec slots bytes 0 k e),
)
