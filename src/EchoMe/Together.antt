-- ===== src/EchoMe/Together.antt =====
-- The two programs of echome against each other.
use sipgox.Prelude.{
  ℕ, zero, suc, ◌+◌, ◌*◌, ◌<◌, ◌≤◌, ◌≡◌, inl, inr, refl, ap, sym, ◌∙◌, Bool-cases, List, [], ◌∷◌,
  ◌++◌, map, replicate, ◌==◌, if◌then◌else◌, length, take_whole, arith,
}
use sipgox.Prelude.Int.{pos}
use sipgox.Text.{codes, eq_text}
use sipgox.Text.Lemmas.{eq_text_iff}
use sipgox.Outcome.{Outcome, ok, err, GoError}
use sipgox.Rtp.{Bytes, Packet, RtpCodec}
use sipgox.Rtp.Reader.Stream.{IsPlain, IsFaithful}
use sipgox.Rtp.Writer.{write_rtp}
use sipgox.Rtp.Session.{read_rtp}
use sipgox.Rtp.Session.Echo.{write_rtp_whole}
use sipgox.Rtp.Session.Client.{
  Wait, dialog_done, elapsed, test_packet, test_packets, test_packet-IsPlain,
}
use sipgox.EchoMe.{copies, repeat_bytes, read_datagram}
use sipgox.EchoMe.Uas.{uas_loop, answer_read, send_back, also_sent, after_write, echoed, decrement}
use sipgox.EchoMe.Uac.{
  uac_loop, Deed, wrote, payload_mismatch, also_done, written_test, read_answer, check_answer,
  compared, expected_payload, type_checked, payload_checked,
}

-- What is sent back for a packet.
abbrev pub repeated : ℕ → Packet → Packet
repeated n p = record p { payload = copies n p.payload }

repeated-IsPlain : (n : ℕ) (p : Packet) → IsPlain p → IsPlain (repeated n p)
repeated-IsPlain n p h = record {
  version_is = h.version_is;
  padding_is = h.padding_is;
  extension_is = h.extension_is;
  csrc_is = h.csrc_is;
  extensions_is = h.extensions_is;
  padding_size_is = h.padding_size_is;
  payload_type_small = h.payload_type_small;
  sequence_number_word = h.sequence_number_word;
  timestamp_word = h.timestamp_word;
  ssrc_word = h.ssrc_word;
}

-- The payload of the test packets.
abbrev digits : Bytes
digits = codes "1234567890"

length-copies : (n : ℕ) → length (copies n digits) ≡ 10 * n
unfolding copies
length-copies zero = refl
length-copies (suc n) = omega (arith, length-copies n)

-- Copies are told apart by their number.
copies-injective : (m n : ℕ) → copies n digits ≡ copies m digits → m ≡ n
copies-injective m n e = omega (arith, ap length e, length-copies n, length-copies m)

eq_text-copies : (m n : ℕ) → eq_text (copies n digits) (copies m digits) ≡ (m == n)
eq_text-copies m n = elim (Bool-cases (m == n)) [
  | inl e ↦
      let same : m ≡ n = ground arith in
      (eq_text_iff (copies n digits) (copies m digits)).1 (ap (λ k. copies k digits) (sym same))
      ∙ sym e
  | inr e ↦ elim (Bool-cases (eq_text (copies n digits) (copies m digits))) [
    | inl equal ↦
        let same : m ≡ n =
          copies-injective m n ((eq_text_iff (copies n digits) (copies m digits)).0 equal) in
        absurd (ground arith)
    | inr other ↦ other ∙ sym e
  ]
]

-- A mismatch where the two programs count differently.
abbrev pub verdict : ℕ → ℕ → Packet → List Deed
verdict m n p =
    if m == n then [] else payload_mismatch (copies n p.payload) (copies m p.payload) ∷ []

-- What the calling program does with the answer to a packet.
abbrev pub deeds : ℕ → ℕ → List Packet → List Deed
deeds m n [] = []
deeds m n (p ∷ ps) = wrote p ∷ (verdict m n p ++ deeds m n ps)

short_test : (number : ℕ) → length (test_packet number).payload ≤ 1588
unfolding test_packet
short_test number = omega arith

short_answer : (n number : ℕ) → n ≤ 158 → length (repeated n (test_packet number)).payload ≤ 1588
unfolding test_packet
short_answer n number fits = omega (arith, length-copies n)

-- The comparisons of an answer.
type_checked-repeated :
    (n number : ℕ) → type_checked (test_packet number) (repeated n (test_packet number)) ≡ []
unfolding type_checked test_packet
type_checked-repeated n number = refl

payload_checked-repeated :
    (m n number : ℕ)
    → let p = test_packet number in
      payload_checked (copies m p.payload) (repeated n p) ≡ verdict m n p
unfolding payload_checked test_packet
payload_checked-repeated m n number = rw (eq_text-copies m n) refl

-- The answers of the answering program: their plain packets are read whole where the copies fit the buffer.
module _ (codec : RtpCodec) (faithful : IsFaithful codec)
    (sizes : (p : Packet) → IsPlain p → length (faithful.wire p) ≡ 12 + length p.payload)
    (numbers : ℕ → ℕ) (words : (j : ℕ) → numbers j < 65536) where
  read_plain :
      (p : Packet)
      → IsPlain p
      → length p.payload ≤ 1588
      → read_datagram codec (codec.marshal p) ≡ ok p
  unfolding read_datagram read_rtp
  read_plain p plain short =
      rw
        (
          faithful.marshals p plain,
          take_whole 1600 (faithful.wire p) (omega (arith, sizes p plain)),
          faithful.unmarshals p plain,
        )
        refl

  write_plain : (p : Packet) → IsPlain p → write_rtp codec (λ wire. ok (length wire)) p ≡ ok tt
  write_plain p plain = write_rtp_whole codec p (faithful.wire p) (faithful.marshals p plain)

  answered_plain :
      (n : ℕ) (p : Packet) (ps : List Packet)
      → IsPlain p
      → answer_read codec (λ wire. ok (length wire)) (pos (suc n)) (ok p) (ps, ok tt)
        ≡ (repeated (suc n) p ∷ ps, ok tt)
  unfolding answer_read send_back also_sent after_write echoed decrement repeat_bytes copies
  answered_plain n p ps plain =
      rw (write_plain (repeated (suc n) p) (repeated-IsPlain (suc n) p plain)) refl

  uas_answers :
      (n i k : ℕ) (e : GoError) (later : List (Outcome Bytes))
      → uas_loop codec
          (λ wire. ok (length wire))
          (pos (suc n))
          (map codec.marshal (test_packets numbers i k) ++ err e ∷ later)
        ≡ (map (repeated (suc n)) (test_packets numbers i k), ok tt)
  unfolding uas_loop test_packets
  uas_answers n i zero e later = refl
  uas_answers n i (suc k) e later =
      let p = test_packet (numbers i) in
      let plain = test_packet-IsPlain (numbers i) (words i) in
      rw (read_plain p plain (short_test (numbers i)), uas_answers n (i + 1) k e later)
        (answered_plain n p _ plain)

  uac_rounds :
      (m n i k : ℕ) (waits : List Wait)
      → n ≤ 158
      → uac_loop codec
          (λ wire. ok (length wire))
          numbers
          (pos m)
          i
          (replicate k elapsed ++ dialog_done ∷ waits)
          (map codec.marshal (map (repeated n) (test_packets numbers i k)))
        ≡ (deeds m n (test_packets numbers i k), ok tt)
  unfolding uac_loop test_packets also_done written_test read_answer check_answer compared
      expected_payload
  uac_rounds m n i zero waits fits = refl
  uac_rounds m n i (suc k) waits fits =
      let p = test_packet (numbers i) in
      let plain = test_packet-IsPlain (numbers i) (words i) in
      rw
        (
          read_plain (repeated n p) (repeated-IsPlain n p plain) (short_answer n (numbers i) fits),
          write_plain p plain,
          uac_rounds m n (i + 1) k waits fits,
          type_checked-repeated n (numbers i),
          payload_checked-repeated m n (numbers i),
        )
        refl

  -- echouac against echouas, on connections that take every byte and a codec that is faithful on plain packets
  -- and lays them out behind a header of 12 bytes, with a sequencer of 16-bit numbers: in `k` rounds before the
  -- dialog ends, the answering program with a count `suc n` of at most 158 sends back every test packet with its
  -- payload `suc n` times over, and the calling program with a count `m` sends its `k` test packets, never finds
  -- another type, and logs a mismatch of the payload in no round where the counts are equal, and in each round
  -- where they differ.
  pub uac_loop-uas_loop :
      (m n k : ℕ) (waits : List Wait) (e : GoError) (later : List (Outcome Bytes))
      → suc n ≤ 158
      → let sent = test_packets numbers 0 k in
        let answers =
          uas_loop codec
            (λ wire. ok (length wire))
            (pos (suc n))
            (map codec.marshal sent ++ err e ∷ later) in
        (answers ≡ (map (repeated (suc n)) sent, ok tt))
        × (uac_loop codec
              (λ wire. ok (length wire))
              numbers
              (pos m)
              0
              (replicate k elapsed ++ dialog_done ∷ waits)
              (map codec.marshal answers.0)
            ≡ (deeds m (suc n) sent, ok tt))
  uac_loop-uas_loop m n k waits e later fits =
      let back = uas_answers n 0 k e later in (back, rw back (uac_rounds m (suc n) 0 k waits fits))
