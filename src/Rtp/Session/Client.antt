-- ===== src/Rtp/Session/Client.antt =====
-- dialog_client.go's `Echo`, which sends test packets and reads what comes back.
use sipgox.Prelude.{
  ◌<◌, arith, ℕ, zero, suc, ◌+◌, ◌≡◌, refl, ap, false, List, [], ◌∷◌, ◌++◌, map, replicate, ◌==◌,
  if◌then◌else◌, length, All,
}
use sipgox.Text.{codes}
use sipgox.Outcome.{Outcome, ok, err, GoError}
use sipgox.Rtp.{Bytes, Packet, RtpCodec}
use sipgox.Rtp.Writer.{write_rtp}
use sipgox.Rtp.Reader.Stream.{IsPlain, IsFaithful}
use sipgox.Rtp.Session.{echo, read_rtp, while_read, while_written}
use sipgox.Rtp.Session.Echo.{echo-plain, write_rtp_whole}

-- What each round of the loop waits for: the end of the dialog, or 200 milliseconds.
pub data Wait : Type 0 where
  dialog_done : Wait
  elapsed : Wait

-- The packet of a round.
unfoldable pub test_packet : ℕ → Packet
test_packet number = record {
  header = record {
    version = 2;
    padding = false;
    extension = false;
    marker = false;
    payload_type = 0;
    sequence_number = number;
    timestamp = 20;
    ssrc = 111222;
    csrc = [];
    extensions = [];
  };
  payload = codes "1234567890";
  padding_size = 0;
}

-- `ReadRTP`, and the next round where it reads a packet.
after_reading : RtpCodec → (List (Outcome Bytes) → List Packet) → List (Outcome Bytes) → List Packet
unfolding while_read read_rtp
after_reading codec go [] = []
after_reading codec go (received ∷ reads) = while_read (read_rtp codec received) (λ p. go reads)

-- The packets that the loop hands to `WriteRTP`, from round `i` on; `numbers` are those of the sequencer.
unfoldable pub client_echo_loop :
    RtpCodec → (Bytes → Outcome ℕ) → (ℕ → ℕ) → ℕ → List Wait → List (Outcome Bytes) → List Packet
unfolding after_reading while_written test_packet
client_echo_loop codec send numbers i [] reads = []
client_echo_loop codec send numbers i (dialog_done ∷ waits) reads = []
client_echo_loop codec send numbers i (elapsed ∷ waits) reads =
    let pkt = test_packet (numbers i) in
    pkt
    ∷ while_written (write_rtp codec send pkt) (
        after_reading codec (λ reads. client_echo_loop codec send numbers (i + 1) waits reads)
          reads)

-- `DialogClientSession.Echo`, of a dialog whose INVITE was answered with `status`.
unfoldable pub client_echo :
    RtpCodec → (Bytes → Outcome ℕ) → (ℕ → ℕ) → ℕ → List Wait → List (Outcome Bytes) → List Packet
unfolding client_echo_loop
client_echo codec send numbers status waits reads =
    if status == 200 then client_echo_loop codec send numbers 0 waits reads else []

-- The packets of `k` rounds.
unfoldable pub test_packets : (ℕ → ℕ) → ℕ → ℕ → List Packet
test_packets numbers i zero = []
test_packets numbers i (suc k) = test_packet (numbers i) ∷ test_packets numbers (i + 1) k

pub test_packet-IsPlain : (number : ℕ) → number < 65536 → IsPlain (test_packet number)
unfolding test_packet
test_packet-IsPlain number h = record {
  version_is = refl;
  padding_is = refl;
  extension_is = refl;
  csrc_is = refl;
  extensions_is = refl;
  padding_size_is = refl;
  payload_type_small = omega arith;
  sequence_number_word = h;
  timestamp_word = omega arith;
  ssrc_word = omega arith;
}

module _ (codec : RtpCodec) (faithful : IsFaithful codec) (numbers : ℕ → ℕ)
    (words : (j : ℕ) → numbers j < 65536) where
  test_packets-All-IsPlain : (i k : ℕ) → All IsPlain (test_packets numbers i k)
  unfolding test_packets
  test_packets-All-IsPlain i zero = tt
  test_packets-All-IsPlain i (suc k) =
      (test_packet-IsPlain (numbers i) (words i), test_packets-All-IsPlain (i + 1) k)

  client_rounds :
      (i k : ℕ) (waits : List Wait)
      → client_echo_loop codec
          (λ wire. ok (length wire))
          numbers
          i
          (replicate k elapsed ++ dialog_done ∷ waits)
          (map codec.marshal (test_packets numbers i k))
        ≡ test_packets numbers i k
  unfolding client_echo_loop test_packets after_reading while_read while_written read_rtp
  client_rounds i zero waits = refl
  client_rounds i (suc k) waits =
      let p = test_packet (numbers i) in
      let plain = test_packet-IsPlain (numbers i) (words i) in
      rw
        (
          faithful.marshals p plain,
          faithful.unmarshals p plain,
          write_rtp_whole codec p (faithful.wire p) (faithful.marshals p plain),
        )
        (ap (◌∷◌ p) (client_rounds (i + 1) k waits))

  -- The `Echo` of the calling side against that of the called side, both answered with 200 and on connections
  -- that take every byte, with a codec that is faithful on plain packets and a sequencer of 16-bit numbers: in
  -- `k` rounds before the dialog ends the calling side sends its `k` test packets, the called side sends back
  -- exactly these, and it is on them that the calling side goes on.
  pub client_echo-echo :
      (k : ℕ) (waits : List Wait) (e : GoError) (later : List (Outcome Bytes))
      → let sent = test_packets numbers 0 k in
        let answers =
          echo codec (λ wire. ok (length wire)) 200 (map codec.marshal sent ++ err e ∷ later) in
        (answers ≡ sent)
        × (client_echo codec
              (λ wire. ok (length wire))
              numbers
              200
              (replicate k elapsed ++ dialog_done ∷ waits)
              (map codec.marshal answers)
            ≡ sent)
  unfolding client_echo
  client_echo-echo k waits e later =
      let back =
        echo-plain codec (test_packets numbers 0 k) e later faithful
          (test_packets-All-IsPlain 0 k) in
      (back, rw back (client_rounds 0 k waits))
