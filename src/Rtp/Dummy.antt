-- ===== src/Rtp/Dummy.antt =====
-- rtp_utils.go's `SendDummyRTP`: silence, sent frame by frame. The packetizer is the package pion/rtp's, a
-- parameter. `NTPTimestamp` is that of sdp/utils.go again.
use sipgox.Prelude.{
  ℕ, zero, suc, ◌+◌, ◌*◌, ◌≡◌, refl, ap, ◌∙◌, List, [], ◌∷◌, ◌++◌, replicate, arith,
}
use mathlib.Core.List.{append_assoc}
use sipgox.Outcome.{Outcome, ok, err, panic, diverges}
use sipgox.Rtp.{Bytes, Packet, RtpCodec}

-- `rtp.NewPacketizer`, with the source, the type and the sizes that are given to it, and `Packetize`, of a
-- payload and a number of samples.
pub record Packetizer : Type 1 where
  pub State : Type 0
  pub packetize : State → Bytes → ℕ → State × List Packet

-- 20 milliseconds at 8 kHz.
unfoldable pub generate_silent_audio_frame : Bytes
generate_silent_audio_frame = replicate 160 0

-- The packets that were written, and how the function ends.
abbrev pub Written : Type 0
Written = List Packet × Outcome (Unit {0})

unfoldable pub also_written : Packet → Written → Written
also_written p (ps, r) = (p ∷ ps, r)

-- An error of the write ends it; the count of the bytes is not looked at.
unfoldable pub written_packet : Packet → Outcome ℕ → Written → Written
unfolding also_written
written_packet p (ok k) rest = also_written p rest
written_packet p (err e) rest = ([], ok tt)
written_packet p panic rest = ([], panic)
written_packet p diverges rest = ([], diverges)

-- A packet that cannot be marshalled is left out.
unfoldable pub marshalled_packet : (Bytes → Outcome ℕ) → Packet → Outcome Bytes → Written → Written
unfolding written_packet
marshalled_packet send p (ok wire) rest = written_packet p (send wire) rest
marshalled_packet send p (err e) rest = rest
marshalled_packet send p panic rest = ([], panic)
marshalled_packet send p diverges rest = ([], diverges)

-- The packets of one frame, and then the rest.
unfoldable pub send_packets : RtpCodec → (Bytes → Outcome ℕ) → List Packet → Written → Written
unfolding marshalled_packet
send_packets codec send [] rest = rest
send_packets codec send (p ∷ ps) rest =
    marshalled_packet send p (codec.marshal p) (send_packets codec send ps rest)

-- The loop, for some rounds; behind them it goes on.
unfoldable pub send_dummy_rtp :
    RtpCodec → (Bytes → Outcome ℕ) → (z : Packetizer) → ℕ → z.State → Written
unfolding send_packets generate_silent_audio_frame
send_dummy_rtp codec send z zero s = ([], diverges)
send_dummy_rtp codec send z (suc rounds) s =
    let (s', ps) = z.packetize s generate_silent_audio_frame 160 in
    send_packets codec send ps (send_dummy_rtp codec send z rounds s')

-- The payloads, one behind the other.
abbrev pub payloads : List Packet → Bytes
payloads [] = []
payloads (p ∷ ps) = p.payload ++ payloads ps

-- What is relied on: the packets of a payload carry it whole.
pub record IsWhole (z : Packetizer) : Type 0 where
  pub carries : (s : z.State) (b : Bytes) (samples : ℕ) → payloads (z.packetize s b samples).1 ≡ b

send_packets-payloads :
    (codec : RtpCodec) (wire : Packet → Bytes) (send : Bytes → Outcome ℕ) (taken : Bytes → ℕ)
    (ps : List Packet) (rest : Written)
    → ((p : Packet) → codec.marshal p ≡ ok (wire p))
    → ((b : Bytes) → send b ≡ ok (taken b))
    → (payloads (send_packets codec send ps rest).0 ≡ payloads ps ++ payloads rest.0)
      × ((send_packets codec send ps rest).1 ≡ rest.1)
unfolding send_packets marshalled_packet written_packet also_written
send_packets-payloads codec wire send taken [] rest m w = (refl, refl)
send_packets-payloads codec wire send taken (p ∷ ps) rest m w =
    let (same, ends) = send_packets-payloads codec wire send taken ps rest m w in
    rw (m p, w (wire p))
      (
        ap (λ b. p.payload ++ b) same
            ∙ rw (append_assoc p.payload (payloads ps) (payloads rest.0)) refl,
        ends,
      )

replicate_add : (m n : ℕ) (x : ℕ) → replicate m x ++ replicate n x ≡ replicate (m + n) x
replicate_add zero n x = let e : n ≡ 0 + n = omega arith in ap (λ k. replicate k x) e
replicate_add (suc m) n x =
    let e : suc (m + n) ≡ suc m + n = omega arith in
    ap (λ l. x ∷ l) (replicate_add m n x) ∙ ap (λ k. replicate k x) e

-- Where the packetizer carries a payload whole, every packet can be marshalled and every write succeeds:
-- `SendDummyRTP` goes on, and in `k` rounds it has written `k` frames of silence, 160 zeros each, and nothing else.
pub send_dummy_rtp-payloads :
    (codec : RtpCodec) (wire : Packet → Bytes) (send : Bytes → Outcome ℕ) (taken : Bytes → ℕ)
    (z : Packetizer) (k : ℕ) (s : z.State)
    → ((p : Packet) → codec.marshal p ≡ ok (wire p))
    → ((b : Bytes) → send b ≡ ok (taken b))
    → IsWhole z
    → (payloads (send_dummy_rtp codec send z k s).0 ≡ replicate (k * 160) 0)
      × ((send_dummy_rtp codec send z k s).1 ≡ diverges)
unfolding send_dummy_rtp generate_silent_audio_frame
send_dummy_rtp-payloads codec wire send taken z zero s m w whole = (refl, refl)
send_dummy_rtp-payloads codec wire send taken z (suc k) s m w whole =
    let x = z.packetize s (replicate 160 0) 160 in
    let (rest, ends) = send_dummy_rtp-payloads codec wire send taken z k x.0 m w whole in
    let frames : 160 + k * 160 ≡ suc k * 160 = omega arith in
    let (same, goes_on) =
      send_packets-payloads codec wire send taken x.1 (send_dummy_rtp codec send z k x.0) m w in
    (
      same
          ∙ ap (λ b. b ++ payloads (send_dummy_rtp codec send z k x.0).0)
              (whole.carries s (replicate 160 0) 160)
          ∙ ap (λ b. replicate 160 0 ++ b) rest
          ∙ replicate_add 160 (k * 160) 0
          ∙ ap (λ n. replicate n 0) frames,
      goes_on ∙ ends,
    )
