-- ===== src/EchoMe/Uac.antt =====
-- echome/echouac/main.go: the loop that sends test packets and compares what comes back.
use sipgox.Prelude.{ℕ, ◌+◌, List, [], ◌∷◌, ◌++◌, ◌==◌, if◌then◌else◌}
use sipgox.Prelude.Int.{ℤ, pos, negsuc}
use sipgox.Text.{eq_text}
use sipgox.Outcome.{Outcome, ok, err, panic, diverges}
use sipgox.Rtp.{Bytes, Packet, RtpCodec}
use sipgox.Rtp.Writer.{write_rtp}
use sipgox.Rtp.Session.Client.{Wait, dialog_done, elapsed, test_packet}
use sipgox.EchoMe.{copies, read_datagram}

-- What the loop does: a packet that it hands to `WriteRTP`, and the two lines that it logs on a mismatch.
pub data Deed : Type 0 where
  wrote : Packet → Deed
  type_mismatch : Deed
  payload_mismatch : Bytes → Bytes → Deed

abbrev pub Done : Type 0
Done = List Deed × Outcome (Unit {0})

unfoldable pub also_done : List Deed → Done → Done
also_done deeds (more, r) = (deeds ++ more, r)

-- A slice cannot be made with a negative capacity, which is a panic.
unfoldable pub expected_payload : ℤ → Packet → Outcome Bytes
unfolding copies
expected_payload (pos n) pkt = ok (copies n pkt.payload)
expected_payload (negsuc n) pkt = panic

-- The two comparisons.
unfoldable pub type_checked : Packet → Packet → List Deed
type_checked pkt p = if p.payload_type == pkt.payload_type then [] else type_mismatch ∷ []

unfoldable pub payload_checked : Bytes → Packet → List Deed
payload_checked expected p =
    if eq_text p.payload expected then [] else payload_mismatch p.payload expected ∷ []

unfoldable pub compared : Packet → Packet → Outcome Bytes → Done → Done
unfolding also_done type_checked payload_checked
compared pkt p (ok expected) rest =
    also_done (type_checked pkt p ++ payload_checked expected p) rest
compared pkt p (err e) rest = (type_checked pkt p, err e)
compared pkt p panic rest = (type_checked pkt p, panic)
compared pkt p diverges rest = (type_checked pkt p, diverges)

unfoldable pub check_answer : ℤ → Packet → Outcome Packet → Done → Done
unfolding compared expected_payload
check_answer count pkt (ok p) rest = compared pkt p (expected_payload count pkt) rest
check_answer count pkt (err e) rest = ([], ok tt)
check_answer count pkt panic rest = ([], panic)
check_answer count pkt diverges rest = ([], diverges)

unfoldable pub read_answer :
    RtpCodec → ℤ → Packet → (List (Outcome Bytes) → Done) → List (Outcome Bytes) → Done
unfolding check_answer read_datagram
read_answer codec count pkt go [] = ([], diverges)
read_answer codec count pkt go (received ∷ reads) =
    check_answer count pkt (read_datagram codec received) (go reads)

unfoldable pub written_test : Outcome (Unit {0}) → Done → Done
written_test (ok _) rest = rest
written_test (err e) rest = ([], ok tt)
written_test panic rest = ([], panic)
written_test diverges rest = ([], diverges)

-- The goroutine of `main`, from round `i` on; `numbers` are those of the sequencer. Behind the last of the waits
-- it waits.
unfoldable pub uac_loop :
    RtpCodec → (Bytes → Outcome ℕ) → (ℕ → ℕ) → ℤ → ℕ → List Wait → List (Outcome Bytes) → Done
unfolding also_done written_test read_answer
uac_loop codec send numbers count i [] reads = ([], diverges)
uac_loop codec send numbers count i (dialog_done ∷ waits) reads = ([], ok tt)
uac_loop codec send numbers count i (elapsed ∷ waits) reads =
    let pkt = test_packet (numbers i) in
    also_done (wrote pkt ∷ []) (
      written_test (write_rtp codec send pkt) (
        read_answer codec count pkt (λ reads. uac_loop codec send numbers count (i + 1) waits reads)
          reads))
