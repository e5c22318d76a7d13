-- ===== src/EchoMe.antt =====
-- echome: the two programs that try a call, echouas, which answers it and sends every payload back some times
-- over, and echouac, which dials and compares what comes back. Their flags are parameters; their logging is left
-- out but for the lines on a mismatch. A connection's reads give whole datagrams.
pub mod Uas
pub mod Uac
pub mod Together
use sipgox.Prelude.{ℕ, zero, suc, ◌++◌, [], take}
use sipgox.Prelude.Int.{ℤ, pos, negsuc}
use sipgox.Outcome.{Outcome, ok, err, panic, diverges}
use sipgox.Rtp.{Bytes, Packet, RtpCodec}
use sipgox.Rtp.Session.{read_rtp}

-- `count` copies of the bytes, one after the other.
unfoldable pub copies : ℕ → Bytes → Bytes
copies zero b = []
copies (suc n) b = b ++ copies n b

-- `bytes.Repeat`, which panics on a negative count.
unfoldable pub repeat_bytes : Bytes → ℤ → Outcome Bytes
unfolding copies
repeat_bytes b (pos n) = ok (copies n b)
repeat_bytes b (negsuc n) = panic

-- `ReadRTP` of a datagram, into its buffer of 1600 bytes; the rest of the datagram is lost.
unfoldable pub read_datagram : RtpCodec → Outcome Bytes → Outcome Packet
unfolding read_rtp
read_datagram codec (ok wire) = read_rtp codec (ok (take 1600 wire))
read_datagram codec (err e) = err e
read_datagram codec panic = panic
read_datagram codec diverges = diverges
