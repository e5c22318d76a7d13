-- ===== src/Rtp/Session.antt =====
-- media.go: `MediaSession`'s reading of RTP packets, and the loop of dialog_server.go that sends them
-- back. What the reads of the connection give is a list, one entry for each read.
pub mod Echo
pub mod Client
pub mod Logger
use sipgox.Prelude.{ℕ, List, [], ◌∷◌, ◌==◌, if◌then◌else◌}
use sipgox.Outcome.{Outcome, ◌>>=◌, ok, err, panic, diverges}
use sipgox.Rtp.{Bytes, Packet, RtpCodec, rtp_unmarshal}
use sipgox.Rtp.Writer.{write_rtp}

-- `ReadRTP`.
unfoldable pub read_rtp : RtpCodec → Outcome Bytes → Outcome Packet
read_rtp codec received = received >>= codec.unmarshal

-- `readRTPNoAlloc`, which writes to the packet that it is given.
unfoldable pub read_rtp_no_alloc : RtpCodec → Outcome Bytes → Packet → Packet × Outcome (Unit {0})
read_rtp_no_alloc codec (ok wire) p = rtp_unmarshal codec wire p
read_rtp_no_alloc codec (err e) p = (p, err e)
read_rtp_no_alloc codec panic p = (p, panic)
read_rtp_no_alloc codec diverges p = (p, diverges)

while_written : Outcome (Unit {0}) → List Packet → List Packet
while_written (ok tt) ps = ps
while_written _ ps = []

while_read : Outcome Packet → (Packet → List Packet) → List Packet
while_read (ok p) go = go p
while_read _ go = []

-- The loop of `Echo`: the packets that it hands to `WriteRTP`.
unfoldable pub echo_loop : RtpCodec → (Bytes → Outcome ℕ) → List (Outcome Bytes) → List Packet
unfolding while_read while_written read_rtp
echo_loop codec send [] = []
echo_loop codec send (received ∷ reads) =
    while_read (read_rtp codec received)
      (λ p. p ∷ while_written (write_rtp codec send p) (echo_loop codec send reads))

-- `DialogServerSession.Echo`, of a dialog whose INVITE was answered with `status`.
unfoldable pub echo : RtpCodec → (Bytes → Outcome ℕ) → ℕ → List (Outcome Bytes) → List Packet
unfolding echo_loop
echo codec send status reads = if status == 200 then echo_loop codec send reads else []
