-- ===== src/EchoMe/Uas.antt =====
-- echome/echouas/main.go: the addresses that its phone listens on, and the loop that sends the payloads back.
use sipgox.Prelude.{ℕ, zero, suc, ◌+◌, List, [], ◌∷◌, ◌++◌, if◌then◌else◌}
use sipgox.Prelude.Int.{ℤ, pos, negsuc}
use sipgox.Text.{Text, codes, eq_text}
use sipgox.Phone.{Phone, new_phone, with_phone_listen_addr}
use sipgox.Outcome.{Outcome, ok, err, panic, diverges, ◌>>=◌}
use sipgox.Rtp.{Bytes, Packet, RtpCodec}
use sipgox.Rtp.Writer.{write_rtp}
use sipgox.EchoMe.{repeat_bytes, read_datagram}

-- `*echoCount-1`.
unfoldable pub decrement : ℤ → ℤ
decrement (pos zero) = negsuc 0
decrement (pos (suc n)) = pos n
decrement (negsuc n) = negsuc (n + 1)

-- The payload, and then its copies.
unfoldable pub echoed : ℤ → Packet → Outcome Packet
unfolding decrement repeat_bytes
echoed count p = do
  more ← repeat_bytes p.payload (decrement count)
  ok (record p { payload = p.payload ++ more })

-- The packets that are sent, and how the loop ends: an error is only logged.
abbrev pub Sent : Type 0
Sent = List Packet × Outcome (Unit {0})

unfoldable pub also_sent : Packet → Sent → Sent
also_sent p (ps, r) = (p ∷ ps, r)

unfoldable pub after_write : Outcome (Unit {0}) → Sent → Sent
after_write (ok _) rest = rest
after_write (err e) rest = ([], ok tt)
after_write panic rest = ([], panic)
after_write diverges rest = ([], diverges)

unfoldable pub send_back : RtpCodec → (Bytes → Outcome ℕ) → Outcome Packet → Sent → Sent
unfolding also_sent after_write
send_back codec send (ok p) rest = also_sent p (after_write (write_rtp codec send p) rest)
send_back codec send (err e) rest = ([], ok tt)
send_back codec send panic rest = ([], panic)
send_back codec send diverges rest = ([], diverges)

-- A read, and what is sent back where it gives a packet.
unfoldable pub answer_read : RtpCodec → (Bytes → Outcome ℕ) → ℤ → Outcome Packet → Sent → Sent
unfolding send_back echoed
answer_read codec send count (ok p) rest = send_back codec send (echoed count p) rest
answer_read codec send count (err e) rest = ([], ok tt)
answer_read codec send count panic rest = ([], panic)
answer_read codec send count diverges rest = ([], diverges)

-- The goroutine of `main`, over the reads of the connection; behind the last it waits.
unfoldable pub uas_loop : RtpCodec → (Bytes → Outcome ℕ) → ℤ → List (Outcome Bytes) → Sent
unfolding answer_read read_datagram
uas_loop codec send count [] = ([], diverges)
uas_loop codec send count (received ∷ reads) =
    answer_read codec send count (read_datagram codec received) (uas_loop codec send count reads)

-- The phone of `main`, for its flag `-l`.
unfoldable pub uas_phone : Text → Phone
uas_phone addr =
    if eq_text addr []
    then new_phone []
    else new_phone
        (with_phone_listen_addr (record { listen_network = codes "udp"; listen_addr = addr }) ∷ [])
