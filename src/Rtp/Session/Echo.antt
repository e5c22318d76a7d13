-- ===== src/Rtp/Session/Echo.antt =====
-- What is echoed.
use sipgox.Prelude.{◌≡◌, refl, ap, List, [], ◌∷◌, ◌++◌, map, length, All, ==_refl}
use sipgox.Outcome.{Outcome, ok, err, GoError}
use sipgox.Rtp.{Bytes, Packet, RtpCodec}
use sipgox.Rtp.Writer.{write_rtp}
use sipgox.Rtp.Reader.Stream.{IsPlain, IsFaithful}
use sipgox.Rtp.Session.{echo, echo_loop, read_rtp, while_read, while_written}

pub write_rtp_whole :
    (codec : RtpCodec) (p : Packet) (wire : Bytes)
    → codec.marshal p ≡ ok wire
    → write_rtp codec (λ sent. ok (length sent)) p ≡ ok tt
unfolding write_rtp
write_rtp_whole codec p wire e = rw (e, ==_refl (length wire)) refl

echo_loop-plain :
    (codec : RtpCodec) (ps : List Packet) (e : GoError) (later : List (Outcome Bytes))
    → IsFaithful codec
    → All IsPlain ps
    → echo_loop codec (λ sent. ok (length sent)) (map codec.marshal ps ++ err e ∷ later) ≡ ps
unfolding echo_loop while_read while_written read_rtp
echo_loop-plain codec [] e later faithful plain = refl
echo_loop-plain codec (p ∷ ps) e later faithful plain =
    rw
      (
        faithful.marshals p plain.0,
        faithful.unmarshals p plain.0,
        write_rtp_whole codec p (faithful.wire p) (faithful.marshals p plain.0),
      )
      (ap (◌∷◌ p) (echo_loop-plain codec ps e later faithful plain.1))

-- On a connection that takes every byte, and in a dialog that was answered with 200, `Echo` sends back
-- exactly the plain packets that come before the first read that fails, in their order, and nothing
-- behind it.
pub echo-plain :
    (codec : RtpCodec) (ps : List Packet) (e : GoError) (later : List (Outcome Bytes))
    → IsFaithful codec
    → All IsPlain ps
    → echo codec (λ sent. ok (length sent)) 200 (map codec.marshal ps ++ err e ∷ later) ≡ ps
unfolding echo
echo-plain codec ps e later faithful plain = echo_loop-plain codec ps e later faithful plain
