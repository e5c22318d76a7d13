-- ===== src/Answer/Handlers/Reached.antt =====
-- The states that `answer` reaches, and what it returns from them.
use sipgox.Prelude.{◌≡◌, ap, Bool, true, false, Option, none, some, []}
use sipgox.Text.{Text}
use sipgox.Ip.{Ip6Notation}
use sipgox.Outcome.{ok, GoError}
use sipgox.Ports.{Sockets, PortRange}
use sipgox.Answer.{AnswerOptions, Digest, ServerDialog, Answering}
use sipgox.Answer.Backed.{Backing, IsBacked}
use sipgox.Answer.Handlers.Kept.{handle-Keeps}
use sipgox.Answer.Handlers.{Event, handle, answer_result, taken_result, ended_result, exit_result}

-- The variables as `answer` declares them.
unfoldable pub start_answer : {n : Sockets} → n.World → PortRange → Text → Text → Answering n
start_answer w r realm reason = record {
  dialog = none;
  challenge = none;
  exit_error = none;
  stopped = false;
  realm = realm;
  reason = reason;
  responses = [];
  delivered = none;
  world = w;
  ports = r;
}

-- The states after handlers that ran to their end.
pub data Reached {n : Sockets} (v6 : Ip6Notation) (g : Digest) (opts : AnswerOptions)
    : Answering n → Type 0 where
  started :
      (w : n.World) (r : PortRange) (realm reason : Text)
      → Reached v6 g opts (start_answer w r realm reason)
  next :
      {s s' : Answering n} (e : Event)
      → Reached v6 g opts s
      → handle v6 g opts e s ≡ (ok tt, s')
      → Reached v6 g opts s'

-- What is returned has been delivered.
returned-delivered :
    (caller exit_error : Option GoError) (stopped : Bool) (delivered : Option (Option ServerDialog))
    (d : ServerDialog)
    → taken_result delivered (ended_result caller stopped exit_error) ≡ ok (some d)
    → delivered ≡ some (some d)
unfolding taken_result ended_result exit_result
returned-delivered caller exit_error stopped (some (some d')) d e = cc
returned-delivered caller exit_error stopped (some none) d e = cc
returned-delivered (some x) exit_error stopped none d e = cc
returned-delivered none none true none d e = cc
returned-delivered none (some x) true none d e = cc
returned-delivered none exit_error false none d e = cc

module _ {n : Sockets} (v6 : Ip6Notation) (g : Digest) (opts : AnswerOptions) where
  Reached-IsBacked : {s : Answering n} → Reached v6 g opts s → IsBacked v6 opts s
  unfolding start_answer
  Reached-IsBacked (started w r realm reason) = record { held = λ d e. cc; handed = λ d e. cc }
  Reached-IsBacked (next {s = s} e before ran) =
      rw (← (ap (λ x. x.1) ran)) (handle-Keeps v6 g opts e s (Reached-IsBacked before))

-- Where `answer` returns a dialog, whatever requests came and in whatever order, the caller was answered:
-- a dialog with media by a 200 that was sent, whose description is of a session at the local address of the
-- dialog's session; one without media by a response that was sent with the code of the options.
pub answer_result-Backing :
    {n : Sockets} (v6 : Ip6Notation) (g : Digest) (opts : AnswerOptions) (caller : Option GoError)
    {s : Answering n} {d : ServerDialog}
    → Reached v6 g opts s
    → answer_result caller s ≡ ok (some d)
    → Backing v6 opts d.media s.responses
unfolding answer_result
answer_result-Backing v6 g opts caller {s} {d} r e =
    (Reached-IsBacked v6 g opts r).handed d
      (returned-delivered caller s.exit_error s.stopped s.delivered d e)
