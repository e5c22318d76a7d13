-- ===== src/Answer/Call.antt =====
-- phone.go's `answer`: what the handler of INVITE does with a call that it takes.
pub mod Endings
pub mod Steps
pub mod Ways
use mathlib.Core.Option
use sipgox.Prelude.{
  ℕ, suc, zero, Bool, true, false, not, ◌&&◌, Option, none, some, List, [], ◌∷◌, ◌==◌, ◌⊎◌, inl,
  inr, if◌then◌else◌, ltb, length,
}
use sipgox.Prelude.Int.{ℤ, pos, negsuc}
use sipgox.Text.{Text, codes, eq_text}
use sipgox.Ip.{Ip, Ip6Notation}
use sipgox.Outcome.{
  Outcome, ok, err, panic, diverges, GoError, failed_to_respond, cancelled_by_caller,
  finished_while_ringing, no_sdp,
}
use sipgox.MediaSession.{UdpAddr, MediaSession, local_sdp, remote_sdp}
use sipgox.Ports.{Sockets, PortRange, new_media_session}
use sipgox.Answer.{
  AnswerOptions, Invite, Challenge, Answered, ServerDialog, Answering, Handler, pure, raise, ◌>>=◌,
  ◌>>◌, modify, sent_or,
}
use sipgox.Answer.Authorize.{plain_response}

-- What ends the ringing.
pub data Ringing : Type 0 where
  cancelled : Ringing
  finished : Ringing
  stopped_ringing : GoError → Ringing
  rang : Ringing

-- What ends the wait for the ACK of a call that is not taken.
pub data AckWait : Type 0 where
  tx_ended : Option GoError → AckWait
  acked : AckWait
  context_ended : GoError → AckWait

-- What the surroundings do during one INVITE: `OnCall`, the result of each response that is sent, the ends
-- of its waits, the error of the transaction at its end, the address of the media, and the clock.
pub record Surroundings : Type 0 where
  pub on_call : Option ℤ
  pub respond : Answered → Option GoError
  pub ringing : Ringing
  pub ack_wait : AckWait
  pub handover : Option GoError  -- the context's error, where the dialog is not taken
  pub tx_err : Option GoError
  pub nonce : Text
  pub media_ip : Ip
  pub now : ℤ

-- The reason for a code, where none is given.
unfoldable pub default_reason : Text → ℕ → Text
default_reason (c ∷ cs) code = c ∷ cs
default_reason [] code =
    if code == 486
    then codes "Busy"
    else if code == 403
    then codes "Forbidden"
    else if code == 401
    then codes "Unathorized"
    else []

pub is_sdp : Option Text → Bool
is_sdp none = false
is_sdp (some t) = eq_text t (codes "application/sdp")

-- The formats of the options, where there are any.
unfoldable pub with_formats : List Text → MediaSession → MediaSession
with_formats [] m = m
with_formats (f ∷ fs) m = record m { formats = f ∷ fs }

-- The 200 with the session's own description.
unfoldable pub success_response : Ip6Notation → AnswerOptions → ℤ → MediaSession → Answered
success_response v6 opts now m = record {
  status = 200;
  reason = codes "OK";
  www_authenticate = none;
  headers = opts.sip_headers;
  sdp = local_sdp v6 now m;
}

module _ {n : Sockets} (v6 : Ip6Notation) (opts : AnswerOptions) (env : Surroundings) where
  -- A response, with an error of the handler's own in place of that of the sending.
  pub send_or : Answered → Handler n (Unit {0})
  send_or res s = sent_or (Option.map (λ _. failed_to_respond) (env.respond res)) res s

  or_reset : Option GoError → Answered → Handler n (Unit {0})
  or_reset none res s = sent_or none res s
  or_reset (some _) res s = (err failed_to_respond, record s { dialog = none })

  -- Where a response fails, `d` is nil.
  pub send_or_reset : Answered → Handler n (Unit {0})
  unfolding or_reset
  send_or_reset res s = or_reset (env.respond res) res s

  -- The switch on the result of `OnCall`.
  pub after_on_call : Option ℤ → Handler n (Unit {0})
  unfolding send_or_reset
  after_on_call none = pure tt
  after_on_call (some (negsuc k)) = send_or_reset (plain_response 486 (codes "Busy"))
  after_on_call (some (pos zero)) = pure tt
  after_on_call (some (pos (suc k))) = send_or_reset (plain_response (suc k) [])

  pub handed_over : ServerDialog → Option GoError → Handler n (Unit {0})
  handed_over d none s = (ok tt, record s { delivered = some (some d) })
  handed_over d (some e) s = (err e, s)

  pub after_ack_wait : ServerDialog → AckWait → Handler n (Unit {0})
  unfolding handed_over
  after_ack_wait d (tx_ended none) = pure tt
  after_ack_wait d (tx_ended (some e)) = raise e
  after_ack_wait d acked = handed_over d env.handover
  after_ack_wait d (context_ended e) = raise e

  -- The branch for an answer code other than 200.
  pub decline : Invite → Handler n (Unit {0})
  unfolding send_or_reset after_ack_wait default_reason
  decline req = do
    modify (λ s. record s { reason = default_reason s.reason opts.answer_code })
    λ s. send_or_reset (plain_response opts.answer_code s.reason) s
    let d : ServerDialog = record { id = req.dialog_id; media = none }
    modify (λ s. record s { dialog = some d })
    after_ack_wait d env.ack_wait

  pub after_ringing : Ringing → Handler n (Unit {0})
  after_ringing cancelled = raise cancelled_by_caller
  after_ringing finished = raise finished_while_ringing
  after_ringing (stopped_ringing e) = raise e
  after_ringing rang = pure tt

  -- The ring tone, or the progress.
  pub ring : Handler n (Unit {0})
  unfolding send_or after_ringing
  ring =
      if ltb 0 opts.ringtime
      then send_or (plain_response 180 (codes "Ringing")) >> after_ringing env.ringing
      else send_or (plain_response 100 (codes "Trying"))

  check_content_type : Invite → Handler n (Unit {0})
  unfolding is_sdp
  check_content_type req = if is_sdp req.content_type then pure tt else raise no_sdp

  opened_media :
      Answering n
      → n.World × PortRange × (GoError ⊎ MediaSession)
      → Outcome MediaSession × Answering n
  opened_media s (w, r, inl e) = (err e, record s { world = w; ports = r })
  opened_media s (w, r, inr m) = (ok m, record s { world = w; ports = r })

  -- `NewMediaSession` on a port that the process chooses.
  pub open_media : Handler n MediaSession
  unfolding opened_media
  open_media s =
      opened_media s
        (new_media_session n s.world s.ports (record { ip = env.media_ip; port = pos 0 }))

  negotiated : Outcome (Unit {0}) → MediaSession → Handler n MediaSession
  negotiated (ok _) m s = (ok m, s)
  negotiated (err e) m s = (err e, s)
  negotiated panic m s = (panic, s)
  negotiated diverges m s = (diverges, s)

  -- `RemoteSDP` of the body.
  pub negotiate : Invite → MediaSession → Handler n MediaSession
  unfolding negotiated
  negotiate req m = let (m', r) = remote_sdp v6 m req.body in negotiated r m'

  end_of_transaction : Option GoError → Handler n (Unit {0})
  end_of_transaction none = pure tt
  end_of_transaction (some e) = raise e

  -- From the assignment to `d` on.
  pub answer_call : Invite → MediaSession → Handler n (Unit {0})
  unfolding send_or_reset success_response end_of_transaction
  answer_call req m = do
    modify (λ s. record s { dialog = some (record { id = req.dialog_id; media = some m }) })
    send_or_reset (success_response v6 opts env.now m)
    end_of_transaction env.tx_err

  -- The branch that takes the call.
  pub accept_call : Invite → Handler n (Unit {0})
  unfolding ring check_content_type open_media with_formats negotiate answer_call
  accept_call req = do
    ring
    check_content_type req
    m ← open_media
    m' ← negotiate req (with_formats opts.formats m)
    answer_call req m'

  -- The function that `answer` runs for a dialog that `ReadInvite` has made.
  unfoldable pub take_call : Invite → Handler n (Unit {0})
  unfolding after_on_call decline accept_call
  take_call req = do
    after_on_call env.on_call
    if ltb 0 opts.answer_code && not (opts.answer_code == 200) then decline req else accept_call req
