-- ===== src/Dial/Answered.antt =====
-- A call from its `Dial` to the `answer` of another phone, and back.
use sipgox.Prelude.{ℕ, ◌≡◌, ◌⊎◌, inr, ap, none, some, [], ◌∷◌}
use sipgox.Prelude.Int.{ℤ, pos}
use sipgox.Text.{Text, codes}
use sipgox.Ip.{Ip6Notation}
use sipgox.Outcome.{ok}
use sipgox.MediaSession.{MediaSession, local_sdp, remote_sdp}
use sipgox.MediaSession.Negotiation.{CanOffer}
use sipgox.MediaSession.Agreement.{HasFormats, Agree, remote_sdp_answer}
use sipgox.Ports.{Sockets, PortRange, new_media_session}
use sipgox.Answer.{Answered, AnswerOptions, Invite, Answering}
use sipgox.Answer.Call.{Surroundings, take_call, success_response, with_formats}
use sipgox.Answer.Call.Endings.{IsCalm, negotiated_session, take_call-Agree}
use sipgox.Dial.Ends.{dial_taken}
use sipgox.Dial.{DialOptions, Recipient, invite_sent, ack_sent, answered, Line, new_invite, dial}

-- The sessions of the two sides before the call.
pub record CanCall (caller answerer : MediaSession) : Type 0 where
  pub caller_port : ℕ
  pub answerer_port : ℕ
  pub caller_offers : CanOffer caller caller_port
  pub caller_formats : HasFormats caller
  pub answerer_offers : CanOffer answerer answerer_port
  pub answerer_formats : HasFormats answerer

-- The caller takes the description of the 200 to its INVITE.
pub remote_sdp-success_response :
    (v6 : Ip6Notation) (opts : AnswerOptions) (now later : ℤ) (caller m : MediaSession)
    (body : Text)
    → body ≡ local_sdp v6 now caller
    → CanCall caller (with_formats opts.formats m)
    → (remote_sdp v6 caller
        (success_response v6 opts later (negotiated_session v6 opts m body)).sdp).1
      ≡ ok tt
unfolding success_response
remote_sdp-success_response v6 opts now later caller m body same c = rw same (
    remote_sdp_answer v6 now later caller (with_formats opts.formats m) c.caller_port
      c.answerer_port c.caller_offers c.caller_formats c.answerer_offers c.answerer_formats)

-- The INVITE that `dial` sends reaches a phone that has no answer code but 200, around whose handler nothing
-- goes wrong and whose media session was opened, and `dial` waits for the 200 of that handler, with no error
-- of its own in sending: then the handler holds a dialog, `dial` returns one after it sent the INVITE and the
-- ACK, and the sessions of the two have the same formats and send to each other's addresses. Both sides have
-- an IPv4 address, a port, a mode on one line, and at least one format, each a word, distinct and not 101.
pub dial-take_call :
    {n : Sockets} (v6 : Ip6Notation) (o : DialOptions) (recipient : Recipient) (now : ℤ)
    (caller : MediaSession) (line : Line) (opts : AnswerOptions) (env : Surroundings) (req : Invite)
    (s : Answering n) {w : n.World} {r : PortRange} {m : MediaSession}
    → IsCalm env
    → (opts.answer_code ≡ 0) ⊎ (opts.answer_code ≡ 200)
    → req.content_type ≡ some (codes "application/sdp")
    → req.body ≡ (new_invite v6 now o recipient caller).body
    → new_media_session n s.world s.ports (record { ip = env.media_ip; port = pos 0 })
      ≡ (w, r, inr m)
    → CanCall caller (with_formats opts.formats m)
    → line.write_error ≡ none
    → line.waited
      ≡ answered (success_response v6 opts env.now (negotiated_session v6 opts m req.body)).sdp
    → line.ack_error ≡ none
    → let invite = new_invite v6 now o recipient caller in
      let held = negotiated_session v6 opts m req.body in
      let answer = success_response v6 opts env.now held in
      let called = (remote_sdp v6 caller answer.sdp).0 in
      ((take_call v6 opts env req s).1.dialog
        ≡ some (record { id = req.dialog_id; media = some held }))
      × (dial v6 invite caller line
          ≡ (invite_sent invite ∷ ack_sent ∷ [], ok (record { media = called })))
      × Agree held called
unfolding new_invite
dial-take_call v6 o recipient now caller line opts env req s {w} {r} {m} calm code sdp body opened c
      no_write_error waited no_ack_error =
    let (taken, agree) =
      take_call-Agree v6 opts env calm req s now caller c.caller_port c.answerer_port code sdp body
        opened c.caller_offers c.caller_formats c.answerer_offers c.answerer_formats in
    (ap (λ x. x.1.dialog) taken, dialled, agree)
  where
    answer : Answered
    answer = success_response v6 opts env.now (negotiated_session v6 opts m req.body)

    read : (remote_sdp v6 caller answer.sdp).1 ≡ ok tt
    read = remote_sdp-success_response v6 opts now env.now caller m req.body body c

    dialled : dial v6 (new_invite v6 now o recipient caller) caller line ≡ (
      invite_sent (new_invite v6 now o recipient caller) ∷ ack_sent ∷ [],
      ok (record { media = (remote_sdp v6 caller answer.sdp).0 }),
    )
    dialled =
        dial_taken v6 (new_invite v6 now o recipient caller) caller _ line _ no_write_error waited
          no_ack_error (ap (λ r. ((remote_sdp v6 caller answer.sdp).0, r)) read)
