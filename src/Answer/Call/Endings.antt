-- ===== src/Answer/Call/Endings.antt =====
-- How the handler of INVITE ends: a call that is taken, one that is refused, one whose description cannot be
-- read.
use sipgox.Prelude.{
  ℕ, ◌≡◌, ◌⊎◌, inl, inr, refl, ap, false, not, ◌&&◌, Bool-cases, if◌then◌else◌, ltb, ◌==◌, none,
  some, [], ◌∷◌, ◌++◌,
}
use mathlib.Core.Path.{subst}
use sipgox.Text.Lemmas.{eq_text_refl}
use sipgox.Prelude.Int.{ℤ, pos, negsuc}
use sipgox.Text.{Text, codes}
use sipgox.Ip.{Ip6Notation}
use sipgox.Outcome.{ok, err, GoError}
use sipgox.MediaSession.{MediaSession, local_sdp, remote_sdp}
use sipgox.MediaSession.Negotiation.{CanOffer, remote_sdp-local_sdp}
use sipgox.MediaSession.Agreement.{HasFormats, Agree, remote_sdp-Agree}
use sipgox.Ports.{Sockets, new_media_session, PortRange, close_session}
use sipgox.Ports.Pair.{IsLawful}
use sipgox.Ports.Release.{Released, close_session-new_media_session}
use sipgox.Answer.{AnswerOptions, Invite, Answered, Answering, then_do, sent_or}
use sipgox.Answer.Authorize.{plain_response}
use sipgox.Answer.Call.{
  Surroundings, rang, send_or, or_reset, send_or_reset, after_on_call, after_ringing, ring,
  check_content_type, opened_media, open_media, negotiated, negotiate, end_of_transaction,
  answer_call, accept_call, take_call, decline, after_ack_wait, handed_over, success_response,
  with_formats, is_sdp,
}

module _ {n : Sockets} (v6 : Ip6Notation) (opts : AnswerOptions) where
  -- A negative result of `OnCall`, where the 486 can be sent, is followed by all that follows where there is
  -- no `OnCall`: the call is answered all the same.
  pub take_call_refused :
      (env : Surroundings) (k : ℕ) (req : Invite) (s : Answering n)
      → env.on_call ≡ none
      → env.respond (plain_response 486 (codes "Busy")) ≡ none
      → take_call v6 opts (record env { on_call = some (negsuc k) }) req s
        ≡ take_call v6 opts env req
            (record s { responses = s.responses ++ plain_response 486 (codes "Busy") ∷ [] })
  unfolding take_call after_on_call send_or_reset or_reset sent_or send_or decline accept_call ring
      answer_call after_ack_wait handed_over after_ringing open_media negotiate negotiated
      check_content_type opened_media end_of_transaction
  take_call_refused env k req s no_on_call sent = rw (no_on_call, sent) refl

-- The first response to a call that is taken.
abbrev pub first_response : AnswerOptions → Answered
first_response opts =
    if ltb 0 opts.ringtime
    then plain_response 180 (codes "Ringing")
    else plain_response 100 (codes "Trying")

-- Nothing goes wrong around the handler: there is no `OnCall`, or it returned 0, the responses can be sent,
-- nothing ends the ringing but the time, and the transaction ends without an error.
pub record IsCalm (env : Surroundings) : Type 0 where
  pub no_on_call : (env.on_call ≡ none) ⊎ (env.on_call ≡ some (pos 0))
  pub responds : (res : Answered) → env.respond res ≡ none
  pub rings : env.ringing ≡ rang
  pub no_tx_err : env.tx_err ≡ none

-- The session that takes the description of the INVITE.
abbrev pub negotiated_session : Ip6Notation → AnswerOptions → MediaSession → Text → MediaSession
negotiated_session v6 opts m body = (remote_sdp v6 (with_formats opts.formats m) body).0

module _ {n : Sockets} (v6 : Ip6Notation) (opts : AnswerOptions) (env : Surroundings)
    (calm : IsCalm env) where
  ring_calm :
      (s : Answering n)
      → ring v6 opts env s
        ≡ (ok tt, record s { responses = s.responses ++ first_response opts ∷ [] })
  unfolding ring send_or sent_or after_ringing
  ring_calm s = elim (Bool-cases (ltb 0 opts.ringtime)) [
    | inl rings ↦ rw (rings, calm.responds, calm.rings) refl
    | inr no_ring ↦ rw (no_ring, calm.responds) refl
  ]

  after_on_call_calm : (s : Answering n) → after_on_call v6 opts env env.on_call s ≡ (ok tt, s)
  unfolding after_on_call
  after_on_call_calm s = elim calm.no_on_call [ inl e ↦ rw e refl | inr e ↦ rw e refl ]

  -- The state once the media session has been opened.
  abbrev pub with_sockets : Answering n → n.World → PortRange → Answering n
  with_sockets s w r = record s {
    responses = s.responses ++ first_response opts ∷ [];
    world = w;
    ports = r;
  }

  accept_call_opened :
      (req : Invite) (s : Answering n) {w : n.World} {r : PortRange} {m : MediaSession}
      → req.content_type ≡ some (codes "application/sdp")
      → new_media_session n s.world s.ports (record { ip = env.media_ip; port = pos 0 })
        ≡ (w, r, inr m)
      → accept_call v6 opts env req s
        ≡ then_do
            (negotiate v6 opts env req (with_formats opts.formats m) (with_sockets s w r))
            (answer_call v6 opts env req)
  unfolding accept_call check_content_type open_media opened_media is_sdp
  accept_call_opened req s sdp opened =
      rw (ring_calm s) (rw (sdp, eq_text_refl (codes "application/sdp"), opened) refl)

  -- Where nothing goes wrong around the handler of an INVITE with an SDP body, a media session was opened
  -- and `RemoteSDP` refuses the body, the handler has the error of `RemoteSDP` and the session's sockets are
  -- still open: only closing the session leaves the sockets as they were before, for lawful sockets.
  pub accept_call_leak :
      (lawful : IsLawful n) (req : Invite) (s : Answering n) {w : n.World} {r : PortRange}
      {m m' : MediaSession} {e : GoError}
      → req.content_type ≡ some (codes "application/sdp")
      → new_media_session n s.world s.ports (record { ip = env.media_ip; port = pos 0 })
        ≡ (w, r, inr m)
      → remote_sdp v6 (with_formats opts.formats m) req.body ≡ (m', err e)
      → (accept_call v6 opts env req s ≡ (err e, with_sockets s w r))
        × (close_session n w m ≡ s.world)
  unfolding negotiate negotiated
  accept_call_leak lawful req s {w} {r} {m} sdp opened refused =
      (rw (accept_call_opened req s sdp opened) (rw refused refl), closed)
    where
      closed : close_session n w m ≡ s.world
      closed =
          subst (λ x. Released n lawful s.world x) opened
            (close_session-new_media_session n lawful s.world s.ports _)

  -- Where nothing goes wrong around the handler of an INVITE whose body is the offer of the caller's
  -- session, there is no answer code but 200 and a media session was opened: the handler ends without an
  -- error, it holds a dialog of the INVITE with the negotiated session, it has sent the ringing or the
  -- progress and then a 200, and a caller that takes the description of that 200 ends with the formats of
  -- the dialog's session, each of the two sending to the address of the other. The sessions of both sides
  -- have an IPv4 address, a port, a mode on one line, and at least one format, each a word, distinct and
  -- not 101.
  pub take_call-Agree :
      (req : Invite) (s : Answering n) (now : ℤ) (caller : MediaSession) (p q : ℕ) {w : n.World}
      {r : PortRange} {m : MediaSession}
      → (opts.answer_code ≡ 0) ⊎ (opts.answer_code ≡ 200)
      → req.content_type ≡ some (codes "application/sdp")
      → req.body ≡ local_sdp v6 now caller
      → new_media_session n s.world s.ports (record { ip = env.media_ip; port = pos 0 })
        ≡ (w, r, inr m)
      → CanOffer caller p
      → HasFormats caller
      → CanOffer (with_formats opts.formats m) q
      → HasFormats (with_formats opts.formats m)
      → let held = negotiated_session v6 opts m req.body in
        let answer = success_response v6 opts env.now held in
        (take_call v6 opts env req s ≡ (
          ok tt,
          record (with_sockets s w r) {
            dialog = some (record { id = req.dialog_id; media = some held });
            responses = (s.responses ++ first_response opts ∷ []) ++ answer ∷ [];
          },
        ))
        × Agree held (remote_sdp v6 caller answer.sdp).0
  unfolding take_call negotiate negotiated answer_call send_or_reset or_reset sent_or
      end_of_transaction success_response
  take_call-Agree req s now caller p q {w} {r} {m} code sdp body opened offers hc answers ha = (
    rw (after_on_call_calm s) (
        rw no_decline (
          rw (accept_call_opened req s sdp opened)
            (rw read (rw (calm.responds, calm.no_tx_err) refl)))),
    rw body (
        remote_sdp-Agree v6 now env.now caller (with_formats opts.formats m) p q offers hc answers
          ha),
  )
    where
      no_decline : (ltb 0 opts.answer_code && not (opts.answer_code == 200)) ≡ false
      no_decline = elim code [ inl e ↦ rw e refl | inr e ↦ rw e refl ]

      read : (remote_sdp v6 (with_formats opts.formats m) req.body).1 ≡ ok tt
      read = rw body (
          ap (λ x. x.1) (remote_sdp-local_sdp v6 now caller (with_formats opts.formats m) p offers))
