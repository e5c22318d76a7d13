-- ===== src/Dial/Ends.antt =====
-- How `Dial` ends: the call that it returns, and the sockets that it leaves.
use sipgox.Prelude.{◌≡◌, inr, refl, ap, sym, ◌∙◌, Option, none, some, List, [], ◌∷◌}
use mathlib.Core.Path.{subst}
use sipgox.Prelude.Int.{ℤ, pos}
use sipgox.Text.{Text}
use sipgox.Ip.{Ip, Ip6Notation}
use sipgox.Outcome.{Outcome, ok, err, panic, diverges, GoError}
use sipgox.MediaSession.{MediaSession, UdpAddr, remote_sdp}
use sipgox.MediaSession.Negotiation.{HasSameSockets, remote_sdp-HasSameSockets}
use sipgox.Ports.{Sockets, PortRange, new_media_session, close_session}
use sipgox.Ports.Pair.{IsLawful}
use sipgox.Ports.Release.{Released, close_session-new_media_session, same_sockets}
use sipgox.Dial.{
  DialOptions, Recipient, DialInvite, ClientDialog, Act, invite_sent, ack_sent, Waited,
  not_answered, wait_error, answered, Line, ack_answer, take_answer, dial_wait_answer, after_acts,
  dial_written, dial, dial_formats, dial_with, dial_phone, close_client_dialog,
}

-- What stands behind a dialog: the answer that was waited for, its description, which the dialog's session
-- took, and the INVITE and the ACK that were sent.
pub record IsTaken (v6 : Ip6Notation) (invite : DialInvite) (m : MediaSession) (line : Line)
    (d : ClientDialog) (acts : List Act) : Type 0 where
  pub body : Text
  pub was_answered : line.waited ≡ answered body
  pub took : remote_sdp v6 m body ≡ (d.media, ok tt)
  pub done : acts ≡ invite_sent invite ∷ ack_sent ∷ []

ok-equal : {A : Type 0} {a b : A} → ok a ≡ ok b → a ≡ b
ok-equal e = cc

module _ (v6 : Ip6Notation) (invite : DialInvite) (m : MediaSession) where
  took_answer :
      (line : Line) (body : Text) (ack_error : Option GoError)
      (x : MediaSession × Outcome (Unit {0})) (d : ClientDialog)
      → line.waited ≡ answered body
      → remote_sdp v6 m body ≡ x
      → (take_answer ack_error x).1 ≡ ok d
      → IsTaken v6 invite m line d (invite_sent invite ∷ (take_answer ack_error x).0)
  unfolding take_answer ack_answer
  took_answer line body none (m', ok u) d w r e = record {
    body = body;
    was_answered = w;
    took = r ∙ ap (λ x. (x.media, ok tt)) (ok-equal e);
    done = refl;
  }
  took_answer line body (some x) (m', ok u) d w r e = cc
  took_answer line body k (m', err x) d w r e = cc
  took_answer line body k (m', panic) d w r e = cc
  took_answer line body k (m', diverges) d w r e = cc

  waited_answer :
      (line : Line) (waited : Waited) (d : ClientDialog)
      → line.waited ≡ waited
      → (dial_wait_answer v6 m waited line.ack_error).1 ≡ ok d
      → IsTaken v6 invite m line d
          (invite_sent invite ∷ (dial_wait_answer v6 m waited line.ack_error).0)
  unfolding dial_wait_answer
  waited_answer line (not_answered code) d w e = cc
  waited_answer line (wait_error x) d w e = cc
  waited_answer line (answered body) d w e = took_answer line body line.ack_error _ d w refl e

  written_answer :
      (line : Line) (write_error : Option GoError) (d : ClientDialog)
      → (dial_written v6 invite m line write_error).1 ≡ ok d
      → IsTaken v6 invite m line d (dial_written v6 invite m line write_error).0
  unfolding dial_written after_acts
  written_answer line (some x) d e = cc
  written_answer line none d e = waited_answer line line.waited d refl e

  -- Where `dial` returns a dialog, the INVITE was sent, it was answered with a description that could be read,
  -- the ACK was sent after it and nothing else was, and the dialog's session is the one of the call once it
  -- took that description.
  pub dial-IsTaken :
      (line : Line) (d : ClientDialog)
      → (dial v6 invite m line).1 ≡ ok d
      → IsTaken v6 invite m line d (dial v6 invite m line).0
  unfolding dial
  dial-IsTaken line d e = written_answer line line.write_error d e

-- Where nothing fails, the call is taken.
pub dial_taken :
    (v6 : Ip6Notation) (invite : DialInvite) (m m' : MediaSession) (line : Line) (body : Text)
    → line.write_error ≡ none
    → line.waited ≡ answered body
    → line.ack_error ≡ none
    → remote_sdp v6 m body ≡ (m', ok tt)
    → dial v6 invite m line ≡ (invite_sent invite ∷ ack_sent ∷ [], ok (record { media = m' }))
unfolding dial dial_written after_acts dial_wait_answer take_answer ack_answer
dial_taken v6 invite m m' line body no_write_error waited no_ack_error took =
    rw no_write_error (rw waited (rw (took, no_ack_error) refl))

dial_formats-HasSameSockets :
    (fs : List Text) (m : MediaSession) → HasSameSockets (dial_formats fs m) m
unfolding dial_formats
dial_formats-HasSameSockets [] m = (refl, refl)
dial_formats-HasSameSockets (f ∷ fs) m = (refl, refl)

module _ (n : Sockets) (lawful : IsLawful n) where
  close_opened :
      (w : n.World) (r : PortRange) (a : UdpAddr) {w' : n.World} {r' : PortRange} {m : MediaSession}
      → new_media_session n w r a ≡ (w', r', inr m)
      → close_session n w' m ≡ w
  close_opened w r a opened =
      subst (λ x. Released n lawful w x) opened (close_session-new_media_session n lawful w r a)

  close_taken :
      (v6 : Ip6Notation) (w : n.World) (invite : DialInvite) (fs : List Text) (m : MediaSession)
      (line : Line) (d : ClientDialog)
      → (dial v6 invite (dial_formats fs m) line).1 ≡ ok d
      → close_client_dialog n w d ≡ close_session n w m
  unfolding close_client_dialog
  close_taken v6 w invite fs m line d e =
      let t = dial-IsTaken v6 invite (dial_formats fs m) line d e in
      ap (λ x. close_session n w x.0) (sym t.took)
      ∙ same_sockets n w (remote_sdp v6 (dial_formats fs m) t.body).0 (dial_formats fs m)
          (remote_sdp-HasSameSockets v6 (dial_formats fs m) t.body)
      ∙ same_sockets n w (dial_formats fs m) m (dial_formats-HasSameSockets fs m)

  -- With lawful sockets, once `Dial` has opened a media session its sockets stay open however it ends: the
  -- sockets are as the opening left them, and closing that session leaves them as they were before `Dial`.
  -- Closing the dialog does so where a dialog is returned; where an error is returned, nothing that is
  -- returned does.
  pub dial_phone_sockets :
      (v6 : Ip6Notation) (now : ℤ) (o : DialOptions) (recipient : Recipient) (media_ip : Ip)
      (line : Line) (w : n.World) (r : PortRange) {w' : n.World} {r' : PortRange} {m : MediaSession}
      → new_media_session n w r (record { ip = media_ip; port = pos 0 }) ≡ (w', r', inr m)
      → let (after, _, _, result) = dial_phone n v6 now o recipient none media_ip line w r in
        (after ≡ w')
        × (close_session n w' m ≡ w)
        × ((d : ClientDialog) → result ≡ ok d → close_client_dialog n after d ≡ w)
  unfolding dial_phone dial_with
  dial_phone_sockets v6 now o recipient media_ip line w r {w'} {r'} {m} opened = rw opened (
    refl,
    close_opened w r _ opened,
    λ d e. close_taken v6 w' _ o.formats m line d e ∙ close_opened w r _ opened,
  )
