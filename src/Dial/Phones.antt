-- ===== src/Dial/Phones.antt =====
-- A call between two phones, from the first lines of `Dial` and of `answer` to the close of both dialogs.
use sipgox.Prelude.{◌≡◌, ◌⊎◌, refl, ap, ◌∙◌, false, not, ◌&&◌, none, some, inr, List, [], ◌∷◌}
use mathlib.Core.Path.{subst}
use sipgox.Prelude.Int.{pos}
use sipgox.Text.{Text, codes, eq_text}
use sipgox.Ip.{Ip, Ip6Notation}
use sipgox.Outcome.{ok}
use sipgox.Sip.{Sip, Net, Reply}
use sipgox.MediaSession.{MediaSession, remote_sdp}
use sipgox.MediaSession.Agreement.{Agree}
use sipgox.Ports.{Sockets, PortRange, new_media_session}
use sipgox.Ports.Pair.{IsLawful}
use sipgox.Listeners.{Listener, Streams, Resolver, close_listener}
use sipgox.Listeners.Free.{KeepsStreams}
use sipgox.Phone.{Phone, Agent, host_media_ip}
use sipgox.Answer.{AnswerOptions, Invite, Digest, ServerDialog}
use sipgox.Answer.Call.{Surroundings, with_formats, success_response}
use sipgox.Answer.Call.Endings.{IsCalm, negotiated_session}
use sipgox.Answer.Handlers.{invited, acknowledged, taken_after_reset}
use sipgox.Answer.Handlers.Reached.{start_answer}
use sipgox.Answer.Start.{Starting, Started, answer_start}
use sipgox.Answer.Start.Finish.{close_server_dialog, stop_once}
use sipgox.Answer.Start.Whole.{ran, answer_phone}
use sipgox.Answer.Start.Whole.Taken.{env_at, taken_state, calm_at, answer_phone-Agree}
use sipgox.Dial.Answered.{CanCall, remote_sdp-success_response}
use sipgox.Dial.Ends.{dial_taken}
use sipgox.Dial.Whole.{
  Dialling, dial_call, Opens, dial_call-dial, DialEnds, nothing_opened, session_opened,
  dial_call-DialEnds,
}
use sipgox.Dial.{
  DialOptions, Recipient, ClientDialog, Line, Dialled, invite_sent, ack_sent, answered, new_invite,
  dial_formats, close_client_dialog,
}

closes_returned :
    (n : Sockets) (t : Streams n) (v6 : Ip6Notation) (rs : Resolver) (print : Ip → Text)
    (agent : Agent) (env : Dialling) (phone : Phone) (recipient : Recipient) (w : n.World)
    (r : PortRange) (x : Dialled n) (d : ClientDialog)
    → DialEnds n t v6 rs print agent env phone recipient w r x
    → x.3 ≡ ok d
    → close_client_dialog n x.0 d ≡ w
closes_returned n t v6 rs print agent env phone recipient w r x d
      (nothing_opened e failed quiet same unopened) h =
    cc
closes_returned n t v6 rs print agent env phone recipient w r x d
      (session_opened m opens closes closes_dialog) h =
    closes_dialog d h

module _ (n : Sockets) (lawful : IsLawful n) (t : Streams n) (keeps : KeepsStreams t)
    (v6 : Ip6Notation) (rs : Resolver) (print : Ip → Text) (agent : Agent) where
  -- Where the call is answered, `Dial` returns a dialog whose close leaves the sockets as before.
  dial_call-answered :
      (env : Dialling) (phone : Phone) (o : DialOptions) (recipient : Recipient) (line : Line)
      (w : n.World) (r : PortRange) (w' : n.World) (r' : PortRange) (m called : MediaSession)
      (body : Text)
      → Opens n t v6 rs print agent env phone recipient w r w' r' m
      → line.write_error ≡ none
      → line.waited ≡ answered body
      → line.ack_error ≡ none
      → remote_sdp v6 (dial_formats o.formats m) body ≡ (called, ok tt)
      → let invite = new_invite v6 env.now o recipient (dial_formats o.formats m) in
        (dial_call n t v6 rs print agent env phone o recipient line w r
          ≡ (w', r', invite_sent invite ∷ ack_sent ∷ [], ok (record { media = called })))
        × (close_client_dialog n w' (record { media = called }) ≡ w)
  dial_call-answered env phone o recipient line w r w' r' m called body opens no_write waited no_ack
        took =
      let m' = dial_formats o.formats m in
      let invite = new_invite v6 env.now o recipient m' in
      let returns : dial_call n t v6 rs print agent env phone o recipient line w r
          ≡ (w', r', invite_sent invite ∷ ack_sent ∷ [], ok (record { media = called })) =
        dial_call-dial n t v6 rs print agent env phone o recipient line w r w' r' m opens
        ∙ ap (λ x. (w', r', x.0, x.1))
            (dial_taken v6 invite m' called line body no_write waited no_ack took) in
      (
        returns,
        closes_returned n t v6 rs print agent env phone recipient w r
            (w', r', invite_sent invite ∷ ack_sent ∷ [], ok (record { media = called }))
            (record { media = called })
            (subst (λ x. DialEnds n t v6 rs print agent env phone recipient w r x) returns
              (dial_call-DialEnds n lawful t keeps v6 rs print agent env phone o recipient line w
                r))
            refl,
      )

-- Two phones, each with its own names and addresses.
module _ (n : Sockets) (lawful : IsLawful n) (t : Streams n) (keeps : KeepsStreams t)
    (v6 : Ip6Notation) (near far : Resolver)
    (commute : (w : n.World) (a b : Listener)
      → close_listener n t v6 far (close_listener n t v6 far w a) b
        ≡ close_listener n t v6 far (close_listener n t v6 far w b) a)
    (print : Ip → Text) (sip : Sip) (dialler answerer : Agent) (g : Digest) where
  -- A call from one phone to another, from the first lines of `Dial` and of `answer` on. `Dial` opens its media
  -- session; `answer` starts, asks for no password, has no answer code but 200 and nothing goes wrong around
  -- it; the INVITE of the one is what the other gets, and the 200 of the other is what the one waits for, with no
  -- error in sending; the media session of the other was opened at the address of its first listener, and
  -- the ACK comes. Then `Dial` has sent the INVITE and the ACK and returns a dialog, and `answer` returns one;
  -- the sessions of the two have the same formats and send to each other's addresses; and closing each dialog
  -- leaves the sockets of its side as they were before, where lawful sockets may be closed in any order and two
  -- replies are still to come from the registrar. Both sides have an IPv4 address, a port, a mode on one line, and
  -- at least one format, each a word, distinct and not 101.
  pub dial_call-answer_phone :
      (dialling : Dialling) (mine : Phone) (o : DialOptions) (recipient : Recipient) (line : Line)
      (own : n.World) (range : PortRange) {own' : n.World} {range' : PortRange} {mc : MediaSession}
      (start : Starting) (opts : AnswerOptions) (phone : Phone) (w : n.World) (net : Net sip)
      (r : PortRange) (realm reason : Text) (env : Surroundings) (req : Invite) {w' w'' : n.World}
      {r' : PortRange} {m : MediaSession} {first second : Reply} {later : List Reply}
      {sent : List sip.Request} {st : Started sip} (calm : IsCalm env)
      → Opens n t v6 near print dialler dialling mine recipient own range own' range' mc
      → answer_start n t v6 far print sip answerer start opts phone w net
        ≡ (w', record { replies = first ∷ second ∷ later; sent = sent }, ok st)
      → (not (eq_text opts.password []) && eq_text opts.register_addr []) ≡ false
      → (opts.answer_code ≡ 0) ⊎ (opts.answer_code ≡ 200)
      → req.content_type ≡ some (codes "application/sdp")
      → req.body ≡ (new_invite v6 dialling.now o recipient (dial_formats o.formats mc)).body
      → new_media_session n w' r (record { ip = host_media_ip v6 answerer st.lhost; port = pos 0 })
        ≡ (w'', r', inr m)
      → CanCall (dial_formats o.formats mc) (with_formats opts.formats m)
      → line.write_error ≡ none
      → line.waited
        ≡ answered (success_response v6 opts env.now (negotiated_session v6 opts m req.body)).sdp
      → line.ack_error ≡ none
      → let before : Net sip = record { replies = first ∷ second ∷ later; sent = sent } in
        let offered = dial_formats o.formats mc in
        let held = negotiated_session v6 opts m req.body in
        let called = (remote_sdp v6 offered (success_response v6 opts env.now held).sdp).0 in
        let d : ServerDialog = record { id = req.dialog_id; media = some held } in
        (dial_call n t v6 near print dialler dialling mine o recipient line own range ≡ (
          own',
          range',
          invite_sent (new_invite v6 dialling.now o recipient offered) ∷ ack_sent ∷ [],
          ok (record { media = called }),
        ))
        × (close_client_dialog n own' (record { media = called }) ≡ own)
        × (answer_phone n t v6 far print sip answerer g start opts phone none
              (invited env none req ∷ acknowledged none taken_after_reset ∷ [])
              r
              realm
              reason
              w
              net
            ≡ ran st
                (taken_state n lawful t keeps v6 far commute print sip answerer g opts
                  (env_at n lawful t keeps v6 far commute print sip answerer g st env)
                  (calm_at _ calm)
                  (start_answer w' r realm reason)
                  w''
                  r'
                  held
                  req)
                before
                (ok (some d)))
        × Agree held called
        × ((after : Net sip) × (close_server_dialog n sip none
                (some (stop_once n t v6 far print sip answerer false opts st))
                d
                w''
                before
              ≡ (w, after, ok tt)))
  unfolding new_invite
  dial_call-answer_phone dialling mine o recipient line own range {mc = mc} start opts phone w net r
        realm reason env req {m = m} calm opens started no_password code sdp body opened c no_write
        waited no_ack =
      let offered = dial_formats o.formats mc in
      let held = negotiated_session v6 opts m req.body in
      let taken = (remote_sdp v6 offered (success_response v6 opts env.now held).sdp).0 in
      let (dials, closes) =
        dial_call-answered n lawful t keeps v6 near print dialler dialling mine o recipient line own
          range _ _ mc _ _ opens no_write waited no_ack
          (ap (λ x. (taken, x))
            (remote_sdp-success_response v6 opts dialling.now env.now offered m req.body body c)) in
      let (answers, agree, ends) =
        answer_phone-Agree n lawful t keeps v6 far commute print sip answerer g start opts phone w
          net r realm reason env req dialling.now offered c.caller_port c.answerer_port calm started
          no_password code sdp body opened c.caller_offers c.caller_formats c.answerer_offers
          c.answerer_formats in
      (dials, closes, answers, agree, ends)
