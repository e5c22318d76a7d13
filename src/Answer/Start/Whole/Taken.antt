-- ===== src/Answer/Start/Whole/Taken.antt =====
-- A call that the phone answers, from the start of `answer` to the close of its dialog.
use sipgox.Prelude.{ℕ, ◌≡◌, ◌⊎◌, refl, false, not, ◌&&◌, none, some, inr, List, [], ◌∷◌, ◌++◌}
use sipgox.Prelude.Int.{ℤ, pos}
use sipgox.Text.{Text, codes, eq_text}
use sipgox.Ip.{Ip, Ip6Notation}
use sipgox.Outcome.{ok}
use sipgox.Sip.{Sip, Net, Reply}
use sipgox.MediaSession.{MediaSession, local_sdp, remote_sdp}
use sipgox.MediaSession.Negotiation.{CanOffer}
use sipgox.MediaSession.Agreement.{HasFormats, Agree}
use sipgox.Ports.{Sockets, PortRange, new_media_session}
use sipgox.Ports.Pair.{IsLawful}
use sipgox.Listeners.{Listener, Streams, Resolver, close_listener}
use sipgox.Listeners.Free.{KeepsStreams}
use sipgox.Phone.{Phone, Agent, host_media_ip}
use sipgox.Answer.{AnswerOptions, Invite, Digest, ServerDialog, Answering}
use sipgox.Answer.Authorize.{authorize_invite}
use sipgox.Answer.Call.{Surroundings, with_formats, take_call, success_response}
use sipgox.Answer.Call.Endings.{
  IsCalm, first_response, negotiated_session, with_sockets, take_call-Agree,
}
use sipgox.Answer.Handlers.{
  invited, acknowledged, taken_after_reset, handle, on_invite, on_invite_with, without_dialog,
  read_invite, finished_call, on_ack, on_ack_with, read_ack, hand_over_ack, answer_result,
  taken_result,
}
use sipgox.Answer.Handlers.Reached.{start_answer}
use sipgox.Answer.Start.{Starting, Started, answer_start}
use sipgox.Answer.Start.Finish.{close_server_dialog, stop_once, close_server_dialog-answer_start}
use sipgox.Answer.Start.Whole.{
  with_media_ip, handle_all, ran, stopped_answer, ended_answer, ended_by_caller, after_start,
  answer_phone,
}

module _ {n : Sockets} (v6 : Ip6Notation) (g : Digest) (opts : AnswerOptions)
    (open_to_all : (not (eq_text opts.password []) && eq_text opts.register_addr []) ≡ false) where
  -- The handler of an INVITE that no password is asked for, where there is no dialog.
  on_invite-take_call :
      (env : Surroundings) (req : Invite) (s : Answering n)
      → s.dialog ≡ none
      → on_invite v6 g opts env none req s ≡ finished_call (take_call v6 opts env req s)
  unfolding on_invite on_invite_with without_dialog read_invite authorize_invite
  on_invite-take_call env req s no_dialog = rw (no_dialog, open_to_all) refl

  -- The INVITE and then the ACK of a call that is taken.
  handle_all-taken :
      (ip : Ip) (env : Surroundings) (req : Invite) (s s' : Answering n) (d : ServerDialog)
      → s.dialog ≡ none
      → take_call v6 opts (record env { media_ip = ip }) req s
        ≡ (ok tt, record s' { dialog = some d })
      → handle_all v6 g opts ip (invited env none req ∷ acknowledged none taken_after_reset ∷ []) s
        ≡ (ok tt, record s' { dialog = some d; delivered = some (some d) })
  unfolding handle_all with_media_ip handle on_ack on_ack_with read_ack hand_over_ack finished_call
  handle_all-taken ip env req s s' d no_dialog took =
      rw (on_invite-take_call (record env { media_ip = ip }) req s no_dialog, took) refl

-- A calm that lasts at another address.
abbrev pub calm_at :
    (ip : Ip) {env : Surroundings} → IsCalm env → IsCalm (record env { media_ip = ip })
calm_at ip calm = record {
  no_on_call = calm.no_on_call;
  responds = calm.responds;
  rings = calm.rings;
  no_tx_err = calm.no_tx_err;
}

module _ (n : Sockets) (lawful : IsLawful n) (t : Streams n) (keeps : KeepsStreams t)
    (v6 : Ip6Notation) (rs : Resolver)
    (commute : (w : n.World) (a b : Listener)
      → close_listener n t v6 rs (close_listener n t v6 rs w a) b
        ≡ close_listener n t v6 rs (close_listener n t v6 rs w b) a)
    (print : Ip → Text) (sip : Sip) (agent : Agent) (g : Digest) where
  -- The surroundings of an INVITE, at the address of the first listener.
  abbrev pub env_at : Started sip → Surroundings → Surroundings
  env_at st env = record env { media_ip = host_media_ip v6 agent st.lhost }

  -- The shared variables once the call is taken.
  abbrev pub taken_state :
      (opts : AnswerOptions) (env : Surroundings)
      → IsCalm env
      → Answering n
      → n.World
      → PortRange
      → MediaSession
      → Invite
      → Answering n
  taken_state opts env calm s w r held req = record (with_sockets v6 opts env calm s w r) {
    dialog = some (record { id = req.dialog_id; media = some held });
    responses =
        (s.responses ++ first_response opts ∷ []) ++ success_response v6 opts env.now held ∷ [];
    delivered = some (some (record { id = req.dialog_id; media = some held }));
  }

  -- `answer` from its first line on, where nothing goes wrong around it: it starts, no password is asked for, the
  -- body of the INVITE is the offer of the caller's session, there is no answer code but 200, a media session was
  -- opened at the address of the first listener, and the ACK comes. It returns a dialog of the INVITE with the
  -- session that took the offer, and has sent the ringing or the progress and then a 200; a caller that takes the
  -- description of that 200 ends with the same formats, each side sending to the address of the other; and
  -- closing the dialog, where lawful sockets may be closed in any order and two replies are still to come from
  -- the registrar, leaves the sockets as they were before `answer`. Both sessions have an IPv4 address, a port, a
  -- mode on one line, and at least one format, each a word, distinct and not 101.
  pub answer_phone-Agree :
      (start : Starting) (opts : AnswerOptions) (phone : Phone) (w : n.World) (net : Net sip)
      (r : PortRange) (realm reason : Text) (env : Surroundings) (req : Invite) (now : ℤ)
      (caller : MediaSession) (p q : ℕ) {w' w'' : n.World} {r' : PortRange} {m : MediaSession}
      {first second : Reply} {later : List Reply} {sent : List sip.Request} {st : Started sip}
      (calm : IsCalm env)
      → answer_start n t v6 rs print sip agent start opts phone w net
        ≡ (w', record { replies = first ∷ second ∷ later; sent = sent }, ok st)
      → (not (eq_text opts.password []) && eq_text opts.register_addr []) ≡ false
      → (opts.answer_code ≡ 0) ⊎ (opts.answer_code ≡ 200)
      → req.content_type ≡ some (codes "application/sdp")
      → req.body ≡ local_sdp v6 now caller
      → new_media_session n w' r (record { ip = host_media_ip v6 agent st.lhost; port = pos 0 })
        ≡ (w'', r', inr m)
      → CanOffer caller p
      → HasFormats caller
      → CanOffer (with_formats opts.formats m) q
      → HasFormats (with_formats opts.formats m)
      → let before : Net sip = record { replies = first ∷ second ∷ later; sent = sent } in
        let held = negotiated_session v6 opts m req.body in
        let d : ServerDialog = record { id = req.dialog_id; media = some held } in
        (answer_phone n t v6 rs print sip agent g start opts phone none
            (invited env none req ∷ acknowledged none taken_after_reset ∷ [])
            r
            realm
            reason
            w
            net
          ≡ ran st
              (taken_state opts
                (env_at st env)
                (calm_at _ calm)
                (start_answer w' r realm reason)
                w''
                r'
                held
                req)
              before
              (ok (some d)))
        × Agree held (remote_sdp v6 caller (success_response v6 opts env.now held).sdp).0
        × ((after : Net sip) × (close_server_dialog n sip none
                (some (stop_once n t v6 rs print sip agent false opts st))
                d
                w''
                before
              ≡ (w, after, ok tt)))
  unfolding answer_phone after_start ended_answer stopped_answer answer_result taken_result
      ended_by_caller start_answer
  answer_phone-Agree start opts phone w net r realm reason env req now caller p q {w'} {w''} {r'}
        {m} {st = st} calm started no_password code sdp body opened offers hc answers ha =
      let ip = host_media_ip v6 agent st.lhost in
      let s = start_answer {n = n} w' r realm reason in
      let (took, agree) =
        take_call-Agree v6 opts (env_at st env) (calm_at ip calm) req s now caller p q code sdp body
          opened offers hc answers ha in
      let handled =
        handle_all-taken v6 g opts no_password ip env req s
          (record (with_sockets v6 opts (env_at st env) (calm_at ip calm) s w'' r') {
            responses =
                (s.responses ++ first_response opts ∷ [])
                ++ success_response v6 opts env.now (negotiated_session v6 opts m req.body) ∷ [];
          })
          (record { id = req.dialog_id; media = some (negotiated_session v6 opts m req.body) }) refl
          took in
      let (after, closed, _, _) =
        close_server_dialog-answer_start n lawful t keeps v6 rs commute print sip agent start opts
          phone w net req.dialog_id req.body (record { ip = ip; port = pos 0 }) r none
          (λ status. false) 486 started opened refl in
      (rw started (rw handled refl), agree, (after, closed))
