-- ===== src/Answer/Start/Finish.antt =====
-- dialog_server.go's `Close`, and the ends of phone.go's `Answer` and `AnswerWithCode`.
use sipgox.Prelude.{
  ℕ, ◌≡◌, refl, ◌∙◌, Bool, true, false, Option, none, some, inr, List, [], ◌∷◌, if◌then◌else◌,
}
use sipgox.Text.{Text}
use sipgox.Ip.{Ip, Ip6Notation}
use sipgox.Outcome.{Outcome, ok, GoError, ◌>>◌}
use sipgox.Sip.{Sip, Net, Reply}
use sipgox.MediaSession.{UdpAddr, MediaSession, remote_sdp}
use sipgox.MediaSession.Negotiation.{HasSameSockets, remote_sdp-HasSameSockets}
use sipgox.Ports.{Sockets, PortRange, new_media_session, close_session}
use mathlib.Core.Path.{subst}
use sipgox.Ports.Pair.{IsLawful}
use sipgox.Ports.Release.{Released, close_session-new_media_session, same_sockets}
use sipgox.Listeners.{Listener, Streams, Resolver, close_listener}
use sipgox.Listeners.Free.{KeepsStreams}
use sipgox.Phone.{Phone, Agent}
use sipgox.Answer.{AnswerOptions, ServerDialog}
use sipgox.Answer.Call.{with_formats}
use sipgox.Dialog.{returned}
use sipgox.Answer.Start.{Starting, Started, answer_start, stop_answer}
use sipgox.Answer.Start.Stopped.{Stops, stop_answer-answer_start}

-- The options of `AnswerWithCode`; the reason is the one that the handlers start with.
unfoldable pub with_answer_code : ℕ → AnswerOptions → AnswerOptions
with_answer_code code opts = record opts { answer_code = code }

module _ (n : Sockets) (sip : Sip) where
  open n use {World}

  -- The sockets, the network and an error that may be nil.
  abbrev pub Closed : Type 0
  Closed = World × Net sip × Outcome (Unit {0})

  close_media : World → Option MediaSession → World
  close_media w none = w
  close_media w (some m) = close_session n w m

  run_on_close : Option (World → Net sip → Closed) → World → Net sip → Closed
  run_on_close none w net = (w, net, ok tt)
  run_on_close (some on_close) w net = on_close w net

  -- `DialogServerSession.Close`, with the error of the package's dialog: the media where there is any, and
  -- then `onClose` where there is one.
  unfoldable pub close_server_dialog :
      Option GoError → Option (World → Net sip → Closed) → ServerDialog → World → Net sip → Closed
  unfolding close_media run_on_close
  close_server_dialog close_error on_close d w net =
      let (w', net', r) = run_on_close on_close (close_media w d.media) net in
      (w', net', r >> returned close_error)

  -- The end of `Answer` and of `AnswerWithCode`, for the status of the dialog's response, and `IsSuccess`: a
  -- dialog that was not answered by a success is closed, and its error is returned beside it.
  unfoldable pub finish_answer :
      (ℕ → Bool)
      → ℕ
      → Option GoError
      → Option (World → Net sip → Closed)
      → ServerDialog
      → World
      → Net sip
      → Closed
  unfolding close_server_dialog
  finish_answer is_success status close_error on_close d w net =
      if is_success status
      then (w, net, ok tt)
      else close_server_dialog close_error on_close d w net

module _ (n : Sockets) (t : Streams n) (v6 : Ip6Notation) (rs : Resolver) (print : Ip → Text)
    (sip : Sip) (agent : Agent) where
  -- `stopAnswer`, which is `onClose` of the dialogs that `answer` returns: `sync.OnceFunc` runs it once.
  unfoldable pub stop_once : Bool → AnswerOptions → Started sip → n.World → Net sip → Closed n sip
  stop_once true opts s w net = (w, net, ok tt)
  stop_once false opts s w net = stop_answer n t v6 rs print sip agent opts s w net

with_formats-HasSameSockets :
    (fs : List Text) (m : MediaSession) → HasSameSockets (with_formats fs m) m
unfolding with_formats
with_formats-HasSameSockets [] m = (refl, refl)
with_formats-HasSameSockets (f ∷ fs) m = (refl, refl)

module _ (n : Sockets) (lawful : IsLawful n) where
  -- The session that took a description is closed like the one that was opened.
  close_answered :
      (v6 : Ip6Notation) (w : n.World) (r : PortRange) (laddr : UdpAddr) (fs : List Text)
      (body : Text) {w' : n.World} {r' : PortRange} {m : MediaSession}
      → new_media_session n w r laddr ≡ (w', r', inr m)
      → close_session n w' (remote_sdp v6 (with_formats fs m) body).0 ≡ w
  close_answered v6 w r laddr fs body {w'} {r'} {m} opened =
      same_sockets n w' _ (with_formats fs m)
        (remote_sdp-HasSameSockets v6 (with_formats fs m) body)
      ∙ same_sockets n w' (with_formats fs m) m (with_formats-HasSameSockets fs m)
      ∙ subst (λ x. Released n lawful w x) opened
          (close_session-new_media_session n lawful w r laddr)

module _ (n : Sockets) (lawful : IsLawful n) (t : Streams n) (keeps : KeepsStreams t)
    (v6 : Ip6Notation) (rs : Resolver)
    (commute : (w : n.World) (a b : Listener)
      → close_listener n t v6 rs (close_listener n t v6 rs w a) b
        ≡ close_listener n t v6 rs (close_listener n t v6 rs w b) a)
    (print : Ip → Text) (sip : Sip) (agent : Agent) where
  -- From the start of `answer` to the close of its dialog, where lawful sockets may be closed in any order, `stopAnswer`
  -- has not run before and two replies are still to come from the registrar. Closing the dialog of a call that
  -- was answered with the media session that the handler of INVITE opened, whatever description it took, closes
  -- the media, stops the registration and closes the listeners: the sockets are as they were before `answer`,
  -- and what is returned is the error of the package's dialog. So it is for a call that was refused, which
  -- `Answer` closes by itself.
  pub close_server_dialog-answer_start :
      (env : Starting) (opts : AnswerOptions) (phone : Phone) (w : n.World) (net : Net sip)
      (id body : Text) (laddr : UdpAddr) (r : PortRange) (close_error : Option GoError)
      (is_success : ℕ → Bool) (status : ℕ) {w' w'' : n.World} {r' : PortRange} {m : MediaSession}
      {first second : Reply} {later : List Reply} {sent : List sip.Request} {s : Started sip}
      → answer_start n t v6 rs print sip agent env opts phone w net
        ≡ (w', record { replies = first ∷ second ∷ later; sent = sent }, ok s)
      → new_media_session n w' r laddr ≡ (w'', r', inr m)
      → is_success status ≡ false
      → let before : Net sip = record { replies = first ∷ second ∷ later; sent = sent } in
        let on_close = some (stop_once n t v6 rs print sip agent false opts s) in
        let held = (remote_sdp v6 (with_formats opts.formats m) body).0 in
        (after : Net sip) × (close_server_dialog n sip close_error on_close
            (record { id = id; media = some held })
            w''
            before
          ≡ (w, after, returned close_error))
        × (finish_answer n sip is_success status close_error on_close
              (record { id = id; media = none })
              w'
              before
            ≡ (w, after, returned close_error))
        × Stops n lawful t keeps v6 rs commute print sip agent s.registration before after
  unfolding close_server_dialog finish_answer stop_once close_media run_on_close
  close_server_dialog-answer_start env opts phone w net id body laddr r close_error is_success
        status started opened refused =
      let (after, stopped, sends) =
        stop_answer-answer_start n lawful t keeps v6 rs commute print sip agent env opts phone w net
          started in
      (
        after,
        rw (close_answered n lawful v6 _ r laddr opts.formats body opened) (rw stopped refl),
        rw refused (rw stopped refl),
        sends,
      )
