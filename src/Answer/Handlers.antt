-- ===== src/Answer/Handlers.antt =====
-- phone.go's `answer`: its handlers of requests, and what it returns. The handlers run one at a time
-- here, each to its end; what ends a wait within one is the surroundings' choice.
pub mod Authorized
pub mod Kept
pub mod Reached
pub mod Refused
use sipgox.Prelude.{
  ℕ, Bool, true, false, ◌||◌, Option, none, some, List, [], ◌∷◌, ◌==◌, if◌then◌else◌,
}
use sipgox.Text.{Text, codes, eq_text}
use sipgox.Ip.{Ip6Notation}
use sipgox.Outcome.{Outcome, ok, err, panic, diverges, GoError, no_dialog_for_ack}
use sipgox.Sdp.Media.{MediaDescription, ConnectionInformation}
use sipgox.MediaSession.{MediaSession, received_description, update_destination_sdp}
use sipgox.Ports.{Sockets}
use sipgox.Answer.{
  AnswerOptions, Invite, Challenge, Digest, Answered, ServerDialog, Answering, Handler, pure, raise,
  ◌>>=◌, ◌>>◌, exit_with, try_response,
}
use sipgox.Answer.Authorize.{plain_response, authorize_invite}
use sipgox.Answer.Call.{Surroundings, take_call}

-- `UpdateDestinationSDP` through a nil session panics once the description has been read.
without_media : Outcome (MediaDescription × ConnectionInformation) → Outcome (Unit {0})
without_media (ok _) = panic
without_media (err e) = err e
without_media panic = panic
without_media diverges = diverges

-- Whether `answer` takes the dialog that the handler of ACK hands over, and when the handler resets `d`,
-- the variable of both: before `answer` writes it, after `answer` has returned it, or in between.
pub data Taking : Type 0 where
  not_taken : Taking
  taken_after_reset : Taking
  reset_after_return : Taking
  reset_in_between : Taking

-- What happens while `answer` waits.
pub data Event : Type 0 where
  invited : Surroundings → Option GoError → Invite → Event
  acknowledged : Option GoError → Taking → Event
  ended : Option GoError → Event
  registration_ended : GoError → Event
  asked : (Answered → Option GoError) → Event

pub exit_result : Option GoError → Outcome (Option ServerDialog)
exit_result none = ok none
exit_result (some e) = err e

-- What ends the last `select` of `answer`: its context, by the caller or by `stopAnswer`.
pub ended_result : Option GoError → Bool → Option GoError → Outcome (Option ServerDialog)
unfolding exit_result
ended_result (some e) stopped exit_error = err e
ended_result none true exit_error = exit_result exit_error
ended_result none false exit_error = diverges

unfoldable pub taken_result :
    Option (Option ServerDialog) → Outcome (Option ServerDialog) → Outcome (Option ServerDialog)
taken_result none waiting = waiting
taken_result (some none) waiting = panic
taken_result (some (some d)) waiting = ok (some d)

module _ {n : Sockets} where
  -- The response to a second INVITE of the dialog; the text of an error is not modelled.
  update_response : (Answered → Option GoError) → Outcome (Unit {0}) → Handler n (Unit {0})
  update_response respond (ok _) s =
      (ok tt, try_response respond (plain_response 200 (codes "OK")) s)
  update_response respond (err e) s = (ok tt, try_response respond (plain_response 400 []) s)
  update_response respond panic s = (panic, s)
  update_response respond diverges s = (diverges, s)

  update_media :
      Ip6Notation
      → (Answered → Option GoError)
      → ServerDialog
      → Option MediaSession
      → Invite
      → Handler n (Unit {0})
  unfolding update_response without_media
  update_media v6 respond d none req s =
      update_response respond (without_media (received_description v6 req.body)) s
  update_media v6 respond d (some m) req s =
      let (m', r) = update_destination_sdp v6 m req.body in
      update_response respond r (record s { dialog = some (record d { media = some m' }) })

  -- An INVITE while there is a dialog.
  pub update_dialog :
      Ip6Notation → (Answered → Option GoError) → ServerDialog → Invite → Handler n (Unit {0})
  unfolding update_media
  update_dialog v6 respond d req =
      if eq_text req.dialog_id d.id then update_media v6 respond d d.media req else pure tt

  -- The end of the handler: an error of the call ends `answer`.
  unfoldable pub finished_call : Outcome (Unit {0}) × Answering n → Outcome (Unit {0}) × Answering n
  finished_call (ok _, s) = (ok tt, s)
  finished_call (err e, s) = (ok tt, exit_with e s)
  finished_call (panic, s) = (panic, s)
  finished_call (diverges, s) = (diverges, s)

  -- From `ds.ReadInvite` on, which may fail.
  unfoldable pub read_invite :
      Ip6Notation → AnswerOptions → Surroundings → Option GoError → Invite → Handler n (Unit {0})
  unfolding finished_call
  read_invite v6 opts env (some e) req s =
      (ok tt, exit_with e (try_response env.respond (plain_response 400 []) s))
  read_invite v6 opts env none req s = finished_call (take_call v6 opts env req s)

  unfoldable pub without_dialog :
      Ip6Notation
      → Digest
      → AnswerOptions
      → Surroundings
      → Option GoError
      → Invite
      → Handler n (Unit {0})
  unfolding read_invite
  without_dialog v6 g opts env read_error req = do
    may_go_on ← authorize_invite g env.respond opts env.nonce req
    if may_go_on then read_invite v6 opts env read_error req else pure tt

  unfoldable pub on_invite_with :
      Ip6Notation
      → Digest
      → AnswerOptions
      → Surroundings
      → Option GoError
      → Invite
      → Option ServerDialog
      → Handler n (Unit {0})
  unfolding without_dialog update_dialog
  on_invite_with v6 g opts env read_error req none = without_dialog v6 g opts env read_error req
  on_invite_with v6 g opts env read_error req (some d) = update_dialog v6 env.respond d req

  -- `server.OnInvite`.
  unfoldable pub on_invite :
      Ip6Notation
      → Digest
      → AnswerOptions
      → Surroundings
      → Option GoError
      → Invite
      → Handler n (Unit {0})
  unfolding on_invite_with
  on_invite v6 g opts env read_error req s = on_invite_with v6 g opts env read_error req s.dialog s

  -- The hand-over and the reset, unless the context has ended.
  unfoldable pub hand_over_ack : Taking → Answering n → Answering n
  hand_over_ack not_taken s = s
  hand_over_ack taken_after_reset s = record s { delivered = some s.dialog }
  hand_over_ack reset_after_return s = record s { delivered = some s.dialog; dialog = none }
  hand_over_ack reset_in_between s = record s { delivered = some none; dialog = none }

  -- From `ds.ReadAck` on.
  unfoldable pub read_ack : Option GoError → Taking → Answering n → Answering n
  unfolding hand_over_ack
  read_ack (some e) taking s = exit_with e s
  read_ack none taking s = hand_over_ack taking s

  unfoldable pub on_ack_with :
      Option GoError → Taking → Option ServerDialog → Option Challenge → Answering n → Answering n
  unfolding read_ack
  on_ack_with error taking none (some chal) s = s
  on_ack_with error taking none none s = read_ack error taking (exit_with no_dialog_for_ack s)
  on_ack_with error taking (some d) chal s = read_ack error taking s

  -- `server.OnAck`.
  unfoldable pub on_ack : Option GoError → Taking → Handler n (Unit {0})
  unfolding on_ack_with
  on_ack error taking s = (ok tt, on_ack_with error taking s.dialog s.challenge s)

  -- `server.OnBye`.
  unfoldable pub on_bye : Option GoError → Handler n (Unit {0})
  on_bye (some e) s = (ok tt, record s { exit_error = some e })
  on_bye none s = (ok tt, record s { stopped = true })

  -- The end of the loop that keeps the registration.
  unfoldable pub on_registration_end : GoError → Handler n (Unit {0})
  on_registration_end e s = (ok tt, exit_with e s)

  -- `server.OnOptions`.
  unfoldable pub on_options : (Answered → Option GoError) → Handler n (Unit {0})
  on_options respond s = (ok tt, try_response respond (plain_response 200 (codes "OK")) s)

  unfoldable pub handle : Ip6Notation → Digest → AnswerOptions → Event → Handler n (Unit {0})
  handle v6 g opts (invited env error req) = on_invite v6 g opts env error req
  handle v6 g opts (acknowledged error taking) = on_ack error taking
  handle v6 g opts (ended error) = on_bye error
  handle v6 g opts (registration_ended e) = on_registration_end e
  handle v6 g opts (asked respond) = on_options respond

  -- What `answer` returns, for the error of the caller's context: a nil dialog that is taken is a panic.
  unfoldable pub answer_result : Option GoError → Answering n → Outcome (Option ServerDialog)
  unfolding taken_result ended_result
  answer_result caller s = taken_result s.delivered (ended_result caller s.stopped s.exit_error)

-- `Answer` reads the response of the dialog, which may be nil.
unfoldable pub answered_dialog : Outcome (Option ServerDialog) → Outcome ServerDialog
answered_dialog (ok none) = panic
answered_dialog (ok (some d)) = ok d
answered_dialog (err e) = err e
answered_dialog panic = panic
answered_dialog diverges = diverges
