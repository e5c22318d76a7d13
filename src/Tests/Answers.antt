-- ===== src/Tests/Answers.antt =====
-- What a phone that answers does with the requests that come.
use sipgox.Prelude.{◌≡◌, refl, ap, inl, inr, none, some, [], ◌∷◌}
use sipgox.Prelude.Int.{pos, negsuc}
use sipgox.Text.{Text, codes, eq_text}
use sipgox.Outcome.{ok, err, media_not_found}
use sipgox.Sdp.{values, unmarshal, unmarshal_loop, next_line, read_string}
use sipgox.Sdp.Media.{media_description, find_media}
use sipgox.MediaSession.{remote_sdp, received_description}
use sipgox.Ports.{close_session}
use sipgox.Answer.{AnswerOptions, Invite, Digest, Answering}
use sipgox.Answer.Authorize.{plain_response, authorize_invite}
use sipgox.Answer.Authorize.Sound.{AsksPassword, HasCredentials}
use sipgox.Answer.Authorize.Replies.{new_challenge, challenge_response}
use sipgox.Answer.Backed.{Backing}
use sipgox.Answer.Call.{take_call, accept_call, with_formats}
use sipgox.Answer.Call.Endings.{take_call_refused, accept_call_leak, with_sockets, take_call-Agree}
use sipgox.Answer.Handlers.{
  invited, acknowledged, reset_after_return, handle, on_invite, on_invite_with, without_dialog,
  read_invite, finished_call, on_ack, on_ack_with, read_ack, hand_over_ack, taken_result,
  answer_result,
}
use sipgox.Answer.Handlers.Reached.{start_answer, Reached, started, next, answer_result-Backing}
use sipgox.Answer.Handlers.Authorized.{on_invite_twice}
use sipgox.Dial.{new_invite}
use sipgox.Tests.Descriptions.{no_ip6, both}
use sipgox.Tests.Listeners.{table, ten_ports, busy, table-IsLawful}
use sipgox.Tests.Sessions.{local_session}
use sipgox.Tests.Calling.{
  opened_session, moved_on, no_password, calm, calm-IsCalm, offering, waiting, held, answer, opened,
  both_sides,
}

-- A digest that is the password itself.
abbrev pub plain : Digest
plain = record {
  Credentials = Text;
  parse_credentials = λ h. inr h;
  response = λ c. c;
  compute = λ chal username password c. ok password;
}

abbrev guarded : AnswerOptions
guarded = record no_password { password = codes "secret" }

guarded-AsksPassword : AsksPassword guarded
unfolding eq_text
guarded-AsksPassword = (refl, refl)

abbrev knowing : Invite
knowing = record offering { authorization = some (codes "secret") }

knowing-HasCredentials : HasCredentials plain guarded none knowing
knowing-HasCredentials = record {
  header = codes "secret";
  credentials = codes "secret";
  has_header = refl;
  parsed = refl;
  matches = refl;
}

on_invite_twice_example :
    let chal = new_challenge [] (codes "1") in
    on_invite no_ip6 plain guarded calm none offering
      (on_invite no_ip6 plain guarded calm none offering waiting).1
    ≡ (
      ok tt,
      record waiting {
        realm = chal.realm;
        challenge = some chal;
        responses = challenge_response chal ∷ plain_response 403 (codes "Forbidden") ∷ [];
      },
    )
unfolding start_answer
on_invite_twice_example =
    on_invite_twice no_ip6 plain guarded calm calm none none offering offering waiting
      guarded-AsksPassword (λ res. refl) (λ res. refl) refl refl refl refl

take_call_refused_example :
    take_call no_ip6 no_password (record calm { on_call = some (negsuc 0) }) offering waiting
    ≡ take_call no_ip6 no_password calm offering
        (record waiting { responses = plain_response 486 (codes "Busy") ∷ [] })
unfolding start_answer
take_call_refused_example = take_call_refused no_ip6 no_password calm 0 offering waiting refl refl

abbrev unreadable : Invite
unreadable = record offering { body = codes "v=0" }

refused :
    remote_sdp no_ip6 (with_formats both opened_session) (codes "v=0")
    ≡ (opened_session, err media_not_found)
unfolding remote_sdp received_description unmarshal unmarshal_loop next_line read_string
    media_description find_media values with_formats
refused = refl

accept_call_leak_example :
    (accept_call no_ip6 no_password calm unreadable waiting ≡ (
      err media_not_found,
      with_sockets no_ip6 no_password calm calm-IsCalm waiting (4003 ∷ 4002 ∷ busy) moved_on,
    ))
    × (close_session table (4003 ∷ 4002 ∷ busy) opened_session ≡ busy)
unfolding start_answer
accept_call_leak_example =
    accept_call_leak no_ip6 no_password calm calm-IsCalm table-IsLawful unreadable waiting refl
      opened refused

-- The state once the call was taken, and once its ACK came.
abbrev talking : Answering table
talking = record waiting {
  dialog = some (record { id = codes "d1"; media = some held });
  responses = plain_response 100 (codes "Trying") ∷ answer ∷ [];
  world = 4003 ∷ 4002 ∷ busy;
  ports = moved_on;
}

abbrev delivered : Answering table
delivered = record talking { delivered = some talking.dialog; dialog = none }

taken : handle no_ip6 plain no_password (invited calm none offering) waiting ≡ (ok tt, talking)
unfolding start_answer handle on_invite on_invite_with without_dialog read_invite authorize_invite
    eq_text new_invite
taken =
    ap (λ x. finished_call x)
      (take_call-Agree no_ip6 no_password calm calm-IsCalm offering waiting (pos 7) local_session
        both_sides.caller_port both_sides.answerer_port (inl refl) refl refl opened
        both_sides.caller_offers both_sides.caller_formats both_sides.answerer_offers
        both_sides.answerer_formats).0

acknowledged_call :
    handle no_ip6 plain no_password (acknowledged none reset_after_return) talking
    ≡ (ok tt, delivered)
unfolding start_answer handle on_ack on_ack_with read_ack hand_over_ack
acknowledged_call = refl

reached : Reached no_ip6 plain no_password delivered
unfolding start_answer
reached =
    next (acknowledged none reset_after_return)
      (next (invited calm none offering) (started busy ten_ports [] []) taken) acknowledged_call

returned : answer_result none delivered ≡ ok (some (record { id = codes "d1"; media = some held }))
unfolding answer_result taken_result
returned = refl

answer_result-Backing_example : Backing no_ip6 no_password (some held) delivered.responses
answer_result-Backing_example =
    answer_result-Backing no_ip6 plain no_password none {s = delivered} reached returned
