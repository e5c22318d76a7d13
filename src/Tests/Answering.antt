-- ===== src/Tests/Answering.antt =====
-- A call that a phone answers, from the first line of `answer` on.
use sipgox.Prelude.{◌≡◌, refl, inl, inr, none, some, false, [], ◌∷◌, ◌++◌, not, ◌&&◌}
use sipgox.Prelude.Int.{pos}
use sipgox.Text.{codes, eq_text}
use sipgox.Outcome.{ok, external}
use sipgox.Sip.{Net, context_done}
use sipgox.MediaSession.{local_sdp, remote_sdp}
use sipgox.MediaSession.Agreement.{Agree}
use sipgox.Ports.{new_media_session}
use sipgox.Listeners.{create_server_listeners, listen_all, create_server_listener, Resolver}
use sipgox.Phone.{host_media_ip}
use sipgox.Answer.{ServerDialog}
use sipgox.Answer.Call.{with_formats}
use sipgox.Dial.{new_invite}
use sipgox.Answer.Handlers.{invited, acknowledged, taken_after_reset}
use sipgox.Answer.Handlers.Reached.{start_answer}
use sipgox.Answer.Start.{Started, answer_start, with_registration, listener_contact}
use sipgox.Answer.Start.Finish.{close_server_dialog, stop_once}
use sipgox.Answer.Start.Whole.{ran, answer_phone}
use sipgox.Answer.Start.Whole.Taken.{taken_state, calm_at, answer_phone-Agree}
use sipgox.Ip.{parse_ip}
use sipgox.Tests.Descriptions.{no_ip6, host}
use sipgox.Tests.Listeners.{table, ten_ports, busy, table-IsLawful}
use sipgox.Tests.Sockets.{stream_table, stream_table-KeepsStreams, fixed}
use sipgox.Tests.Registrations.{headed}
use sipgox.Tests.Sessions.{local_session, local_session-CanOffer}
use sipgox.Tests.Calling.{
  no_password, calm, calm-IsCalm, offering, moved_on, opened_session, opened_session-CanOffer,
  opened_session-HasFormats, local_session-HasFormats, held, answer,
}
use sipgox.Tests.Answers.{plain}
use sipgox.Tests.Starts.{agent, starting, phone, over_tcp_listener, opened_beside, commute}

-- The first listener is at a host name, so that the media are at the address of the user agent.
abbrev pub named : Resolver
named = record fixed { parse_addr = λ s. (codes "phone", pos 0, none) }

abbrev pub waiting_phone : Started headed
waiting_phone = record {
  listeners = over_tcp_listener ∷ [];
  contact = record { host = codes "phone"; port = pos 0; rest = codes "alice" ++ codes "tcp" };
  lhost = codes "phone";
  registration = none;
}

abbrev pub quiet : Net headed
quiet = record { replies = context_done (external 4) ∷ context_done (external 4) ∷ []; sent = [] }

pub is_waiting :
    answer_start table stream_table no_ip6 named
      (λ ip. codes "h")
      headed
      agent
      starting
      no_password
      phone
      busy
      quiet
    ≡ (5060 ∷ busy, quiet, ok waiting_phone)
unfolding answer_start with_registration listener_contact create_server_listeners listen_all
    create_server_listener eq_text
is_waiting = refl

pub at_host : host_media_ip no_ip6 agent (codes "phone") ≡ host
unfolding host_media_ip parse_ip
at_host = refl

pub opened_at_host :
    new_media_session table
      (5060 ∷ busy)
      ten_ports
      (record { ip = host_media_ip no_ip6 agent (codes "phone"); port = pos 0 })
    ≡ (4003 ∷ 4002 ∷ 5060 ∷ busy, moved_on, inr opened_session)
opened_at_host = rw at_host opened_beside

pub everyone :
    (not (eq_text no_password.password []) && eq_text no_password.register_addr []) ≡ false
unfolding eq_text
everyone = refl

answer_phone-Agree_example :
    let d : ServerDialog = record { id = codes "d1"; media = some held } in
    (answer_phone table stream_table no_ip6 named
        (λ ip. codes "h")
        headed
        agent
        plain
        starting
        no_password
        phone
        none
        (invited calm none offering ∷ acknowledged none taken_after_reset ∷ [])
        ten_ports
        []
        []
        busy
        quiet
      ≡ ran waiting_phone
          (taken_state table table-IsLawful stream_table stream_table-KeepsStreams no_ip6 named
            (commute named)
            (λ ip. codes "h")
            headed
            agent
            plain
            no_password
            calm
            (calm_at host calm-IsCalm)
            (start_answer (5060 ∷ busy) ten_ports [] [])
            (4003 ∷ 4002 ∷ 5060 ∷ busy)
            moved_on
            held
            offering)
          quiet
          (ok (some d)))
    × Agree held (remote_sdp no_ip6 local_session answer.sdp).0
    × ((after : Net headed) × (close_server_dialog table headed none
            (some (
              stop_once table stream_table no_ip6 named
                (λ ip. codes "h")
                headed
                agent
                false
                no_password
                waiting_phone))
            d
            (4003 ∷ 4002 ∷ 5060 ∷ busy)
            quiet
          ≡ (busy, after, ok tt)))
unfolding new_invite with_formats local_sdp
answer_phone-Agree_example =
    answer_phone-Agree table table-IsLawful stream_table stream_table-KeepsStreams no_ip6 named
      (commute named) (λ ip. codes "h") headed agent plain starting no_password phone busy quiet
      ten_ports [] [] calm offering (pos 7) local_session 4000 4002 calm-IsCalm is_waiting everyone
      (inl refl) refl refl opened_at_host local_session-CanOffer local_session-HasFormats
      opened_session-CanOffer opened_session-HasFormats
