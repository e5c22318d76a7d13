-- ===== src/Tests/Talking.antt =====
-- A call between two phones.
use sipgox.Prelude.{◌≡◌, refl, inl, inr, none, some, false, [], ◌∷◌, arith}
use sipgox.Prelude.Int.{pos, increment}
use sipgox.Text.{codes, eq_text}
use sipgox.Outcome.{ok}
use sipgox.Sip.{Net, get_param}
use sipgox.MediaSession.{MediaSession, initial_session, conn, remote_sdp}
use sipgox.MediaSession.Negotiation.{CanOffer}
use sipgox.MediaSession.Agreement.{HasFormats, Agree}
use sipgox.Answer.{Invite, Answered, ServerDialog}
use sipgox.Answer.Call.{success_response, with_formats}
use sipgox.Answer.Call.Endings.{negotiated_session}
use sipgox.Answer.Handlers.{invited, acknowledged, taken_after_reset}
use sipgox.Answer.Handlers.Reached.{start_answer}
use sipgox.Answer.Start.Finish.{close_server_dialog, stop_once}
use sipgox.Answer.Start.Whole.{ran, answer_phone}
use sipgox.Answer.Start.Whole.Taken.{taken_state, calm_at}
use sipgox.Dial.Answered.{CanCall}
use sipgox.Dial.{
  Line, answered, new_invite, invite_sent, ack_sent, close_client_dialog, dial_formats,
  dial_network, network_or_udp,
}
use sipgox.Dial.Whole.{Opens, dial_call}
use sipgox.Dial.Phones.{dial_call-answer_phone}
use sipgox.Phone.{Phone}
use sipgox.Tests.Descriptions.{no_ip6, host, host-IsOffer}
use sipgox.Tests.Listeners.{table, ten_ports, busy, table-IsLawful}
use sipgox.Tests.Sockets.{stream_table, stream_table-KeepsStreams}
use sipgox.Tests.Registrations.{headed}
use sipgox.Tests.Calling.{
  dial_options, to_me, moved_on, opened_session, opened_session-CanOffer, opened_session-HasFormats,
  offering, no_password, calm, calm-IsCalm,
}
use sipgox.Tests.Answers.{plain}
use sipgox.Tests.Starts.{agent, phone, dialling, commute, starting}
use sipgox.Tests.Answering.{
  named, at_host, opened_at_host, everyone, is_waiting, waiting_phone, quiet,
}
use sipgox.Listeners.{get_interface_host_port}
use sipgox.Ip.{parse_ip}
use sipgox.Phone.{host_media_ip}
use sipgox.Ports.{PortRange, new_media_session, create_listeners, scan_ports, listen_rtp_and_rtcp}

-- The phone that dials: its media have the ports 4004 and 4005.
abbrev calling_phone : Phone
calling_phone = record {
  listen_addrs = record { listen_network = codes "udp"; listen_addr = codes "phone" } ∷ [];
}

abbrev later_on : PortRange
later_on = record { first = 4000; limit = 4010; offset = 6 }

abbrev calling_session : MediaSession
calling_session = record opened_session {
  laddr = record { ip = host; port = pos 4004 };
  rtp_conn = conn (record { local_addr = record { ip = host; port = pos 4004 }; handle = 4004 });
  rtcp_conn = conn (record { local_addr = record { ip = host; port = pos 4005 }; handle = 4005 });
}

at_phone :
    get_interface_host_port table stream_table no_ip6 named
      (λ ip. codes "h")
      7
      busy
      calling_phone.listen_addrs
      (dial_network to_me)
      (agent.host_port to_me.address)
    ≡ (busy, (codes "phone", pos 0, none))
unfolding get_interface_host_port eq_text parse_ip get_param network_or_udp
at_phone = refl

opens_media :
    new_media_session table busy moved_on
      (record { ip = host_media_ip no_ip6 agent (codes "phone"); port = pos 0 })
    ≡ (4005 ∷ 4004 ∷ busy, later_on, inr calling_session)
unfolding new_media_session create_listeners scan_ports listen_rtp_and_rtcp increment
    initial_session
opens_media = rw at_host refl

opens :
    Opens table stream_table no_ip6 named
      (λ ip. codes "h")
      agent
      dialling
      calling_phone
      to_me
      busy
      moved_on
      (4005 ∷ 4004 ∷ busy)
      later_on
      calling_session
opens = record {
  no_server_error = refl;
  no_client_error = refl;
  host = codes "phone";
  port = pos 0;
  found = busy;
  at_interface = at_phone;
  opened = opens_media;
}

calling_session-CanOffer : CanOffer calling_session 4004
calling_session-CanOffer = record { offer = host-IsOffer; port_is = refl; port_count = omega arith }

calling_session-HasFormats : HasFormats calling_session
calling_session-HasFormats = record {
  some_formats = omega arith;
  distinct = opened_session-HasFormats.distinct;
  no_events = opened_session-HasFormats.no_events;
}

-- The INVITE, as it reaches the other phone.
abbrev called_phone : Invite
called_phone = record offering {
  body = (new_invite no_ip6 (pos 7) dial_options to_me calling_session).body;
}

abbrev other_held : MediaSession
other_held = negotiated_session no_ip6 no_password opened_session called_phone.body

abbrev other_answer : Answered
other_answer = success_response no_ip6 no_password calm.now other_held

abbrev answering_line : Line
answering_line = record { write_error = none; waited = answered other_answer.sdp; ack_error = none }

both_phones : CanCall calling_session opened_session
both_phones = record {
  caller_port = 4004;
  answerer_port = 4002;
  caller_offers = calling_session-CanOffer;
  caller_formats = calling_session-HasFormats;
  answerer_offers = opened_session-CanOffer;
  answerer_formats = opened_session-HasFormats;
}

dial_call-answer_phone_example :
    let d : ServerDialog = record { id = codes "d1"; media = some other_held } in
    let taken = (remote_sdp no_ip6 calling_session other_answer.sdp).0 in
    (dial_call table stream_table no_ip6 named
        (λ ip. codes "h")
        agent
        dialling
        calling_phone
        dial_options
        to_me
        answering_line
        busy
        moved_on
      ≡ (
        4005 ∷ 4004 ∷ busy,
        later_on,
        invite_sent (new_invite no_ip6 (pos 7) dial_options to_me calling_session) ∷ ack_sent ∷ [],
        ok (record { media = taken }),
      ))
    × (close_client_dialog table (4005 ∷ 4004 ∷ busy) (record { media = taken }) ≡ busy)
    × (answer_phone table stream_table no_ip6 named
          (λ ip. codes "h")
          headed
          agent
          plain
          starting
          no_password
          phone
          none
          (invited calm none called_phone ∷ acknowledged none taken_after_reset ∷ [])
          ten_ports
          []
          []
          busy
          quiet
        ≡ ran waiting_phone
            (taken_state table table-IsLawful stream_table stream_table-KeepsStreams no_ip6 named
              (commute named)
              (λ ip. codes "h")
              headed
              agent
              plain
              no_password
              calm
              (calm_at host calm-IsCalm)
              (start_answer (5060 ∷ busy) ten_ports [] [])
              (4003 ∷ 4002 ∷ 5060 ∷ busy)
              moved_on
              other_held
              called_phone)
            quiet
            (ok (some d)))
    × Agree other_held taken
    × ((after : Net headed) × (close_server_dialog table headed none
            (some (
              stop_once table stream_table no_ip6 named
                (λ ip. codes "h")
                headed
                agent
                false
                no_password
                waiting_phone))
            d
            (4003 ∷ 4002 ∷ 5060 ∷ busy)
            quiet
          ≡ (busy, after, ok tt)))
unfolding dial_formats with_formats
dial_call-answer_phone_example =
    dial_call-answer_phone table table-IsLawful stream_table stream_table-KeepsStreams no_ip6 named
      named (commute named) (λ ip. codes "h") headed agent agent plain dialling calling_phone
      dial_options to_me answering_line busy moved_on starting no_password phone busy quiet
      ten_ports [] [] calm called_phone calm-IsCalm opens is_waiting everyone (inl refl) refl refl
      opened_at_host both_phones refl refl refl
