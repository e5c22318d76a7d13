-- ===== src/Tests/Starts.antt =====
-- What `answer` starts, and a call that is dialled from its first line on.
use sipgox.Prelude.{
  ℕ, ◌≡◌, inl, false, true, ◌||◌, refl, inr, Bool-cases, ◌==◌, none, some, List, [], ◌∷◌, ◌++◌,
  arith,
}
use sipgox.Prelude.Int.{pos, increment}
use sipgox.Text.{codes, eq_text, itoa}
use sipgox.Outcome.{ok, external}
use sipgox.Sip.{Contact, Net, responded, context_done, exchange, reply_to, get_response, get_param}
use sipgox.Registration.{
  register_phone, new_register_transaction, append_expiry, append_allow, register, from_contact,
  first_response, with_via, with_seen, authenticate, finished, accepted,
}
use sipgox.Listeners.{
  Listener, Resolver, close_listener, create_server_listeners, listen_all, create_server_listener,
}
use sipgox.Phone.{Phone, Agent, host_media_ip}
use sipgox.Answer.{AnswerOptions}
use sipgox.Answer.Start.{
  Starting, Started, answer_start, with_registration, registered, listener_contact,
  kept_registration,
}
use sipgox.Answer.Start.Finish.{
  close_server_dialog, finish_answer, stop_once, close_server_dialog-answer_start,
}
use sipgox.Answer.Start.Stopped.{Stops}
use sipgox.Answer.Start.Leaks.{LeavesListeners, answer_start-LeavesListeners}
use sipgox.Answer.Call.{with_formats}
use sipgox.Dialog.{returned}
use sipgox.MediaSession.{initial_session, remote_sdp}
use sipgox.Ports.{new_media_session, create_listeners, scan_ports, listen_rtp_and_rtcp}
use sipgox.Dial.Whole.{Dialling, DialEnds, dial_call, dial_call-DialEnds}
use sipgox.Answer.{sent_or, try_response}
use sipgox.Answer.Handlers.{Event, asked, ended, handle, on_options, on_bye, answer_result}
use sipgox.Answer.Handlers.Reached.{start_answer}
use sipgox.Answer.Start.Whole.{with_media_ip, handle_all, ended_by_caller, ran, answer_phone}
use sipgox.Answer.Start.Whole.Uncalled.{answer_phone-stopped}
use sipgox.Tests.Answers.{plain}
use sipgox.Tests.Descriptions.{no_ip6, host}
use sipgox.Tests.Listeners.{table, ten_ports, busy, table-IsLawful, release}
use sipgox.Tests.Sockets.{stream_table, stream_table-KeepsStreams, fixed, over_tcp}
use sipgox.Tests.Registrations.{headed, Sent}
use sipgox.Tests.Calling.{opened_session, moved_on, dial_options, to_me}
use sipgox.Tests.Dialling.{line}

release_comm : (p q : ℕ) (w : List ℕ) → release q (release p w) ≡ release p (release q w)
release_comm p q [] = refl
release_comm p q (x ∷ w) = ground (arith, release_comm p q w)

close_listener-table :
    (rs : Resolver) (w : List ℕ) (l : Listener)
    → close_listener table stream_table no_ip6 rs w l ≡ release l.socket.handle w
unfolding close_listener
close_listener-table rs w l = elim (Bool-cases (eq_text l.served.listen_network (codes "udp"))) [
  | inl udp ↦ rw udp refl
  | inr other ↦ rw other refl
]

pub commute :
    (rs : Resolver) (w : List ℕ) (a b : Listener)
    → close_listener table stream_table no_ip6 rs
        (close_listener table stream_table no_ip6 rs w a)
        b
      ≡ close_listener table stream_table no_ip6 rs
          (close_listener table stream_table no_ip6 rs w b)
          a
commute rs w a b =
    rw
      (
        close_listener-table rs w a,
        close_listener-table rs w b,
        close_listener-table rs (release a.socket.handle w) b,
        close_listener-table rs (release b.socket.handle w) a,
      )
      (release_comm a.socket.handle b.socket.handle w)

abbrev pub agent : Agent
agent = record {
  ua_name = codes "alice";
  ua_ip = host;
  contact_rest = λ user transport. user ++ transport;
  uri_text = λ h p user. h;
  host_port = λ a. a;
  is_unspecified = λ ip. false;
}

abbrev pub starting : Starting
starting = record { server_error = none; client_error = none; random = 7 }

abbrev registering : AnswerOptions
registering = record {
  ringtime = 0;
  sip_headers = [];
  username = codes "alice";
  password = codes "secret";
  register_addr = codes "registrar";
  formats = [];
  answer_code = 0;
}

abbrev pub phone : Phone
phone = record { listen_addrs = over_tcp ∷ [] }

-- A registrar that accepts, and does not answer the unregistering.
abbrev accepting_once : Net headed
accepting_once = record {
  replies =
      responded (record { status = 200; via = some [] })
      ∷ context_done (external 4)
      ∷ context_done (external 4)
      ∷ [];
  sent = [];
}

abbrev pub over_tcp_listener : Listener
over_tcp_listener = record {
  served = record over_tcp { listen_addr = codes "192.168.0.7:5060" };
  socket = record { local_addr = record { ip = host; port = pos 5060 }; handle = 5060 };
}

abbrev pub own_contact : Contact
own_contact = record {
  host = codes "192.168.0.7";
  port = pos 0;
  rest = codes "alice" ++ codes "tcp";
}

abbrev registered_request : Sent
registered_request = record {
  method = codes "REGISTER";
  held = some own_contact;
  headers = (codes "Via", codes "1") ∷ (codes "Expires", codes "30") ∷ [];
}

abbrev running : Started headed
running = record {
  listeners = over_tcp_listener ∷ [];
  contact = own_contact;
  lhost = codes "192.168.0.7";
  registration = some registered_request;
}

abbrev to_stop : Net headed
to_stop = record {
  replies = context_done (external 4) ∷ context_done (external 4) ∷ [];
  sent = registered_request ∷ [];
}

is_running :
    answer_start table stream_table no_ip6 fixed
      (λ ip. codes "h")
      headed
      agent
      starting
      registering
      phone
      busy
      accepting_once
    ≡ (5060 ∷ busy, to_stop, ok running)
unfolding answer_start with_registration registered listener_contact kept_registration
    create_server_listeners listen_all create_server_listener register_phone
    new_register_transaction append_expiry append_allow register from_contact first_response
    with_via with_seen authenticate finished accepted exchange reply_to get_response get_param
    eq_text itoa
is_running = refl

pub opened_beside :
    new_media_session table (5060 ∷ busy) ten_ports (record { ip = host; port = pos 0 })
    ≡ (4003 ∷ 4002 ∷ 5060 ∷ busy, moved_on, inr opened_session)
unfolding new_media_session create_listeners scan_ports listen_rtp_and_rtcp increment
    initial_session
opened_beside = refl

close_server_dialog-answer_start_example :
    let on_close = some (
      stop_once table stream_table no_ip6 fixed
        (λ ip. codes "h")
        headed
        agent
        false
        registering
        running) in
    let held = (remote_sdp no_ip6 (with_formats [] opened_session) []).0 in
    (after : Net headed) × (close_server_dialog table headed none on_close
        (record { id = codes "d"; media = some held })
        (4003 ∷ 4002 ∷ 5060 ∷ busy)
        to_stop
      ≡ (busy, after, returned none))
    × (finish_answer table headed
          (λ status. status == 200)
          486
          none
          on_close
          (record { id = codes "d"; media = none })
          (5060 ∷ busy)
          to_stop
        ≡ (busy, after, returned none))
    × Stops table table-IsLawful stream_table stream_table-KeepsStreams no_ip6 fixed
        (commute fixed)
        (λ ip. codes "h")
        headed
        agent
        (some registered_request)
        to_stop
        after
close_server_dialog-answer_start_example =
    close_server_dialog-answer_start table table-IsLawful stream_table stream_table-KeepsStreams
      no_ip6 fixed (commute fixed) (λ ip. codes "h") headed agent starting registering phone busy
      accepting_once (codes "d") [] (record { ip = host; port = pos 0 }) ten_ports none
      (λ status. status == 200) 486 is_running opened_beside refl

-- A registrar that refuses.
abbrev refusing : Net headed
refusing = record { replies = responded (record { status = 403; via = some [] }) ∷ []; sent = [] }

answer_start-LeavesListeners_example :
    LeavesListeners table table-IsLawful stream_table stream_table-KeepsStreams no_ip6 fixed
      (λ ip. codes "h")
      headed
      agent
      starting
      phone
      busy
      (answer_start table stream_table no_ip6 fixed
        (λ ip. codes "h")
        headed
        agent
        starting
        registering
        phone
        busy
        refusing)
answer_start-LeavesListeners_example =
    answer_start-LeavesListeners table table-IsLawful stream_table stream_table-KeepsStreams no_ip6
      fixed (λ ip. codes "h") headed agent starting registering phone busy refusing

abbrev pub dialling : Dialling
dialling = record { server_error = none; client_error = none; random = 7; now = pos 7 }

dial_call-DialEnds_example :
    DialEnds table stream_table no_ip6 fixed
      (λ ip. codes "h")
      agent
      dialling
      phone
      to_me
      busy
      ten_ports
      (dial_call table stream_table no_ip6 fixed
        (λ ip. codes "h")
        agent
        dialling
        phone
        dial_options
        to_me
        line
        busy
        ten_ports)
dial_call-DialEnds_example =
    dial_call-DialEnds table table-IsLawful stream_table stream_table-KeepsStreams no_ip6 fixed
      (λ ip. codes "h") agent dialling phone dial_options to_me line busy ten_ports

-- An OPTIONS and then a BYE.
abbrev no_calls : List Event
no_calls = asked (λ res. none) ∷ ended none ∷ []

stopped_by_bye :
    let s =
      (handle_all no_ip6 plain registering
        (host_media_ip no_ip6 agent running.lhost)
        no_calls
        (start_answer {n = table} (5060 ∷ busy) ten_ports [] [])).1 in
    (s.stopped || ended_by_caller none s.delivered) ≡ true
unfolding handle_all with_media_ip handle on_options try_response sent_or on_bye start_answer
stopped_by_bye = refl

answer_phone-stopped_example :
    let s =
      (handle_all no_ip6 plain registering
        (host_media_ip no_ip6 agent running.lhost)
        no_calls
        (start_answer {n = table} (5060 ∷ busy) ten_ports [] [])).1 in
    (after : Net headed) × (answer_phone table stream_table no_ip6 fixed
        (λ ip. codes "h")
        headed
        agent
        plain
        starting
        registering
        phone
        none
        no_calls
        ten_ports
        []
        []
        busy
        accepting_once
      ≡ ran running (record s { world = busy }) after (answer_result none s))
    × Stops table table-IsLawful stream_table stream_table-KeepsStreams no_ip6 fixed
        (commute fixed)
        (λ ip. codes "h")
        headed
        agent
        (some registered_request)
        to_stop
        after
answer_phone-stopped_example =
    answer_phone-stopped table table-IsLawful stream_table stream_table-KeepsStreams no_ip6 fixed
      (commute fixed) (λ ip. codes "h") headed agent plain starting registering phone none no_calls
      ten_ports [] [] busy accepting_once is_running (tt, (tt, tt)) stopped_by_bye
