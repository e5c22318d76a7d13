-- ===== src/Tests/Calling.antt =====
-- A call between two phones, and calls that are refused.
use sipgox.Prelude.{◌≡◌, refl, inl, inr, none, some, [], ◌∷◌, arith}
use sipgox.Prelude.Int.{pos, increment}
use sipgox.Text.{codes, eq_text}
use sipgox.Sdp.Generate.{mode_sendrecv}
use sipgox.MediaSession.{conn, MediaSession, initial_session}
use sipgox.MediaSession.Negotiation.{CanOffer}
use sipgox.MediaSession.Agreement.{HasFormats}
use sipgox.Ports.{PortRange, new_media_session, create_listeners, scan_ports, listen_rtp_and_rtcp}
use sipgox.Answer.{AnswerOptions, Invite, Answered, Answering}
use sipgox.Answer.Handlers.Reached.{start_answer}
use sipgox.Answer.Call.{Surroundings, acked, rang, with_formats, success_response}
use sipgox.Answer.Call.Endings.{IsCalm, negotiated_session}
use sipgox.Dial.{DialOptions, Recipient, new_invite}
use sipgox.Dial.Answered.{CanCall}
use sipgox.Tests.Descriptions.{no_ip6, host, both, host-IsOffer}
use sipgox.Tests.Listeners.{table, ten_ports, busy}
use sipgox.Tests.Sessions.{local_session, local_session-CanOffer, both-IsDistinct}

pub local_session-HasFormats : HasFormats local_session
unfolding eq_text
local_session-HasFormats = record {
  some_formats = omega arith;
  distinct = both-IsDistinct;
  no_events = refl;
}

-- The session that a phone at the same host opens: the first pair of ports is half in use.
abbrev pub opened_session : MediaSession
opened_session = record {
  raddr = none;
  laddr = record { ip = host; port = pos 4002 };
  rtp_conn = conn (record { local_addr = record { ip = host; port = pos 4002 }; handle = 4002 });
  rtcp_conn = conn (record { local_addr = record { ip = host; port = pos 4003 }; handle = 4003 });
  rtcp_raddr = none;
  formats = both;
  mode = mode_sendrecv;
}

abbrev pub moved_on : PortRange
moved_on = record { first = 4000; limit = 4010; offset = 4 }

pub opened :
    new_media_session table busy ten_ports (record { ip = host; port = pos 0 })
    ≡ (4003 ∷ 4002 ∷ busy, moved_on, inr opened_session)
unfolding new_media_session create_listeners scan_ports listen_rtp_and_rtcp increment
    initial_session
opened = refl

pub opened_session-CanOffer : CanOffer opened_session 4002
opened_session-CanOffer = record { offer = host-IsOffer; port_is = refl; port_count = omega arith }

pub opened_session-HasFormats : HasFormats opened_session
opened_session-HasFormats = record {
  some_formats = omega arith;
  distinct = both-IsDistinct;
  no_events = local_session-HasFormats.no_events;
}

abbrev pub dial_options : DialOptions
dial_options = record { username = []; password = []; sip_headers = []; formats = [] }

abbrev pub to_me : Recipient
to_me = record { address = codes "sip:me@192.168.0.7"; uri_password = codes "p"; uri_params = [] }

abbrev pub no_password : AnswerOptions
no_password = record {
  ringtime = 0;
  sip_headers = [];
  username = [];
  password = [];
  register_addr = [];
  formats = both;
  answer_code = 0;
}

abbrev pub calm : Surroundings
calm = record {
  on_call = none;
  respond = λ res. none;
  ringing = rang;
  ack_wait = acked;
  handover = none;
  tx_err = none;
  nonce = codes "1";
  media_ip = host;
  now = pos 1000;
}

pub calm-IsCalm : IsCalm calm
calm-IsCalm = record {
  no_on_call = inl refl;
  responds = λ res. refl;
  rings = refl;
  no_tx_err = refl;
}

abbrev pub offering : Invite
offering = record {
  dialog_id = codes "d1";
  authorization = none;
  content_type = some (codes "application/sdp");
  body = (new_invite no_ip6 (pos 7) dial_options to_me local_session).body;
}

abbrev pub waiting : Answering table
waiting = start_answer busy ten_ports [] []

pub both_sides : CanCall local_session (with_formats no_password.formats opened_session)
unfolding with_formats
both_sides = record {
  caller_port = 4000;
  answerer_port = 4002;
  caller_offers = local_session-CanOffer;
  caller_formats = local_session-HasFormats;
  answerer_offers = opened_session-CanOffer;
  answerer_formats = opened_session-HasFormats;
}

-- The session of the phone that answers.
abbrev pub held : MediaSession
held = negotiated_session no_ip6 no_password opened_session offering.body

abbrev pub answer : Answered
answer = success_response no_ip6 no_password calm.now held
