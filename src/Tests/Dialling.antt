-- ===== src/Tests/Dialling.antt =====
-- A call that is made, and one that is transferred.
use sipgox.Prelude.{◌≡◌, refl, ap, inr, true, none, some, [], ◌∷◌, ◌++◌}
use sipgox.Prelude.Int.{pos, increment}
use sipgox.Text.{codes}
use sipgox.Outcome.{ok, external}
use sipgox.MediaSession.{MediaSession, local_sdp, update_formats}
use sipgox.MediaSession.Negotiation.{remote_sdp-local_sdp}
use sipgox.Dial.{DialInvite, invite_sent, ack_sent, Line, answered, new_invite, dial}
use sipgox.Dial.Ends.{IsTaken, dial_taken, dial-IsTaken}
use sipgox.Dial.Refer.{Referral, notify_response, on_refer}
use sipgox.Dial.Refer.Order.{IsReferred, on_refer-IsReferred}
use sipgox.Tests.Descriptions.{no_ip6, host, both}
use sipgox.Tests.Listeners.{table, ten_ports, busy}
use sipgox.Tests.Sessions.{local_session, local_session-CanOffer}
use sipgox.Tests.Calling.{opened_session, dial_options, to_me}

-- The other side answers with its own offer.
abbrev pub line : Line
line = record {
  write_error = none;
  waited = answered (local_sdp no_ip6 (pos 7) local_session);
  ack_error = none;
}

-- The session once it took the answer.
abbrev called : MediaSession
called = record (update_formats opened_session (both ++ codes "101" ∷ [])) {
  raddr = some local_session.laddr;
  rtcp_raddr = some (record local_session.laddr { port = increment (pos 4000) });
}

dialled :
    (invite : DialInvite)
    → dial no_ip6 invite opened_session line
      ≡ (invite_sent invite ∷ ack_sent ∷ [], ok (record { media = called }))
dialled invite =
    dial_taken no_ip6 invite opened_session called line _ refl refl refl
      (remote_sdp-local_sdp no_ip6 (pos 7) local_session opened_session 4000 local_session-CanOffer)

abbrev invite : DialInvite
invite = new_invite no_ip6 (pos 7) dial_options to_me opened_session

dial-IsTaken_example :
    IsTaken no_ip6 invite opened_session line
      (record { media = called })
      (dial no_ip6 invite opened_session line).0
dial-IsTaken_example =
    dial-IsTaken no_ip6 invite opened_session line (record { media = called })
      (ap (λ x. x.1) (dialled invite))

abbrev referral : Referral
referral = record {
  read = inr to_me;
  media_ip = host;
  first_notify = notify_response 200;
  second_error = some (external 1);
  line = line;
  now = pos 7;
}

on_refer-IsReferred_example :
    let (_, _, acts, result) = on_refer table no_ip6 (codes "udp") true referral busy ten_ports in
    IsReferred table no_ip6 (codes "udp") referral busy ten_ports acts result
on_refer-IsReferred_example = on_refer-IsReferred table no_ip6 (codes "udp") referral busy ten_ports
