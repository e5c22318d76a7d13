-- ===== src/Dial.antt =====
-- phone.go's `Dial`: a call from the phone, and the transfer of a call that it has made. What happens is a
-- list of the messages that are sent and of the calls of `OnRefer`, in their order.
pub mod Refer
pub mod Answered
pub mod Ends
pub mod Quiet
pub mod Whole
pub mod Phones
use sipgox.Prelude.{
  ℕ, Bool, true, false, Option, none, some, List, [], ◌∷◌, ◌++◌, ◌==◌, ◌⊎◌, inl, inr, if◌then◌else◌,
}
use sipgox.Prelude.Int.{ℤ, pos}
use sipgox.Text.{Text, codes}
use sipgox.Ip.{Ip, Ip6Notation}
use sipgox.Outcome.{Outcome, ok, err, panic, diverges, GoError, call_not_answered, fail_to_send_ack}
use sipgox.Sip.{get_param}
use sipgox.MediaSession.{UdpAddr, MediaSession, local_sdp, remote_sdp}
use sipgox.Ports.{Sockets, PortRange, new_media_session, close_session}

pub record DialOptions : Type 0 where
  pub username : Text
  pub password : Text
  pub sip_headers : List (Text × Text)
  pub formats : List Text

-- `sip.Uri`: the password, the parameters and the rest.
pub record Recipient : Type 0 where
  pub address : Text
  pub uri_password : Text
  pub uri_params : List (Text × Text)

-- The INVITE that is sent: what the program puts into it.
pub record DialInvite : Type 0 where
  pub recipient : Recipient
  pub network : Text
  pub headers : List (Text × Text)
  pub body : Text

pub record ClientDialog : Type 0 where
  pub media : MediaSession

-- `DialogReferState`.
pub data ReferState : Type 0 where
  refer_none : ReferState
  refer_confirmed : Option ClientDialog → ReferState
  refer_ended : ReferState

pub data Act : Type 0 where
  invite_sent : DialInvite → Act
  ack_sent : Act
  notify_sent : Text → Act
  refer_response : ℕ → Act
  refer_called : ReferState → Act

-- What `WaitAnswer` returns: the error of a response, another error, or the body of the 200.
pub data Waited : Type 0 where
  not_answered : ℕ → Waited
  wait_error : GoError → Waited
  answered : Text → Waited

-- What comes of a call: the error of `WriteInvite`, then what is waited for, then the error of `Ack`.
pub record Line : Type 0 where
  pub write_error : Option GoError
  pub waited : Waited
  pub ack_error : Option GoError

-- `recipient.UriParams["transport"]`, or udp.
unfoldable pub network_or_udp : Text → Text
network_or_udp [] = codes "udp"
network_or_udp (c ∷ cs) = c ∷ cs

abbrev pub dial_network : Recipient → Text
dial_network recipient = network_or_udp (get_param recipient.uri_params (codes "transport"))

abbrev content_type_sdp : Text × Text
content_type_sdp = (codes "Content-Type", codes "application/sdp")

-- The formats of the options, where there are any.
unfoldable pub dial_formats : List Text → MediaSession → MediaSession
dial_formats [] m = m
dial_formats (f ∷ fs) m = record m { formats = f ∷ fs }

-- The INVITE of `Dial`: without the password of the URI, and with the headers of the options.
unfoldable pub new_invite : Ip6Notation → ℤ → DialOptions → Recipient → MediaSession → DialInvite
new_invite v6 now o recipient m = record {
  recipient = record recipient { uri_password = [] };
  network = dial_network recipient;
  headers = content_type_sdp ∷ o.sip_headers;
  body = local_sdp v6 now m;
}

-- The end of the waiting: the ACK is sent where the description of the answer was read.
ack_answer : Option GoError → MediaSession → List Act × Outcome ClientDialog
ack_answer (some e) m = ([], err fail_to_send_ack)
ack_answer none m = (ack_sent ∷ [], ok (record { media = m }))

take_answer : Option GoError → MediaSession × Outcome (Unit {0}) → List Act × Outcome ClientDialog
unfolding ack_answer
take_answer ack_error (m, ok _) = ack_answer ack_error m
take_answer ack_error (m, err e) = ([], err e)
take_answer ack_error (m, panic) = ([], panic)
take_answer ack_error (m, diverges) = ([], diverges)

unfoldable pub dial_wait_answer :
    Ip6Notation → MediaSession → Waited → Option GoError → List Act × Outcome ClientDialog
unfolding take_answer
dial_wait_answer v6 m (not_answered code) ack_error = ([], err (call_not_answered code))
dial_wait_answer v6 m (wait_error e) ack_error = ([], err e)
dial_wait_answer v6 m (answered body) ack_error = take_answer ack_error (remote_sdp v6 m body)

-- What was done before, and then the rest.
pub after_acts : {A : Type 0} → List Act → List Act × A → List Act × A
after_acts acts (more, a) = (acts ++ more, a)

dial_written :
    Ip6Notation
    → DialInvite
    → MediaSession
    → Line
    → Option GoError
    → List Act × Outcome ClientDialog
unfolding after_acts
dial_written v6 invite m line (some e) = ([], err e)
dial_written v6 invite m line none =
    after_acts (invite_sent invite ∷ []) (dial_wait_answer v6 m line.waited line.ack_error)

unfoldable pub dial :
    Ip6Notation → DialInvite → MediaSession → Line → List Act × Outcome ClientDialog
unfolding dial_written
dial v6 invite m line = dial_written v6 invite m line line.write_error

module _ (n : Sockets) where
  -- The sockets, the range of ports, what was done, and the result.
  abbrev pub Dialled : Type 0
  Dialled = n.World × PortRange × List Act × Outcome ClientDialog

  dial_with :
      Ip6Notation
      → ℤ
      → DialOptions
      → Recipient
      → Line
      → n.World × PortRange × (GoError ⊎ MediaSession)
      → Dialled
  dial_with v6 now o recipient line (w, r, inl e) = (w, r, [], err e)
  dial_with v6 now o recipient line (w, r, inr m) =
      let m' = dial_formats o.formats m in
      let (acts, result) = dial v6 (new_invite v6 now o recipient m') m' line in
      (w, r, acts, result)

  -- `Dial`, from the setup of the media session on, at `media_ip`; the error is that of what comes before: of
  -- the server, of the interface's host and port, or of the client.
  unfoldable pub dial_phone :
      Ip6Notation
      → ℤ
      → DialOptions
      → Recipient
      → Option GoError
      → Ip
      → Line
      → n.World
      → PortRange
      → Dialled
  unfolding dial_with
  dial_phone v6 now o recipient (some e) media_ip line w r = (w, r, [], err e)
  dial_phone v6 now o recipient none media_ip line w r =
      dial_with v6 now o recipient line
        (new_media_session n w r (record { ip = media_ip; port = pos 0 }))

  -- `DialogClientSession.Close`, as far as the sockets go.
  unfoldable pub close_client_dialog : n.World → ClientDialog → n.World
  close_client_dialog w d = close_session n w d.media
