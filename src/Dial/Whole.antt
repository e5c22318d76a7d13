-- ===== src/Dial/Whole.antt =====
-- phone.go's `Dial` from its first line on: the server, the interface of the call, the client and then the call.
use sipgox.Prelude.{ℕ, ◌≡◌, refl, ap, sym, ◌∙◌, Option, none, some, [], ◌⊎◌, inl, inr}
use mathlib.Core.Path.{subst}
use sipgox.Prelude.Int.{ℤ, pos}
use sipgox.Text.{Text}
use sipgox.Ip.{Ip, Ip6Notation}
use sipgox.Outcome.{ok, err, GoError}
use sipgox.Sip.{Contact}
use sipgox.MediaSession.{MediaSession}
use sipgox.Ports.{Sockets, PortRange, new_media_session, close_session}
use sipgox.Ports.Pair.{IsLawful}
use sipgox.Ports.Release.{Released, close_session-new_media_session}
use sipgox.Listeners.{Streams, Resolver, HostPort, get_interface_host_port}
use sipgox.Listeners.Free.{KeepsStreams, get_interface_host_port_clean}
use sipgox.Phone.{Phone, Agent, host_media_ip}
use sipgox.Dial.{
  DialOptions, Recipient, ClientDialog, Line, Dialled, dial_network, dial_with, dial_phone,
  close_client_dialog, new_invite, dial_formats, dial,
}
use sipgox.Dial.Ends.{dial_phone_sockets}

-- The errors of `NewServer` and `NewClient`, the random port, and the clock.
pub record Dialling : Type 0 where
  pub server_error : Option GoError
  pub client_error : Option GoError
  pub random : ℕ
  pub now : ℤ

-- The contact of the calls that the phone makes.
unfoldable pub dial_contact : Agent → Recipient → Text → ℤ → Contact
dial_contact agent recipient host port = record {
  host = host;
  port = port;
  rest = agent.contact_rest agent.ua_name (dial_network recipient);
}

module _ (n : Sockets) (t : Streams n) (v6 : Ip6Notation) (rs : Resolver) (print : Ip → Text)
    (agent : Agent) where
  open n use {World}

  -- From the interface on, at which the client and the contact are.
  dial_at_interface :
      Dialling → DialOptions → Recipient → Line → PortRange → World × HostPort n t v6 rs → Dialled n
  dial_at_interface env o recipient line r (w, (host, port, some e)) =
      dial_phone n v6 env.now o recipient (some e) [] line w r
  dial_at_interface env o recipient line r (w, (host, port, none)) =
      dial_phone n v6 env.now o recipient env.client_error (host_media_ip v6 agent host) line w r

  with_dial_server :
      Option GoError
      → Dialling
      → Phone
      → DialOptions
      → Recipient
      → Line
      → World
      → PortRange
      → Dialled n
  unfolding dial_at_interface
  with_dial_server (some e) env phone o recipient line w r =
      dial_phone n v6 env.now o recipient (some e) [] line w r
  with_dial_server none env phone o recipient line w r = dial_at_interface env o recipient line r (
      get_interface_host_port n t v6 rs print env.random w phone.listen_addrs
        (dial_network recipient) (agent.host_port recipient.address))

  -- `Dial`.
  unfoldable pub dial_call :
      Dialling → Phone → DialOptions → Recipient → Line → World → PortRange → Dialled n
  unfolding with_dial_server
  dial_call env phone o recipient line w r =
      with_dial_server env.server_error env phone o recipient line w r

  -- `Dial` comes to its media session, with the sockets and the range of ports after it.
  pub record Opens (env : Dialling) (phone : Phone) (recipient : Recipient) (w : n.World)
      (r : PortRange) (w' : n.World) (r' : PortRange) (m : MediaSession) : Type 0 where
    pub no_server_error : env.server_error ≡ none
    pub no_client_error : env.client_error ≡ none
    pub host : Text
    pub port : ℤ
    pub found : n.World
    pub at_interface :
        get_interface_host_port n t v6 rs print env.random w phone.listen_addrs
          (dial_network recipient)
          (agent.host_port recipient.address)
        ≡ (found, (host, port, none))
    pub opened :
        new_media_session n found r (record { ip = host_media_ip v6 agent host; port = pos 0 })
        ≡ (w', r', inr m)

  pub dial_call-dial :
      (env : Dialling) (phone : Phone) (o : DialOptions) (recipient : Recipient) (line : Line)
      (w : n.World) (r : PortRange) (w' : n.World) (r' : PortRange) (m : MediaSession)
      → Opens env phone recipient w r w' r' m
      → let m' = dial_formats o.formats m in
        let x = dial v6 (new_invite v6 env.now o recipient m') m' line in
        dial_call env phone o recipient line w r ≡ (w', r', x.0, x.1)
  unfolding dial_call dial_phone dial_with
  dial_call-dial env phone o recipient line w r w' r' m h =
      rw (h.no_server_error, h.at_interface, h.no_client_error, h.opened) refl

  -- What `Dial` leaves open. It does not come to a media session: then it returns an error, has sent nothing, and
  -- the sockets are as before. Or it comes to one, and leaves the sockets and the range of ports as they were
  -- after its opening, however the call then ends: closing that session leaves the sockets as before, and so
  -- does closing the dialog that is returned, if one is.
  pub data DialEnds (env : Dialling) (phone : Phone) (recipient : Recipient) (w : World)
      (r : PortRange) (x : Dialled n) : Type 0 where
    nothing_opened :
        (e : GoError)
        → x.3 ≡ err e
        → x.2 ≡ []
        → x.0 ≡ w
        → ((w' : World) (r' : PortRange) (m : MediaSession)
            → ¬ Opens env phone recipient w r w' r' m)
        → DialEnds env phone recipient w r x
    session_opened :
        (m : MediaSession)
        → Opens env phone recipient w r x.0 x.1 m
        → close_session n x.0 m ≡ w
        → ((d : ClientDialog) → x.3 ≡ ok d → close_client_dialog n x.0 d ≡ w)
        → DialEnds env phone recipient w r x

module _ (n : Sockets) (lawful : IsLawful n) (t : Streams n) (keeps : KeepsStreams t)
    (v6 : Ip6Notation) (rs : Resolver) (print : Ip → Text) (agent : Agent) where
  module _ (env : Dialling) (phone : Phone) (o : DialOptions) (recipient : Recipient) (line : Line)
      (w : n.World) (r : PortRange) where
    -- The opening of the media at the interface that was found.
    abbrev media_at : n.World × HostPort n t v6 rs → n.World × PortRange × (GoError ⊎ MediaSession)
    media_at (found, (host, port, e)) =
        new_media_session n found r (record { ip = host_media_ip v6 agent host; port = pos 0 })

    abbrev interface : n.World × HostPort n t v6 rs
    interface =
        get_interface_host_port n t v6 rs print env.random w phone.listen_addrs
          (dial_network recipient) (agent.host_port recipient.address)

    -- The end of this `Dial`.
    abbrev Ends : Type 0
    Ends =
        DialEnds n t v6 rs print agent env phone recipient w r
          (dial_call n t v6 rs print agent env phone o recipient line w r)

    -- An error in front of the media session.
    failed :
        (e : GoError) (found : n.World) (range : PortRange)
        → dial_call n t v6 rs print agent env phone o recipient line w r ≡ (found, range, [], err e)
        → found ≡ w
        → ((w' : n.World) (r' : PortRange) (m : MediaSession)
            → ¬ Opens n t v6 rs print agent env phone recipient w r w' r' m)
        → Ends
    failed e found range ends same unopened =
        nothing_opened e (ap (λ x. x.3) ends) (ap (λ x. x.2) ends) (ap (λ x. x.0) ends ∙ same)
          unopened

    came :
        (w' : n.World) (r' : PortRange) (m : MediaSession)
        → Opens n t v6 rs print agent env phone recipient w r w' r' m
        → close_session n w' m ≡ w
        → ((d : ClientDialog)
            → (dial v6
                (new_invite v6 env.now o recipient (dial_formats o.formats m))
                (dial_formats o.formats m)
                line).1
              ≡ ok d
            → close_client_dialog n w' d ≡ w)
        → Ends
    came w' r' m opens closes closes_dialog =
        subst (λ x. DialEnds n t v6 rs print agent env phone recipient w r x)
          (sym (dial_call-dial n t v6 rs print agent env phone o recipient line w r w' r' m opens))
          (session_opened m opens closes closes_dialog)

    module _ (no_server : env.server_error ≡ none) where
      media-Ends :
          (found : n.World) (host : Text) (port : ℤ)
          (x : n.World × PortRange × (GoError ⊎ MediaSession))
          → interface ≡ (found, (host, port, none))
          → env.client_error ≡ none
          → found ≡ w
          → media_at (found, (host, port, none)) ≡ x
          → Ends
      unfolding dial_call dial_phone dial_with
      media-Ends found host port (w', r', inl e) at no_client same opened =
          failed e w' r' (rw (no_server, at, no_client, opened) refl)
            (subst (λ x. Released n lawful found x) opened
                (close_session-new_media_session n lawful found r
                  (record { ip = host_media_ip v6 agent host; port = pos 0 }))
              ∙ same)
            (λ w1 r1 m h.
              let other : media_at (found, (host, port, none)) ≡ (w1, r1, inr m) =
                ap media_at (sym at ∙ h.at_interface) ∙ h.opened in
              cc)
      media-Ends found host port (w', r', inr m) at no_client same opened =
          let (_, closes, closes_dialog) =
            dial_phone_sockets n lawful v6 env.now o recipient (host_media_ip v6 agent host) line
              found r opened in
          came w' r' m
            (record {
              no_server_error = no_server;
              no_client_error = no_client;
              host = host;
              port = port;
              found = found;
              at_interface = at;
              opened = opened;
            })
            (closes ∙ same)
            (let closes_taken = rw opened at closes_dialog in
              λ d taken. closes_taken d taken ∙ same)

      client-Ends :
          (found : n.World) (host : Text) (port : ℤ) (error : Option GoError)
          → interface ≡ (found, (host, port, none))
          → found ≡ w
          → env.client_error ≡ error
          → Ends
      unfolding dial_call dial_phone
      client-Ends found host port (some e) at same client =
          failed e found r (rw (no_server, at, client) refl) same
            (λ w1 r1 m h. let none_there = h.no_client_error in cc)
      client-Ends found host port none at same client =
          media-Ends found host port _ at client same refl

      interface-Ends : (x : n.World × HostPort n t v6 rs) → x.0 ≡ w → interface ≡ x → Ends
      unfolding dial_call dial_phone
      interface-Ends (found, (host, port, some e)) same at =
          failed e found r (rw (no_server, at) refl) same
            (λ w1 r1 m h. let found_there = h.at_interface in cc)
      interface-Ends (found, (host, port, none)) same at =
          client-Ends found host port env.client_error at same refl

    server-Ends : (error : Option GoError) → env.server_error ≡ error → Ends
    unfolding dial_call dial_phone
    server-Ends (some e) server =
        failed e w r (rw server refl) refl (λ w1 r1 m h. let none_there = h.no_server_error in cc)
    server-Ends none server =
        interface-Ends server interface
          (get_interface_host_port_clean n lawful t keeps v6 rs print env.random w
            phone.listen_addrs (dial_network recipient) (agent.host_port recipient.address))
          refl

  -- However `Dial` ends, on lawful sockets. Where it does not come to a media session, it returns an error, has sent
  -- nothing, and the sockets are as before. Where it comes to one, it leaves the sockets as the opening of that
  -- session left them, whether it then returns a dialog or an error; closing the session leaves the sockets as
  -- before, and so does closing the dialog, where one is returned.
  pub dial_call-DialEnds :
      (env : Dialling) (phone : Phone) (o : DialOptions) (recipient : Recipient) (line : Line)
      (w : n.World) (r : PortRange)
      → DialEnds n t v6 rs print agent env phone recipient w r
          (dial_call n t v6 rs print agent env phone o recipient line w r)
  dial_call-DialEnds env phone o recipient line w r =
      server-Ends env phone o recipient line w r env.server_error refl
