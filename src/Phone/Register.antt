-- ===== src/Phone/Register.antt =====
-- phone.go's `Register` from its first line on: the interface, the server and the client, and then the
-- registration.
use sipgox.Prelude.{ℕ, ◌≡◌, refl, ◌∙◌, Option, none, some, List}
use sipgox.Text.{Text, codes}
use sipgox.Ip.{Ip, Ip6Notation}
use sipgox.Outcome.{Outcome, err, GoError}
use sipgox.Sip.{Sip, Net, get_param}
use sipgox.Registration.{RegisterOptions, Tick, Called, phone_register}
use sipgox.Ports.{Sockets}
use sipgox.Ports.Pair.{IsLawful}
use sipgox.Listeners.{Streams, Resolver, HostPort, get_interface_host_port}
use sipgox.Listeners.Free.{KeepsStreams, get_interface_host_port_clean}
use sipgox.Dial.{network_or_udp}
use sipgox.Phone.{Phone, Agent}

-- `sip.Uri` of the registrar: its text for a request, its host and port, and its headers.
pub record Registrar : Type 0 where
  pub uri : Text
  pub host_and_port : Text
  pub headers : List (Text × Text)

-- The network is looked up among the headers of the URI.
abbrev pub register_network : Registrar → Text
register_network recipient = network_or_udp (get_param recipient.headers (codes "transport"))

module _ (n : Sockets) (t : Streams n) (v6 : Ip6Notation) (rs : Resolver) (print : Ip → Text)
    (sip : Sip) (agent : Agent) where
  open n use {World}

  -- The sockets, the network and the error; without a server there is no registration.
  abbrev pub Registered : Type 0
  Registered = World × Net sip × Outcome (Unit {0})

  from_called : World → Called sip → Registered
  from_called w (net, origin, r) = (w, net, r)

  -- The error of the search for the interface is dropped.
  registered_at :
      Option GoError
      → RegisterOptions
      → List (Tick sip)
      → Net sip
      → Registrar
      → World × HostPort n t v6 rs
      → Registered
  unfolding from_called
  registered_at (some e) opts ticks net recipient (w, (host, port, failed)) = (w, net, err e)
  registered_at none opts ticks net recipient (w, (host, port, failed)) = from_called w (
      phone_register sip opts ticks net recipient.uri (record {
        host = host;
        port = port;
        rest = agent.contact_rest agent.ua_name (register_network recipient);
      }))

  -- `Register`, with the error of `NewServer`. The error of `NewClient`, which the code drops before it uses
  -- the client, is taken to be nil.
  unfoldable pub register_call :
      Option GoError
      → ℕ
      → Phone
      → RegisterOptions
      → List (Tick sip)
      → Registrar
      → World
      → Net sip
      → Registered
  unfolding registered_at
  register_call server_error random phone opts ticks recipient w net =
      registered_at server_error opts ticks net recipient (
        get_interface_host_port n t v6 rs print random w phone.listen_addrs
          (register_network recipient) recipient.host_and_port)

module _ (n : Sockets) (lawful : IsLawful n) (t : Streams n) (keeps : KeepsStreams t)
    (v6 : Ip6Notation) (rs : Resolver) (print : Ip → Text) (sip : Sip) (agent : Agent) where
  registered_at_clean :
      (server_error : Option GoError) (opts : RegisterOptions) (ticks : List (Tick sip))
      (net : Net sip) (recipient : Registrar) (x : n.World × HostPort n t v6 rs)
      → (registered_at n t v6 rs print sip agent server_error opts ticks net recipient x).0 ≡ x.0
  unfolding registered_at from_called
  registered_at_clean (some e) opts ticks net recipient (w, (host, port, failed)) = refl
  registered_at_clean none opts ticks net recipient (w, (host, port, failed)) = refl

  -- However `Register` ends, it leaves no socket of its own open.
  pub register_call_clean :
      (server_error : Option GoError) (random : ℕ) (phone : Phone) (opts : RegisterOptions)
      (ticks : List (Tick sip)) (recipient : Registrar) (w : n.World) (net : Net sip)
      → (register_call n t v6 rs print sip agent server_error random phone opts ticks recipient w
          net).0
        ≡ w
  unfolding register_call
  register_call_clean server_error random phone opts ticks recipient w net =
      registered_at_clean server_error opts ticks net recipient _
      ∙ get_interface_host_port_clean n lawful t keeps v6 rs print random w phone.listen_addrs
          (register_network recipient) recipient.host_and_port
