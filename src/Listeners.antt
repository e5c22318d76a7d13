-- ===== src/Listeners.antt =====
-- phone.go's search for an interface and its listeners, and utils.go's search for a free port.
pub mod Free
pub mod Opened
pub mod Back
use sipgox.Prelude.{
  ℕ, Bool, true, false, ◌&&◌, ◌||◌, Option, none, some, List, [], ◌∷◌, ◌++◌, ◌==◌, ◌+◌, ◌%◌, ◌⊎◌,
  inl, inr, if◌then◌else◌,
}
use sipgox.Prelude.Int.{ℤ, pos, negsuc}
use sipgox.Text.{Text, codes, eq_text, itoa}
use sipgox.Ip.{Ip, Ip6Notation, parse_ip}
use sipgox.Outcome.{GoError, fail_to_find_free_port, unsupported_protocol}
use sipgox.MediaSession.{UdpAddr, Conn}
use sipgox.Ports.{Sockets}

pub record ListenAddr : Type 0 where
  pub listen_network : Text
  pub listen_addr : Text

pub record Listener : Type 0 where
  pub served : ListenAddr
  pub socket : Conn

-- The sockets that are listened on for streams, `net.ListenTCP`, beside those for datagrams.
pub record Streams (n : Sockets) : Type 0 where
  pub listen_stream : n.World → UdpAddr → n.World × (GoError ⊎ Conn)
  pub close_stream : n.World → Conn → n.World

-- `sip.ParseAddr`, `sip.ResolveInterfacesIP` for ip4, `net.ResolveUDPAddr` and `net.ResolveTCPAddr`, the
-- text of an address, `net.JoinHostPort`, and `IsLoopback`.
pub record Resolver : Type 0 where
  pub parse_addr : Text → Text × ℤ × Option GoError
  pub interfaces_ip : GoError ⊎ Ip
  pub resolve_udp : Text → GoError ⊎ UdpAddr
  pub resolve_tcp : Text → GoError ⊎ UdpAddr
  pub addr_string : UdpAddr → Text
  pub join_host_port : Text → Text → Text
  pub is_loopback : Ip → Bool

unfoldable pub is_nil_ip : Ip → Bool
is_nil_ip [] = true
is_nil_ip (b ∷ bs) = false

-- tcp, ws, tls and wss.
is_stream : Text → Bool
is_stream network =
    eq_text network (codes "tcp")
    || eq_text network (codes "ws")
    || eq_text network (codes "tls")
    || eq_text network (codes "wss")

is_zero_port : ℤ → Bool
is_zero_port (pos n) = n == 0
is_zero_port (negsuc n) = false

module _ (n : Sockets) (t : Streams n) (v6 : Ip6Notation) (rs : Resolver) where
  open n use {World, listen, close}
  open t use {listen_stream, close_stream}

  resolved_target : Text → Ip → GoError ⊎ Ip
  resolved_target network ip =
      if eq_text network (codes "udp") && rs.is_loopback ip
      then inr (parse_ip v6 (codes "127.0.0.99"))
      else rs.interfaces_ip

  resolved_ip : Text → Ip → GoError ⊎ Ip
  unfolding resolved_target is_nil_ip
  resolved_ip network ip = if is_nil_ip ip then rs.interfaces_ip else resolved_target network ip

  unfoldable pub resolve_host_ip_with_target : Text → Text → GoError ⊎ Ip
  unfolding resolved_ip
  resolve_host_ip_with_target network target =
      let (tip, _, _) = rs.parse_addr target in resolved_ip network (parse_ip v6 tip)

  -- The port that a socket was given, once it is closed again.
  freed : (World → Conn → World) → World × (GoError ⊎ Conn) → World × (GoError ⊎ ℤ)
  freed shut (w, inl e) = (w, inl e)
  freed shut (w, inr c) = (shut w c, inr c.local_addr.port)

  -- `random` is what `rand.Intn` draws.
  unfoldable pub find_free_port : ℕ → World → Text → Ip → World × (GoError ⊎ ℤ)
  unfolding freed is_stream
  find_free_port random w network ip =
      let addr : UdpAddr = record { ip = ip; port = pos 0 } in
      if eq_text network (codes "udp")
      then freed close (listen w addr)
      else if is_stream network
      then freed close_stream (listen_stream w addr)
      else (w, inr (pos (random % 9999 + 6000)))

  -- A host, a port and an error, as the source returns them.
  abbrev pub HostPort : Type 0
  HostPort = Text × ℤ × Option GoError

  found_port : Ip → World × (GoError ⊎ ℤ) → World × (GoError ⊎ (Ip × ℤ))
  unfolding is_zero_port
  found_port ip (w, inl e) = (w, inl e)
  found_port ip (w, inr port) =
      if is_zero_port port then (w, inl fail_to_find_free_port) else (w, inr (ip, port))

  at_interface : ℕ → World → Text → GoError ⊎ Ip → World × (GoError ⊎ (Ip × ℤ))
  unfolding found_port
  at_interface random w network (inl e) = (w, inl e)
  at_interface random w network (inr ip) = found_port ip (find_free_port random w network ip)

  unfoldable pub find_free_interface_host_port :
      ℕ → World → Text → Text → World × (GoError ⊎ (Ip × ℤ))
  unfolding at_interface
  find_free_interface_host_port random w network target =
      at_interface random w network (resolve_host_ip_with_target network target)

  with_port : Text → World × (GoError ⊎ ℤ) → World × HostPort
  with_port host (w, inl e) = (w, (host, pos 0, some e))
  with_port host (w, inr port) = (w, (host, port, none))

  -- The first address that the phone listens on with this network: its host, and its port or a free one.
  from_listen_addr : ℕ → World → Text → HostPort → World × HostPort
  unfolding with_port is_nil_ip is_zero_port
  from_listen_addr random w network (host, port, some e) = (w, (host, port, some e))
  from_listen_addr random w network (host, port, none) =
      if is_zero_port port
      then (if is_nil_ip (parse_ip v6 host)
          then (w, (host, port, none))
          else with_port host (find_free_port random w network (parse_ip v6 host)))
      else (w, (host, port, none))

  from_interface : (Ip → Text) → World × (GoError ⊎ (Ip × ℤ)) → World × HostPort
  from_interface print (w, inl e) = (w, ([], pos 0, some e))
  from_interface print (w, inr (ip, port)) = (w, (print ip, port, none))

  -- `print` is the text of an address, `ip.String()`.
  unfoldable pub get_interface_host_port :
      (Ip → Text) → ℕ → World → List ListenAddr → Text → Text → World × HostPort
  unfolding from_listen_addr from_interface
  get_interface_host_port print random w [] network target =
      from_interface print (find_free_interface_host_port random w network target)
  get_interface_host_port print random w (a ∷ addrs) network target =
      let rest = get_interface_host_port print random w addrs network target in
      if eq_text a.listen_network network
      then from_listen_addr random w network (rs.parse_addr a.listen_addr)
      else rest

  interface_addr : World × HostPort → World × (GoError ⊎ Text)
  interface_addr (w, (host, port, some e)) = (w, inl e)
  interface_addr (w, (host, port, none)) = (w, inr (rs.join_host_port host (itoa port)))

  unfoldable pub get_interface_addr :
      (Ip → Text) → ℕ → World → List ListenAddr → Text → Text → World × (GoError ⊎ Text)
  unfolding interface_addr
  get_interface_addr print random w addrs network target =
      interface_addr (get_interface_host_port print random w addrs network target)

  listening : ListenAddr → World × (GoError ⊎ Conn) → World × (GoError ⊎ Listener)
  listening a (w, inl e) = (w, inl e)
  listening a (w, inr c) = (
    w,
    inr (record { served = record a { listen_addr = rs.addr_string c.local_addr }; socket = c }),
  )

  listen_resolved :
      (World → UdpAddr → World × (GoError ⊎ Conn))
      → World
      → ListenAddr
      → GoError ⊎ UdpAddr
      → World × (GoError ⊎ Listener)
  unfolding listening
  listen_resolved open_at w a (inl e) = (w, inl e)
  listen_resolved open_at w a (inr addr) = listening a (open_at w addr)

  unfoldable pub create_server_listener : World → ListenAddr → World × (GoError ⊎ Listener)
  unfolding listen_resolved
  create_server_listener w a =
      if eq_text a.listen_network (codes "udp")
      then listen_resolved listen w a (rs.resolve_udp a.listen_addr)
      else if eq_text a.listen_network (codes "ws") || eq_text a.listen_network (codes "tcp")
      then listen_resolved listen_stream w a (rs.resolve_tcp a.listen_addr)
      else (w, inl unsupported_protocol)

  one_more :
      (World → List Listener → World × (GoError ⊎ List Listener))
      → List Listener
      → World × (GoError ⊎ Listener)
      → World × (GoError ⊎ List Listener)
  one_more go listeners (w, inl e) = (w, inl e)
  one_more go listeners (w, inr l) = go w (listeners ++ l ∷ [])

  -- The loop over the addresses; an error drops the listeners that there are.
  unfoldable pub listen_all :
      List ListenAddr → World → List Listener → World × (GoError ⊎ List Listener)
  unfolding one_more
  listen_all [] w listeners = (w, inr listeners)
  listen_all (a ∷ addrs) w listeners =
      one_more (λ w ls. listen_all addrs w ls) listeners (create_server_listener w a)

  on_interface : World × (GoError ⊎ Text) → World × (GoError ⊎ List Listener)
  unfolding one_more
  on_interface (w, inl e) = (w, inl e)
  on_interface (w, inr addr) =
      one_more (λ w ls. (w, inr ls)) []
        (create_server_listener w (record { listen_network = codes "udp"; listen_addr = addr }))

  unfoldable pub create_server_listeners :
      (Ip → Text) → ℕ → World → List ListenAddr → World × (GoError ⊎ List Listener)
  unfolding on_interface listen_all
  create_server_listeners print random w [] =
      on_interface (get_interface_addr print random w [] (codes "udp") [])
  create_server_listeners print random w (a ∷ addrs) = listen_all (a ∷ addrs) w []

  -- `Close` of a listener.
  unfoldable pub close_listener : World → Listener → World
  close_listener w l =
      if eq_text l.served.listen_network (codes "udp")
      then close w l.socket
      else close_stream w l.socket
