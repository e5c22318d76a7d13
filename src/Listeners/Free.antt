-- ===== src/Listeners/Free.antt =====
-- The sockets behind the search for an interface and a port.
use sipgox.Prelude.{
  ℕ, ◌≡◌, refl, Bool, true, false, none, some, List, [], ◌∷◌, ◌⊎◌, inl, inr, if◌then◌else◌,
}
use sipgox.Prelude.Int.{ℤ, pos}
use sipgox.Text.{Text, codes, eq_text}
use sipgox.Ip.{Ip, Ip6Notation, parse_ip}
use sipgox.Outcome.{GoError}
use sipgox.MediaSession.{UdpAddr, Conn}
use sipgox.Ports.{Sockets}
use sipgox.Ports.Pair.{IsLawful}
use sipgox.Listeners.{
  ListenAddr, Streams, Resolver, freed, find_free_port, found_port, at_interface,
  find_free_interface_host_port, resolve_host_ip_with_target, with_port, from_listen_addr,
  from_interface, get_interface_host_port, is_stream, is_nil_ip, is_zero_port, HostPort,
}

-- What is relied on of the sockets for streams: a refused listening changes nothing, and closing what was just
-- opened undoes it.
pub record KeepsStreams {n : Sockets} (t : Streams n) : Type 0 where
  pub stream_refused_clean :
      (w w' : n.World) (a : UdpAddr) (e : GoError) → t.listen_stream w a ≡ (w', inl e) → w' ≡ w
  pub close_stream_undoes :
      (w w' : n.World) (a : UdpAddr) (c : Conn)
      → t.listen_stream w a ≡ (w', inr c)
      → t.close_stream w' c ≡ w

module _ (n : Sockets) (lawful : IsLawful n) (t : Streams n) (keeps : KeepsStreams t)
    (v6 : Ip6Notation) (rs : Resolver) where
  open n use {World, listen, close}
  open t use {listen_stream, close_stream}

  if-same :
      {A : Type 0} (c : Bool) (w : World) (x y : World × A)
      → x.0 ≡ w
      → y.0 ≡ w
      → (if c then x else y).0 ≡ w
  if-same true w x y a b = a
  if-same false w x y a b = b

  freed_udp :
      (w : World) (a : UdpAddr) (x : World × (GoError ⊎ Conn))
      → listen w a ≡ x
      → (freed n t v6 rs close x).0 ≡ w
  unfolding freed
  freed_udp w a (w', inl e) h = lawful.refused_clean w w' a e h
  freed_udp w a (w', inr c) h = lawful.close_undoes w w' a c h

  freed_stream :
      (w : World) (a : UdpAddr) (x : World × (GoError ⊎ Conn))
      → listen_stream w a ≡ x
      → (freed n t v6 rs close_stream x).0 ≡ w
  unfolding freed
  freed_stream w a (w', inl e) h = keeps.stream_refused_clean w w' a e h
  freed_stream w a (w', inr c) h = keeps.close_stream_undoes w w' a c h

  find_free_port_clean :
      (random : ℕ) (w : World) (network : Text) (ip : Ip)
      → (find_free_port n t v6 rs random w network ip).0 ≡ w
  unfolding find_free_port
  find_free_port_clean random w network ip =
      let addr : UdpAddr = record { ip = ip; port = pos 0 } in
      if-same (eq_text network (codes "udp")) w _ _ (freed_udp w addr (listen w addr) refl)
        (if-same (is_stream network) w _ _ (freed_stream w addr (listen_stream w addr) refl) refl)

  found_port_world :
      (w : World) (ip : Ip) (x : World × (GoError ⊎ ℤ))
      → x.0 ≡ w
      → (found_port n t v6 rs ip x).0 ≡ w
  unfolding found_port
  found_port_world w ip (w', inl e) h = h
  found_port_world w ip (w', inr port) h = if-same (is_zero_port port) w _ _ h h

  at_interface_clean :
      (random : ℕ) (w : World) (network : Text) (ip : GoError ⊎ Ip)
      → (at_interface n t v6 rs random w network ip).0 ≡ w
  unfolding at_interface
  at_interface_clean random w network (inl e) = refl
  at_interface_clean random w network (inr ip) =
      found_port_world w ip (find_free_port n t v6 rs random w network ip)
        (find_free_port_clean random w network ip)

  with_port_world :
      (w : World) (host : Text) (x : World × (GoError ⊎ ℤ))
      → x.0 ≡ w
      → (with_port n t v6 rs host x).0 ≡ w
  unfolding with_port
  with_port_world w host (w', inl e) h = h
  with_port_world w host (w', inr port) h = h

  from_listen_addr_clean :
      (random : ℕ) (w : World) (network : Text) (x : HostPort n t v6 rs)
      → (from_listen_addr n t v6 rs random w network x).0 ≡ w
  unfolding from_listen_addr
  from_listen_addr_clean random w network (host, port, some e) = refl
  from_listen_addr_clean random w network (host, port, none) =
      if-same (is_zero_port port) w _ _
        (if-same (is_nil_ip (parse_ip v6 host)) w _ _ refl (
          with_port_world w host (find_free_port n t v6 rs random w network (parse_ip v6 host))
            (find_free_port_clean random w network (parse_ip v6 host))))
        refl

  from_interface_world :
      (w : World) (print : Ip → Text) (x : World × (GoError ⊎ (Ip × ℤ)))
      → x.0 ≡ w
      → (from_interface n t v6 rs print x).0 ≡ w
  unfolding from_interface
  from_interface_world w print (w', inl e) h = h
  from_interface_world w print (w', inr (ip, port)) h = h

  -- With lawful sockets, however the search for an interface and a port ends, the sockets are as before: what
  -- it opened to find a free port it has closed.
  pub get_interface_host_port_clean :
      (print : Ip → Text) (random : ℕ) (w : World) (addrs : List ListenAddr) (network target : Text)
      → (get_interface_host_port n t v6 rs print random w addrs network target).0 ≡ w
  unfolding get_interface_host_port find_free_interface_host_port
  get_interface_host_port_clean print random w [] network target =
      let ip = resolve_host_ip_with_target n t v6 rs network target in
      from_interface_world w print (at_interface n t v6 rs random w network ip)
        (at_interface_clean random w network ip)
  get_interface_host_port_clean print random w (a ∷ addrs) network target =
      if-same (eq_text a.listen_network network) w _ _
        (from_listen_addr_clean random w network (rs.parse_addr a.listen_addr))
        (get_interface_host_port_clean print random w addrs network target)
