-- ===== src/Listeners/Back.antt =====
-- Closing the listeners that were opened, whatever the phone listens on.
use sipgox.Prelude.{ℕ, ◌≡◌, refl, ap, ◌∙◌, some, none, List, [], ◌∷◌, ◌⊎◌, inl, inr}
use sipgox.Text.{Text, codes, itoa}
use sipgox.Ip.{Ip, Ip6Notation}
use sipgox.Outcome.{GoError}
use sipgox.Ports.{Sockets}
use sipgox.Ports.Pair.{IsLawful}
use sipgox.Listeners.{
  ListenAddr, Listener, Streams, Resolver, HostPort, create_server_listener, one_more, on_interface,
  interface_addr, get_interface_addr, get_interface_host_port, create_server_listeners,
}
use sipgox.Listeners.Free.{KeepsStreams, get_interface_host_port_clean}
use sipgox.Listeners.Opened.{
  AllOpened, all_open, some_left, OneOpened, close_back, create_server_listener-OneOpened,
  create_server_listeners-AllOpened,
}

inr-injective : {A B : Type 0} {r : A ⊎ B} {a b : B} → r ≡ inr a → r ≡ inr b → a ≡ b
inr-injective e f = cc

module _ (n : Sockets) (lawful : IsLawful n) (t : Streams n) (keeps : KeepsStreams t)
    (v6 : Ip6Notation) (rs : Resolver) where
  open n use {World}

  -- Listeners that are returned are all that is open.
  abbrev pub OpenedBack : World → World × (GoError ⊎ List Listener) → Type 0
  OpenedBack w (w', inl e) = Unit
  OpenedBack w (w', inr ls) = close_back n lawful t keeps v6 rs w' ls ≡ w

  AllOpened-OpenedBack :
      (w : World) (addrs : List ListenAddr) (x : World × (GoError ⊎ List Listener))
      → AllOpened n lawful t keeps v6 rs w w [] addrs x
      → OpenedBack w x
  AllOpened-OpenedBack w addrs (w', inl e) h = tt
  AllOpened-OpenedBack w addrs (w', inr ks) (all_open ls r chain names closed) =
      ap (λ l. close_back n lawful t keeps v6 rs w' l) (inr-injective refl r) ∙ closed
  AllOpened-OpenedBack w addrs (w', inr ks)
        (some_left e before after a ls r split chain fails names closed) =
      cc

  first_opened :
      (w v : World) (a : ListenAddr) (x : World × (GoError ⊎ Listener))
      → v ≡ w
      → OneOpened n lawful t keeps v6 rs v a x
      → OpenedBack w (one_more n t v6 rs (λ w ls. (w, inr ls)) [] x)
  unfolding one_more
  first_opened w v a (w', inl e) same h = tt
  first_opened w v a (w', inr l) same (named, closed) = closed ∙ same

  interface_opened :
      (w : World) (x : World × HostPort n t v6 rs)
      → x.0 ≡ w
      → OpenedBack w (on_interface n t v6 rs (interface_addr n t v6 rs x))
  unfolding on_interface interface_addr
  interface_opened w (v, (host, port, some e)) same = tt
  interface_opened w (v, (host, port, none)) same =
      let a : ListenAddr = record {
        listen_network = codes "udp";
        listen_addr = rs.join_host_port host (itoa port);
      } in
      first_opened w v a (create_server_listener n t v6 rs v a) same
        (create_server_listener-OneOpened n lawful t keeps v6 rs v a)

  pub create_server_listeners-OpenedBack :
      (print : Ip → Text) (random : ℕ) (w : World) (addrs : List ListenAddr)
      → OpenedBack w (create_server_listeners n t v6 rs print random w addrs)
  unfolding create_server_listeners get_interface_addr
  create_server_listeners-OpenedBack print random w [] =
      interface_opened w (get_interface_host_port n t v6 rs print random w [] (codes "udp") [])
        (get_interface_host_port_clean n lawful t keeps v6 rs print random w [] (codes "udp") [])
  create_server_listeners-OpenedBack print random w (a ∷ addrs) =
      AllOpened-OpenedBack w (a ∷ addrs) _
        (create_server_listeners-AllOpened n lawful t keeps v6 rs print random w a addrs)
