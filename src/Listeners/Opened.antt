-- ===== src/Listeners/Opened.antt =====
-- The listeners that are opened, and those that an error leaves open.
use sipgox.Prelude.{
  ℕ, ◌≡◌, refl, ◌∙◌, ap, sym, true, false, Bool-cases, List, [], ◌∷◌, ◌++◌, map, ◌⊎◌, inl, inr,
  ◌||◌,
}
use mathlib.Core.Path.{subst}
use mathlib.Core.List.{append_assoc, append-nil}
use sipgox.Text.{Text, codes, eq_text}
use sipgox.Ip.{Ip, Ip6Notation}
use sipgox.Outcome.{GoError}
use sipgox.MediaSession.{UdpAddr, Conn}
use sipgox.Ports.{Sockets}
use sipgox.Ports.Pair.{IsLawful}
use sipgox.Listeners.{
  ListenAddr, Listener, Streams, Resolver, listening, listen_resolved, create_server_listener,
  one_more, listen_all, close_listener, create_server_listeners,
}
use sipgox.Listeners.Free.{KeepsStreams}

module _ (n : Sockets) (lawful : IsLawful n) (t : Streams n) (keeps : KeepsStreams t)
    (v6 : Ip6Notation) (rs : Resolver) where
  open n use {World, listen, close}
  open t use {listen_stream, close_stream}

  -- Closes the last listener first.
  abbrev pub close_back : World → List Listener → World
  close_back w [] = w
  close_back w (l ∷ ls) = close_listener n t v6 rs (close_back w ls) l

  -- One listener: an error leaves the sockets as they were; closing the listener does.
  abbrev pub OneOpened : World → ListenAddr → World × (GoError ⊎ Listener) → Type 0
  OneOpened w a (w', inl e) = w' ≡ w
  OneOpened w a (w', inr l) =
      (l.served.listen_network ≡ a.listen_network) × (close_listener n t v6 rs w' l ≡ w)

  listening_udp :
      (w : World) (a : ListenAddr) (addr : UdpAddr) (x : World × (GoError ⊎ Conn))
      → eq_text a.listen_network (codes "udp") ≡ true
      → listen w addr ≡ x
      → OneOpened w a (listening n t v6 rs a x)
  unfolding listening close_listener
  listening_udp w a addr (w', inl e) udp h = lawful.refused_clean w w' addr e h
  listening_udp w a addr (w', inr c) udp h = (refl, rw udp (lawful.close_undoes w w' addr c h))

  listening_stream :
      (w : World) (a : ListenAddr) (addr : UdpAddr) (x : World × (GoError ⊎ Conn))
      → eq_text a.listen_network (codes "udp") ≡ false
      → listen_stream w addr ≡ x
      → OneOpened w a (listening n t v6 rs a x)
  unfolding listening close_listener
  listening_stream w a addr (w', inl e) stream h = keeps.stream_refused_clean w w' addr e h
  listening_stream w a addr (w', inr c) stream h =
      (refl, rw stream (keeps.close_stream_undoes w w' addr c h))

  resolved_udp :
      (w : World) (a : ListenAddr) (r : GoError ⊎ UdpAddr)
      → eq_text a.listen_network (codes "udp") ≡ true
      → OneOpened w a (listen_resolved n t v6 rs listen w a r)
  unfolding listen_resolved
  resolved_udp w a (inl e) udp = refl
  resolved_udp w a (inr addr) udp = listening_udp w a addr (listen w addr) udp refl

  resolved_stream :
      (w : World) (a : ListenAddr) (r : GoError ⊎ UdpAddr)
      → eq_text a.listen_network (codes "udp") ≡ false
      → OneOpened w a (listen_resolved n t v6 rs listen_stream w a r)
  unfolding listen_resolved
  resolved_stream w a (inl e) stream = refl
  resolved_stream w a (inr addr) stream =
      listening_stream w a addr (listen_stream w addr) stream refl

  pub create_server_listener-OneOpened :
      (w : World) (a : ListenAddr) → OneOpened w a (create_server_listener n t v6 rs w a)
  unfolding create_server_listener
  create_server_listener-OneOpened w a =
      elim (Bool-cases (eq_text a.listen_network (codes "udp"))) [
        | inl udp ↦ rw udp (resolved_udp w a (rs.resolve_udp a.listen_addr) udp)
        | inr other ↦
            rw other
              (elim (Bool-cases
                (eq_text a.listen_network (codes "ws") || eq_text a.listen_network (codes "tcp"))) [
                  | inl stream ↦
                      rw stream (resolved_stream w a (rs.resolve_tcp a.listen_addr) other)
                  | inr unknown ↦ rw unknown refl
                ])
      ]

  close_back-append :
      (w : World) (xs ys : List Listener)
      → close_back w (xs ++ ys) ≡ close_back (close_back w ys) xs
  close_back-append w [] ys = refl
  close_back-append w (x ∷ xs) ys =
      ap (λ v. close_listener n t v6 rs v x) (close_back-append w xs ys)

  abbrev pub networks : List Listener → List Text
  networks ls = map (λ l. l.served.listen_network) ls

  -- Addresses that are listened on one after the other, without an error.
  pub data OpenedInOrder : World → List ListenAddr → List Listener → World → Type 0 where
    none_opened : {w : World} → OpenedInOrder w [] [] w
    next_opened :
        {w v u : World} {a : ListenAddr} {addrs : List ListenAddr} {l : Listener}
        {ls : List Listener}
        → create_server_listener n t v6 rs w a ≡ (v, inr l)
        → OpenedInOrder v addrs ls u
        → OpenedInOrder w (a ∷ addrs) (l ∷ ls) u

  -- From `v` on, with `done` opened before: all addresses are listened on, in order; or those in front of one that
  -- cannot be, whose error is returned, and the sockets are left as that one found them. Closing what is open,
  -- the last first, leaves the sockets as in `w`.
  pub data AllOpened (w v : World) (done : List Listener) (addrs : List ListenAddr)
      (x : World × (GoError ⊎ List Listener)) : Type 0 where
    all_open :
        (ls : List Listener)
        → x.1 ≡ inr (done ++ ls)
        → OpenedInOrder v addrs ls x.0
        → networks ls ≡ map (λ a. a.listen_network) addrs
        → close_back x.0 (done ++ ls) ≡ w
        → AllOpened w v done addrs x
    some_left :
        (e : GoError) (before after : List ListenAddr) (a : ListenAddr) (ls : List Listener)
        → x.1 ≡ inl e
        → addrs ≡ before ++ a ∷ after
        → OpenedInOrder v before ls x.0
        → (create_server_listener n t v6 rs x.0 a).1 ≡ inl e
        → networks ls ≡ map (λ a. a.listen_network) before
        → close_back x.0 (done ++ ls) ≡ w
        → AllOpened w v done addrs x

  -- The step of the induction.
  one_more-AllOpened :
      (w v v' : World) (done : List Listener) (a : ListenAddr) (addrs : List ListenAddr)
      (l : Listener) (x : World × (GoError ⊎ List Listener))
      → create_server_listener n t v6 rs v a ≡ (v', inr l)
      → l.served.listen_network ≡ a.listen_network
      → AllOpened w v' (done ++ l ∷ []) addrs x
      → AllOpened w v done (a ∷ addrs) x
  one_more-AllOpened w v v' done a addrs l x opened same (all_open ls r chain names closed) =
      let moved : (done ++ l ∷ []) ++ ls ≡ done ++ l ∷ ls = append_assoc done (l ∷ []) ls in
      all_open (l ∷ ls) (r ∙ ap inr moved) (next_opened opened chain) (rw (same, names) refl)
        (ap (λ k. close_back x.0 k) (sym moved) ∙ closed)
  one_more-AllOpened w v v' done a addrs l x opened same
        (some_left e before after b ls r split chain fails names closed) =
      let moved : (done ++ l ∷ []) ++ ls ≡ done ++ l ∷ ls = append_assoc done (l ∷ []) ls in
      some_left e (a ∷ before) after b (l ∷ ls) r (ap (λ k. a ∷ k) split) (next_opened opened chain)
        fails (rw (same, names) refl) (ap (λ k. close_back x.0 k) (sym moved) ∙ closed)

  listened-AllOpened :
      (w v : World) (done : List Listener) (a : ListenAddr) (addrs : List ListenAddr)
      (x : World × (GoError ⊎ Listener))
      → ((v' : World) (ls : List Listener)
          → close_back v' ls ≡ w
          → AllOpened w v' ls addrs (listen_all n t v6 rs addrs v' ls))
      → close_back v done ≡ w
      → create_server_listener n t v6 rs v a ≡ x
      → OneOpened v a x
      → AllOpened w v done
          (a ∷ addrs)
          (one_more n t v6 rs (λ w ls. listen_all n t v6 rs addrs w ls) done x)
  unfolding one_more
  listened-AllOpened w v done a addrs (v', inl e) go before opens same =
      some_left e [] addrs a [] refl refl
        (subst (λ u. OpenedInOrder v [] [] u) (sym same) none_opened)
        (ap (λ u. (create_server_listener n t v6 rs u a).1) same ∙ ap (λ y. y.1) opens) refl
        (ap (λ k. close_back v' k) (append-nil done) ∙ ap (λ u. close_back u done) same ∙ before)
  listened-AllOpened w v done a addrs (v', inr l) go before opens (same, closed) =
      one_more-AllOpened w v v' done a addrs l _ opens same (
        go v' (done ++ l ∷ [])
          (close_back-append v' done (l ∷ []) ∙ ap (λ u. close_back u done) closed ∙ before))

  listen_all-AllOpened :
      (w : World) (addrs : List ListenAddr) (v : World) (done : List Listener)
      → close_back v done ≡ w
      → AllOpened w v done addrs (listen_all n t v6 rs addrs v done)
  unfolding listen_all
  listen_all-AllOpened w [] v done before =
      all_open [] (ap inr (sym (append-nil done))) none_opened refl
        (ap (λ k. close_back v k) (append-nil done) ∙ before)
  listen_all-AllOpened w (a ∷ addrs) v done before =
      listened-AllOpened w v done a addrs (create_server_listener n t v6 rs v a)
        (λ v' ls. listen_all-AllOpened w addrs v' ls) before refl
        (create_server_listener-OneOpened v a)

  -- With lawful sockets and addresses to listen on: `createServerListeners` opens the addresses in order and
  -- returns one listener for each, of its network, and closing them, the last first, leaves the sockets as
  -- before; or one address cannot be listened on, and it returns that error while the listeners of all
  -- addresses in front of that one are open: the sockets are as they were when the last of these was opened,
  -- and closing these, the last first, leaves the sockets as before.
  pub create_server_listeners-AllOpened :
      (print : Ip → Text) (random : ℕ) (w : World) (a : ListenAddr) (addrs : List ListenAddr)
      → AllOpened w w [] (a ∷ addrs) (create_server_listeners n t v6 rs print random w (a ∷ addrs))
  unfolding create_server_listeners
  create_server_listeners-AllOpened print random w a addrs =
      listen_all-AllOpened w (a ∷ addrs) w [] refl
