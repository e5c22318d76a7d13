-- ===== src/Ports/Probe.antt =====
-- media.go's `createListeners2`, which nothing calls: it probes the ports of the range, and opens its sockets
-- only then.
use sipgox.Prelude.{
  ℕ, zero, suc, ◌+◌, ◌-◌, ◌%◌, ◌≤◌, ◌≡◌, refl, ap, arith, ◌∙◌, ◌&&◌, Option, none, some, ◌⊎◌, inl,
  inr, ltb, if◌then◌else◌, Bool, true, false, Bool-cases,
}
use sipgox.Prelude.Int.{pos, increment}
use sipgox.Outcome.{GoError, no_available_ports}
use sipgox.MediaSession.{UdpAddr, Conn, unset, null_conn, conn, MediaSession}
use sipgox.Ports.{Sockets, PortRange, is_zero, Attempt, close_field, close_session}
use sipgox.Ports.Pair.{IsLawful}

module _ (n : Sockets) where
  open n use {World, listen, close}

  -- A socket is closed as soon as it is open.
  probed_rtcp : World × (GoError ⊎ Conn) → World × Bool
  probed_rtcp (w, inl e) = (w, false)
  probed_rtcp (w, inr c) = (close w c, true)

  probed_rtp : UdpAddr → World × (GoError ⊎ Conn) → World × Bool
  unfolding probed_rtcp
  probed_rtp next (w, inl e) = (w, false)
  probed_rtp next (w, inr c) = probed_rtcp (listen (close w c) next)

  -- Whether a port and the one above it are free.
  unfoldable pub probe : World → UdpAddr → ℕ → World × Bool
  unfolding probed_rtp
  probe w laddr port =
      probed_rtp (record laddr { port = pos (port + 1) })
        (listen w (record laddr { port = pos port }))

  found_or_next : Bool → World × Option ℕ → World × Option ℕ → World × Option ℕ
  found_or_next true found next = found
  found_or_next false found next = next

  -- The loop over the range. `rounds` of at least `limit - port` are enough.
  unfoldable pub probe_ports : ℕ → World → UdpAddr → ℕ → ℕ → World × Option ℕ
  unfolding found_or_next
  probe_ports zero w laddr port limit = (w, none)
  probe_ports (suc rounds) w laddr port limit =
      let (w', free) = probe w laddr port in
      let next = probe_ports rounds w' laddr (port + 2) limit in
      if ltb port limit then found_or_next free (w', some port) next else (w, none)

  opened_rtcp : MediaSession → Conn → World × (GoError ⊎ Conn) → Attempt n
  opened_rtcp s rtp (w, inl e) =
      (w, record s { rtp_conn = conn rtp; rtcp_conn = null_conn }, some e)
  opened_rtcp s rtp (w, inr rtcp) =
      (w, record s { rtp_conn = conn rtp; rtcp_conn = conn rtcp; laddr = rtp.local_addr }, none)

  opened_rtp : MediaSession → World × (GoError ⊎ Conn) → Attempt n
  unfolding opened_rtcp
  opened_rtp s (w, inl e) = (w, record s { rtp_conn = null_conn }, some e)
  opened_rtp s (w, inr rtp) =
      opened_rtcp s rtp (listen w (record rtp.local_addr { port = increment rtp.local_addr.port }))

  -- From the first of the two last `ListenUDP` on.
  unfoldable pub open_pair : World → MediaSession → UdpAddr → Attempt n
  unfolding opened_rtp
  open_pair w s laddr = opened_rtp s (listen w laddr)

  after_probes : PortRange → MediaSession → UdpAddr → World × Option ℕ → PortRange × Attempt n
  unfolding open_pair
  after_probes r s laddr (w, none) = (r, (w, s, some no_available_ports))
  after_probes r s laddr (w, some port) = (
    record r { offset = (port + 2 - r.first) % (r.limit - r.first) },
    open_pair w s (record laddr { port = pos port }),
  )

  unfoldable pub create_listeners2 :
      World → PortRange → MediaSession → UdpAddr → PortRange × Attempt n
  unfolding after_probes is_zero
  create_listeners2 w r s laddr =
      if is_zero laddr.port && (ltb 0 r.first && ltb r.first r.limit)
      then after_probes r s laddr (probe_ports r.limit w laddr (r.first + r.offset) r.limit)
      else (r, open_pair w s laddr)

module _ (n : Sockets) (lawful : IsLawful n) where
  open n use {World, listen, close}

  probed_rtcp_clean :
      (w : World) (a : UdpAddr) (x : World × (GoError ⊎ Conn))
      → listen w a ≡ x
      → (probed_rtcp n x).0 ≡ w
  unfolding probed_rtcp
  probed_rtcp_clean w a (w', inl e) h = lawful.refused_clean w w' a e h
  probed_rtcp_clean w a (w', inr c) h = lawful.close_undoes w w' a c h

  probed_rtp_clean :
      (w : World) (a next : UdpAddr) (x : World × (GoError ⊎ Conn))
      → listen w a ≡ x
      → (probed_rtp n next x).0 ≡ w
  unfolding probed_rtp
  probed_rtp_clean w a next (w', inl e) h = lawful.refused_clean w w' a e h
  probed_rtp_clean w a next (w', inr c) h =
      probed_rtcp_clean (close w' c) next _ refl ∙ lawful.close_undoes w w' a c h

  probe_clean : (w : World) (laddr : UdpAddr) (port : ℕ) → (probe n w laddr port).0 ≡ w
  unfolding probe
  probe_clean w laddr port = probed_rtp_clean w _ _ _ refl

  found_or_next_clean :
      (free : Bool) (w : World) (found next : World × Option ℕ)
      → found.0 ≡ w
      → next.0 ≡ w
      → (found_or_next n free found next).0 ≡ w
  unfolding found_or_next
  found_or_next_clean true w found next a b = a
  found_or_next_clean false w found next a b = b

  probe_ports_clean :
      (rounds : ℕ) (w : World) (laddr : UdpAddr) (port limit : ℕ)
      → (probe_ports n rounds w laddr port limit).0 ≡ w
  unfolding probe_ports
  probe_ports_clean zero w laddr port limit = refl
  probe_ports_clean (suc rounds) w laddr port limit =
      let x = probe n w laddr port in
      let same = probe_clean w laddr port in
      elim (Bool-cases (ltb port limit)) [
        | inl below ↦ rw below (
            found_or_next_clean x.1 w (x.0, some port) _ same
              (probe_ports_clean rounds x.0 laddr (port + 2) limit ∙ same))
        | inr above ↦ rw above refl
      ]

  -- With so many rounds the loop comes to the end of the range, and more change nothing.
  pub probe_ports_enough :
      (rounds : ℕ) (w : World) (laddr : UdpAddr) (port limit : ℕ)
      → limit ≤ port + rounds
      → probe_ports n (suc rounds) w laddr port limit ≡ probe_ports n rounds w laddr port limit
  unfolding probe_ports
  probe_ports_enough zero w laddr port limit h = ground arith
  probe_ports_enough (suc rounds) w laddr port limit h =
      let x = probe n w laddr port in
      rw (probe_ports_enough rounds x.0 laddr (port + 2) limit (omega arith)) refl

  -- Closing the session leaves the sockets as in `w`.
  abbrev pub ClosesTo : World → Attempt n → Type 0
  ClosesTo w x = close_session n x.0 x.1 ≡ w

  opened_rtcp-ClosesTo :
      (s : MediaSession) (rtp : Conn) (w v : World) (a : UdpAddr) (x : World × (GoError ⊎ Conn))
      → close v rtp ≡ w
      → listen v a ≡ x
      → ClosesTo w (opened_rtcp n s rtp x)
  unfolding opened_rtcp close_session close_field
  opened_rtcp-ClosesTo s rtp w v a (v', inl e) before h =
      ap (λ u. close u rtp) (lawful.refused_clean v v' a e h) ∙ before
  opened_rtcp-ClosesTo s rtp w v a (v', inr c) before h =
      ap (λ u. close u rtp) (lawful.close_undoes v v' a c h) ∙ before

  opened_rtp-ClosesTo :
      (s : MediaSession) (w : World) (a : UdpAddr) (x : World × (GoError ⊎ Conn))
      → s.rtcp_conn ≡ unset
      → listen w a ≡ x
      → ClosesTo w (opened_rtp n s x)
  unfolding opened_rtp close_session close_field
  opened_rtp-ClosesTo s w a (w', inl e) fresh h = rw fresh (lawful.refused_clean w w' a e h)
  opened_rtp-ClosesTo s w a (w', inr c) fresh h =
      opened_rtcp-ClosesTo s c w w' _ _ (lawful.close_undoes w w' a c h) refl

  after_probes-ClosesTo :
      (r : PortRange) (s : MediaSession) (laddr : UdpAddr) (w : World) (x : World × Option ℕ)
      → s.rtp_conn ≡ unset
      → s.rtcp_conn ≡ unset
      → x.0 ≡ w
      → ClosesTo w (after_probes n r s laddr x).1
  unfolding after_probes open_pair close_session close_field
  after_probes-ClosesTo r s laddr w (w', none) rtp rtcp same = rw (rtp, rtcp) same
  after_probes-ClosesTo r s laddr w (w', some port) rtp rtcp same =
      opened_rtp-ClosesTo s w' (record laddr { port = pos port }) _ rtcp refl ∙ same

  -- On lawful sockets, however `createListeners2` ends on a session without connections, closing the session
  -- leaves the sockets as they were before.
  pub create_listeners2-ClosesTo :
      (w : World) (r : PortRange) (s : MediaSession) (laddr : UdpAddr)
      → s.rtp_conn ≡ unset
      → s.rtcp_conn ≡ unset
      → ClosesTo w (create_listeners2 n w r s laddr).1
  unfolding create_listeners2 open_pair
  create_listeners2-ClosesTo w r s laddr rtp rtcp =
      elim (Bool-cases (is_zero laddr.port && (ltb 0 r.first && ltb r.first r.limit))) [
        | inl ranged ↦ rw ranged (
            after_probes-ClosesTo r s laddr w
              (probe_ports n r.limit w laddr (r.first + r.offset) r.limit) rtp rtcp
              (probe_ports_clean r.limit w laddr (r.first + r.offset) r.limit))
        | inr given ↦ rw given (opened_rtp-ClosesTo s w laddr _ rtcp refl)
      ]
