-- ===== src/Ports/Release.antt =====
-- `Close` after `NewMediaSession`.
use sipgox.Prelude.{
  ℕ, zero, suc, ◌+◌, ◌≡◌, ◌≢◌, ◌⊎◌, inl, inr, refl, ap, ◌∙◌, not, ◌&&◌, Option, none, some, arith,
  ltb, Bool-cases,
}
use sipgox.Outcome.{GoError}
use sipgox.MediaSession.{UdpAddr, Conn, MediaSession, initial_session}
use sipgox.Ports.{
  Sockets, PortRange, Attempt, stop_or_go, is_zero, listened_rtcp, listened_rtp,
  listen_rtp_and_rtcp, scan_ports, retry_listen, after_scan, create_listeners, result,
  new_media_session, close_field, close_session,
}
use sipgox.MediaSession.Negotiation.{HasSameSockets}
use sipgox.Ports.Pair.{IsLawful, listen_clean}
use sipgox.Ports.Scan.{at_port, scan_round}

-- Sessions with the same connections are closed alike.
pub same_sockets :
    (n : Sockets) (w : n.World) (s t : MediaSession)
    → HasSameSockets s t
    → close_session n w s ≡ close_session n w t
unfolding close_session
same_sockets n w s t (a, b) = rw (a, b) refl

module _ (n : Sockets) (lawful : IsLawful n) where
  open n use {World, listen, close}

  -- Where no error is returned, closing the session leaves the sockets as in `w`.
  abbrev ClosesTo : World → Attempt n → Type 0
  ClosesTo w (w', s, e) = e ≡ none → close_session n w' s ≡ w

  listened_rtcp-ClosesTo :
      (s : MediaSession) (rtp : Conn) (w : World) (a : UdpAddr) (r : World × (GoError ⊎ Conn))
      → listen w a ≡ r
      → ClosesTo (close w rtp) (listened_rtcp n s rtp r)
  unfolding listened_rtcp close_session close_field
  listened_rtcp-ClosesTo s rtp w a (w', inl e) h good = cc
  listened_rtcp-ClosesTo s rtp w a (w', inr c) h good =
      ap (λ x. close x rtp) (lawful.close_undoes w w' a c h)

  listened_rtp-ClosesTo :
      (s : MediaSession) (w : World) (a : UdpAddr) (r : World × (GoError ⊎ Conn))
      → listen w a ≡ r
      → ClosesTo w (listened_rtp n s r)
  unfolding listened_rtp
  listened_rtp-ClosesTo s w a (w', inl e) h good = cc
  listened_rtp-ClosesTo s w a (w', inr c) h good =
      listened_rtcp-ClosesTo s c w' _ _ refl good ∙ lawful.close_undoes w w' a c h

  listen-ClosesTo :
      (w : World) (s : MediaSession) (a : UdpAddr) → ClosesTo w (listen_rtp_and_rtcp n w s a)
  unfolding listen_rtp_and_rtcp
  listen-ClosesTo w s a = listened_rtp-ClosesTo s w a (listen w a) refl

  -- Where an error is returned, the sockets are as in `w` already.
  abbrev Settles : World → Attempt n → Type 0
  Settles w (w', s, e) = (e ≡ none → close_session n w' s ≡ w) × (e ≢ none → w' ≡ w)

  listen-Settles :
      (w : World) (s : MediaSession) (a : UdpAddr) → Settles w (listen_rtp_and_rtcp n w s a)
  listen-Settles w s a = (listen-ClosesTo w s a, λ bad. (listen_clean n lawful w s a bad).0)

  Settles-of : (w w' : World) (x : Attempt n) → w' ≡ w → Settles w' x → Settles w x
  Settles-of w w' x back (closed, clean) = (λ good. closed good ∙ back, λ bad. clean bad ∙ back)

  Settles-failed :
      (w : World) (s : MediaSession) (e : Option GoError) → e ≢ none → Settles w (w, s, e)
  Settles-failed w s e bad = (λ good. absurd (bad good), λ _. refl)

  -- An attempt, and what is done where it fails.
  stop_or_go-Settles :
      (w : World) (x again : Attempt n)
      → Settles w x
      → (x.2 ≢ none → Settles w again)
      → Settles w (stop_or_go x.2 (x.0, x.1, none) again)
  unfolding stop_or_go
  stop_or_go-Settles w (w', s, none) again here later = here
  stop_or_go-Settles w (w', s, some e) again here later = later (λ h. cc)

  retry_listen-Settles :
      (rounds : ℕ) (w : World) (s : MediaSession) (a : UdpAddr) (last : Option GoError)
      → Settles w (w, s, last)
      → Settles w (retry_listen n rounds w s a last)
  unfolding retry_listen
  retry_listen-Settles zero w s a last h = h
  retry_listen-Settles (suc rounds) w s a last h =
      let x = listen_rtp_and_rtcp n w s a in
      stop_or_go-Settles w x (retry_listen n rounds x.0 x.1 a x.2) (listen-Settles w s a) (λ bad.
        Settles-of w x.0 _ ((listen-Settles w s a).1 bad)
          (retry_listen-Settles rounds x.0 x.1 a x.2 (Settles-failed x.0 x.1 x.2 bad)))

  stop_or_go_at :
      (w : World) (x : Attempt n) (port : ℕ) (again : Attempt n × ℕ)
      → (stop_or_go x.2 ((x.0, x.1, none), port) again).0 ≡ stop_or_go x.2 (x.0, x.1, none) again.0
  unfolding stop_or_go
  stop_or_go_at w (w', s, none) port again = refl
  stop_or_go_at w (w', s, some e) port again = refl

  scan_ports-Settles :
      (rounds : ℕ) (w : World) (s : MediaSession) (port limit : ℕ) (last : Option GoError)
      → Settles w (w, s, last)
      → Settles w (scan_ports n rounds w s port limit last).0
  scan_ports-Settles zero w s port limit last h = unfold scan_ports in h
  scan_ports-Settles (suc rounds) w s port limit last h = elim (Bool-cases (ltb port limit)) [
    | inl inside ↦
        let laddr = at_port s.laddr.ip port in
        let moved : MediaSession = record s { laddr = laddr } in
        let x = listen_rtp_and_rtcp n w moved laddr in
        rw
          (
            scan_round n rounds w s port limit last (ground arith),
            stop_or_go_at w x port (scan_ports n rounds x.0 x.1 (port + 2) limit x.2),
          )
          (stop_or_go-Settles w x _ (listen-Settles w moved laddr) (λ bad.
            Settles-of w x.0 _ ((listen-Settles w moved laddr).1 bad) (
              scan_ports-Settles rounds x.0 x.1 (port + 2) limit x.2
                (Settles-failed x.0 x.1 x.2 bad))))
    | inr outside ↦ unfold scan_ports in rw outside h
  ]

  after_scan-Settles :
      (w : World) (r : PortRange) (x : Attempt n × ℕ)
      → Settles w x.0
      → Settles w (after_scan n r x).1
  unfolding after_scan
  after_scan-Settles w r ((w', s, none), port) h = h
  after_scan-Settles w r ((w', s, some e), port) h = (λ good. cc, λ bad. h.1 (λ good. cc))

  create_listeners-Settles :
      (w : World) (r : PortRange) (s : MediaSession)
      → Settles w (w, s, none)
      → Settles w (create_listeners n w r s).1
  unfolding create_listeners
  create_listeners-Settles w r s h = elim (Bool-cases (not (is_zero s.laddr.port))) [
    | inl given ↦ rw given (listen-Settles w s s.laddr)
    | inr open_port ↦ elim (Bool-cases (ltb 0 r.first && ltb r.first r.limit)) [
      | inl ranged ↦
          rw (open_port, ranged)
            (after_scan-Settles w r _
              (scan_ports-Settles r.limit w s (r.first + r.offset) r.limit none h))
      | inr unranged ↦ rw (open_port, unranged) (retry_listen-Settles 10 w s s.laddr none h)
    ]
  ]

  -- What `NewMediaSession` returns, in terms of the sockets that are left open.
  abbrev pub Released : World → World × PortRange × (GoError ⊎ MediaSession) → Type 0
  Released w (w', r, inl e) = w' ≡ w
  Released w (w', r, inr s) = close_session n w' s ≡ w

  result-Released :
      (w : World) (x : PortRange × Attempt n) → Settles w x.1 → Released w (result n x)
  unfolding result
  result-Released w (r, (w', s, none)) h = h.0 refl
  result-Released w (r, (w', s, some e)) h = h.1 (λ good. cc)

  -- With a port that is given, a range or neither: where `NewMediaSession` fails, it leaves no socket
  -- open, and where it returns a session, `Close` leaves the sockets as they were before, for lawful
  -- sockets.
  pub close_session-new_media_session :
      (w : World) (r : PortRange) (laddr : UdpAddr) → Released w (new_media_session n w r laddr)
  unfolding new_media_session initial_session close_session close_field
  close_session-new_media_session w r laddr =
      result-Released w (create_listeners n w r (initial_session laddr)) (
        create_listeners-Settles w r (initial_session laddr)
          (λ good. refl, λ bad. absurd (bad refl)))
