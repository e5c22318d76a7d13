-- ===== src/Ports.antt =====
-- media.go: the sockets of a media session, from a range of ports or from the system's choice. The
-- system's sockets are a parameter; the two bounds of the range are the package's variables, and the
-- offset into it is its atomic counter.
pub mod Pair
pub mod Scan
pub mod Spread
pub mod Release
pub mod Probe
use sipgox.Prelude.{
  ◌⊎◌, inl, inr, ℕ, zero, suc, ◌+◌, ◌-◌, ◌%◌, ◌≡◌, Bool, true, false, ◌&&◌, Option, none, some,
  List, [], ◌∷◌, ◌==◌, if◌then◌else◌, ltb, not,
}
use sipgox.Prelude.Int.{ℤ, pos, negsuc, increment}
use sipgox.Outcome.{Outcome, ok, err, panic, diverges, GoError, no_available_ports}
use sipgox.MediaSession.{
  UdpAddr, Conn, ConnField, unset, null_conn, conn, MediaSession, initial_session,
}

-- `net.ListenUDP`, which gives a socket or an error, and `Close`, over the state of the system.
pub record Sockets : Type 1 where
  pub World : Type 0
  pub listen : World → UdpAddr → World × (GoError ⊎ Conn)
  pub close : World → Conn → World

-- `RTPPortStart`, `RTPPortEnd` and `rtpPortOffset`; none of them is negative.
pub record PortRange : Type 0 where
  pub first : ℕ
  pub limit : ℕ
  pub offset : ℕ  -- int32

pub is_zero : ℤ → Bool
is_zero (pos zero) = true
is_zero _ = false

-- `if err == nil { break }`.
pub stop_or_go : {A : Type 0} → Option GoError → A → A → A
stop_or_go none stop go = stop
stop_or_go (some e) stop go = go

module _ (n : Sockets) where
  open n use {World, listen, close}

  -- The state of an operation, and the error that it returns.
  abbrev pub Attempt : Type 0
  Attempt = World × MediaSession × Option GoError

  pub listened_rtcp : MediaSession → Conn → World × (GoError ⊎ Conn) → Attempt
  listened_rtcp s rtp (w, inl e) =
      (close w rtp, record s { rtp_conn = conn rtp; rtcp_conn = null_conn }, some e)
  listened_rtcp s rtp (w, inr rtcp) =
      (w, record s { rtp_conn = conn rtp; rtcp_conn = conn rtcp; laddr = rtp.local_addr }, none)

  pub listened_rtp : MediaSession → World × (GoError ⊎ Conn) → Attempt
  unfolding listened_rtcp
  listened_rtp s (w, inl e) = (w, record s { rtp_conn = null_conn }, some e)
  listened_rtp s (w, inr rtp) =
      listened_rtcp s rtp
        (listen w (record rtp.local_addr { port = increment rtp.local_addr.port }))

  unfoldable pub listen_rtp_and_rtcp : World → MediaSession → UdpAddr → Attempt
  unfolding listened_rtp
  listen_rtp_and_rtcp w s laddr = listened_rtp s (listen w laddr)

  -- The loop over the ports of the range, from `port` in steps of two: the last part is the port at
  -- which it stopped. `rounds` of at least `limit - port` are enough.
  unfoldable pub scan_ports : ℕ → World → MediaSession → ℕ → ℕ → Option GoError → Attempt × ℕ
  unfolding stop_or_go
  scan_ports zero w s port limit last = ((w, s, last), port)
  scan_ports (suc rounds) w s port limit last =
      let laddr : UdpAddr = record s.laddr { port = pos port } in
      let (w', s', e) = listen_rtp_and_rtcp w (record s { laddr = laddr }) laddr in
      let again = scan_ports rounds w' s' (port + 2) limit e in
      if ltb port limit then stop_or_go e ((w', s', none), port) again else ((w, s, last), port)

  -- `for retries := 0; retries < 10; retries += 1`.
  unfoldable pub retry_listen : ℕ → World → MediaSession → UdpAddr → Option GoError → Attempt
  unfolding stop_or_go
  retry_listen zero w s laddr last = (w, s, last)
  retry_listen (suc rounds) w s laddr last =
      let (w', s', e) = listen_rtp_and_rtcp w s laddr in
      let again = retry_listen rounds w' s' laddr e in stop_or_go e (w', s', none) again

  -- The end of the branch over the range: the offset moves on only where a port was found.
  after_scan : PortRange → Attempt × ℕ → PortRange × Attempt
  after_scan r ((w, s, some e), port) = (r, (w, s, some no_available_ports))
  after_scan r ((w, s, none), port) =
      (record r { offset = (port + 2 - r.first) % (r.limit - r.first) }, (w, s, none))

  unfoldable pub create_listeners : World → PortRange → MediaSession → PortRange × Attempt
  unfolding after_scan is_zero
  create_listeners w r s =
      if not (is_zero s.laddr.port)
      then (r, listen_rtp_and_rtcp w s s.laddr)
      else if ltb 0 r.first && ltb r.first r.limit
      then after_scan r (scan_ports r.limit w s (r.first + r.offset) r.limit none)
      else (r, retry_listen 10 w s s.laddr none)

  result : PortRange × Attempt → World × PortRange × (GoError ⊎ MediaSession)
  result (r, (w, s, some e)) = (w, r, inl e)
  result (r, (w, s, none)) = (w, r, inr s)

  -- `NewMediaSession`: no session beside an error.
  unfoldable pub new_media_session :
      World → PortRange → UdpAddr → World × PortRange × (GoError ⊎ MediaSession)
  unfolding result create_listeners
  new_media_session w r laddr = result (create_listeners w r (initial_session laddr))

  close_field : World → ConnField → World
  close_field w unset = w
  close_field w null_conn = w
  close_field w (conn c) = close w c

  -- Closes what is open; a nil `*net.UDPConn` has nothing to close.
  unfoldable pub close_session : World → MediaSession → World
  unfolding close_field
  close_session w s = close_field (close_field w s.rtcp_conn) s.rtp_conn
