-- ===== src/Ports/Pair.antt =====
-- One attempt to open a pair of sockets.
use sipgox.Prelude.{ℕ, zero, suc, ◌+◌, ◌<◌, ◌≡◌, ◌≢◌, ◌⊎◌, inl, inr, refl, ap, ◌∙◌, none, arith}
use sipgox.Prelude.Int.{pos, increment}
use sipgox.Outcome.{GoError}
use sipgox.MediaSession.{UdpAddr, Conn, conn, MediaSession}
use sipgox.Ports.{Sockets, listened_rtcp, listened_rtp, listen_rtp_and_rtcp}

-- What the session relies on: a refused `ListenUDP` changes nothing, closing a socket that was just
-- opened undoes it, and a socket asked for at a port has that port.
pub record IsLawful (n : Sockets) : Type 0 where
  pub refused_clean :
      (w w' : n.World) (a : UdpAddr) (e : GoError) → n.listen w a ≡ (w', inl e) → w' ≡ w
  pub close_undoes :
      (w w' : n.World) (a : UdpAddr) (c : Conn) → n.listen w a ≡ (w', inr c) → n.close w' c ≡ w
  pub port_kept :
      (w w' : n.World) (a : UdpAddr) (c : Conn) (p : ℕ)
      → a.port ≡ pos (suc p)
      → n.listen w a ≡ (w', inr c)
      → c.local_addr.port ≡ a.port

-- Both sockets of a session are open, at `port` and at the port above it.
abbrev pub IsPair : MediaSession → ℕ → Type 0
IsPair s port =
    (rtp : Conn) × (rtcp : Conn) × (s.rtp_conn ≡ conn rtp)
    × (s.rtcp_conn ≡ conn rtcp)
    × (s.laddr ≡ rtp.local_addr)
    × (rtp.local_addr.port ≡ pos port)
    × (rtcp.local_addr.port ≡ pos (port + 1))

module _ (n : Sockets) (lawful : IsLawful n) where
  open n use {World, listen, close}

  listened_rtcp_clean :
      (s : MediaSession) (rtp : Conn) (w : World) (a : UdpAddr) (r : World × (GoError ⊎ Conn))
      → listen w a ≡ r
      → (listened_rtcp n s rtp r).2 ≢ none
      → ((listened_rtcp n s rtp r).0 ≡ close w rtp) × ((listened_rtcp n s rtp r).1.laddr ≡ s.laddr)
  unfolding listened_rtcp
  listened_rtcp_clean s rtp w a (w', inl e) h bad =
      (ap (λ x. close x rtp) (lawful.refused_clean w w' a e h), refl)
  listened_rtcp_clean s rtp w a (w', inr c) h bad = absurd (bad refl)

  listened_rtp_clean :
      (s : MediaSession) (w : World) (a : UdpAddr) (r : World × (GoError ⊎ Conn))
      → listen w a ≡ r
      → (listened_rtp n s r).2 ≢ none
      → ((listened_rtp n s r).0 ≡ w) × ((listened_rtp n s r).1.laddr ≡ s.laddr)
  unfolding listened_rtp
  listened_rtp_clean s w a (w', inl e) h bad = (lawful.refused_clean w w' a e h, refl)
  listened_rtp_clean s w a (w', inr c) h bad =
      let (back, same) = listened_rtcp_clean s c w' _ _ refl bad in
      (back ∙ lawful.close_undoes w w' a c h, same)

  -- A pair of sockets that cannot both be opened leaves the system as it was.
  pub listen_clean :
      (w : World) (s : MediaSession) (a : UdpAddr)
      → (listen_rtp_and_rtcp n w s a).2 ≢ none
      → ((listen_rtp_and_rtcp n w s a).0 ≡ w) × ((listen_rtp_and_rtcp n w s a).1.laddr ≡ s.laddr)
  unfolding listen_rtp_and_rtcp
  listen_clean w s a = listened_rtp_clean s w a (listen w a) refl

  listened_rtcp-IsPair :
      (s : MediaSession) (rtp : Conn) (w : World) (port : ℕ) (r : World × (GoError ⊎ Conn))
      → rtp.local_addr.port ≡ pos (suc port)
      → port < 65536
      → listen w (record rtp.local_addr { port = increment rtp.local_addr.port }) ≡ r
      → (listened_rtcp n s rtp r).2 ≡ none
      → IsPair (listened_rtcp n s rtp r).1 (suc port)
  unfolding listened_rtcp increment
  listened_rtcp-IsPair s rtp w port (w', inl e) at small h good = cc
  listened_rtcp-IsPair s rtp w port (w', inr c) at small h good =
      let above : increment rtp.local_addr.port ≡ pos (suc (port + 1)) = rw at (ground arith) in
      (
        rtp,
        c,
        refl,
        refl,
        refl,
        at,
        lawful.port_kept w w' _ c (port + 1) above h ∙ above ∙ ap pos (omega arith),
      )

  listened_rtp-IsPair :
      (s : MediaSession) (w : World) (a : UdpAddr) (port : ℕ) (r : World × (GoError ⊎ Conn))
      → a.port ≡ pos (suc port)
      → port < 65536
      → listen w a ≡ r
      → (listened_rtp n s r).2 ≡ none
      → IsPair (listened_rtp n s r).1 (suc port)
  unfolding listened_rtp
  listened_rtp-IsPair s w a port (w', inl e) at small h good = cc
  listened_rtp-IsPair s w a port (w', inr c) at small h good =
      listened_rtcp-IsPair s c w' port _ (lawful.port_kept w w' a c port at h ∙ at) small refl good

  -- A pair that is opened stands at the port that was asked for and at the one above it.
  pub listen-IsPair :
      (w : World) (s : MediaSession) (a : UdpAddr) (port : ℕ)
      → a.port ≡ pos port
      → 0 < port
      → port < 65536
      → (listen_rtp_and_rtcp n w s a).2 ≡ none
      → IsPair (listen_rtp_and_rtcp n w s a).1 port
  unfolding listen_rtp_and_rtcp
  listen-IsPair w s a zero at positive small = absurd (omega arith)
  listen-IsPair w s a (suc port) at positive small =
      listened_rtp-IsPair s w a port (listen w a) at (omega arith) refl
