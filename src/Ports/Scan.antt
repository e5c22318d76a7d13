-- ===== src/Ports/Scan.antt =====
-- The search for a free pair of ports in the range.
use sipgox.Prelude.{
  ℕ, zero, suc, ◌+◌, ◌*◌, ◌<◌, ◌≤◌, ◌≡◌, ◌≢◌, ◌⊎◌, inl, inr, refl, ap, ◌∙◌, Option, none, some,
  arith, ltb, Bool-cases, Option-cases,
}
use sipgox.Prelude.Int.{pos}
use sipgox.Ip.{Ip}
use sipgox.Outcome.{GoError}
use sipgox.MediaSession.{UdpAddr, Conn, MediaSession}
use sipgox.Ports.{
  Sockets, Attempt, listened_rtcp, listened_rtp, listen_rtp_and_rtcp, scan_ports, stop_or_go,
}
use sipgox.Ports.Pair.{IsLawful, IsPair, listen_clean, listen-IsPair}

abbrev pub at_port : Ip → ℕ → UdpAddr
at_port ip port = record { ip = ip; port = pos port }

-- No session can open a pair at the port.
abbrev pub Refuses : (n : Sockets) → n.World → Ip → ℕ → Type 0
Refuses n w ip port = (s : MediaSession) → (listen_rtp_and_rtcp n w s (at_port ip port)).2 ≢ none

-- Every second port from `port` to below `bound` is refused.
abbrev pub AllRefuse : (n : Sockets) → n.World → Ip → ℕ → ℕ → Type 0
AllRefuse n w ip port bound = (k p : ℕ) → p ≡ port + 2 * k → p < bound → Refuses n w ip p

AllRefuse-cons :
    (n : Sockets) (w : n.World) (ip : Ip) (port bound : ℕ)
    → Refuses n w ip port
    → AllRefuse n w ip (port + 2) bound
    → AllRefuse n w ip port bound
AllRefuse-cons n w ip port bound refused later zero p e h =
    let same : p ≡ port = omega arith in rw same refused
AllRefuse-cons n w ip port bound refused later (suc k) p e h = later k p (omega arith) h

-- What the loop leaves, from a port on, for a search in `w`.
pub record Searched (n : Sockets) (w : n.World) (ip : Ip) (port limit : ℕ) (r : Attempt n × ℕ)
    : Type 0 where
  pub error_clean : r.0.2 ≢ none → r.0.0 ≡ w
  pub error_exhausts : r.0.2 ≢ none → AllRefuse n w ip port limit
  pub found_in_range : r.0.2 ≡ none → (port ≤ r.1) × (r.1 < limit)
  pub found_step : r.0.2 ≡ none → (k : ℕ) × (r.1 ≡ port + 2 * k)
  pub found_pair : r.0.2 ≡ none → IsPair r.0.1 r.1
  pub found_first : r.0.2 ≡ none → AllRefuse n w ip port r.1

-- The loop has passed `port`, where it was refused.
Searched-skip :
    (n : Sockets) (w : n.World) (ip : Ip) (port limit : ℕ) (r : Attempt n × ℕ)
    → Refuses n w ip port
    → Searched n w ip (port + 2) limit r
    → Searched n w ip port limit r
Searched-skip n w ip port limit r refused later = record {
  error_clean = later.error_clean;
  error_exhausts = λ bad. AllRefuse-cons n w ip port limit refused (later.error_exhausts bad);
  found_in_range = λ good. omega (arith, later.found_in_range good);
  found_step = λ good. let (k, at) = later.found_step good in (suc k, omega arith);
  found_pair = later.found_pair;
  found_first = λ good. AllRefuse-cons n w ip port r.1 refused (later.found_first good);
}

-- The loop stands behind the range, with the error of the last port.
Searched-end :
    (n : Sockets) (w : n.World) (s : MediaSession) (ip : Ip) (port limit : ℕ) (e : GoError)
    → limit ≤ port
    → Searched n w ip port limit ((w, s, some e), port)
Searched-end n w s ip port limit e h = record {
  error_clean = λ bad. refl;
  error_exhausts = λ bad k p at below. absurd (omega arith);
  found_in_range = λ good. cc;
  found_step = λ good. cc;
  found_pair = λ good. cc;
  found_first = λ good. cc;
}

-- The loop stops at `port`.
Searched-stop :
    (n : Sockets) (w w' : n.World) (s : MediaSession) (ip : Ip) (port limit : ℕ)
    → port < limit
    → IsPair s port
    → Searched n w ip port limit ((w', s, none), port)
Searched-stop n w w' s ip port limit h pair = record {
  error_clean = λ bad. absurd (bad refl);
  error_exhausts = λ bad. absurd (bad refl);
  found_in_range = λ good. (omega arith, h);
  found_step = λ good. (0, omega arith);
  found_pair = λ good. pair;
  found_first = λ good k p at below. absurd (omega arith);
}

listened_rtcp_any :
    (n : Sockets) (s t : MediaSession) (rtp : Conn) (r : n.World × (GoError ⊎ Conn))
    → (listened_rtcp n s rtp r).2 ≡ (listened_rtcp n t rtp r).2
unfolding listened_rtcp
listened_rtcp_any n s t rtp (w, inl e) = refl
listened_rtcp_any n s t rtp (w, inr c) = refl

listened_any :
    (n : Sockets) (s t : MediaSession) (r : n.World × (GoError ⊎ Conn))
    → (listened_rtp n s r).2 ≡ (listened_rtp n t r).2
unfolding listened_rtp
listened_any n s t (w, inl e) = refl
listened_any n s t (w, inr c) = listened_rtcp_any n s t c _

-- Whether a pair can be opened does not depend on the session.
error_of_any :
    (n : Sockets) (w : n.World) (s t : MediaSession) (a : UdpAddr)
    → (listen_rtp_and_rtcp n w s a).2 ≡ (listen_rtp_and_rtcp n w t a).2
unfolding listen_rtp_and_rtcp
error_of_any n w s t a = listened_any n s t (n.listen w a)

-- One round of the loop.
pub scan_round :
    (n : Sockets) (rounds : ℕ) (w : n.World) (s : MediaSession) (port limit : ℕ)
    (last : Option GoError)
    → port < limit
    → let laddr = at_port s.laddr.ip port in
      let r = listen_rtp_and_rtcp n w (record s { laddr = laddr }) laddr in
      scan_ports n (suc rounds) w s port limit last
      ≡ stop_or_go r.2 ((r.0, r.1, none), port) (scan_ports n rounds r.0 r.1 (port + 2) limit r.2)
unfolding scan_ports stop_or_go
scan_round n rounds w s port limit last h = ground arith

Searched-of :
    (n : Sockets) (w w' : n.World) (ip ip' : Ip) (port limit : ℕ) (r : Attempt n × ℕ)
    → w' ≡ w
    → ip' ≡ ip
    → Searched n w' ip' port limit r
    → Searched n w ip port limit r
Searched-of n w w' ip ip' port limit r e f h = rw (← e, ← f) h

ended :
    (n : Sockets) (w : n.World) (s : MediaSession) (port limit : ℕ) (last : Option GoError)
    → limit ≤ port
    → (port < limit) ⊎ (last ≢ none)
    → Searched n w s.laddr.ip port limit ((w, s, last), port)
ended n w s port limit none h (inl inside) = absurd (omega arith)
ended n w s port limit none h (inr bad) = absurd (bad refl)
ended n w s port limit (some e) h began = Searched-end n w s s.laddr.ip port limit e h

-- A round, from what is known of the loop behind it.
tried :
    (n : Sockets) (rounds : ℕ) (w : n.World) (s : MediaSession) (port limit : ℕ)
    → IsLawful n
    → 0 < port
    → limit ≤ 65536
    → port < limit
    → ((w' : n.World) (s' : MediaSession) (e : Option GoError)
        → e ≢ none
        → Searched n w' s'.laddr.ip (port + 2) limit (scan_ports n rounds w' s' (port + 2) limit e))
    → let laddr = at_port s.laddr.ip port in
      let r = listen_rtp_and_rtcp n w (record s { laddr = laddr }) laddr in
      Searched n w s.laddr.ip port limit
        (stop_or_go r.2 ((r.0, r.1, none), port) (scan_ports n rounds r.0 r.1 (port + 2) limit r.2))
unfolding stop_or_go
tried n rounds w s port limit lawful positive small inside later =
    let laddr = at_port s.laddr.ip port in
    let moved : MediaSession = record s { laddr = laddr } in
    let r = listen_rtp_and_rtcp n w moved laddr in
    elim (Option-cases r.2) [
      | inl opened ↦ rw opened (
          Searched-stop n w r.0 r.1 s.laddr.ip port limit inside
            (listen-IsPair n lawful w moved laddr port refl positive (omega arith) opened))
      | inr (e, refused) ↦
          let bad : r.2 ≢ none = λ none_left. cc in
          let (back, same) = listen_clean n lawful w moved laddr bad in
          rw refused (
            Searched-skip n w s.laddr.ip port limit _
              (λ t. λ good. bad (error_of_any n w moved t laddr ∙ good))
              (Searched-of n w r.0 s.laddr.ip r.1.laddr.ip (port + 2) limit _ back
                (ap (λ a. a.ip) same) (rw refused at (later r.0 r.1 r.2 bad))))
    ]

-- With rounds enough for the rest of the range, the loop has searched it, if it began within the range.
pub scan_ports-Searched :
    (n : Sockets) (rounds : ℕ) (w : n.World) (s : MediaSession) (port limit : ℕ)
    (last : Option GoError)
    → IsLawful n
    → 0 < port
    → limit ≤ 65536
    → limit ≤ port + rounds
    → (port < limit) ⊎ (last ≢ none)
    → Searched n w s.laddr.ip port limit (scan_ports n rounds w s port limit last)
scan_ports-Searched n zero w s port limit last lawful positive small enough began =
    unfold scan_ports in ended n w s port limit last (omega arith) began
scan_ports-Searched n (suc rounds) w s port limit last lawful positive small enough began =
    elim (Bool-cases (ltb port limit)) [
      | inl inside ↦ rw (scan_round n rounds w s port limit last (ground arith)) (
          tried n rounds w s port limit lawful positive small (ground arith) (λ w' s' e bad.
            scan_ports-Searched n rounds w' s' (port + 2) limit e lawful (omega arith) small
              (omega arith) (inr bad)))
      | inr outside ↦
          unfold scan_ports in rw outside (ended n w s port limit last (ground arith) began)
    ]
