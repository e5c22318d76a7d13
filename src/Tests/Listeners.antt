-- ===== src/Tests/Listeners.antt =====
-- Sockets that are a list of the ports in use.
use sipgox.Prelude.{
  ℕ, ◌≡◌, ◌⊎◌, inl, inr, refl, Bool, none, false, ◌||◌, List, [], ◌∷◌, arith, ◌==◌, if◌then◌else◌,
}
use sipgox.Prelude.Int.{ℤ, pos, negsuc, increment}
use sipgox.Outcome.{GoError, external}
use sipgox.MediaSession.{UdpAddr, Conn, unset, MediaSession}
use sipgox.Ports.Release.{Released, close_session-new_media_session}
use sipgox.Ports.{
  new_media_session, Sockets, PortRange, create_listeners, scan_ports, listen_rtp_and_rtcp,
}
use sipgox.Ports.Pair.{IsLawful}
use sipgox.Ports.Spread.{IsRange, Found, Exhausted, create_listeners_lem, create_listeners-IsRange}

abbrev pub in_use : ℕ → List ℕ → Bool
in_use p [] = false
in_use p (q ∷ ports) = p == q || in_use p ports

abbrev pub listen_at : List ℕ → UdpAddr → ℤ → List ℕ × (GoError ⊎ Conn)
listen_at w a (negsuc n) = (w, inl (external 22))
listen_at w a (pos p) =
    if in_use p w
    then (w, inl (external 98))
    else (p ∷ w, inr (record { local_addr = a; handle = p }))

abbrev pub release : ℕ → List ℕ → List ℕ
release p [] = []
release p (q ∷ ports) = if p == q then ports else q ∷ release p ports

abbrev pub table : Sockets
table = record {
  World = List ℕ;
  listen = λ w a. listen_at w a a.port;
  close = λ w c. release c.handle w;
}

pub listen_at_refused :
    (w w' : List ℕ) (a : UdpAddr) (z : ℤ) (e : GoError) → listen_at w a z ≡ (w', inl e) → w' ≡ w
listen_at_refused w w' a (negsuc n) e h = cc
listen_at_refused w w' a (pos p) e h = ground arith

pub listen_at_undone :
    (w w' : List ℕ) (a : UdpAddr) (z : ℤ) (c : Conn)
    → listen_at w a z ≡ (w', inr c)
    → release c.handle w' ≡ w
listen_at_undone w w' a (negsuc n) c h = cc
listen_at_undone w w' a (pos p) c h = ground arith

listen_at_port :
    (w w' : List ℕ) (a : UdpAddr) (z : ℤ) (c : Conn)
    → listen_at w a z ≡ (w', inr c)
    → c.local_addr.port ≡ a.port
listen_at_port w w' a (negsuc n) c h = cc
listen_at_port w w' a (pos p) c h = ground arith

pub table-IsLawful : IsLawful table
table-IsLawful = record {
  refused_clean = λ w w' a e h. listen_at_refused w w' a a.port e h;
  close_undoes = λ w w' a c h. listen_at_undone w w' a a.port c h;
  port_kept = λ w w' a c p at h. listen_at_port w w' a a.port c h;
}

-- Ports 4000 to 4009, where the first pair is half in use.
abbrev pub ten_ports : PortRange
ten_ports = record { first = 4000; limit = 4010; offset = 0 }

ten_ports-IsRange : IsRange ten_ports
ten_ports-IsRange = record { set = omega arith; inside = omega arith; ports = omega arith }

abbrev new_session : MediaSession
new_session = record {
  raddr = none;
  laddr = record { ip = 10 ∷ 0 ∷ 0 ∷ 1 ∷ []; port = pos 0 };
  rtp_conn = unset;
  rtcp_conn = unset;
  rtcp_raddr = none;
  formats = [];
  mode = [];
}

abbrev pub busy : List ℕ
busy = 4001 ∷ []

create_listeners_lem_example :
    Found table busy ten_ports new_session (create_listeners table busy ten_ports new_session)
    ⊎ Exhausted table busy ten_ports new_session (create_listeners table busy ten_ports new_session)
create_listeners_lem_example =
    create_listeners_lem table busy ten_ports new_session table-IsLawful refl ten_ports-IsRange

create_listeners-IsRange_example : IsRange (create_listeners table busy ten_ports new_session).0
create_listeners-IsRange_example =
    create_listeners-IsRange table busy ten_ports new_session table-IsLawful refl ten_ports-IsRange

opened : (create_listeners table busy ten_ports new_session).1.2 ≡ none
unfolding create_listeners scan_ports listen_rtp_and_rtcp increment
opened = refl

close_session-new_media_session_example :
    Released table table-IsLawful busy
      (new_media_session table busy ten_ports (record { ip = 10 ∷ 0 ∷ 0 ∷ 1 ∷ []; port = pos 0 }))
close_session-new_media_session_example =
    close_session-new_media_session table table-IsLawful busy ten_ports
      (record { ip = 10 ∷ 0 ∷ 0 ∷ 1 ∷ []; port = pos 0 })
