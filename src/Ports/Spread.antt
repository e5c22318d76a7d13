-- ===== src/Ports/Spread.antt =====
-- The branch of `createListeners` over a range of ports: which pair it takes, and where the next search
-- begins.
use sipgox.Prelude.{
  ℕ, ◌+◌, ◌-◌, ◌*◌, ◌%◌, ◌/◌, ◌<◌, ◌≤◌, ◌≡◌, ◌≢◌, ◌⊎◌, inl, inr, refl, ap, ◌∙◌, true, none, some,
  arith, ltb,
}
use native.Mathlib.Nat.{mul_assoc, div-add-mod, mod-lt}
use sipgox.Prelude.Int.{pos}
use sipgox.Outcome.{no_available_ports}
use sipgox.MediaSession.{MediaSession}
use sipgox.Ports.{Sockets, PortRange, Attempt, scan_ports, create_listeners, is_zero, after_scan}
use sipgox.Ports.Pair.{IsLawful, IsPair}
use sipgox.Ports.Scan.{AllRefuse, Searched, scan_ports-Searched}

-- A range of ports that is set, with the offset inside it.
pub record IsRange (r : PortRange) : Type 0 where
  pub set : 0 < r.first
  pub inside : r.first + r.offset < r.limit
  pub ports : r.limit ≤ 65536

by_range :
    (n : Sockets) (w : n.World) (r : PortRange) (s : MediaSession)
    → s.laddr.port ≡ pos 0
    → IsRange r
    → create_listeners n w r s
      ≡ after_scan n r (scan_ports n r.limit w s (r.first + r.offset) r.limit none)
unfolding create_listeners is_zero
by_range n w r s e h =
    let set : ltb 0 r.first ≡ true = ground (arith, h.set) in
    let wide : ltb r.first r.limit ≡ true = ground (arith, h.inside) in rw (e, set, wide)

searched :
    (n : Sockets) (w : n.World) (r : PortRange) (s : MediaSession)
    → IsLawful n
    → IsRange r
    → Searched n w s.laddr.ip
        (r.first + r.offset)
        r.limit
        (scan_ports n r.limit w s (r.first + r.offset) r.limit none)
searched n w r s lawful h =
    scan_ports-Searched n r.limit w s (r.first + r.offset) r.limit none lawful
      (omega (arith, h.set)) h.ports (omega arith) (inl h.inside)

-- What a search of the range leaves where it found a pair: the pair stands at the first port from the
-- offset on, in steps of two, that was not refused, and the next search begins two behind it, counted
-- round the range.
pub record Found (n : Sockets) (w : n.World) (r : PortRange) (s : MediaSession)
    (a : PortRange × Attempt n) : Type 0 where
  pub port : ℕ
  pub from_offset : r.first + r.offset ≤ port
  pub steps : ℕ
  pub in_steps : port ≡ r.first + r.offset + 2 * steps
  pub in_range : port < r.limit
  pub pair : IsPair a.1.1 port
  pub first_free : AllRefuse n w s.laddr.ip (r.first + r.offset) port
  pub next : a.0 ≡ record r { offset = (port + 2 - r.first) % (r.limit - r.first) }

-- And where it found none: every port from the offset on is refused, the range and its offset are as
-- they were, and so are the system's sockets.
pub record Exhausted (n : Sockets) (w : n.World) (r : PortRange) (s : MediaSession)
    (a : PortRange × Attempt n) : Type 0 where
  pub all_refuse : AllRefuse n w s.laddr.ip (r.first + r.offset) r.limit
  pub same_range : a.0 ≡ r
  pub same_world : a.1.0 ≡ w
  pub reported : a.1.2 ≡ some no_available_ports

decided :
    (n : Sockets) (w : n.World) (r : PortRange) (s : MediaSession) (x : Attempt n × ℕ)
    → Searched n w s.laddr.ip (r.first + r.offset) r.limit x
    → Found n w r s (after_scan n r x) ⊎ Exhausted n w r s (after_scan n r x)
unfolding after_scan
decided n w r s ((w', s', none), p) h = inl (record {
  port = p;
  from_offset = (h.found_in_range refl).0;
  steps = (h.found_step refl).0;
  in_steps = (h.found_step refl).1;
  in_range = (h.found_in_range refl).1;
  pair = h.found_pair refl;
  first_free = h.found_first refl;
  next = refl;
})
decided n w r s ((w', s', some e), p) h = inr (record {
  all_refuse = h.error_exhausts (λ none_left. cc);
  same_range = refl;
  same_world = h.error_clean (λ none_left. cc);
  reported = refl;
})

-- With the port left to the program, a range set with the offset inside it, and lawful sockets,
-- `createListeners` takes the first free pair from the offset on, or reports that there is none and
-- leaves the range, its offset and the system's sockets as they were.
pub create_listeners_lem :
    (n : Sockets) (w : n.World) (r : PortRange) (s : MediaSession)
    → IsLawful n
    → s.laddr.port ≡ pos 0
    → IsRange r
    → Found n w r s (create_listeners n w r s) ⊎ Exhausted n w r s (create_listeners n w r s)
create_listeners_lem n w r s lawful e h =
    rw (by_range n w r s e h) (decided n w r s _ (searched n w r s lawful h))

moved-IsRange :
    (r : PortRange) (port : ℕ)
    → IsRange r
    → IsRange (record r { offset = (port + 2 - r.first) % (r.limit - r.first) })
moved-IsRange r port h = record {
  set = h.set;
  inside = omega (
    arith,
    h.inside,
    mod-lt (port + 2 - r.first) {m = r.limit - r.first} (omega (arith, h.inside)),
  );
  ports = h.ports;
}

-- Whatever it finds, with lawful sockets and the port left to it, the offset stays inside the range.
pub create_listeners-IsRange :
    (n : Sockets) (w : n.World) (r : PortRange) (s : MediaSession)
    → IsLawful n
    → s.laddr.port ≡ pos 0
    → IsRange r
    → IsRange (create_listeners n w r s).0
create_listeners-IsRange n w r s lawful e h = elim (create_listeners_lem n w r s lawful e h) [
  | inl found ↦ rw found.next (moved-IsRange r found.port h)
  | inr exhausted ↦ rw exhausted.same_range h
]

-- Two halves, of an even number.
abbrev pub IsEven : ℕ → Type 0
IsEven n = n % 2 ≡ 0

IsEven-mod : (x m : ℕ) → IsEven x → IsEven m → IsEven (x % m)
IsEven-mod x m hx hm =
    let half : m ≡ 2 * (m / 2) = omega arith in
    let whole : m * (x / m) ≡ 2 * (m / 2 * (x / m)) =
      ap (λ t. t * (x / m)) half ∙ mul_assoc 2 (m / 2) (x / m) in
    omega (arith, whole, div-add-mod x m)

-- With lawful sockets and the port left to the program, in a range of even length, from an even offset, both ports of a session that is created lie in the
-- range, and the next offset is even again.
pub create_listeners-IsEven :
    (n : Sockets) (w : n.World) (r : PortRange) (s : MediaSession)
    → IsLawful n
    → s.laddr.port ≡ pos 0
    → IsRange r
    → IsEven r.offset
    → IsEven (r.limit - r.first)
    → (create_listeners n w r s).1.2 ≡ none
    → (port : ℕ) × IsPair (create_listeners n w r s).1.1 port
      × (r.first ≤ port)
      × (port + 1 < r.limit)
      × IsEven (create_listeners n w r s).0.offset
create_listeners-IsEven n w r s lawful e h even length good =
    elim (create_listeners_lem n w r s lawful e h) [
      | inl found ↦ (
        found.port,
        found.pair,
        omega (arith, found.from_offset),
        omega (arith, found.in_steps, found.in_range),
        rw found.next (IsEven-mod _ _ (omega (arith, found.in_steps, found.in_range)) length),
      )
      | inr exhausted ↦ absurd (refused exhausted.reported)
    ]
  where
    refused : (create_listeners n w r s).1.2 ≢ some no_available_ports
    refused bad = cc
