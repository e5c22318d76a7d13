-- ===== src/Answer/Start.antt =====
-- phone.go's `answer`: what it starts before it waits for an INVITE, which are its listeners and, where an
-- address to register at is given, its registration; and `stopAnswer`, which ends both.
pub mod Leaks
pub mod Stopped
pub mod Finish
pub mod Whole
use sipgox.Prelude.{
  ℕ, Bool, true, false, Option, none, some, List, [], ◌∷◌, ◌⊎◌, inl, inr, if◌then◌else◌,
}
use sipgox.Prelude.Int.{ℤ, pos}
use sipgox.Text.{Text, eq_text}
use sipgox.Ip.{Ip, Ip6Notation}
use sipgox.Outcome.{Outcome, ok, err, panic, diverges, GoError}
use sipgox.Sip.{Contact, Sip, Net}
use sipgox.Registration.{RegisterOptions, Called, register_phone, unregister}
use sipgox.Ports.{Sockets}
use sipgox.Listeners.{
  ListenAddr, Listener, Streams, Resolver, create_server_listeners, close_listener,
}
use sipgox.Phone.{Phone, Agent}
use sipgox.Answer.{AnswerOptions}

-- What is around the start: the errors of `NewServer` and `NewClient`, and the random port.
pub record Starting : Type 0 where
  pub server_error : Option GoError
  pub client_error : Option GoError
  pub random : ℕ

-- The options of the registration that `answer` keeps.
unfoldable pub kept_registration : AnswerOptions → RegisterOptions
kept_registration opts = record {
  username = opts.username;
  password = opts.password;
  expiry = pos 30;
  allow_headers = none;
  unregister_all = false;
}

module _ (sip : Sip) where
  -- The listeners, the contact of the dialogs, the host of the first listener, and the origin of the
  -- registration.
  pub record Started : Type 0 where
    pub listeners : List Listener
    pub contact : Contact
    pub lhost : Text
    pub registration : Option sip.Request

module _ (n : Sockets) (t : Streams n) (v6 : Ip6Notation) (rs : Resolver) (print : Ip → Text)
    (sip : Sip) (agent : Agent) where
  open n use {World}

  -- The sockets, the network, and what is returned.
  abbrev pub Start : Type 0
  Start = World × Net sip × Outcome (Started sip)

  -- The contact of the first listener.
  unfoldable pub listener_contact : Listener → Contact
  listener_contact l =
      let (lhost, lport, _) = rs.parse_addr l.served.listen_addr in
      record {
        host = lhost;
        port = lport;
        rest = agent.contact_rest agent.ua_name l.served.listen_network;
      }

  -- The contact becomes that of the registration, which may have changed it; a nil one is a panic.
  registered_contact : World → List Listener → Text → Net sip → sip.Request → Option Contact → Start
  registered_contact w ls lhost net origin none = (w, net, panic)
  registered_contact w ls lhost net origin (some contact) = (
    w,
    net,
    ok (record { listeners = ls; contact = contact; lhost = lhost; registration = some origin }),
  )

  -- An error of the registration is returned at once.
  unfoldable pub registered : World → List Listener → Text → Called sip → Start
  unfolding registered_contact
  registered w ls lhost (net, origin, ok tt) =
      registered_contact w ls lhost net origin (sip.contact origin)
  registered w ls lhost (net, origin, err e) = (w, net, err e)
  registered w ls lhost (net, origin, panic) = (w, net, panic)
  registered w ls lhost (net, origin, diverges) = (w, net, diverges)

  -- From `if opts.RegisterAddr != ""` on.
  unfoldable pub with_registration :
      AnswerOptions → World → List Listener → Contact → Net sip → Start
  unfolding registered kept_registration
  with_registration opts w ls contact net =
      let (rhost, rport, _) = rs.parse_addr opts.register_addr in
      if eq_text opts.register_addr []
      then (
        w,
        net,
        ok (record {
          listeners = ls;
          contact = contact;
          lhost = contact.host;
          registration = none;
        }),
      )
      else registered w ls contact.host (
          register_phone sip (kept_registration opts) net (agent.uri_text rhost rport agent.ua_name)
            contact)

  with_client : Option GoError → AnswerOptions → World → List Listener → Contact → Net sip → Start
  unfolding with_registration
  with_client (some e) opts w ls contact net = (w, net, err e)
  with_client none opts w ls contact net = with_registration opts w ls contact net

  -- `listeners[0]` of no listeners is a panic.
  with_listeners : Starting → AnswerOptions → Net sip → World × (GoError ⊎ List Listener) → Start
  unfolding with_client listener_contact
  with_listeners env opts net (w, inl e) = (w, net, err e)
  with_listeners env opts net (w, inr []) = (w, net, panic)
  with_listeners env opts net (w, inr (l ∷ ls)) =
      with_client env.client_error opts w (l ∷ ls) (listener_contact l) net

  with_server : Option GoError → Starting → AnswerOptions → Phone → World → Net sip → Start
  unfolding with_listeners
  with_server (some e) env opts phone w net = (w, net, err e)
  with_server none env opts phone w net =
      with_listeners env opts net
        (create_server_listeners n t v6 rs print env.random w phone.listen_addrs)

  -- `answer`, up to its handlers.
  unfoldable pub answer_start : Starting → AnswerOptions → Phone → World → Net sip → Start
  unfolding with_server
  answer_start env opts phone w net = with_server env.server_error env opts phone w net

  -- The listeners are closed in their order.
  unfoldable pub close_all : World → List Listener → World
  close_all w [] = w
  close_all w (l ∷ ls) = close_all (close_listener n t v6 rs w l) ls

  -- The error of `Unregister` is only logged.
  unregistered_then : World → List Listener → Called sip → World × Net sip × Outcome (Unit {0})
  unfolding close_all
  unregistered_then w ls (net, origin, ok tt) = (close_all w ls, net, ok tt)
  unregistered_then w ls (net, origin, err e) = (close_all w ls, net, ok tt)
  unregistered_then w ls (net, origin, panic) = (w, net, panic)
  unregistered_then w ls (net, origin, diverges) = (w, net, diverges)

  stop_registered :
      AnswerOptions
      → List Listener
      → Option sip.Request
      → World
      → Net sip
      → World × Net sip × Outcome (Unit {0})
  unfolding unregistered_then
  stop_registered opts ls none w net = (close_all w ls, net, ok tt)
  stop_registered opts ls (some origin) w net =
      unregistered_then w ls (unregister sip (kept_registration opts) net origin)

  -- The first call of `stopAnswer`; `sync.OnceFunc` makes the later ones do nothing.
  unfoldable pub stop_answer :
      AnswerOptions → Started sip → World → Net sip → World × Net sip × Outcome (Unit {0})
  unfolding stop_registered
  stop_answer opts s w net = stop_registered opts s.listeners s.registration w net
