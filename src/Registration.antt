-- ===== src/Registration.antt =====
-- register_transaction.go, and phone.go's `register`: the registration of the phone at a registrar. A
-- transaction's `Origin` is shared by its calls, so each returns the request as it then is.
pub mod Rounds
pub mod Requests
pub mod Nat
pub mod Qualify
pub mod Kept
pub mod Ended
use sipgox.Prelude.{
  ℕ, suc, zero, ◌⊎◌, inl, inr, Bool, true, false, ◌||◌, not, Option, none, some, List, [], ◌∷◌,
  ◌==◌, if◌then◌else◌,
}
use sipgox.Prelude.Int.{ℤ, pos, negsuc}
use sipgox.Text.{Text, codes, eq_text, atoi, itoa, join, NumError}
use sipgox.Outcome.{
  Outcome, ok, err, panic, diverges, GoError, no_via, register_response, register_failed,
}
use sipgox.Sip.{Contact, Response, Sip, get_param, Net, exchange}

pub record RegisterOptions : Type 0 where
  pub username : Text
  pub password : Text
  pub expiry : ℤ
  pub allow_headers : Option (List Text)  -- nil, or a list
  pub unregister_all : Bool

-- `StatusUnauthorized` or `StatusProxyAuthRequired`.
abbrev pub is_challenge : ℕ → Bool
is_challenge status = status == 401 || status == 407

-- A result that is not 200 is an error.
unfoldable pub accepted : Response → Outcome (Unit {0})
accepted res = if res.status == 200 then ok tt else err (register_response res.status)

set_port : Contact → ℤ × Option NumError → Contact
set_port contact (port, none) = record contact { port = port }
set_port contact (port, some e) = contact

set_host : Contact → Text → Contact
set_host contact [] = contact
set_host contact (c ∷ cs) = record contact { host = c ∷ cs }

-- The contact as the registrar saw it, from the parameters of the `Via` header.
unfoldable pub seen_contact : Contact → List (Text × Text) → Contact
unfolding set_port set_host
seen_contact contact params =
    set_host (set_port contact (atoi (get_param params (codes "rport"))))
      (get_param params (codes "received"))

module _ (sip : Sip) where
  open sip use {
    Request, new_request, append_contact, append_header, remove_header, replace_contact, contact,
    transmitted, authorized,
  }

  -- A call's result: the network, the origin, and the error that is returned.
  abbrev pub Called : Type 0
  Called = Net sip × Request × Outcome (Unit {0})

  unfoldable pub append_expiry : ℤ → Request → Request
  append_expiry (pos (suc n)) req = append_header (codes "Expires") (itoa (pos (suc n))) req
  append_expiry (pos zero) req = req
  append_expiry (negsuc n) req = req

  unfoldable pub append_allow : Option (List Text) → Request → Request
  append_allow none req = req
  append_allow (some methods) req = append_header (codes "Allow") (join methods (codes ", ")) req

  -- `NewRegisterTransaction`: its origin.
  unfoldable pub new_register_transaction : Text → Contact → RegisterOptions → Request
  unfolding append_expiry append_allow
  new_register_transaction recipient contact opts = append_allow opts.allow_headers (
      append_expiry opts.expiry (append_contact contact (new_request (codes "REGISTER") recipient)))

  -- The response to the last request.
  unfoldable pub finished : Request → Net sip × Outcome Response → Called
  finished req (net, ok res) = (net, req, accepted res)
  finished req (net, err e) = (net, req, err e)
  finished req (net, panic) = (net, req, panic)
  finished req (net, diverges) = (net, req, diverges)

  unfoldable pub sent_again : Net sip → Request → GoError ⊎ Request → Called
  unfolding finished
  sent_again net req (inl e) = (net, req, err e)
  sent_again net req (inr again) = finished again (exchange sip net again)

  -- From `if res.StatusCode == sip.StatusUnauthorized …` on, in both registering functions.
  unfoldable pub authenticate : RegisterOptions → Net sip → Request → Response → Called
  unfolding sent_again
  authenticate opts net req res =
      if is_challenge res.status
      then sent_again net req (authorized req res opts.username opts.password)
      else (net, req, accepted res)

  -- The update of the origin's contact where the registrar reports a port.
  unfoldable pub with_seen : Request → Contact → List (Text × Text) → Request
  with_seen req contact params =
      if eq_text (get_param params (codes "rport")) []
      then req
      else replace_contact (seen_contact contact params) req

  unfoldable pub with_via :
      RegisterOptions
      → Net sip
      → Request
      → Contact
      → Response
      → Option (List (Text × Text))
      → Called
  unfolding with_seen authenticate
  with_via opts net req contact res none = (net, req, err no_via)
  with_via opts net req contact res (some params) =
      authenticate opts net (with_seen req contact params) res

  unfoldable pub first_response :
      RegisterOptions → Request → Contact → Net sip × Outcome Response → Called
  unfolding with_via
  first_response opts req contact (net, ok res) = with_via opts net req contact res res.via
  first_response opts req contact (net, err e) = (net, req, err e)
  first_response opts req contact (net, panic) = (net, req, panic)
  first_response opts req contact (net, diverges) = (net, req, diverges)

  unfoldable pub from_contact : RegisterOptions → Net sip → Request → Option Contact → Called
  unfolding first_response
  from_contact opts net origin none = (net, origin, panic)
  from_contact opts net origin (some contact) =
      first_response opts (transmitted origin) contact (exchange sip net (transmitted origin))

  -- `RegisterTransaction.Register`. An origin without a contact is a panic.
  unfoldable pub register : RegisterOptions → Net sip → Request → Called
  unfolding from_contact
  register opts net origin = from_contact opts net origin (contact origin)

  pub again_response : RegisterOptions → Request → Net sip × Outcome Response → Called
  unfolding authenticate
  again_response opts req (net, ok res) = authenticate opts net req res
  again_response opts req (net, err e) = (net, req, err e)
  again_response opts req (net, panic) = (net, req, panic)
  again_response opts req (net, diverges) = (net, req, diverges)

  unfoldable pub reregister : RegisterOptions → Net sip → Request → Called
  unfolding again_response
  reregister opts net req =
      let req = transmitted (remove_header (codes "Via") req) in
      again_response opts req (exchange sip net req)

  -- What `Unregister` makes of the origin.
  unfoldable pub unregistering : Request → Request
  unregistering origin = append_header (codes "Expires") (codes "0") (
      append_header (codes "Contact") (codes "*")
        (remove_header (codes "Contact") (remove_header (codes "Expires") origin)))

  unfoldable pub unregister : RegisterOptions → Net sip → Request → Called
  unfolding unregistering
  unregister opts net origin = reregister opts net (unregistering origin)

  -- What `QualifyLoop` waits for: the next tick, or the end of its context.
  pub data Tick : Type 0 where
    tick : Tick
    stopped : GoError → Tick

  pub after_qualify : (Net sip → Request → Called) → Called → Called
  after_qualify go (net, origin, ok tt) = go net origin
  after_qualify go (net, origin, r) = (net, origin, r)

  -- The loop, over the ticks to come.
  pub qualify_ticks : RegisterOptions → List Tick → Net sip → Request → Called
  unfolding after_qualify
  qualify_ticks opts [] net origin = (net, origin, diverges)
  qualify_ticks opts (stopped e ∷ ticks) net origin = (net, origin, err e)
  qualify_ticks opts (tick ∷ ticks) net origin =
      after_qualify (λ net origin. qualify_ticks opts ticks net origin) (reregister opts net origin)

  -- `time.NewTicker` panics on an interval that is not positive; no expiry is 30 seconds.
  from_expiry : ℤ → Called → Called → Called
  from_expiry (pos n) loop failed = loop
  from_expiry (negsuc n) loop failed = failed

  unfoldable pub qualify_loop : RegisterOptions → List Tick → Net sip → Request → Called
  unfolding from_expiry qualify_ticks
  qualify_loop opts ticks net origin =
      from_expiry opts.expiry (qualify_ticks opts ticks net origin) (net, origin, panic)

  unregistered_first : RegisterOptions → Called → Called
  unregistered_first opts (net, origin, ok tt) = register opts net origin
  unregistered_first opts (net, origin, err e) = (net, origin, err register_failed)
  unregistered_first opts (net, origin, r) = (net, origin, r)

  -- `Phone.register`.
  unfoldable pub register_phone : RegisterOptions → Net sip → Text → Contact → Called
  unfolding unregistered_first new_register_transaction
  register_phone opts net recipient contact =
      let origin = new_register_transaction recipient contact opts in
      if opts.unregister_all
      then unregistered_first opts (unregister opts net origin)
      else register opts net origin

  -- The deferred `Unregister`, whose error is only logged. A loop that goes on does not come to it.
  unregistered_last : RegisterOptions → Called → Called
  unregistered_last opts (net, origin, diverges) = (net, origin, diverges)
  unregistered_last opts (net, origin, r) =
      let (net', origin', _) = unregister opts net origin in (net', origin', r)

  kept_registered : RegisterOptions → List Tick → Called → Called
  unfolding unregistered_last
  kept_registered opts ticks (net, origin, ok tt) =
      unregistered_last opts (qualify_loop opts ticks net origin)
  kept_registered opts ticks (net, origin, r) = (net, origin, r)

  -- `Phone.Register`, once there are a server, a client and a contact.
  unfoldable pub phone_register : RegisterOptions → List Tick → Net sip → Text → Contact → Called
  unfolding kept_registered
  phone_register opts ticks net recipient contact =
      kept_registered opts ticks (register_phone opts net recipient contact)
