-- ===== src/Registration/Nat.antt =====
-- The contact of a phone behind a network address translator, as the registrar reports it.
use sipgox.Prelude.{
  suc, zero, ◌≡◌, ◌⊎◌, inl, inr, refl, ap, ◌∙◌, false, Option, none, some, List, [], ◌∷◌,
  Bool-cases, if◌then◌else◌,
}
use sipgox.Prelude.Int.{ℤ, pos, negsuc}
use sipgox.Outcome.{Outcome, ok, err, panic, diverges, GoError}
use sipgox.Text.{Text, codes, eq_text, NumError, atoi}
use sipgox.Sip.{
  Contact, Response, Sip, Net, Reply, responded, exchange, reply_to, get_response, get_param,
}
use sipgox.Registration.{
  RegisterOptions, is_challenge, set_port, set_host, seen_contact, with_seen, finished, sent_again,
  authenticate, with_via, first_response, from_contact, register, new_register_transaction,
  append_expiry, append_allow, register_phone,
}

-- What is relied on of the requests: the contact is the one that was put in, headers behind it and the
-- sending leave it, and replacing it replaces it.
pub record IsLawful (sip : Sip) : Type 0 where
  pub contact_appended :
      (c : Contact) (method recipient : Text)
      → sip.contact (sip.append_contact c (sip.new_request method recipient)) ≡ some c
  pub contact_first :
      (c : Contact) (name value : Text) (req : sip.Request)
      → sip.contact req ≡ some c
      → sip.contact (sip.append_header name value req) ≡ some c
  pub contact_replaced :
      (c d : Contact) (req : sip.Request)
      → sip.contact req ≡ some c
      → sip.contact (sip.replace_contact d req) ≡ some d
  pub contact_transmitted :
      (req : sip.Request) → sip.contact (sip.transmitted req) ≡ sip.contact req
  pub contact_authorized :
      (req again : sip.Request) (res : Response) (username password : Text)
      → sip.authorized req res username password ≡ inr again
      → sip.contact again ≡ sip.contact req

-- What is given, or the own where nothing is.
abbrev or_own : Text → Text → Text
or_own own [] = own
or_own own (c ∷ cs) = c ∷ cs

-- A number that was read, or the own one where it could not be.
abbrev read_or : ℤ → ℤ × Option NumError → ℤ
read_or own (port, none) = port
read_or own (port, some e) = own

-- The contact after a response with these parameters of its `Via` header.
abbrev pub reported : Contact → List (Text × Text) → Contact
reported c params = if eq_text (get_param params (codes "rport")) [] then c else record c {
  host = or_own c.host (get_param params (codes "received"));
  port = read_or c.port (atoi (get_param params (codes "rport")));
}

set_host_lem : (c : Contact) (h : Text) → set_host c h ≡ record c { host = or_own c.host h }
unfolding set_host
set_host_lem c [] = refl
set_host_lem c (ch ∷ cs) = refl

set_port_lem :
    (c : Contact) (r : ℤ × Option NumError) → set_port c r ≡ record c { port = read_or c.port r }
unfolding set_port
set_port_lem c (port, none) = refl
set_port_lem c (port, some e) = refl

seen_contact_lem :
    (c : Contact) (params : List (Text × Text))
    → eq_text (get_param params (codes "rport")) [] ≡ false
    → seen_contact c params ≡ reported c params
unfolding seen_contact
seen_contact_lem c params given =
    rw
      (
        given,
        set_host_lem (set_port c (atoi (get_param params (codes "rport"))))
            (get_param params (codes "received")),
        set_port_lem c (atoi (get_param params (codes "rport"))),
      )
      refl

module _ (sip : Sip) (lawful : IsLawful sip) where
  open sip use {Request, transmitted, authorized, contact, replace_contact}

  finished_origin : (req : Request) (x : Net sip × Outcome Response) → (finished sip req x).1 ≡ req
  unfolding finished
  finished_origin req (net, ok res) = refl
  finished_origin req (net, err e) = refl
  finished_origin req (net, panic) = refl
  finished_origin req (net, diverges) = refl

  sent_again_contact :
      (net : Net sip) (req : Request) (res : Response) (username password : Text)
      (r : GoError ⊎ Request)
      → authorized req res username password ≡ r
      → contact (sent_again sip net req r).1 ≡ contact req
  unfolding sent_again
  sent_again_contact net req res username password (inl e) h = refl
  sent_again_contact net req res username password (inr again) h =
      ap contact (finished_origin again (exchange sip net again))
      ∙ lawful.contact_authorized req again res username password h

  authenticate_contact :
      (opts : RegisterOptions) (net : Net sip) (req : Request) (res : Response)
      → contact (authenticate sip opts net req res).1 ≡ contact req
  unfolding authenticate
  authenticate_contact opts net req res = elim (Bool-cases (is_challenge res.status)) [
    | inl challenge ↦
        rw challenge (sent_again_contact net req res opts.username opts.password _ refl)
    | inr other ↦ rw other refl
  ]

  with_seen_contact :
      (req : Request) (c : Contact) (params : List (Text × Text))
      → contact req ≡ some c
      → contact (with_seen sip req c params) ≡ some (reported c params)
  unfolding with_seen
  with_seen_contact req c params h =
      elim (Bool-cases (eq_text (get_param params (codes "rport")) [])) [
        | inl missing ↦ rw missing h
        | inr given ↦
            ap (λ b. contact (if b then req else replace_contact (seen_contact c params) req)) given
            ∙ lawful.contact_replaced c (seen_contact c params) req h
            ∙ ap (λ x. some x) (seen_contact_lem c params given)
      ]

  with_via_contact :
      (opts : RegisterOptions) (net : Net sip) (req : Request) (c : Contact) (res : Response)
      (via : Option (List (Text × Text))) (params : List (Text × Text))
      → via ≡ some params
      → contact req ≡ some c
      → contact (with_via sip opts net req c res via).1 ≡ some (reported c params)
  unfolding with_via
  with_via_contact opts net req c res none params e h = cc
  with_via_contact opts net req c res (some found) params e h =
      let same : found ≡ params = cc in
      authenticate_contact opts net (with_seen sip req c found) res
      ∙ with_seen_contact req c found h
      ∙ ap (λ p. some (reported c p)) same

  register_contact :
      (opts : RegisterOptions) (net : Net sip) (origin : Request) (c : Contact)
      (found : Option Contact) (res : Response) (later : List Reply) (params : List (Text × Text))
      → found ≡ some c
      → contact origin ≡ some c
      → net.replies ≡ responded res ∷ later
      → res.via ≡ some params
      → contact (from_contact sip opts net origin found).1 ≡ some (reported c params)
  unfolding from_contact first_response exchange reply_to get_response
  register_contact opts net origin c none res later params f e h v = cc
  register_contact opts net origin c (some d) res later params f e h v =
      let same : d ≡ c = cc in
      rw (h, same)
        (with_via_contact opts _ (transmitted origin) c res res.via params v
          (lawful.contact_transmitted origin ∙ e))

  append_expiry_contact :
      (z : ℤ) (req : Request) (c : Contact)
      → contact req ≡ some c
      → contact (append_expiry sip z req) ≡ some c
  unfolding append_expiry
  append_expiry_contact (pos zero) req c h = h
  append_expiry_contact (pos (suc n)) req c h = lawful.contact_first c _ _ req h
  append_expiry_contact (negsuc n) req c h = h

  append_allow_contact :
      (methods : Option (List Text)) (req : Request) (c : Contact)
      → contact req ≡ some c
      → contact (append_allow sip methods req) ≡ some c
  unfolding append_allow
  append_allow_contact none req c h = h
  append_allow_contact (some methods) req c h = lawful.contact_first c _ _ req h

  -- Where the phone registers without unregistering first and the first response has a `Via` header, the
  -- contact that the origin is left with is the phone's own, with the port and the host that the header
  -- reports put in, where it reports a port; a port that cannot be read and a host that is missing leave
  -- the own ones; however the registration then ends.
  pub register_phone_contact :
      (opts : RegisterOptions) (net : Net sip) (recipient : Text) (c : Contact) (res : Response)
      (later : List Reply) (params : List (Text × Text))
      → opts.unregister_all ≡ false
      → net.replies ≡ responded res ∷ later
      → res.via ≡ some params
      → contact (register_phone sip opts net recipient c).1 ≡ some (reported c params)
  unfolding register_phone register new_register_transaction
  register_phone_contact opts net recipient c res later params keep h v =
      let origin = new_register_transaction sip recipient c opts in
      let own : contact origin ≡ some c = append_allow_contact opts.allow_headers _ c (
        append_expiry_contact opts.expiry _ c
          (lawful.contact_appended c (codes "REGISTER") recipient)) in
      rw keep (register_contact opts net origin c (contact origin) res later params own own h v)
