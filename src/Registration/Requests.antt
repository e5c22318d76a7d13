-- ===== src/Registration/Requests.antt =====
-- How many requests a registration sends, and the contact that it leaves in the origin.
use mathlib.Core.List.{append_assoc, append-nil}
use sipgox.Prelude.{
  ℕ, ◌≤◌, ◌≡◌, ◌⊎◌, inl, inr, refl, ap, sym, ◌∙◌, Option, none, some, List, [], ◌∷◌, ◌++◌, arith,
  length, Bool-cases,
}
use sipgox.Outcome.{Outcome, ok, err, panic, diverges, GoError}
use sipgox.Text.{Text, codes}
use sipgox.Sip.{Contact, Response, Sip, Net, Reply, exchange, reply_to}
use sipgox.Registration.{
  RegisterOptions, is_challenge, finished, sent_again, authenticate, with_via, first_response,
  from_contact, register, reregister, again_response, unregister, unregistering,
}

module _ (sip : Sip) where
  open sip use {Request, transmitted, authorized, contact, remove_header, replace_contact}

  -- No more than `k` requests have been sent since.
  abbrev pub SentWithin : ℕ → Net sip → Net sip → Type 0
  SentWithin k net net' = (new : List Request) × (net'.sent ≡ net.sent ++ new) × (length new ≤ k)

  pub exchange_sent :
      (net : Net sip) (req : Request) → (exchange sip net req).0.sent ≡ net.sent ++ req ∷ []
  unfolding exchange
  exchange_sent net req = reply_to_sent req net.sent net.replies
    where
      reply_to_sent :
          (req : Request) (sent : List Request) (replies : List Reply)
          → (reply_to sip req sent replies).0.sent ≡ sent ++ req ∷ []
      reply_to_sent req sent [] = refl
      reply_to_sent req sent (reply ∷ replies) = refl

  finished_sent : (req : Request) (x : Net sip × Outcome Response) → (finished sip req x).0 ≡ x.0
  unfolding finished
  finished_sent req (net, ok res) = refl
  finished_sent req (net, err e) = refl
  finished_sent req (net, panic) = refl
  finished_sent req (net, diverges) = refl

  sent_again_sent :
      (net : Net sip) (req : Request) (r : GoError ⊎ Request)
      → SentWithin 1 net (sent_again sip net req r).0
  unfolding sent_again
  sent_again_sent net req (inl e) = ([], sym (append-nil net.sent), omega arith)
  sent_again_sent net req (inr again) = (
    again ∷ [],
    ap (λ n. n.sent) (finished_sent again (exchange sip net again)) ∙ exchange_sent net again,
    omega arith,
  )

  authenticate_sent :
      (opts : RegisterOptions) (net : Net sip) (req : Request) (res : Response)
      → SentWithin 1 net (authenticate sip opts net req res).0
  unfolding authenticate
  authenticate_sent opts net req res = elim (Bool-cases (is_challenge res.status)) [
    | inl challenge ↦ rw challenge (sent_again_sent net req _)
    | inr other ↦ rw other ([], sym (append-nil net.sent), omega arith)
  ]

  with_via_sent :
      (opts : RegisterOptions) (net : Net sip) (req : Request) (c : Contact) (res : Response)
      (via : Option (List (Text × Text)))
      → SentWithin 1 net (with_via sip opts net req c res via).0
  unfolding with_via
  with_via_sent opts net req c res none = ([], sym (append-nil net.sent), omega arith)
  with_via_sent opts net req c res (some params) = authenticate_sent opts net _ res

  first_response_sent :
      (opts : RegisterOptions) (req : Request) (c : Contact) (x : Net sip × Outcome Response)
      → SentWithin 1 x.0 (first_response sip opts req c x).0
  unfolding first_response
  first_response_sent opts req c (net, ok res) = with_via_sent opts net req c res res.via
  first_response_sent opts req c (net, err e) = ([], sym (append-nil net.sent), omega arith)
  first_response_sent opts req c (net, panic) = ([], sym (append-nil net.sent), omega arith)
  first_response_sent opts req c (net, diverges) = ([], sym (append-nil net.sent), omega arith)

  -- A request, and no more than one behind it.
  sent_after :
      (net net' net'' : Net sip) (req : Request)
      → net'.sent ≡ net.sent ++ req ∷ []
      → SentWithin 1 net' net''
      → SentWithin 2 net net''
  sent_after net net' net'' req e (new, f, few) =
      (req ∷ new, f ∙ ap (λ l. l ++ new) e ∙ append_assoc net.sent (req ∷ []) new, omega arith)

  from_contact_sent :
      (opts : RegisterOptions) (net : Net sip) (origin : Request) (c : Option Contact)
      → SentWithin 2 net (from_contact sip opts net origin c).0
  unfolding from_contact
  from_contact_sent opts net origin none = ([], sym (append-nil net.sent), omega arith)
  from_contact_sent opts net origin (some c) =
      let req = transmitted origin in
      let x = exchange sip net req in
      sent_after net x.0 (first_response sip opts req c x).0 req (exchange_sent net req)
        (first_response_sent opts req c x)

  pub again_response_sent :
      (opts : RegisterOptions) (req : Request) (x : Net sip × Outcome Response)
      → SentWithin 1 x.0 (again_response sip opts req x).0
  unfolding again_response
  again_response_sent opts req (net, ok res) = authenticate_sent opts net req res
  again_response_sent opts req (net, err e) = ([], sym (append-nil net.sent), omega arith)
  again_response_sent opts req (net, panic) = ([], sym (append-nil net.sent), omega arith)
  again_response_sent opts req (net, diverges) = ([], sym (append-nil net.sent), omega arith)

  -- `Register` and `Unregister` each send no more than two requests, whatever the registrar replies, so
  -- that a refused password is not tried again.
  pub register_sent :
      (opts : RegisterOptions) (net : Net sip) (origin : Request)
      → SentWithin 2 net (register sip opts net origin).0
        × SentWithin 2 net (unregister sip opts net origin).0
  unfolding register unregister reregister
  register_sent opts net origin =
      let req = transmitted (remove_header (codes "Via") (unregistering sip origin)) in
      let x = exchange sip net req in
      (
        from_contact_sent opts net origin (contact origin),
        sent_after net x.0 (again_response sip opts req x).0 req (exchange_sent net req)
            (again_response_sent opts req x),
      )
