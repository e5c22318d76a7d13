-- ===== src/Registration/Rounds.antt =====
-- The replies on which a registration succeeds.
use sipgox.Prelude.{
  ◌≡◌, ◌≢◌, ◌⊎◌, inl, inr, refl, ap, true, Option, none, some, List, [], ◌∷◌, arith, Bool-cases,
}
use sipgox.Outcome.{ok, GoError}
use sipgox.Text.{Text}
use sipgox.Sip.{
  Contact, Response, Sip, Net, Reply, unsent, tx_done, responded, context_done, exchange, reply_to,
  get_response,
}
use sipgox.Registration.{
  RegisterOptions, is_challenge, accepted, finished, sent_again, authenticate, with_via,
  first_response, from_contact, register,
}

-- The replies on which a registration succeeds: a 200 at once, or a challenge and then a 200; the first
-- response has a `Via` header.
pub data Succeeds (replies : List Reply) : Type 0 where
  at_once :
      (res : Response) (later : List Reply)
      → replies ≡ responded res ∷ later
      → res.via ≢ none
      → res.status ≡ 200
      → Succeeds replies
  challenged :
      (res last : Response) (later : List Reply)
      → replies ≡ responded res ∷ responded last ∷ later
      → res.via ≢ none
      → is_challenge res.status ≡ true
      → last.status ≡ 200
      → Succeeds replies

accepted_ok : (res : Response) → accepted res ≡ ok tt → res.status ≡ 200
unfolding accepted
accepted_ok res h = ground arith

module _ (sip : Sip) where
  open sip use {Request, transmitted, authorized, contact}

  finished_ok :
      (req : Request) (sent : List Request) (replies : List Reply)
      → (finished sip req (reply_to sip req sent replies)).2 ≡ ok tt
      → (last : Response) × (later : List Reply) × (replies ≡ responded last ∷ later)
        × (last.status ≡ 200)
  unfolding finished reply_to get_response
  finished_ok req sent [] h = cc
  finished_ok req sent (unsent e ∷ replies) h = cc
  finished_ok req sent (tx_done ∷ replies) h = cc
  finished_ok req sent (responded last ∷ replies) h = (last, replies, refl, accepted_ok last h)
  finished_ok req sent (context_done e ∷ replies) h = cc

  sent_again_ok :
      (net : Net sip) (req : Request) (r : GoError ⊎ Request)
      → (sent_again sip net req r).2 ≡ ok tt
      → (last : Response) × (later : List Reply) × (net.replies ≡ responded last ∷ later)
        × (last.status ≡ 200)
  unfolding sent_again exchange
  sent_again_ok net req (inl e) h = cc
  sent_again_ok net req (inr again) h = finished_ok again net.sent net.replies h

  with_via_ok :
      (opts : RegisterOptions) (sent : List Request) (later : List Reply) (req : Request)
      (c : Contact) (res : Response) (via : Option (List (Text × Text)))
      → res.via ≡ via
      → (with_via sip opts (record { replies = later; sent = sent }) req c res via).2 ≡ ok tt
      → Succeeds (responded res ∷ later)
  unfolding with_via authenticate
  with_via_ok opts sent later req c res none e h = cc
  with_via_ok opts sent later req c res (some params) e h =
      elim (Bool-cases (is_challenge res.status)) [
        | inl challenge ↦
            let (last, more, at, fine) = sent_again_ok _ _ _ (rw challenge at h) in
            challenged res last more (ap (λ l. responded res ∷ l) at) (λ n. cc) challenge fine
        | inr other ↦ at_once res later refl (λ n. cc) (accepted_ok res (rw other at h))
      ]

  first_response_ok :
      (opts : RegisterOptions) (req : Request) (c : Contact) (sent : List Request)
      (replies : List Reply)
      → (first_response sip opts req c (reply_to sip req sent replies)).2 ≡ ok tt
      → Succeeds replies
  unfolding first_response reply_to get_response
  first_response_ok opts req c sent [] h = cc
  first_response_ok opts req c sent (unsent e ∷ replies) h = cc
  first_response_ok opts req c sent (tx_done ∷ replies) h = cc
  first_response_ok opts req c sent (responded res ∷ replies) h =
      with_via_ok opts _ replies req c res res.via refl h
  first_response_ok opts req c sent (context_done e ∷ replies) h = cc

  from_contact_ok :
      (opts : RegisterOptions) (net : Net sip) (origin : Request) (c : Option Contact)
      → (from_contact sip opts net origin c).2 ≡ ok tt
      → Succeeds net.replies
  unfolding from_contact exchange
  from_contact_ok opts net origin none h = cc
  from_contact_ok opts net origin (some c) h = first_response_ok opts _ c net.sent net.replies h

  -- `Register` returns no error only where the registrar has accepted: its first response has a `Via`
  -- header, and is a 200, or a challenge that a 200 follows.
  pub register-Succeeds :
      (opts : RegisterOptions) (net : Net sip) (origin : Request)
      → (register sip opts net origin).2 ≡ ok tt
      → Succeeds net.replies
  unfolding register
  register-Succeeds opts net origin h = from_contact_ok opts net origin (contact origin) h
