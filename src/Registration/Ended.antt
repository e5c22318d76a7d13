-- ===== src/Registration/Ended.antt =====
-- An unregistering ends: what it sends first, and that it returns.
use mathlib.Core.List.{append_assoc}
use sipgox.Prelude.{◌≡◌, ◌⊎◌, inl, inr, ap, ◌∙◌, List, [], ◌∷◌, ◌++◌, Bool-cases, ◌==◌}
use sipgox.Outcome.{Outcome, ok, err, GoError}
use sipgox.Text.{codes}
use sipgox.Sip.{
  Response, Sip, Net, Reply, unsent, tx_done, responded, context_done, exchange, reply_to,
  get_response,
}
use sipgox.Registration.{
  RegisterOptions, is_challenge, accepted, finished, sent_again, authenticate, reregister,
  again_response, unregister, unregistering,
}
use sipgox.Registration.Requests.{exchange_sent, again_response_sent}

-- The result of a call that ends: no error, or an error.
pub data Returned : Outcome (Unit {0}) → Type 0 where
  without_error : Returned (ok tt)
  with_error : (e : GoError) → Returned (err e)

accepted-Returned : (res : Response) → Returned (accepted res)
unfolding accepted
accepted-Returned res = elim (Bool-cases (res.status == 200)) [
  | inl fine ↦ rw fine without_error
  | inr other ↦ rw other (with_error _)
]

module _ (sip : Sip) where
  open sip use {Request, transmitted, authorized, remove_header}

  finished-Returned :
      (req : Request) (sent : List Request) (reply : Reply) (replies : List Reply)
      → Returned (finished sip req (reply_to sip req sent (reply ∷ replies))).2
  unfolding finished reply_to get_response
  finished-Returned req sent (unsent e) replies = with_error e
  finished-Returned req sent tx_done replies = with_error _
  finished-Returned req sent (responded res) replies = accepted-Returned res
  finished-Returned req sent (context_done e) replies = with_error e

  sent_again-Returned :
      (sent : List Request) (reply : Reply) (replies : List Reply) (req : Request)
      (r : GoError ⊎ Request)
      → Returned (sent_again sip (record { replies = reply ∷ replies; sent = sent }) req r).2
  unfolding sent_again exchange
  sent_again-Returned sent reply replies req (inl e) = with_error e
  sent_again-Returned sent reply replies req (inr again) =
      finished-Returned again sent reply replies

  authenticate-Returned :
      (opts : RegisterOptions) (sent : List Request) (reply : Reply) (replies : List Reply)
      (req : Request) (res : Response)
      → Returned
          (authenticate sip opts (record { replies = reply ∷ replies; sent = sent }) req res).2
  unfolding authenticate
  authenticate-Returned opts sent reply replies req res =
      elim (Bool-cases (is_challenge res.status)) [
        | inl challenge ↦ rw challenge (sent_again-Returned sent reply replies req _)
        | inr other ↦ rw other (accepted-Returned res)
      ]

  again_response-Returned :
      (opts : RegisterOptions) (req : Request) (sent : List Request) (first second : Reply)
      (later : List Reply)
      → Returned (again_response sip opts req (reply_to sip req sent (first ∷ second ∷ later))).2
  unfolding again_response reply_to get_response
  again_response-Returned opts req sent (unsent e) second later = with_error e
  again_response-Returned opts req sent tx_done second later = with_error _
  again_response-Returned opts req sent (responded res) second later =
      authenticate-Returned opts (sent ++ req ∷ []) second later req res
  again_response-Returned opts req sent (context_done e) second later = with_error e

  -- `Unregister` returns where two replies are to come.
  pub unregister-Returned :
      (opts : RegisterOptions) (sent : List Request) (first second : Reply) (later : List Reply)
      (origin : Request)
      → Returned
          (unregister sip opts (record { replies = first ∷ second ∷ later; sent = sent }) origin).2
  unfolding unregister reregister exchange
  unregister-Returned opts sent first second later origin =
      again_response-Returned opts _ sent first second later

  -- The unregistering request is the first that `Unregister` sends.
  pub unregister_sends :
      (opts : RegisterOptions) (net : Net sip) (origin : Request)
      → let req = transmitted (remove_header (codes "Via") (unregistering sip origin)) in
        (new : List Request) × ((unregister sip opts net origin).0.sent ≡ net.sent ++ req ∷ new)
  unfolding unregister reregister
  unregister_sends opts net origin =
      let req = transmitted (remove_header (codes "Via") (unregistering sip origin)) in
      let (new, after, few) = again_response_sent sip opts req (exchange sip net req) in
      (
        new,
        after
            ∙ ap (λ l. l ++ new) (exchange_sent sip net req)
            ∙ append_assoc net.sent (req ∷ []) new,
      )
