-- ===== src/Dialog.antt =====
-- dialog_server.go and dialog_client.go: the requests within a call. The messages are the package
-- sipgo's; of their headers this keeps those that the code reads and writes, in the order in which it
-- appends them. A header that is absent is `none`; `From`, `To` and `CallID` of a message without one
-- are read through a nil pointer, so messages here have them.
pub mod Requests
pub mod Transfer
use sipgox.Prelude.{
  ◌⊎◌, inl, inr, ℕ, Bool, true, false, not, Option, none, some, List, [], ◌∷◌, ◌++◌, ◌==◌,
  if◌then◌else◌,
}
use sipgox.Text.{Text, codes, eq_text, has_prefix}
use sipgox.Outcome.{
  Outcome, ok, err, diverges, GoError, dialog_does_not_exist, no_body, not_200, dialog_response,
}

-- The part that `sip.FromHeader` and `sip.ToHeader` share.
pub record Party : Type 0 where
  pub display_name : Text
  pub address : Text
  pub params : List (Text × Text)

pub data Header : Type 0 where
  from_header to_header : Party → Header
  call_id_header : Text → Header
  contact_header : Text → Header
  refer_to_header : Text → Header

-- What the code reads of an earlier request or response.
pub record Message : Type 0 where
  pub from : Party
  pub to : Party
  pub call_id : Text
  pub contact : Option Text

append_contact : List Header → Option Text → List Header
append_contact req none = req
append_contact req (some c) = req ++ contact_header c ∷ []

-- The party that the new request is to: that of the response, where there is one.
updated_to : Message → Option Message → Party
updated_to last_req none = last_req.to
updated_to last_req (some last_resp) = last_resp.to

unfoldable pub uac_request_build : List Header → Message → Option Message → List Header
unfolding append_contact updated_to
uac_request_build req last_req last_resp =
    append_contact
      (req
        ++ (from_header last_req.from
            ∷ to_header (updated_to last_req last_resp)
            ∷ call_id_header last_req.call_id
            ∷ []))
      last_req.contact

unfoldable pub uas_request_build : List Header → Message → List Header
unfolding append_contact
uas_request_build req last_resp =
    append_contact
      (req
        ++ (from_header last_resp.to
            ∷ to_header last_resp.from
            ∷ call_id_header last_resp.call_id
            ∷ []))
      last_resp.contact

-- What ends the wait for the answer to a request.
pub data Event : Type 0 where
  done : Option GoError → Event  -- `tx.Done()`, with `tx.Err()`
  response : ℕ → Event  -- a response, with its status
  context_done : Option GoError → Event  -- `ctx.Done()`, with what `tx.Cancel()` returns

-- What a `Refer` sends.
pub data Action : Type 0 where
  refer_to_uri : Text → List Header → Action
  bye : Action

-- An error that may be nil.
abbrev pub returned : Option GoError → Outcome (Unit {0})
returned none = ok tt
returned (some e) = err e

-- The `select` of both `Refer`s: how it ends, and whether the response was 202.
unfoldable pub answered : Event → Bool × Outcome (Unit {0})
answered (done e) = (false, returned e)
answered (response status) =
    if status == 202 then (true, ok tt) else (false, err (dialog_response status))
answered (context_done e) = (false, returned e)

-- `TransactionRequest` fails, or leads to an event.
unfoldable pub sent : GoError ⊎ Event → Bool × Outcome (Unit {0})
unfolding answered
sent (inl e) = (false, err e)
sent (inr event) = answered event

-- `DialogClientSession.Refer`, to the recipient of the INVITE.
unfoldable pub refer_client :
    Text → Message → Option Message → Text → GoError ⊎ Event → List Action × Outcome (Unit {0})
unfolding uac_request_build sent
refer_client recipient invite answer refer_to tx =
    let req = uac_request_build [] invite answer ++ refer_to_header refer_to ∷ [] in
    (refer_to_uri recipient req ∷ [], (sent tx).1)

then_hangup : Bool × Outcome (Unit {0}) → Outcome (Unit {0}) → List Action × Outcome (Unit {0})
then_hangup (true, r) hangup = (bye ∷ [], hangup)
then_hangup (false, r) hangup = ([], r)

-- `DialogServerSession.Refer`, to the contact of the INVITE; `hangup` is how the `Bye` ends that
-- follows a response 202. The wait for a NOTIFY behind it is not reached.
unfoldable pub refer_server :
    Text → Message → Text → GoError ⊎ Event → Outcome (Unit {0}) → List Action × Outcome (Unit {0})
unfolding uas_request_build sent then_hangup
refer_server contact last_resp refer_to tx hangup =
    let req = uas_request_build [] last_resp ++ refer_to_header refer_to ∷ [] in
    let (after, r) = then_hangup (sent tx) hangup in (refer_to_uri contact req ∷ after, r)

-- The last `select` of `Notify`: a waiter takes the result, the dialog ends first, or neither comes. `Refer` returns
-- in front of its wait, so that nothing ever takes the result of a dialog.
pub data Delivery : Type 0 where
  taken : Delivery
  dialog_ended : GoError → Delivery
  never_ends : Delivery

deliver : Option GoError → Delivery → Option (Option GoError) × Outcome (Unit {0})
deliver e taken = (some e, ok tt)
deliver e (dialog_ended reason) = (none, err reason)
deliver e never_ends = (none, diverges)

-- `strings.HasPrefix("SIP/2.0 200", string(req.Body()))`: the literal is the text, the body the prefix.
unfoldable pub notified : Text → Option GoError
notified body = if has_prefix (codes "SIP/2.0 200") body then none else some not_200

with_body : Option Text → Delivery → Option (Option GoError) × Outcome (Unit {0})
unfolding deliver notified
with_body none delivery = (none, err no_body)
with_body (some body) delivery =
    if has_prefix (codes "SIP/2.0 1") body then (none, ok tt) else deliver (notified body) delivery

-- `Notify`, of a dialog with the call id `own`: what it passes to the waiter, and what it returns.
unfoldable pub notify :
    Text → Text → Option Text → Delivery → Option (Option GoError) × Outcome (Unit {0})
unfolding with_body
notify own call_id body delivery =
    if eq_text call_id own then with_body body delivery else (none, err dialog_does_not_exist)
