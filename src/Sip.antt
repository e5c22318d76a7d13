-- ===== src/Sip.antt =====
-- The package sipgo's messages, a parameter: what the program reads of a response and of a contact, and
-- the operations on requests that it calls. A pointer to a request is the request as it then is.
use sipgox.Prelude.{ℕ, ◌⊎◌, Option, List, [], ◌∷◌, ◌++◌, if◌then◌else◌}
use sipgox.Prelude.Int.{ℤ}
use sipgox.Text.{Text, eq_text}
use sipgox.Outcome.{Outcome, ok, err, diverges, GoError, transaction_died}

-- `sip.ContactHeader`: the host and the port of its address, and the rest of it.
pub record Contact : Type 0 where
  pub host : Text
  pub port : ℤ
  pub rest : Text

-- `sip.Response`: its status, and the parameters of its `Via` header where it has one.
pub record Response : Type 0 where
  pub status : ℕ
  pub via : Option (List (Text × Text))

-- `NewRequest`; `AppendHeader`, `RemoveHeader` and `ReplaceHeader`; `Contact`; what
-- `Client.TransactionRequest` makes of the request that it sends; and what `Client.DoDigestAuth` makes
-- of the request that it sends again, for a response, a user name and a password, or its error.
pub record Sip : Type 1 where
  pub Request : Type 0
  pub new_request : Text → Text → Request
  pub append_contact : Contact → Request → Request
  pub append_header : Text → Text → Request → Request
  pub remove_header : Text → Request → Request
  pub replace_contact : Contact → Request → Request
  pub contact : Request → Option Contact
  pub transmitted : Request → Request
  pub authorized : Request → Response → Text → Text → GoError ⊎ Request

-- `Params.Get`, the empty text where the key is missing.
unfoldable pub get_param : List (Text × Text) → Text → Text
get_param [] key = []
get_param ((k, v) ∷ params) key = if eq_text k key then v else get_param params key

-- What comes of a request: it cannot be sent, its transaction ends, a response comes, or the context is
-- done.
pub data Reply : Type 0 where
  unsent : GoError → Reply
  tx_done : Reply
  responded : Response → Reply
  context_done : GoError → Reply

-- `TransactionRequest`, whose error comes first, and then `getResponse`.
unfoldable pub get_response : Reply → Outcome Response
get_response (unsent e) = err e
get_response tx_done = err transaction_died
get_response (responded res) = ok res
get_response (context_done e) = err e

module _ (sip : Sip) where
  open sip use {Request, transmitted}

  -- The network as the program meets it: the replies to come, one for each request, and the requests that
  -- have been sent.
  pub record Net : Type 0 where
    pub replies : List Reply
    pub sent : List Request

  -- The next reply, to a request that is sent behind the others.
  unfoldable pub reply_to : Request → List Request → List Reply → Net × Outcome Response
  unfolding get_response
  reply_to req sent [] = (record { replies = []; sent = sent ++ req ∷ [] }, diverges)
  reply_to req sent (reply ∷ replies) =
      (record { replies = replies; sent = sent ++ req ∷ [] }, get_response reply)

  -- One request and what comes of it; with no reply to come it waits for ever.
  unfoldable pub exchange : Net → Request → Net × Outcome Response
  unfolding reply_to
  exchange net req = reply_to req net.sent net.replies
