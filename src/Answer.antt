-- ===== src/Answer.antt =====
-- phone.go's `answer`: the state that its handlers share, and the monad in which they run. The handlers
-- are in the children.
pub mod Authorize
pub mod Backed
pub mod Call
pub mod Handlers
pub mod Start
use sipgox.Prelude.{ℕ, Bool, true, false, Option, none, some, List, [], ◌∷◌, ◌++◌, ◌⊎◌}
use sipgox.Text.{Text}
use sipgox.Ip.{Ip}
use sipgox.Outcome.{Outcome, ok, err, panic, diverges, GoError}
use sipgox.MediaSession.{MediaSession}
use sipgox.Ports.{Sockets, PortRange}

pub record AnswerOptions : Type 0 where
  pub ringtime : ℕ
  pub sip_headers : List (Text × Text)
  pub username : Text
  pub password : Text
  pub register_addr : Text
  pub formats : List Text
  pub answer_code : ℕ

-- What the handlers read of an INVITE: the id of its dialog, its `Authorization` header, its content type
-- and its body.
pub record Invite : Type 0 where
  pub dialog_id : Text
  pub authorization : Option Text
  pub content_type : Option Text
  pub body : Text

-- `digest.Challenge`: the fields that differ.
pub record Challenge : Type 0 where
  pub realm : Text
  pub nonce : Text

-- The package digest: `ParseCredentials`, their `Response`, and the response that `Digest` computes of a
-- challenge, which may be nil, a user name, a password and the URI of the credentials.
pub record Digest : Type 1 where
  pub Credentials : Type 0
  pub parse_credentials : Text → GoError ⊎ Credentials
  pub response : Credentials → Text
  pub compute : Option Challenge → Text → Text → Credentials → Outcome Text

-- A response that has been sent.
pub record Answered : Type 0 where
  pub status : ℕ
  pub reason : Text
  pub www_authenticate : Option Challenge
  pub headers : List (Text × Text)
  pub sdp : Text

-- `DialogServerSession`: without media where the call was not answered by 200.
pub record ServerDialog : Type 0 where
  pub id : Text
  pub media : Option MediaSession

module _ (n : Sockets) where
  -- The variables that the handlers share: `d`, `chal`, `exitErr`, whether `stopAnswer` has run, the
  -- fields of the options that they write, what has been sent, what has passed through `waitDialog`, and
  -- the sockets and the range of ports of the process.
  pub record Answering : Type 0 where
    pub dialog : Option ServerDialog
    pub challenge : Option Challenge
    pub exit_error : Option GoError
    pub stopped : Bool
    pub realm : Text
    pub reason : Text
    pub responses : List Answered
    pub delivered : Option (Option ServerDialog)
    pub world : n.World
    pub ports : PortRange

  -- What is written stays written where an error is returned.
  abbrev pub Handler : Type 0 → Type 0
  Handler A = Answering → Outcome A × Answering

module _ {n : Sockets} where
  module _ {A : Type 0} where
    abbrev pub pure : A → Handler n A
    pure a s = (ok a, s)

    abbrev pub raise : GoError → Handler n A
    raise e s = (err e, s)

  -- A call, and what follows it.
  abbrev pub then_do :
      {A B : Type 0} → Outcome A × Answering n → (A → Handler n B) → Outcome B × Answering n
  then_do (ok a, s) f = f a s
  then_do (err e, s) f = (err e, s)
  then_do (panic, s) f = (panic, s)
  then_do (diverges, s) f = (diverges, s)

  infixl 5 ◌>>=◌ ◌>>◌
  abbrev pub ◌>>=◌ : {A B : Type 0} → Handler n A → (A → Handler n B) → Handler n B
  ◌>>=◌ m f s = then_do (m s) f

  abbrev pub ◌>>◌ : {A B : Type 0} → Handler n A → Handler n B → Handler n B
  m >> k = m >>= λ _. k

  abbrev pub modify : (Answering n → Answering n) → Handler n (Unit {0})
  modify f s = (ok tt, f s)

  -- `exitError` and `stopAnswer`.
  abbrev pub exit_with : GoError → Answering n → Answering n
  exit_with e s = record s { exit_error = some e; stopped = true }

  -- A response that is sent, or whose sending has an error, as the surroundings have it.
  unfoldable pub sent_or : Option GoError → Answered → Handler n (Unit {0})
  sent_or none res s = (ok tt, record s { responses = s.responses ++ res ∷ [] })
  sent_or (some e) res s = (err e, s)

  -- `tx.Respond` with its error dropped or only logged.
  unfoldable pub try_response : (Answered → Option GoError) → Answered → Answering n → Answering n
  unfolding sent_or
  try_response respond res s = (sent_or (respond res) res s).1
