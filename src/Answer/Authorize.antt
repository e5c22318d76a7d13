-- ===== src/Answer/Authorize.antt =====
-- phone.go's `answer`: the part of the handler of INVITE that authorizes a caller.
pub mod Replies
pub mod Sound
use sipgox.Prelude.{
  ℕ, Bool, true, false, not, ◌&&◌, Option, none, some, List, [], ◌∷◌, ◌==◌, ◌⊎◌, inl, inr,
  if◌then◌else◌,
}
use sipgox.Text.{Text, codes, eq_text}
use sipgox.Outcome.{Outcome, ok, err, panic, diverges, GoError}
use sipgox.Ports.{Sockets}
use sipgox.Answer.{
  AnswerOptions, Invite, Challenge, Digest, Answered, Answering, Handler, try_response,
}

abbrev pub plain_response : ℕ → Text → Answered
plain_response status reason = record {
  status = status;
  reason = reason;
  www_authenticate = none;
  headers = [];
  sdp = [];
}

-- The default realm.
unfoldable pub realm_or_default : Text → Text
realm_or_default [] = codes "sipgo"
realm_or_default (c ∷ cs) = c ∷ cs

module _ {n : Sockets} (respond : Answered → Option GoError) where
  -- An INVITE without credentials: a challenge, or 403 where there has been one already. `nonce` is the
  -- time in microseconds.
  pub without_credentials : Text → Option Challenge → Answering n → Answering n
  unfolding realm_or_default
  without_credentials nonce (some chal) s =
      try_response respond (plain_response 403 (codes "Forbidden")) s
  without_credentials nonce none s =
      let realm = realm_or_default s.realm in
      let chal : Challenge = record { realm = realm; nonce = nonce } in
      try_response respond
        (record (plain_response 401 (codes "Unathorized")) { www_authenticate = some chal })
        (record s { realm = realm; challenge = some chal })

module _ {n : Sockets} (g : Digest) (respond : Answered → Option GoError) where
  open g use {Credentials}

  -- The comparison of the two responses.
  pub with_digest : Credentials → Outcome Text → Handler n Bool
  with_digest cred (ok expected) s =
      if eq_text (g.response cred) expected
      then (ok true, s)
      else (ok false, try_response respond (plain_response 401 (codes "Unathorized")) s)
  with_digest cred (err e) s =
      (ok false, try_response respond (plain_response 401 (codes "Bad credentials")) s)
  with_digest cred panic s = (panic, s)
  with_digest cred diverges s = (diverges, s)

  pub with_parsed : AnswerOptions → GoError ⊎ Credentials → Handler n Bool
  unfolding with_digest
  with_parsed opts (inl e) s =
      (ok false, try_response respond (plain_response 401 (codes "Bad credentials")) s)
  with_parsed opts (inr cred) s =
      with_digest cred (g.compute s.challenge opts.username opts.password cred) s

  pub with_header : AnswerOptions → Text → Option Text → Handler n Bool
  unfolding with_parsed without_credentials
  with_header opts nonce none s = (ok false, without_credentials respond nonce s.challenge s)
  with_header opts nonce (some h) s = with_parsed opts (g.parse_credentials h) s

  -- Whether the INVITE may go on. A password is asked for only without a registrar.
  unfoldable pub authorize_invite : AnswerOptions → Text → Invite → Handler n Bool
  unfolding with_header
  authorize_invite opts nonce req s =
      if not (eq_text opts.password []) && eq_text opts.register_addr []
      then with_header opts nonce req.authorization s
      else (ok true, s)
