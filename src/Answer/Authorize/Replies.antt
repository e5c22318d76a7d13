-- ===== src/Answer/Authorize/Replies.antt =====
-- What each INVITE is told, where a password is asked for.
use sipgox.Prelude.{◌≡◌, refl, ap, ◌∙◌, true, false, Option, none, some, [], ◌∷◌, ◌++◌}
use sipgox.Text.{Text, codes}
use sipgox.Text.Lemmas.{eq_text_refl}
use sipgox.Outcome.{ok, GoError}
use sipgox.Ports.{Sockets}
use sipgox.Answer.{
  AnswerOptions, Invite, Challenge, Digest, Answered, Answering, sent_or, try_response,
}
use sipgox.Answer.Authorize.{
  plain_response, realm_or_default, authorize_invite, with_header, with_parsed, with_digest,
  without_credentials,
}
use sipgox.Answer.Authorize.Sound.{AsksPassword, HasCredentials}

-- The challenge that is kept and sent.
abbrev pub new_challenge : Text → Text → Challenge
new_challenge realm nonce = record { realm = realm_or_default realm; nonce = nonce }

abbrev pub challenge_response : Challenge → Answered
challenge_response chal = record (plain_response 401 (codes "Unathorized")) {
  www_authenticate = some chal;
}

try_response_sent :
    {n : Sockets} (respond : Answered → Option GoError) (res : Answered) (s : Answering n)
    → respond res ≡ none
    → try_response respond res s ≡ record s { responses = s.responses ++ res ∷ [] }
unfolding try_response sent_or
try_response_sent respond res s h = ap (λ e. (sent_or e res s).1) h

module _ {n : Sockets} (g : Digest) (respond : Answered → Option GoError) (opts : AnswerOptions)
    (asks : AsksPassword opts) where
  asked :
      (nonce : Text) (req : Invite) (s : Answering n)
      → authorize_invite g respond opts nonce req s
        ≡ with_header g respond opts nonce req.authorization s
  unfolding authorize_invite
  asked nonce req s = rw (asks.0, asks.1) refl

  pub authorize_invite_right :
      (nonce : Text) (req : Invite) (s : Answering n)
      → HasCredentials g opts s.challenge req
      → authorize_invite g respond opts nonce req s ≡ (ok true, s)
  unfolding with_header with_parsed with_digest
  authorize_invite_right nonce req s c =
      asked nonce req s ∙ rw c.has_header (rw c.parsed (rw c.matches (rw (eq_text_refl _) refl)))

  pub authorize_invite_first :
      (nonce : Text) (req : Invite) (s : Answering n)
      → s.challenge ≡ none
      → req.authorization ≡ none
      → ((res : Answered) → respond res ≡ none)
      → authorize_invite g respond opts nonce req s ≡ (
        ok false,
        record s {
          realm = realm_or_default s.realm;
          challenge = some (new_challenge s.realm nonce);
          responses = s.responses ++ challenge_response (new_challenge s.realm nonce) ∷ [];
        },
      )
  unfolding with_header without_credentials
  authorize_invite_first nonce req s no_challenge no_header responds =
      asked nonce req s
      ∙ rw no_header (
          ap (λ c. (ok false, without_credentials respond nonce c s)) no_challenge
          ∙ ap (λ t. (ok false, t)) (try_response_sent respond _ _ (responds _)))

  pub authorize_invite_second :
      (nonce : Text) (req : Invite) (s : Answering n) {chal : Challenge}
      → s.challenge ≡ some chal
      → req.authorization ≡ none
      → ((res : Answered) → respond res ≡ none)
      → authorize_invite g respond opts nonce req s ≡ (
        ok false,
        record s { responses = s.responses ++ plain_response 403 (codes "Forbidden") ∷ [] },
      )
  unfolding with_header without_credentials
  authorize_invite_second nonce req s {chal} has_challenge no_header responds =
      asked nonce req s
      ∙ rw no_header (
          ap (λ c. (ok false, without_credentials respond nonce c s)) has_challenge
          ∙ ap (λ t. (ok false, t)) (try_response_sent respond _ _ (responds _)))
