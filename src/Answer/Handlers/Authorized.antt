-- ===== src/Answer/Handlers/Authorized.antt =====
-- An INVITE with the right credentials, two INVITEs without, and a BYE that comes before the ACK.
use sipgox.Prelude.{◌≡◌, refl, ap, ◌∙◌, Bool, Option, none, some, [], ◌∷◌, ◌++◌, if◌then◌else◌}
use sipgox.Text.{codes}
use sipgox.Ip.{Ip6Notation}
use sipgox.Outcome.{ok, panic, GoError}
use sipgox.Ports.{Sockets}
use sipgox.Answer.{AnswerOptions, Invite, Digest, Answered, Answering, pure}
use sipgox.Answer.Authorize.{authorize_invite, plain_response}
use sipgox.Answer.Authorize.Sound.{AsksPassword, HasCredentials}
use sipgox.Answer.Authorize.Replies.{
  new_challenge, challenge_response, authorize_invite_right, authorize_invite_first,
  authorize_invite_second,
}
use sipgox.Answer.Call.{Surroundings}
use sipgox.Answer.Handlers.{
  on_invite, on_invite_with, without_dialog, read_invite, on_bye, answer_result, taken_result,
  ended_result, exit_result, answered_dialog,
}

module _ {n : Sockets} (v6 : Ip6Notation) (g : Digest) (opts : AnswerOptions) where
  -- An INVITE without a dialog, for which it is known whether it may go on.
  checked_invite :
      (env : Surroundings) (read_error : Option GoError) (req : Invite) (s : Answering n)
      {may_go_on : Bool} {s' : Answering n}
      → s.dialog ≡ none
      → authorize_invite g env.respond opts env.nonce req s ≡ (ok may_go_on, s')
      → on_invite v6 g opts env read_error req s
        ≡ (if may_go_on then read_invite v6 opts env read_error req else pure tt) s'
  unfolding on_invite on_invite_with without_dialog
  checked_invite env read_error req s no_dialog h =
      ap (λ d. on_invite_with v6 g opts env read_error req d s) no_dialog ∙ rw h refl

  -- Where a password is set, there is no registrar and there is no dialog, an INVITE whose credentials match
  -- the challenge goes on to `ReadInvite` with nothing changed.
  pub on_invite_authorized :
      (env : Surroundings) (read_error : Option GoError) (req : Invite) (s : Answering n)
      → AsksPassword opts
      → s.dialog ≡ none
      → HasCredentials g opts s.challenge req
      → on_invite v6 g opts env read_error req s ≡ read_invite v6 opts env read_error req s
  on_invite_authorized env read_error req s asks no_dialog right =
      checked_invite env read_error req s no_dialog
        (authorize_invite_right g env.respond opts asks env.nonce req s right)

  -- Where a password is set, there is no registrar, there is neither a dialog nor a challenge and responses
  -- can be sent, the first of two INVITEs without credentials gets a 401 with a challenge, and the second,
  -- whoever sent it, gets a 403 and no challenge.
  pub on_invite_twice :
      (env env' : Surroundings) (e e' : Option GoError) (req req' : Invite) (s : Answering n)
      → AsksPassword opts
      → ((res : Answered) → env.respond res ≡ none)
      → ((res : Answered) → env'.respond res ≡ none)
      → s.dialog ≡ none
      → s.challenge ≡ none
      → req.authorization ≡ none
      → req'.authorization ≡ none
      → let chal = new_challenge s.realm env.nonce in
        on_invite v6 g opts env' e' req' (on_invite v6 g opts env e req s).1 ≡ (
          ok tt,
          record s {
            realm = chal.realm;
            challenge = some chal;
            responses =
                (s.responses ++ challenge_response chal ∷ [])
                ++ plain_response 403 (codes "Forbidden") ∷ [];
          },
        )
  on_invite_twice env env' e e' req req' s asks responds responds' no_dialog no_challenge no_header
        no_header' =
      ap (λ x. on_invite v6 g opts env' e' req' x.1)
        (checked_invite env e req s no_dialog (
          authorize_invite_first g env.respond opts asks env.nonce req s no_challenge no_header
            responds))
      ∙ checked_invite env' e' req' _ no_dialog (
          authorize_invite_second g env'.respond opts asks env'.nonce req' _ refl no_header'
            responds')

-- A BYE that is read before a dialog was delivered, with no error before it, ends `answer` without a dialog
-- and without an error, and `Answer` panics on the response of that dialog, unless the caller ended it.
pub answered_dialog-on_bye :
    {n : Sockets} (s : Answering n)
    → s.delivered ≡ none
    → s.exit_error ≡ none
    → answered_dialog (answer_result none (on_bye none s).1) ≡ panic
unfolding answered_dialog answer_result on_bye taken_result ended_result exit_result
answered_dialog-on_bye s no_dialog no_error = rw (no_dialog, no_error) refl
