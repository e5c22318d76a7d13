-- ===== src/Answer/Authorize/Sound.antt =====
-- Who is authorized, and what the others get.
use sipgox.Prelude.{
  if◌then◌else◌, not, ◌&&◌, ◌≡◌, ◌≢◌, ◌⊎◌, inl, inr, refl, ap, sym, ◌∙◌, Bool, true, false, Option,
  none, some, [], ◌∷◌, ◌++◌, Bool-cases,
}
use sipgox.Text.{Text, codes, eq_text}
use sipgox.Text.Lemmas.{eq_text_iff}
use sipgox.Outcome.{Outcome, ok, err, panic, diverges, GoError}
use sipgox.Ports.{Sockets}
use sipgox.Answer.{
  AnswerOptions, Invite, Challenge, Digest, Answered, Answering, sent_or, try_response,
}
use sipgox.Answer.Authorize.{
  plain_response, authorize_invite, with_header, with_parsed, with_digest, without_credentials,
}

-- A password is set, and there is no registrar.
abbrev pub AsksPassword : AnswerOptions → Type 0
AsksPassword opts = (eq_text opts.password [] ≡ false) × (eq_text opts.register_addr [] ≡ true)

-- The INVITE has credentials whose response is the one that the challenge wants.
pub record HasCredentials (g : Digest) (opts : AnswerOptions) (chal : Option Challenge)
    (req : Invite) : Type 0 where
  pub header : Text
  pub credentials : g.Credentials
  pub has_header : req.authorization ≡ some header
  pub parsed : g.parse_credentials header ≡ inr credentials
  pub matches : g.compute chal opts.username opts.password credentials ≡ ok (g.response credentials)

abbrev pub IsRefusal : Answered → Type 0
IsRefusal res = (res.status ≡ 401) ⊎ (res.status ≡ 403)

-- Nothing has happened but a refusal that was sent, or failed, and a challenge that was kept.
pub record OnlyRefused {n : Sockets} (s s' : Answering n) : Type 0 where
  pub same_dialog : s'.dialog ≡ s.dialog
  pub same_exit : s'.exit_error ≡ s.exit_error
  pub same_stopped : s'.stopped ≡ s.stopped
  pub same_delivered : s'.delivered ≡ s.delivered
  pub same_world : s'.world ≡ s.world
  pub same_ports : s'.ports ≡ s.ports
  pub refused :
      (s'.responses ≡ s.responses)
      ⊎ ((res : Answered) × IsRefusal res × (s'.responses ≡ s.responses ++ res ∷ []))

module _ {n : Sockets} (respond : Answered → Option GoError) where
  sent_or-OnlyRefused :
      (e : Option GoError) (res : Answered) (s : Answering n)
      → IsRefusal res
      → OnlyRefused s (sent_or e res s).1
  unfolding sent_or
  sent_or-OnlyRefused none res s h = record {
    same_dialog = refl;
    same_exit = refl;
    same_stopped = refl;
    same_delivered = refl;
    same_world = refl;
    same_ports = refl;
    refused = inr (res, h, refl);
  }
  sent_or-OnlyRefused (some e) res s h = record {
    same_dialog = refl;
    same_exit = refl;
    same_stopped = refl;
    same_delivered = refl;
    same_world = refl;
    same_ports = refl;
    refused = inl refl;
  }

  try_response-OnlyRefused :
      (res : Answered) (s : Answering n)
      → IsRefusal res
      → OnlyRefused s (try_response respond res s)
  unfolding try_response
  try_response-OnlyRefused res s h = sent_or-OnlyRefused (respond res) res s h

  -- The challenge and the realm are no part of what is compared.
  OnlyRefused-from :
      {s t u : Answering n}
      → OnlyRefused t u
      → t.dialog ≡ s.dialog
      → t.exit_error ≡ s.exit_error
      → t.stopped ≡ s.stopped
      → t.delivered ≡ s.delivered
      → t.world ≡ s.world
      → t.ports ≡ s.ports
      → t.responses ≡ s.responses
      → OnlyRefused s u
  OnlyRefused-from h a b c d e f g = record {
    same_dialog = h.same_dialog ∙ a;
    same_exit = h.same_exit ∙ b;
    same_stopped = h.same_stopped ∙ c;
    same_delivered = h.same_delivered ∙ d;
    same_world = h.same_world ∙ e;
    same_ports = h.same_ports ∙ f;
    refused = rw (← g) h.refused;
  }

  without_credentials-OnlyRefused :
      (nonce : Text) (chal : Option Challenge) (s : Answering n)
      → OnlyRefused s (without_credentials respond nonce chal s)
  unfolding without_credentials
  without_credentials-OnlyRefused nonce (some chal) s =
      try_response-OnlyRefused (plain_response 403 (codes "Forbidden")) s (inr refl)
  without_credentials-OnlyRefused nonce none s =
      OnlyRefused-from (try_response-OnlyRefused _ _ (inl refl)) refl refl refl refl refl refl refl

-- Whether the INVITE goes on is known, and where it does not, it has only been refused; or `Digest`
-- has panicked.
pub data Checked {n : Sockets} (Right : Type 0) (s : Answering n) (x : Outcome Bool × Answering n)
    : Type 0 where
  goes_on : Right → x ≡ (ok true, s) → Checked Right s x
  is_refused : x.0 ≡ ok false → OnlyRefused s x.1 → Checked Right s x
  broken : x.0 ≢ ok true → x.0 ≢ ok false → x.1 ≡ s → Checked Right s x

Checked-map :
    {n : Sockets} {P Q : Type 0} {s : Answering n} {x : Outcome Bool × Answering n}
    → (P → Q)
    → Checked P s x
    → Checked Q s x
Checked-map f (goes_on p h) = goes_on (f p) h
Checked-map f (is_refused a b) = is_refused a b
Checked-map f (broken a b c) = broken a b c

module _ {n : Sockets} (g : Digest) (respond : Answered → Option GoError)
    (opts : AnswerOptions) where
  with_digest-Checked :
      (cred : g.Credentials) (r : Outcome Text) (s : Answering n)
      → Checked (r ≡ ok (g.response cred)) s (with_digest g respond cred r s)
  unfolding with_digest
  with_digest-Checked cred (ok expected) s =
      elim (Bool-cases (eq_text (g.response cred) expected)) [
        | inl same ↦ rw same (goes_on (ap ok (sym ((eq_text_iff _ _).0 same))) refl)
        | inr other ↦ rw other (is_refused refl (try_response-OnlyRefused respond _ s (inl refl)))
      ]
  with_digest-Checked cred (err e) s =
      is_refused refl (try_response-OnlyRefused respond _ s (inl refl))
  with_digest-Checked cred panic s = broken (λ h. cc) (λ h. cc) refl
  with_digest-Checked cred diverges s = broken (λ h. cc) (λ h. cc) refl

  with_parsed-Checked :
      (req : Invite) (header : Text) (s : Answering n)
      → req.authorization ≡ some header
      → (r : GoError ⊎ g.Credentials) → g.parse_credentials header ≡ r
      → Checked (HasCredentials g opts s.challenge req) s (with_parsed g respond opts r s)
  unfolding with_parsed
  with_parsed-Checked req header s h (inl e) parsed =
      is_refused refl (try_response-OnlyRefused respond _ s (inl refl))
  with_parsed-Checked req header s h (inr cred) parsed =
      Checked-map
        (λ right. record {
          header = header;
          credentials = cred;
          has_header = h;
          parsed = parsed;
          matches = right;
        })
        (with_digest-Checked cred (g.compute s.challenge opts.username opts.password cred) s)

  with_header-Checked :
      (nonce : Text) (req : Invite) (s : Answering n)
      → (h : Option Text) → req.authorization ≡ h
      → Checked (HasCredentials g opts s.challenge req) s (with_header g respond opts nonce h s)
  unfolding with_header
  with_header-Checked nonce req s none h =
      is_refused refl (without_credentials-OnlyRefused respond nonce s.challenge s)
  with_header-Checked nonce req s (some header) h =
      with_parsed-Checked req header s h (g.parse_credentials header) refl

  pub authorize_invite-Checked :
      (nonce : Text) (req : Invite) (s : Answering n)
      → AsksPassword opts
      → Checked
          (HasCredentials g opts s.challenge req)
          s
          (authorize_invite g respond opts nonce req s)
  unfolding authorize_invite
  authorize_invite-Checked nonce req s (password, registrar) =
      rw (password, registrar) (with_header-Checked nonce req s req.authorization refl)

  -- Without the condition on the options, what is known where the INVITE goes on is dropped.
  pub authorize_invite_cases :
      (nonce : Text) (req : Invite) (s : Answering n)
      → Checked (Unit {0}) s (authorize_invite g respond opts nonce req s)
  unfolding authorize_invite
  authorize_invite_cases nonce req s =
      asked_or_not (not (eq_text opts.password []) && eq_text opts.register_addr [])
    where
      asked_or_not :
          (asks : Bool)
          → Checked
              (Unit {0})
              s
              (if asks then with_header g respond opts nonce req.authorization s else (ok true, s))
      asked_or_not true =
          Checked-map (λ right. tt) (with_header-Checked nonce req s req.authorization refl)
      asked_or_not false = goes_on tt refl
