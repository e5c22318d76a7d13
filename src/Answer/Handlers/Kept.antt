-- ===== src/Answer/Handlers/Kept.antt =====
-- The handlers of `answer`, and what the dialogs that they leave rest on.
use mathlib.Core.Path.{subst}
use sipgox.Prelude.{
  ◌≡◌, inl, inr, refl, sym, ◌∙◌, Bool, true, false, Option, none, some, [], ◌∷◌, if◌then◌else◌,
}
use sipgox.Text.{eq_text}
use sipgox.Ip.{Ip6Notation}
use sipgox.Outcome.{Outcome, ok, err, panic, diverges, GoError, no_dialog_for_ack}
use sipgox.MediaSession.{MediaSession}
use sipgox.MediaSession.Reinvite.{update_destination_sdp_laddr}
use sipgox.Ports.{Sockets}
use sipgox.Answer.{
  AnswerOptions, Invite, Challenge, Digest, Answered, ServerDialog, Answering, pure, exit_with,
  try_response,
}
use sipgox.Answer.Authorize.{authorize_invite}
use sipgox.Answer.Authorize.Sound.{
  OnlyRefused, Checked, goes_on, is_refused, broken, authorize_invite_cases,
}
use sipgox.Answer.Backed.{
  HasResponse-map, Backing, IsBacked, Extends, Extends-refl, Extends-IsBacked, Keeps,
  then_do-IsBacked,
}
use sipgox.Answer.Call.{Surroundings}
use sipgox.Answer.Call.Steps.{sent_or-Extends, some-equal}
use sipgox.Answer.Call.Ways.{take_call-Keeps}
use sipgox.Answer.Handlers.{
  Event, invited, acknowledged, ended, registration_ended, asked, on_options, Taking, not_taken,
  taken_after_reset, reset_after_return, reset_in_between, update_response, update_media,
  update_dialog, finished_call, read_invite, without_dialog, on_invite_with, on_invite, read_ack,
  hand_over_ack, on_ack_with, on_ack, on_bye, on_registration_end, handle,
}

module _ {n : Sockets} {s : Answering n} where
  OnlyRefused-Extends : {s' : Answering n} → OnlyRefused s s' → Extends s s'
  OnlyRefused-Extends o = elim o.refused [
    | inl same ↦ Extends-refl o.same_dialog o.same_delivered same
    | inr (res, h, added) ↦ record {
      same_dialog = o.same_dialog;
      same_delivered = o.same_delivered;
      more = res ∷ [];
      added = added;
    }
  ]

  Checked-Extends :
      {Right : Type 0} (x : Outcome Bool × Answering n) → Checked Right s x → Extends s x.1
  Checked-Extends x (goes_on right h) = rw h (Extends-refl refl refl refl)
  Checked-Extends x (is_refused a only) = OnlyRefused-Extends only
  Checked-Extends x (broken a b h) = rw h (Extends-refl refl refl refl)

module _ {n : Sockets} (v6 : Ip6Notation) (g : Digest) (opts : AnswerOptions) where
  exit_with-IsBacked :
      (e : GoError) (s : Answering n) → IsBacked v6 opts s → IsBacked v6 opts (exit_with e s)
  exit_with-IsBacked e s b = record { held = b.held; handed = b.handed }

  try_response-IsBacked :
      (respond : Answered → Option GoError) (res : Answered) (s : Answering n)
      → IsBacked v6 opts s
      → IsBacked v6 opts (try_response respond res s)
  unfolding try_response
  try_response-IsBacked respond res s b = Extends-IsBacked v6 opts (sent_or-Extends _ res s) b

  update_response-Keeps :
      (respond : Answered → Option GoError) (r : Outcome (Unit {0}))
      → Keeps {n = n} v6 opts (update_response respond r)
  unfolding update_response
  update_response-Keeps respond (ok u) s b = try_response-IsBacked respond _ s b
  update_response-Keeps respond (err e) s b = try_response-IsBacked respond _ s b
  update_response-Keeps respond panic s b = b
  update_response-Keeps respond diverges s b = b

  -- The session's local address is the one that was described, whatever else has changed.
  moved-IsBacked :
      (d : ServerDialog) (m m' : MediaSession) (s : Answering n)
      → s.dialog ≡ some d
      → d.media ≡ some m
      → m'.laddr ≡ m.laddr
      → IsBacked v6 opts s
      → IsBacked v6 opts (record s { dialog = some (record d { media = some m' }) })
  moved-IsBacked d m m' s is_held has_media same b = record {
    held = λ d' e. let at : record d { media = some m' } ≡ d' = some-equal e in rw (← at) moved;
    handed = b.handed;
  }
    where
      backed : Backing v6 opts (some m) s.responses
      backed = subst (λ x. Backing v6 opts x s.responses) has_media (b.held d is_held)

      moved : Backing v6 opts (some m') s.responses
      moved =
          HasResponse-map
            (λ res h. record {
              status_is = h.status_is;
              now = h.now;
              described = h.described;
              sdp_is = h.sdp_is;
              same_addr = h.same_addr ∙ sym same;
            })
            backed

  finished_call-IsBacked :
      (x : Outcome (Unit {0}) × Answering n)
      → IsBacked v6 opts x.1
      → IsBacked v6 opts (finished_call x).1
  unfolding finished_call
  finished_call-IsBacked (ok u, s) b = b
  finished_call-IsBacked (err e, s) b = exit_with-IsBacked e s b
  finished_call-IsBacked (panic, s) b = b
  finished_call-IsBacked (diverges, s) b = b

  update_media-IsBacked :
      (respond : Answered → Option GoError) (d : ServerDialog) (media : Option MediaSession)
      (req : Invite) (s : Answering n)
      → s.dialog ≡ some d
      → d.media ≡ media
      → IsBacked v6 opts s
      → IsBacked v6 opts (update_media v6 respond d media req s).1
  unfolding update_media
  update_media-IsBacked respond d none req s is_held has_media b =
      update_response-Keeps respond _ s b
  update_media-IsBacked respond d (some m) req s is_held has_media b =
      update_response-Keeps respond _ _
        (moved-IsBacked d m _ s is_held has_media (update_destination_sdp_laddr v6 m req.body) b)

  update_dialog-IsBacked :
      (respond : Answered → Option GoError) (d : ServerDialog) (req : Invite) (s : Answering n)
      → s.dialog ≡ some d
      → IsBacked v6 opts s
      → IsBacked v6 opts (update_dialog v6 respond d req s).1
  unfolding update_dialog
  update_dialog-IsBacked respond d req s is_held b = same_call (eq_text req.dialog_id d.id)
    where
      same_call :
          (same : Bool)
          → IsBacked v6 opts ((if same then update_media v6 respond d d.media req else pure tt) s).1
      same_call true = update_media-IsBacked respond d d.media req s is_held refl b
      same_call false = b

  read_invite-Keeps :
      (env : Surroundings) (e : Option GoError) (req : Invite)
      → Keeps {n = n} v6 opts (read_invite v6 opts env e req)
  unfolding read_invite
  read_invite-Keeps env (some e) req s b =
      exit_with-IsBacked e _ (try_response-IsBacked env.respond _ s b)
  read_invite-Keeps env none req s b =
      finished_call-IsBacked _ (take_call-Keeps v6 opts env req s b)

  on_invite_with-IsBacked :
      (env : Surroundings) (e : Option GoError) (req : Invite) (d : Option ServerDialog)
      (s : Answering n)
      → s.dialog ≡ d
      → IsBacked v6 opts s
      → IsBacked v6 opts (on_invite_with v6 g opts env e req d s).1
  unfolding on_invite_with without_dialog
  on_invite_with-IsBacked env e req none s is_held b =
      then_do-IsBacked v6 opts
        (λ may_go_on. if may_go_on then read_invite v6 opts env e req else pure tt)
        (authorize_invite g env.respond opts env.nonce req s) after
        (Extends-IsBacked v6 opts
          (Checked-Extends _ (authorize_invite_cases g env.respond opts env.nonce req s)) b)
    where
      after :
          (c : Bool) → Keeps {n = n} v6 opts (if c then read_invite v6 opts env e req else pure tt)
      after true = read_invite-Keeps env e req
      after false = λ s b. b
  on_invite_with-IsBacked env e req (some d) s is_held b =
      update_dialog-IsBacked env.respond d req s is_held b

  on_invite-Keeps :
      (env : Surroundings) (e : Option GoError) (req : Invite)
      → Keeps {n = n} v6 opts (on_invite v6 g opts env e req)
  unfolding on_invite
  on_invite-Keeps env e req s b = on_invite_with-IsBacked env e req s.dialog s refl b

  hand_over_ack-IsBacked :
      (t : Taking) (s : Answering n) → IsBacked v6 opts s → IsBacked v6 opts (hand_over_ack t s)
  unfolding hand_over_ack
  hand_over_ack-IsBacked not_taken s b = b
  hand_over_ack-IsBacked taken_after_reset s b = record {
    held = b.held;
    handed = λ d e. b.held d (some-equal e);
  }
  hand_over_ack-IsBacked reset_after_return s b = record {
    held = λ d e. cc;
    handed = λ d e. b.held d (some-equal e);
  }
  hand_over_ack-IsBacked reset_in_between s b = record {
    held = λ d e. cc;
    handed = λ d e. let no_dialog : none ≡ some d = some-equal e in cc;
  }

  read_ack-IsBacked :
      (e : Option GoError) (t : Taking) (s : Answering n)
      → IsBacked v6 opts s
      → IsBacked v6 opts (read_ack e t s)
  unfolding read_ack
  read_ack-IsBacked (some e) t s b = exit_with-IsBacked e s b
  read_ack-IsBacked none t s b = hand_over_ack-IsBacked t s b

  on_ack_with-IsBacked :
      (e : Option GoError) (t : Taking) (d : Option ServerDialog) (chal : Option Challenge)
      (s : Answering n)
      → IsBacked v6 opts s
      → IsBacked v6 opts (on_ack_with e t d chal s)
  unfolding on_ack_with
  on_ack_with-IsBacked e t none (some chal) s b = b
  on_ack_with-IsBacked e t none none s b =
      read_ack-IsBacked e t _ (exit_with-IsBacked no_dialog_for_ack s b)
  on_ack_with-IsBacked e t (some d) chal s b = read_ack-IsBacked e t s b

  on_bye-Keeps : (e : Option GoError) → Keeps {n = n} v6 opts (on_bye e)
  unfolding on_bye
  on_bye-Keeps none s b = record { held = b.held; handed = b.handed }
  on_bye-Keeps (some e) s b = record { held = b.held; handed = b.handed }

  -- Every handler keeps the dialogs answered.
  pub handle-Keeps : (e : Event) → Keeps {n = n} v6 opts (handle v6 g opts e)
  unfolding handle on_ack on_registration_end on_options
  handle-Keeps (invited env e req) = on_invite-Keeps env e req
  handle-Keeps (acknowledged e t) = λ s b. on_ack_with-IsBacked e t s.dialog s.challenge s b
  handle-Keeps (ended e) = on_bye-Keeps e
  handle-Keeps (registration_ended e) = λ s b. exit_with-IsBacked e s b
  handle-Keeps (asked respond) = λ s b. try_response-IsBacked respond _ s b
