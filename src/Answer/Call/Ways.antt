-- ===== src/Answer/Call/Ways.antt =====
-- The two ways of a call, declined or accepted, and what the dialog that they leave rests on.
use sipgox.Prelude.{
  ◌≡◌, refl, not, ◌&&◌, if◌then◌else◌, ltb, ◌==◌, Option, none, some, [], ◌∷◌, ◌++◌,
}
use sipgox.Ip.{Ip6Notation}
use sipgox.Outcome.{GoError}
use sipgox.Ports.{Sockets}
use sipgox.Answer.{
  AnswerOptions, Invite, Answered, ServerDialog, Answering, then_do, ◌>>=◌, modify, sent_or,
}
use sipgox.Answer.Backed.{HasResponse-last, Backing, IsBacked, Extends-IsBacked, Keeps, Keeps-bind}
use sipgox.Answer.Call.{
  Surroundings, AckWait, tx_ended, acked, context_ended, or_reset, send_or_reset, after_on_call,
  handed_over, after_ack_wait, decline, accept_call, take_call,
}
use sipgox.Answer.Call.Steps.{
  some-equal, sent_or-Extends, after_on_call-Keeps, if-Keeps, same_dialogs, new_dialog-IsBacked,
  accept_call-Keeps,
}

module _ {n : Sockets} (v6 : Ip6Notation) (opts : AnswerOptions) (env : Surroundings) where
  handed_over-Keeps :
      (d : ServerDialog) (e : Option GoError) (s : Answering n)
      → Backing v6 opts d.media s.responses
      → IsBacked v6 opts s
      → IsBacked v6 opts (handed_over v6 opts env d e s).1
  unfolding handed_over
  handed_over-Keeps d none s h b = record {
    held = b.held;
    handed = λ d' e. let same : d ≡ d' = some-equal (some-equal e) in rw (← same) h;
  }
  handed_over-Keeps d (some e) s h b = b

  after_ack_wait-Keeps :
      (d : ServerDialog) (w : AckWait) (s : Answering n)
      → Backing v6 opts d.media s.responses
      → IsBacked v6 opts s
      → IsBacked v6 opts (after_ack_wait v6 opts env d w s).1
  unfolding after_ack_wait
  after_ack_wait-Keeps d (tx_ended none) s h b = b
  after_ack_wait-Keeps d (tx_ended (some e)) s h b = b
  after_ack_wait-Keeps d acked s h b = handed_over-Keeps d env.handover s h b
  after_ack_wait-Keeps d (context_ended e) s h b = b

  declined-IsBacked :
      (d : ServerDialog) (res : Answered) (s : Answering n) (e : Option GoError)
      → d.media ≡ none
      → res.status ≡ opts.answer_code
      → IsBacked v6 opts s
      → IsBacked v6 opts
          (then_do (or_reset v6 opts env e res s) λ u.
            modify (λ s. record s { dialog = some d }) >>= λ u'.
            after_ack_wait v6 opts env d env.ack_wait).1
  unfolding or_reset sent_or
  declined-IsBacked d res s none no_media code b =
      let answered : Backing v6 opts d.media (s.responses ++ res ∷ []) =
        rw no_media (HasResponse-last s.responses res code) in
      after_ack_wait-Keeps d env.ack_wait _ answered (
        new_dialog-IsBacked v6 opts env d _ s answered
          (Extends-IsBacked v6 opts (sent_or-Extends none res s) b))
  declined-IsBacked d res s (some e) no_media code b = record {
    held = λ d' h. cc;
    handed = b.handed;
  }

  decline-Keeps : (req : Invite) → Keeps {n = n} v6 opts (decline v6 opts env req)
  unfolding decline send_or_reset
  decline-Keeps req s b =
      declined-IsBacked (record { id = req.dialog_id; media = none }) _ (record s { reason = _ })
        (env.respond _) refl refl (same_dialogs v6 opts env refl refl refl b)

  pub take_call-Keeps : (req : Invite) → Keeps {n = n} v6 opts (take_call v6 opts env req)
  unfolding take_call
  take_call-Keeps req =
      Keeps-bind v6 opts (after_on_call v6 opts env env.on_call)
        (λ _.
          if ltb 0 opts.answer_code && not (opts.answer_code == 200)
          then decline v6 opts env req
          else accept_call v6 opts env req)
        (after_on_call-Keeps v6 opts env env.on_call)
        (λ u. if-Keeps v6 opts env _ _ _ (decline-Keeps req) (accept_call-Keeps v6 opts env req))
