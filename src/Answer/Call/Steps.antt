-- ===== src/Answer/Call/Steps.antt =====
-- The steps of the handler of INVITE, and what the dialogs that they leave rest on.
use sipgox.Prelude.{
  suc, zero, ◌≡◌, ◌⊎◌, inl, inr, refl, Bool, true, false, if◌then◌else◌, ltb, Option, none, some,
  List, [], ◌∷◌,
}
use sipgox.Prelude.Int.{ℤ, pos, negsuc}
use sipgox.Text.{Text}
use sipgox.Ip.{Ip6Notation}
use sipgox.Outcome.{Outcome, ok, err, panic, diverges, GoError}
use sipgox.MediaSession.{MediaSession}
use sipgox.Ports.{Sockets, PortRange}
use sipgox.Answer.{
  AnswerOptions, Invite, Answered, ServerDialog, Answering, Handler, ◌>>=◌, pure, sent_or,
}
use sipgox.Answer.Backed.{
  HasResponse-last, Backing, IsBacked, Extends, Extends-refl, Extends-IsBacked, Keeps,
  then_do-IsBacked, Keeps-bind,
}
use sipgox.Answer.Call.{
  Surroundings, Ringing, cancelled, finished, stopped_ringing, rang, send_or, or_reset,
  send_or_reset, after_on_call, after_ringing, ring, check_content_type, opened_media, open_media,
  negotiated, negotiate, end_of_transaction, answer_call, accept_call, success_response,
  with_formats, is_sdp,
}

pub some-equal : {A : Type 0} {a b : A} → some a ≡ some b → a ≡ b
some-equal e = cc

module _ {n : Sockets} where
  pub sent_or-Extends :
      (e : Option GoError) (res : Answered) (s : Answering n) → Extends s (sent_or e res s).1
  unfolding sent_or
  sent_or-Extends none res s = record {
    same_dialog = refl;
    same_delivered = refl;
    more = res ∷ [];
    added = refl;
  }
  sent_or-Extends (some e) res s = Extends-refl refl refl refl

module _ {n : Sockets} (v6 : Ip6Notation) (opts : AnswerOptions) (env : Surroundings) where
  pub pure-Keeps : {A : Type 0} (a : A) → Keeps {n = n} v6 opts (pure a)
  pure-Keeps a s b = b

  pub if-Keeps :
      {A : Type 0} (c : Bool) (m k : Handler n A)
      → Keeps v6 opts m
      → Keeps v6 opts k
      → Keeps v6 opts (if c then m else k)
  if-Keeps true m k a b = a
  if-Keeps false m k a b = b

  -- A dialog that is put into `d`.
  pub new_dialog-IsBacked :
      (d : ServerDialog) (rs : List Answered) (s : Answering n)
      → Backing v6 opts d.media rs
      → IsBacked v6 opts (record s { responses = rs })
      → IsBacked v6 opts (record s { responses = rs; dialog = some d })
  new_dialog-IsBacked d rs s h b = record {
    held = λ d' e. let same : d ≡ d' = some-equal e in rw (← same) h;
    handed = b.handed;
  }

  or_reset-Keeps :
      (e : Option GoError) (res : Answered) → Keeps {n = n} v6 opts (or_reset v6 opts env e res)
  unfolding or_reset
  or_reset-Keeps none res s b = Extends-IsBacked v6 opts (sent_or-Extends none res s) b
  or_reset-Keeps (some e) res s b = record { held = λ d h. cc; handed = b.handed }

  pub send_or_reset-Keeps : (res : Answered) → Keeps {n = n} v6 opts (send_or_reset v6 opts env res)
  unfolding send_or_reset
  send_or_reset-Keeps res = or_reset-Keeps (env.respond res) res

  pub after_on_call-Keeps : (r : Option ℤ) → Keeps {n = n} v6 opts (after_on_call v6 opts env r)
  unfolding after_on_call
  after_on_call-Keeps none = pure-Keeps tt
  after_on_call-Keeps (some (negsuc k)) = send_or_reset-Keeps _
  after_on_call-Keeps (some (pos zero)) = pure-Keeps tt
  after_on_call-Keeps (some (pos (suc k))) = send_or_reset-Keeps _

  send_or-Keeps : (res : Answered) → Keeps {n = n} v6 opts (send_or v6 opts env res)
  unfolding send_or
  send_or-Keeps res s b = Extends-IsBacked v6 opts (sent_or-Extends _ res s) b

  after_ringing-Keeps : (r : Ringing) → Keeps {n = n} v6 opts (after_ringing v6 opts env r)
  unfolding after_ringing
  after_ringing-Keeps cancelled s b = b
  after_ringing-Keeps finished s b = b
  after_ringing-Keeps (stopped_ringing e) s b = b
  after_ringing-Keeps rang s b = b

  ring-Keeps : Keeps {n = n} v6 opts (ring v6 opts env)
  unfolding ring
  ring-Keeps =
      if-Keeps (ltb 0 opts.ringtime) _ _
        (Keeps-bind v6 opts _ _ (send_or-Keeps _) (λ u. after_ringing-Keeps env.ringing))
        (send_or-Keeps _)

  check_content_type-Keeps :
      (req : Invite) → Keeps {n = n} v6 opts (check_content_type v6 opts env req)
  unfolding check_content_type
  check_content_type-Keeps req = if-Keeps (is_sdp req.content_type) _ _ (pure-Keeps tt) (λ s b. b)

  pub same_dialogs :
      {s s' : Answering n}
      → s'.dialog ≡ s.dialog
      → s'.delivered ≡ s.delivered
      → s'.responses ≡ s.responses
      → IsBacked v6 opts s
      → IsBacked v6 opts s'
  same_dialogs a b c = Extends-IsBacked v6 opts (Extends-refl a b c)

  opened_media-IsBacked :
      (s : Answering n) (x : n.World × PortRange × (GoError ⊎ MediaSession))
      → IsBacked v6 opts s
      → IsBacked v6 opts (opened_media v6 opts env s x).1
  unfolding opened_media
  opened_media-IsBacked s (w, r, inl e) b = same_dialogs refl refl refl b
  opened_media-IsBacked s (w, r, inr m) b = same_dialogs refl refl refl b

  open_media-Keeps : Keeps {n = n} v6 opts (open_media v6 opts env)
  unfolding open_media
  open_media-Keeps s b = opened_media-IsBacked s _ b

  negotiated-Keeps :
      (r : Outcome (Unit {0})) (m : MediaSession)
      → Keeps {n = n} v6 opts (negotiated v6 opts env r m)
  unfolding negotiated
  negotiated-Keeps (ok u) m s b = b
  negotiated-Keeps (err e) m s b = b
  negotiated-Keeps panic m s b = b
  negotiated-Keeps diverges m s b = b

  negotiate-Keeps :
      (req : Invite) (m : MediaSession) → Keeps {n = n} v6 opts (negotiate v6 opts env req m)
  unfolding negotiate
  negotiate-Keeps req m s b = negotiated-Keeps _ _ s b

  end_of_transaction-Keeps :
      (e : Option GoError) → Keeps {n = n} v6 opts (end_of_transaction v6 opts env e)
  unfolding end_of_transaction
  end_of_transaction-Keeps none s b = b
  end_of_transaction-Keeps (some e) s b = b

  -- With the session in `d`, a 200 is sent, or `d` is reset.
  success-IsBacked :
      (id : Text) (m : MediaSession) (s : Answering n) (e : Option GoError)
      → IsBacked v6 opts s
      → IsBacked v6 opts
          (or_reset v6 opts env e
            (success_response v6 opts env.now m)
            (record s { dialog = some (record { id = id; media = some m }) })).1
  unfolding or_reset sent_or success_response
  success-IsBacked id m s none b =
      new_dialog-IsBacked (record { id = id; media = some m }) _ s
        (HasResponse-last s.responses _ (record {
          status_is = refl;
          now = env.now;
          described = m;
          sdp_is = refl;
          same_addr = refl;
        }))
        (Extends-IsBacked v6 opts (sent_or-Extends none (success_response v6 opts env.now m) s) b)
  success-IsBacked id m s (some e) b = record { held = λ d h. cc; handed = b.handed }

  answer_call-Keeps :
      (req : Invite) (m : MediaSession) → Keeps {n = n} v6 opts (answer_call v6 opts env req m)
  unfolding answer_call send_or_reset
  answer_call-Keeps req m s b =
      then_do-IsBacked v6 opts _ _ (λ u. end_of_transaction-Keeps env.tx_err)
        (success-IsBacked req.dialog_id m s (env.respond _) b)

  -- The ends of `accept_call`.
  abbrev with_media : Invite → MediaSession → Handler n (Unit {0})
  with_media req m =
      negotiate v6 opts env req (with_formats opts.formats m) >>= answer_call v6 opts env req

  abbrev with_content : Invite → Handler n (Unit {0})
  with_content req = open_media v6 opts env >>= with_media req

  abbrev after_ring : Invite → Handler n (Unit {0})
  after_ring req = check_content_type v6 opts env req >>= λ _. with_content req

  with_media-Keeps : (req : Invite) (m : MediaSession) → Keeps {n = n} v6 opts (with_media req m)
  with_media-Keeps req m =
      Keeps-bind v6 opts (negotiate v6 opts env req (with_formats opts.formats m))
        (answer_call v6 opts env req) (negotiate-Keeps req _) (answer_call-Keeps req)

  with_content-Keeps : (req : Invite) → Keeps {n = n} v6 opts (with_content req)
  with_content-Keeps req =
      Keeps-bind v6 opts (open_media v6 opts env) (with_media req) open_media-Keeps
        (with_media-Keeps req)

  after_ring-Keeps : (req : Invite) → Keeps {n = n} v6 opts (after_ring req)
  after_ring-Keeps req =
      Keeps-bind v6 opts (check_content_type v6 opts env req) (λ _. with_content req)
        (check_content_type-Keeps req) (λ u. with_content-Keeps req)

  pub accept_call-Keeps : (req : Invite) → Keeps {n = n} v6 opts (accept_call v6 opts env req)
  unfolding accept_call
  accept_call-Keeps req =
      Keeps-bind v6 opts (ring v6 opts env) (λ _. after_ring req) ring-Keeps
        (λ u. after_ring-Keeps req)
