-- ===== src/Dial/Refer/Done.antt =====
-- The handler of REFER in `Dial`: when a transfer is done, and what `refer` returns of it.
use sipgox.Prelude.{
  ◌≡◌, ◌≢◌, ◌⊎◌, inl, inr, refl, ap, sym, ◌∙◌, Bool, true, false, ◌==◌, Option, none, some, List,
  [], ◌∷◌, ◌++◌,
}
use sipgox.Prelude.Int.{pos}
use sipgox.Text.{Text, codes}
use sipgox.Ip.{Ip6Notation}
use sipgox.Outcome.{Outcome, ok, err, panic, diverges, GoError}
use sipgox.MediaSession.{MediaSession}
use sipgox.Ports.{Sockets, PortRange, new_media_session}
use sipgox.Dial.{Recipient, ClientDialog, Act, notify_sent, dial, after_acts}
use sipgox.Dial.Refer.{
  Notified, notify_error, notify_done, notify_response, Referral, refer_invite, second_notify,
  after_dial, after_notify, refer_with_media, refer_call,
}

-- Whether the first NOTIFY was taken: then the second one follows the new call.
abbrev pub accepts : Notified → Bool
accepts (notify_error e) = false
accepts notify_done = true
accepts (notify_response status) = status == 200

-- The second NOTIFY.
abbrev second_message : Bool → List Act
second_message false = []
second_message true = notify_sent (codes "SIP/2.0 200 OK") ∷ []

module _ (n : Sockets) (v6 : Ip6Notation) (network : Text) (f : Referral) (w : n.World)
    (r : PortRange) where
  -- The handler comes to the new call, to `referred` and with the session `m` that it opened for it.
  pub record Redials (referred : Recipient) (m : MediaSession) : Type 0 where
    pub after : n.World
    pub ports : PortRange
    pub was_read : f.read ≡ inr referred
    pub opened :
        new_media_session n w r (record { ip = f.media_ip; port = pos 0 }) ≡ (after, ports, inr m)
    pub notified : (e : GoError) → f.first_notify ≢ notify_error e

  -- The new call.
  abbrev pub new_call : Recipient → MediaSession → List Act × Outcome ClientDialog
  new_call referred m = dial v6 (refer_invite v6 f.now network referred m) m f.line

  -- The transfer is done, with the dialog `d`: the new call returned it, and the second NOTIFY was sent where the
  -- first was taken.
  pub record IsDone (d : ClientDialog) : Type 0 where
    pub referred : Recipient
    pub session : MediaSession
    pub redials : Redials referred session
    pub called : (new_call referred session).1 ≡ ok d
    pub told : accepts f.first_notify ≡ true → f.second_error ≡ none

  -- The messages of a transfer that is done: the first NOTIFY, those of the new call, and the second NOTIFY where
  -- the first was taken.
  abbrev pub messages_of : {d : ClientDialog} → IsDone d → List Act
  messages_of done =
      notify_sent (codes "SIP/2.0 100 Trying")
      ∷ ((new_call done.referred done.session).0 ++ second_message (accepts f.first_notify))

  -- What `refer` returns, beside what was done of the transfer.
  abbrev pub Returns : List Act × Outcome ClientDialog → Type 0
  Returns (acts, ok d) = (done : IsDone d) × (acts ≡ messages_of done)
  Returns (acts, err e) = (d : ClientDialog) → ¬ IsDone d
  Returns (acts, panic) =
      (referred : Recipient) × ((m : MediaSession) × Redials referred m
        × ((new_call referred m).1 ≡ panic))
  Returns (acts, diverges) =
      (referred : Recipient) × ((m : MediaSession) × Redials referred m
        × ((new_call referred m).1 ≡ diverges))

  -- The session and the recipient of a new call are the only ones.
  redialled_once :
      {referred other : Recipient} {m m' : MediaSession}
      → Redials referred m
      → Redials other m'
      → (referred ≡ other) × (m ≡ m')
  redialled_once a b =
      let same : ◌≡◌ {A = GoError ⊎ Recipient} (inr _) (inr _) = sym a.was_read ∙ b.was_read in
      let both = sym a.opened ∙ b.opened in (cc, cc)

  called_once :
      {referred : Recipient} {m : MediaSession} {d : ClientDialog}
      → Redials referred m
      → (done : IsDone d) → (new_call referred m).1 ≡ ok d
  called_once {m = m} reached done =
      let (same, same_session) = redialled_once reached done.redials in
      ap (λ x. (new_call x m).1) same
      ∙ ap (λ x. (new_call done.referred x).1) same_session
      ∙ done.called

  same_messages :
      (referred : Recipient) (m : MediaSession) (accepted : Bool) (acts : List Act)
      (result : Outcome ClientDialog)
      → accepts f.first_notify ≡ accepted
      → new_call referred m ≡ (acts, result)
      → (notify_sent (codes "SIP/2.0 100 Trying") ∷ (acts ++ second_message accepted))
        ≡ notify_sent (codes "SIP/2.0 100 Trying")
          ∷ ((new_call referred m).0 ++ second_message (accepts f.first_notify))
  same_messages referred m accepted acts result taken called =
      ap (λ b. notify_sent (codes "SIP/2.0 100 Trying") ∷ (acts ++ second_message b)) (sym taken)
      ∙ ap
          (λ x.
            notify_sent (codes "SIP/2.0 100 Trying")
            ∷ (x.0 ++ second_message (accepts f.first_notify)))
          (sym called)

  after_dial-Returns :
      (referred : Recipient) (m : MediaSession) (accepted : Bool) (second : Option GoError)
      (x : List Act × Outcome ClientDialog)
      → accepts f.first_notify ≡ accepted
      → f.second_error ≡ second
      → Redials referred m
      → new_call referred m ≡ x
      → Returns (
          after_acts (notify_sent (codes "SIP/2.0 100 Trying") ∷ []) (after_dial accepted second x))
  unfolding after_dial second_notify after_acts
  after_dial-Returns referred m false second (acts, ok d) accepted told reached called = (
    record {
      referred = referred;
      session = m;
      redials = reached;
      called = ap (λ x. x.1) called;
      told = λ yes. cc;
    },
    same_messages referred m false acts (ok d) accepted called,
  )
  after_dial-Returns referred m true none (acts, ok d) accepted told reached called = (
    record {
      referred = referred;
      session = m;
      redials = reached;
      called = ap (λ x. x.1) called;
      told = λ yes. told;
    },
    same_messages referred m true acts (ok d) accepted called,
  )
  after_dial-Returns referred m true (some e) (acts, ok d) accepted told reached called =
      λ d' done. let sent = done.told accepted in cc
  after_dial-Returns referred m accepts second (acts, err e) accepted told reached called =
      λ d' done. let returned = called_once reached done in cc
  after_dial-Returns referred m accepts second (acts, panic) accepted told reached called =
      (referred, (m, reached, ap (λ x. x.1) called))
  after_dial-Returns referred m accepts second (acts, diverges) accepted told reached called =
      (referred, (m, reached, ap (λ x. x.1) called))

  after_notify-Returns :
      (referred : Recipient) (m : MediaSession) (after : n.World) (ports : PortRange) (x : Notified)
      → f.read ≡ inr referred
      → new_media_session n w r (record { ip = f.media_ip; port = pos 0 }) ≡ (after, ports, inr m)
      → f.first_notify ≡ x
      → Returns (after_notify v6 network f referred m x)
  unfolding after_notify after_acts
  after_notify-Returns referred m after ports (notify_error e) was_read opened first =
      λ d done. absurd (done.redials.notified e first)
  after_notify-Returns referred m after ports notify_done was_read opened first =
      after_dial-Returns referred m true f.second_error _ (ap accepts first) refl
        (record {
          after = after;
          ports = ports;
          was_read = was_read;
          opened = opened;
          notified = λ e h. cc;
        })
        refl
  after_notify-Returns referred m after ports (notify_response status) was_read opened first =
      after_dial-Returns referred m (status == 200) f.second_error _ (ap accepts first) refl
        (record {
          after = after;
          ports = ports;
          was_read = was_read;
          opened = opened;
          notified = λ e h. cc;
        })
        refl

  refer_with_media-Returns :
      (referred : Recipient) (x : n.World × PortRange × (GoError ⊎ MediaSession))
      → f.read ≡ inr referred
      → new_media_session n w r (record { ip = f.media_ip; port = pos 0 }) ≡ x
      → let (_, _, acts, result) = refer_with_media n v6 network f referred x in
        Returns (acts, result)
  unfolding refer_with_media
  refer_with_media-Returns referred (w', r', inl e) was_read opened =
      λ d done. let came = done.redials.opened in cc
  refer_with_media-Returns referred (w', r', inr m) was_read opened =
      after_notify-Returns referred m w' r' f.first_notify was_read opened refl

  pub refer_call-Returns :
      (read : GoError ⊎ Recipient)
      → f.read ≡ read
      → let (_, _, acts, result) = refer_call n v6 network f read w r in Returns (acts, result)
  unfolding refer_call
  refer_call-Returns (inl e) was_read = λ d done. let came = done.redials.was_read in cc
  refer_call-Returns (inr referred) was_read = refer_with_media-Returns referred _ was_read refl
