-- ===== src/Dial/Refer.antt =====
-- phone.go's `Dial`: its handler of REFER.
pub mod Messages
pub mod Done
pub mod Order
use sipgox.Prelude.{
  ℕ, Bool, true, false, Option, none, some, List, [], ◌∷◌, ◌++◌, ◌==◌, ◌⊎◌, inl, inr,
}
use sipgox.Prelude.Int.{ℤ, pos}
use sipgox.Text.{Text, codes}
use sipgox.Ip.{Ip, Ip6Notation}
use sipgox.Outcome.{Outcome, ok, err, panic, diverges, GoError}
use sipgox.MediaSession.{MediaSession, local_sdp}
use sipgox.Ports.{Sockets, PortRange, new_media_session}
use sipgox.Dial.{
  Recipient, DialInvite, ClientDialog, refer_none, refer_confirmed, refer_ended, Act, notify_sent,
  refer_response, refer_called, Line, dial, content_type_sdp, after_acts,
}

-- What comes of the first NOTIFY: it cannot be sent, its transaction ends, or it has a response.
pub data Notified : Type 0 where
  notify_error : GoError → Notified
  notify_done : Notified
  notify_response : ℕ → Notified

-- What the surroundings do while a REFER is handled: the result of `ReadRefer`, the two NOTIFYs, and the new
-- call.
pub record Referral : Type 0 where
  pub read : GoError ⊎ Recipient
  pub media_ip : Ip
  pub first_notify : Notified
  pub second_error : Option GoError
  pub line : Line
  pub now : ℤ

-- The INVITE to the URI of the REFER; it has neither headers nor formats of the options.
unfoldable pub refer_invite : Ip6Notation → ℤ → Text → Recipient → MediaSession → DialInvite
refer_invite v6 now network referred m = record {
  recipient = referred;
  network = network;
  headers = content_type_sdp ∷ [];
  body = local_sdp v6 now m;
}

-- The second NOTIFY, where the first was not refused.
second_notify : Bool → Option GoError → ClientDialog → List Act × Outcome ClientDialog
second_notify false e d = ([], ok d)
second_notify true none d = (notify_sent (codes "SIP/2.0 200 OK") ∷ [], ok d)
second_notify true (some e) d = ([], err e)

after_dial :
    Bool → Option GoError → List Act × Outcome ClientDialog → List Act × Outcome ClientDialog
unfolding second_notify after_acts
after_dial accepted e (acts, ok d) = after_acts acts (second_notify accepted e d)
after_dial accepted e (acts, err x) = (acts, err x)
after_dial accepted e (acts, panic) = (acts, panic)
after_dial accepted e (acts, diverges) = (acts, diverges)

-- From the first NOTIFY on.
after_notify :
    Ip6Notation
    → Text
    → Referral
    → Recipient
    → MediaSession
    → Notified
    → List Act × Outcome ClientDialog
unfolding after_dial after_acts
after_notify v6 network f referred m (notify_error e) = ([], err e)
after_notify v6 network f referred m notify_done =
    after_acts (notify_sent (codes "SIP/2.0 100 Trying") ∷ [])
      (after_dial true f.second_error (dial v6 (refer_invite v6 f.now network referred m) m f.line))
after_notify v6 network f referred m (notify_response status) =
    after_acts (notify_sent (codes "SIP/2.0 100 Trying") ∷ []) (
      after_dial (status == 200) f.second_error
        (dial v6 (refer_invite v6 f.now network referred m) m f.line))

-- The calls of `OnRefer` and the response that end the handler.
refer_result : List Act × Outcome ClientDialog → List Act × Outcome (Unit {0})
refer_result (acts, ok d) = (acts ++ refer_called (refer_confirmed (some d)) ∷ [], ok tt)
refer_result (acts, err e) = (acts ++ refer_response 500 ∷ refer_called refer_ended ∷ [], ok tt)
refer_result (acts, panic) = (acts, panic)
refer_result (acts, diverges) = (acts, diverges)

module _ (n : Sockets) where
  abbrev Refers : Type 0 → Type 0
  Refers A = n.World × PortRange × List Act × Outcome A

  refer_with_media :
      Ip6Notation
      → Text
      → Referral
      → Recipient
      → n.World × PortRange × (GoError ⊎ MediaSession)
      → Refers ClientDialog
  unfolding after_notify
  refer_with_media v6 network f referred (w, r, inl e) = (w, r, [], err e)
  refer_with_media v6 network f referred (w, r, inr m) =
      let (acts, result) = after_notify v6 network f referred m f.first_notify in
      (w, r, acts, result)

  -- `refer`.
  unfoldable pub refer_call :
      Ip6Notation
      → Text
      → Referral
      → GoError ⊎ Recipient
      → n.World
      → PortRange
      → Refers ClientDialog
  unfolding refer_with_media
  refer_call v6 network f (inl e) w r = (w, r, [], err e)
  refer_call v6 network f (inr referred) w r =
      refer_with_media v6 network f referred
        (new_media_session n w r (record { ip = f.media_ip; port = pos 0 }))

  refer_handled : Refers ClientDialog → Refers (Unit {0})
  unfolding refer_result
  refer_handled (w, r, acts, x) =
      let (more, result) = refer_result (acts, x) in (w, r, refer_called refer_none ∷ more, result)

  -- `server.OnRefer`: with an `OnRefer` of the options, or without.
  unfoldable pub on_refer :
      Ip6Notation → Text → Bool → Referral → n.World → PortRange → Refers (Unit {0})
  unfolding refer_handled
  on_refer v6 network false f w r = (w, r, refer_response 405 ∷ [], ok tt)
  on_refer v6 network true f w r = refer_handled (refer_call v6 network f f.read w r)
