-- ===== src/Dial/Refer/Messages.antt =====
-- The handler of REFER in `Dial`: `refer` sends messages, and does not call `OnRefer`.
use sipgox.Prelude.{
  ◌⊎◌, inl, inr, refl, Bool, true, false, ◌==◌, Option, none, some, List, All-append,
}
use sipgox.Text.{Text}
use sipgox.Ip.{Ip6Notation}
use sipgox.Outcome.{Outcome, ok, err, panic, diverges, GoError}
use sipgox.MediaSession.{MediaSession}
use sipgox.Ports.{Sockets, PortRange}
use sipgox.Dial.{Recipient, ClientDialog, Act, dial, after_acts}
use sipgox.Dial.Quiet.{OnlyMessages, dial-OnlyMessages}
use sipgox.Dial.Refer.{
  Notified, notify_error, notify_done, notify_response, Referral, refer_invite, second_notify,
  after_dial, after_notify, refer_with_media, refer_call,
}

second_notify-OnlyMessages :
    (accepted : Bool) (e : Option GoError) (d : ClientDialog)
    → OnlyMessages (second_notify accepted e d).0
unfolding second_notify
second_notify-OnlyMessages false e d = tt
second_notify-OnlyMessages true none d = (refl, tt)
second_notify-OnlyMessages true (some e) d = tt

after_dial-OnlyMessages :
    (accepted : Bool) (e : Option GoError) (x : List Act × Outcome ClientDialog)
    → OnlyMessages x.0
    → OnlyMessages (after_dial accepted e x).0
unfolding after_dial after_acts
after_dial-OnlyMessages accepted e (acts, ok d) h =
    All-append _ acts _ h (second_notify-OnlyMessages accepted e d)
after_dial-OnlyMessages accepted e (acts, err x) h = h
after_dial-OnlyMessages accepted e (acts, panic) h = h
after_dial-OnlyMessages accepted e (acts, diverges) h = h

redialled-OnlyMessages :
    (v6 : Ip6Notation) (network : Text) (f : Referral) (referred : Recipient) (m : MediaSession)
    (accepted : Bool)
    → OnlyMessages
        (after_dial accepted f.second_error
          (dial v6 (refer_invite v6 f.now network referred m) m f.line)).0
redialled-OnlyMessages v6 network f referred m accepted =
    after_dial-OnlyMessages accepted f.second_error
      (dial v6 (refer_invite v6 f.now network referred m) m f.line)
      (dial-OnlyMessages v6 (refer_invite v6 f.now network referred m) m f.line)

after_notify-OnlyMessages :
    (v6 : Ip6Notation) (network : Text) (f : Referral) (referred : Recipient) (m : MediaSession)
    (x : Notified)
    → OnlyMessages (after_notify v6 network f referred m x).0
unfolding after_notify after_acts
after_notify-OnlyMessages v6 network f referred m (notify_error e) = tt
after_notify-OnlyMessages v6 network f referred m notify_done =
    (refl, redialled-OnlyMessages v6 network f referred m true)
after_notify-OnlyMessages v6 network f referred m (notify_response status) =
    (refl, redialled-OnlyMessages v6 network f referred m (status == 200))

module _ (n : Sockets) (v6 : Ip6Notation) (network : Text) (f : Referral) (w : n.World)
    (r : PortRange) where
  refer_with_media-OnlyMessages :
      (referred : Recipient) (x : n.World × PortRange × (GoError ⊎ MediaSession))
      → OnlyMessages (refer_with_media n v6 network f referred x).2
  unfolding refer_with_media
  refer_with_media-OnlyMessages referred (w', r', inl e) = tt
  refer_with_media-OnlyMessages referred (w', r', inr m) =
      after_notify-OnlyMessages v6 network f referred m f.first_notify

  pub refer_call-OnlyMessages :
      (read : GoError ⊎ Recipient) → OnlyMessages (refer_call n v6 network f read w r).2
  unfolding refer_call
  refer_call-OnlyMessages (inl e) = tt
  refer_call-OnlyMessages (inr referred) = refer_with_media-OnlyMessages referred _
