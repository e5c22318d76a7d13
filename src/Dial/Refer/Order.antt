-- ===== src/Dial/Refer/Order.antt =====
-- The calls of `OnRefer`.
use sipgox.Prelude.{◌≡◌, refl, true, some, List, [], ◌∷◌, ◌++◌}
use sipgox.Text.{Text}
use sipgox.Ip.{Ip6Notation}
use sipgox.Outcome.{Outcome, ok, err, panic, diverges}
use sipgox.MediaSession.{MediaSession}
use sipgox.Ports.{Sockets, PortRange}
use sipgox.Dial.{
  Recipient, ClientDialog, refer_none, refer_confirmed, refer_ended, Act, refer_response,
  refer_called,
}
use sipgox.Dial.Quiet.{OnlyMessages}
use sipgox.Dial.Refer.Messages.{refer_call-OnlyMessages}
use sipgox.Dial.Refer.Done.{Redials, IsDone, new_call, messages_of, Returns, refer_call-Returns}
use sipgox.Dial.Refer.{Referral, refer_result, Refers, refer_call, refer_handled, on_refer}

module _ (n : Sockets) (v6 : Ip6Notation) (network : Text) (f : Referral) (w : n.World)
    (r : PortRange) where
  -- What the handler does: one call of `OnRefer` before anything else, then messages, and at the end the call with
  -- the dialog of the transfer that is done, or, where none is, a 500 and the call that says that the transfer
  -- has ended; without an end only where the new call has none.
  pub data IsReferred : List Act → Outcome (Unit {0}) → Type 0 where
    transferred :
        (messages : List Act) (d : ClientDialog)
        → OnlyMessages messages
        → (done : IsDone n v6 network f w r d) → messages ≡ messages_of n v6 network f w r done
        → IsReferred
            (refer_called refer_none ∷ messages ++ refer_called (refer_confirmed (some d)) ∷ [])
            (ok tt)
    failed :
        (messages : List Act)
        → OnlyMessages messages
        → ((d : ClientDialog) → ¬ IsDone n v6 network f w r d)
        → IsReferred
            (refer_called refer_none ∷ messages
              ++ refer_response 500 ∷ refer_called refer_ended ∷ [])
            (ok tt)
    panicked :
        (messages : List Act) (referred : Recipient) (m : MediaSession)
        → OnlyMessages messages
        → Redials n v6 network f w r referred m
        → (new_call n v6 network f w r referred m).1 ≡ panic
        → IsReferred (refer_called refer_none ∷ messages) panic
    not_ended :
        (messages : List Act) (referred : Recipient) (m : MediaSession)
        → OnlyMessages messages
        → Redials n v6 network f w r referred m
        → (new_call n v6 network f w r referred m).1 ≡ diverges
        → IsReferred (refer_called refer_none ∷ messages) diverges

  refer_handled-IsReferred :
      (x : Refers n ClientDialog)
      → OnlyMessages x.2
      → Returns n v6 network f w r (x.2, x.3)
      → let (_, _, acts, result) = refer_handled n x in IsReferred acts result
  unfolding refer_handled refer_result
  refer_handled-IsReferred (w', r', acts, ok d) h (done, same) = transferred acts d h done same
  refer_handled-IsReferred (w', r', acts, err e) h undone = failed acts h undone
  refer_handled-IsReferred (w', r', acts, panic) h (referred, (m, reached, p)) =
      panicked acts referred m h reached p
  refer_handled-IsReferred (w', r', acts, diverges) h (referred, (m, reached, p)) =
      not_ended acts referred m h reached p

  -- A handled REFER, where there is an `OnRefer`: it is called with no state before anything is sent. Where the
  -- REFER was read, the media session opened, the first NOTIFY sent, the new call returned a dialog, and the
  -- second NOTIFY was sent if the first was taken, these messages are sent in this order, and `OnRefer` is called
  -- once more after them, with that dialog; where any of these fails, behind a 500 to say that the
  -- transfer has ended; and the handler panics or does not end only where the new call does.
  pub on_refer-IsReferred :
      let (_, _, acts, result) = on_refer n v6 network true f w r in IsReferred acts result
  unfolding on_refer
  on_refer-IsReferred =
      refer_handled-IsReferred (refer_call n v6 network f f.read w r)
        (refer_call-OnlyMessages n v6 network f w r f.read)
        (refer_call-Returns n v6 network f w r f.read refl)
