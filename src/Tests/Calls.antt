-- ===== src/Tests/Calls.antt =====
-- Requests within a call, and the targets of calls.
use sipgox.Prelude.{◌≡◌, ◌↔◌, true, none, some, [], ◌∷◌}
use sipgox.Text.{Text, codes, eq_text, has_prefix}
use sipgox.Outcome.{ok, external}
use sipgox.Dialog.{Party, Message, dialog_ended, notify}
use sipgox.Dialog.Transfer.{notify_unheard}

abbrev alice : Party
alice = record {
  display_name = codes "Alice";
  address = codes "sip:alice@a.test";
  params = (codes "tag", codes "1") ∷ [];
}

abbrev bob : Party
bob = record { display_name = []; address = codes "sip:bob@b.test"; params = [] }

abbrev invite : Message
invite = record { from = alice; to = bob; call_id = codes "77"; contact = none }

-- The response, with the tag of the called side.
abbrev answer : Message
answer = record invite { to = record bob { params = (codes "tag", codes "2") ∷ [] } }

-- The other side accepted, and then the dialog ended.
notify_unheard_example :
    let x =
      notify
        (codes "77")
        (codes "77")
        (some (codes "SIP/2.0 200 OK"))
        (dialog_ended (external 4)) in
    (x.0 ≡ none)
    × ((x.1 ≡ ok tt) ↔ (
        (eq_text (codes "77") (codes "77") ≡ true)
        × ((b : Text) × (some (codes "SIP/2.0 200 OK") ≡ some b)
            × (has_prefix (codes "SIP/2.0 1") b ≡ true))))
notify_unheard_example =
    notify_unheard (codes "77") (codes "77") (some (codes "SIP/2.0 200 OK"))
      (dialog_ended (external 4)) (λ h. cc)
