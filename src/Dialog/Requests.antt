-- ===== src/Dialog/Requests.antt =====
-- The two ways in which a request within a call is built.
use sipgox.Prelude.{◌≡◌, refl, none, some, List}
use sipgox.Dialog.{Message, Header, uac_request_build, uas_request_build}

-- The message as the other side sees it.
abbrev pub swapped : Message → Message
swapped m = record m { from = m.to; to = m.from }

-- The called side builds its request from the response that it sent just as the calling side builds one
-- from a request, with the two parties swapped; and swapped again, its requests are those that the
-- calling side builds from the INVITE and the response that answered it, whenever the two agree on the
-- caller, the call id and the contact.
pub uas_request_build-swapped :
    (req : List Header) (invite answer : Message)
    → answer.from ≡ invite.from
    → answer.call_id ≡ invite.call_id
    → answer.contact ≡ invite.contact
    → (uas_request_build req answer ≡ uac_request_build req (swapped answer) none)
      × (uas_request_build req (swapped answer) ≡ uac_request_build req invite (some answer))
unfolding uas_request_build uac_request_build
uas_request_build-swapped req invite answer from id contact = (refl, rw (from, id, contact) refl)
