-- ===== src/Tests/Registrations.antt =====
-- Registrations with requests that are lists of headers.
use sipgox.Prelude.{
  ◌≡◌, refl, ap, sym, ◌⊎◌, inr, false, Option, none, some, List, [], ◌∷◌, ◌++◌, if◌then◌else◌,
}
use sipgox.Prelude.Int.{pos}
use sipgox.Text.{Text, codes, eq_text}
use sipgox.Outcome.{ok}
use sipgox.Sip.{Contact, Sip, Net, responded, get_response, exchange, reply_to, get_param}
use sipgox.Registration.{
  RegisterOptions, register, unregister, register_phone, accepted, authenticate, finished, with_via,
  first_response, from_contact, with_seen, sent_again,
}
use sipgox.Registration.Rounds.{Succeeds, register-Succeeds}
use sipgox.Registration.Requests.{SentWithin, register_sent}
use sipgox.Registration.Nat.{IsLawful, reported, register_phone_contact}
use sipgox.Registration.Qualify.{fine}

pub record Sent : Type 0 where
  pub method : Text
  pub held : Option Contact
  pub headers : List (Text × Text)

abbrev pub without : Text → List (Text × Text) → List (Text × Text)
without name [] = []
without name ((k, v) ∷ headers) =
    let rest = without name headers in if eq_text k name then rest else (k, v) ∷ rest

abbrev pub headed : Sip
headed = record {
  Request = Sent;
  new_request = λ method recipient. record { method = method; held = none; headers = [] };
  append_contact = λ c req. record req { held = some c };
  append_header = λ name value req. record req { headers = req.headers ++ (name, value) ∷ [] };
  remove_header = λ name req. record req { headers = without name req.headers };
  replace_contact = λ c req. record req { held = some c };
  contact = λ req. req.held;
  transmitted = λ req. record req { headers = (codes "Via", codes "1") ∷ req.headers };
  authorized = λ req res username password.
      inr (record req { headers = (codes "Authorization", password) ∷ req.headers });
}

inr-equal : {A B : Type 0} {r : A ⊎ B} {b c : B} → r ≡ inr b → r ≡ inr c → b ≡ c
inr-equal e f = cc

headed-IsLawful : IsLawful headed
headed-IsLawful = record {
  contact_appended = λ c method recipient. refl;
  contact_first = λ c name value req h. h;
  contact_replaced = λ c d req h. refl;
  contact_transmitted = λ req. refl;
  contact_authorized =
      λ req again res username password h. ap (λ x. x.held) (sym (inr-equal refl h));
}

abbrev me : Contact
me = record { host = codes "10.0.0.5"; port = pos 5060; rest = [] }

abbrev once : RegisterOptions
once = record {
  username = codes "me";
  password = codes "secret";
  expiry = pos 30;
  allow_headers = none;
  unregister_all = false;
}

abbrev origin : Sent
origin = record { method = codes "REGISTER"; held = some me; headers = [] }

-- A registrar that challenges once.
abbrev challenging : Net headed
challenging = record {
  replies =
      responded (record { status = 401; via = some [] })
      ∷ responded (record { status = 200; via = some [] })
      ∷ [];
  sent = [];
}

registered : (register headed once challenging origin).2 ≡ ok tt
unfolding register from_contact first_response with_via with_seen authenticate sent_again finished
    accepted exchange reply_to get_response get_param eq_text
registered = refl

register-Succeeds_example : Succeeds challenging.replies
register-Succeeds_example = register-Succeeds headed once challenging origin registered

register_sent_example :
    SentWithin headed 2 challenging (register headed once challenging origin).0
    × SentWithin headed 2 challenging (unregister headed once challenging origin).0
register_sent_example = register_sent headed once challenging origin

-- A registrar that sees another address.
abbrev seen : List (Text × Text)
seen = (codes "rport", codes "40000") ∷ (codes "received", codes "1.2.3.4") ∷ []

register_phone_contact_example :
    headed.contact
      (register_phone headed once
        (record { replies = responded (record { status = 200; via = some seen }) ∷ []; sent = [] })
        (codes "sip:registrar")
        me).1
    ≡ some (reported me seen)
register_phone_contact_example =
    register_phone_contact headed headed-IsLawful once _ (codes "sip:registrar") me
      (record { status = 200; via = some seen }) [] seen refl refl refl

-- A registrar that accepts, and two more replies.
abbrev pub accepting : Net headed
accepting = record {
  replies =
      responded (record { status = 200; via = some [] })
      ∷ responded (fine headed)
      ∷ responded (fine headed)
      ∷ [];
  sent = [];
}

abbrev first_request : Sent
first_request = record {
  method = codes "REGISTER";
  held = some me;
  headers = (codes "Via", codes "1") ∷ (codes "Expires", codes "30") ∷ [];
}
