-- ===== src/Dial/Quiet.antt =====
-- What `dial` sends.
use sipgox.Prelude.{◌≡◌, refl, Bool, true, false, Option, none, some, List, All}
use sipgox.Ip.{Ip6Notation}
use sipgox.Outcome.{Outcome, ok, err, panic, diverges, GoError}
use sipgox.MediaSession.{MediaSession}
use sipgox.Dial.{
  DialInvite, Act, refer_called, Waited, not_answered, wait_error, answered, Line, ack_answer,
  take_answer, dial_wait_answer, after_acts, dial_written, dial,
}

-- A message, and no call of `OnRefer`.
abbrev pub is_message : Act → Bool
is_message (refer_called state) = false
is_message _ = true

abbrev pub OnlyMessages : List Act → Type 0
OnlyMessages acts = All (λ a. is_message a ≡ true) acts

take_answer-OnlyMessages :
    (e : Option GoError) (x : MediaSession × Outcome (Unit {0})) → OnlyMessages (take_answer e x).0
unfolding take_answer ack_answer
take_answer-OnlyMessages none (m, ok u) = (refl, tt)
take_answer-OnlyMessages (some e) (m, ok u) = tt
take_answer-OnlyMessages e (m, err x) = tt
take_answer-OnlyMessages e (m, panic) = tt
take_answer-OnlyMessages e (m, diverges) = tt

dial_wait_answer-OnlyMessages :
    (v6 : Ip6Notation) (m : MediaSession) (waited : Waited) (e : Option GoError)
    → OnlyMessages (dial_wait_answer v6 m waited e).0
unfolding dial_wait_answer
dial_wait_answer-OnlyMessages v6 m (not_answered code) e = tt
dial_wait_answer-OnlyMessages v6 m (wait_error x) e = tt
dial_wait_answer-OnlyMessages v6 m (answered body) e = take_answer-OnlyMessages e _

dial_written-OnlyMessages :
    (v6 : Ip6Notation) (invite : DialInvite) (m : MediaSession) (line : Line) (e : Option GoError)
    → OnlyMessages (dial_written v6 invite m line e).0
unfolding dial_written after_acts
dial_written-OnlyMessages v6 invite m line (some e) = tt
dial_written-OnlyMessages v6 invite m line none =
    (refl, dial_wait_answer-OnlyMessages v6 m line.waited line.ack_error)

pub dial-OnlyMessages :
    (v6 : Ip6Notation) (invite : DialInvite) (m : MediaSession) (line : Line)
    → OnlyMessages (dial v6 invite m line).0
unfolding dial
dial-OnlyMessages v6 invite m line = dial_written-OnlyMessages v6 invite m line line.write_error
