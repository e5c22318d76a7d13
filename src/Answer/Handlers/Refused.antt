-- ===== src/Answer/Handlers/Refused.antt =====
-- An INVITE of a caller that is not authorized, from the handler's start to its end.
use sipgox.Prelude.{Bool, if◌then◌else◌}
use sipgox.Outcome.{Outcome}
use sipgox.Ports.{Sockets}
use sipgox.Answer.{Handler, pure}

module _ {n : Sockets} (go_on : Handler n (Unit {0})) where
  -- What follows the answer to whether the INVITE may go on.
  abbrev if_allowed : Bool → Handler n (Unit {0})
  if_allowed may_go_on = if may_go_on then go_on else pure tt
