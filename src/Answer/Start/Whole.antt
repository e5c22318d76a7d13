-- ===== src/Answer/Start/Whole.antt =====
-- phone.go's `answer` as a whole: its start, its handlers over what happens, and what it returns. Where
-- `stopAnswer` runs, the listeners are closed behind the handlers.
pub mod Taken
pub mod Uncalled
use sipgox.Prelude.{Bool, true, false, ◌||◌, ◌&&◌, Option, none, some, List, [], ◌∷◌, if◌then◌else◌}
use sipgox.Text.{Text}
use sipgox.Ip.{Ip, Ip6Notation}
use sipgox.Outcome.{Outcome, ok, err, panic, diverges, GoError, ◌>>◌}
use sipgox.Sip.{Sip, Net}
use sipgox.Ports.{Sockets, PortRange}
use sipgox.Listeners.{Streams, Resolver}
use sipgox.Phone.{Phone, Agent, host_media_ip}
use sipgox.Answer.{AnswerOptions, Digest, ServerDialog, Answering, Handler, then_do}
use sipgox.Answer.Handlers.{
  Event, invited, acknowledged, ended, registration_ended, asked, handle, answer_result,
}
use sipgox.Answer.Handlers.Reached.{start_answer}
use sipgox.Answer.Start.{Starting, Started, Start, answer_start, stop_answer}

-- The media of every INVITE are at the address of the first listener.
unfoldable pub with_media_ip : Ip → Event → Event
with_media_ip ip (invited env e req) = invited (record env { media_ip = ip }) e req
with_media_ip ip (acknowledged e taking) = acknowledged e taking
with_media_ip ip (ended e) = ended e
with_media_ip ip (registration_ended e) = registration_ended e
with_media_ip ip (asked respond) = asked respond

-- The handlers of what happens, one after the other.
unfoldable pub handle_all :
    {n : Sockets} → Ip6Notation → Digest → AnswerOptions → Ip → List Event → Handler n (Unit {0})
unfolding with_media_ip
handle_all v6 g opts ip [] s = (ok tt, s)
handle_all v6 g opts ip (e ∷ events) s =
    then_do (handle v6 g opts (with_media_ip ip e) s) (λ _. handle_all v6 g opts ip events)

-- Whether the context of the caller has ended before a dialog was taken.
pub ended_by_caller : Option GoError → Option (Option ServerDialog) → Bool
ended_by_caller (some e) none = true
ended_by_caller _ _ = false

module _ (n : Sockets) (sip : Sip) where
  -- Without a start, the sockets, the network and the error; or what was started, the shared variables at the
  -- end, the network and what is returned.
  pub data Ending : Type 0 where
    not_started : n.World → Net sip → Outcome (Option ServerDialog) → Ending
    ran : Started sip → Answering n → Net sip → Outcome (Option ServerDialog) → Ending

module _ (n : Sockets) (t : Streams n) (v6 : Ip6Notation) (rs : Resolver) (print : Ip → Text)
    (sip : Sip) (agent : Agent) (g : Digest) where
  -- `stopAnswer`, where it has been called, and then the result.
  stopped_answer :
      AnswerOptions
      → Started sip
      → Answering n
      → Net sip
      → Outcome (Option ServerDialog)
      → Bool
      → Ending n sip
  stopped_answer opts st s net r false = ran st s net r
  stopped_answer opts st s net r true =
      let (w, net', stopped) = stop_answer n t v6 rs print sip agent opts st s.world net in
      ran st (record s { world = w }) net' (stopped >> r)

  -- A handler returns nothing, so that no error comes from it.
  ended_answer :
      AnswerOptions
      → Option GoError
      → Started sip
      → Net sip
      → Outcome (Unit {0}) × Answering n
      → Ending n sip
  unfolding stopped_answer ended_by_caller
  ended_answer opts caller st net (panic, s) = ran st s net panic
  ended_answer opts caller st net (diverges, s) = ran st s net diverges
  ended_answer opts caller st net (err e, s) =
      stopped_answer opts st s net (answer_result caller s)
        (s.stopped || ended_by_caller caller s.delivered)
  ended_answer opts caller st net (ok u, s) =
      stopped_answer opts st s net (answer_result caller s)
        (s.stopped || ended_by_caller caller s.delivered)

  after_start :
      AnswerOptions
      → Option GoError
      → List Event
      → PortRange
      → Text
      → Text
      → Start n t v6 rs print sip agent
      → Ending n sip
  unfolding ended_answer
  after_start opts caller events r realm reason (w, net, err e) = not_started w net (err e)
  after_start opts caller events r realm reason (w, net, panic) = not_started w net panic
  after_start opts caller events r realm reason (w, net, diverges) = not_started w net diverges
  after_start opts caller events r realm reason (w, net, ok st) = ended_answer opts caller st net (
      handle_all v6 g opts (host_media_ip v6 agent st.lhost) events (start_answer w r realm reason))

  -- `answer`, with the error of its context where that has ended, for the realm and the reason of the options.
  unfoldable pub answer_phone :
      Starting
      → AnswerOptions
      → Phone
      → Option GoError
      → List Event
      → PortRange
      → Text
      → Text
      → n.World
      → Net sip
      → Ending n sip
  unfolding after_start
  answer_phone env opts phone caller events r realm reason w net =
      after_start opts caller events r realm reason
        (answer_start n t v6 rs print sip agent env opts phone w net)
