-- ===== src/Answer/Start/Whole/Uncalled.antt =====
-- `answer` where no INVITE comes before it is stopped.
use sipgox.Prelude.{◌≡◌, refl, ap, ◌∙◌, true, ◌||◌, Option, none, some, List, [], ◌∷◌, All}
use sipgox.Text.{Text}
use sipgox.Ip.{Ip, Ip6Notation}
use sipgox.Outcome.{Outcome, ok, err, panic, diverges, GoError, ◌>>◌}
use sipgox.Sip.{Sip, Net, Reply}
use sipgox.Ports.{Sockets, PortRange}
use sipgox.Ports.Pair.{IsLawful}
use sipgox.Listeners.{Listener, Streams, Resolver, close_listener}
use sipgox.Listeners.Free.{KeepsStreams}
use sipgox.Phone.{Phone, Agent, host_media_ip}
use sipgox.Answer.{
  AnswerOptions, Answered, Challenge, Digest, ServerDialog, Answering, sent_or, try_response,
  then_do,
}
use sipgox.Answer.Handlers.{
  Event, invited, acknowledged, ended, registration_ended, asked, Taking, not_taken,
  taken_after_reset, reset_after_return, reset_in_between, handle, on_ack, on_ack_with, read_ack,
  hand_over_ack, on_bye, on_options, on_registration_end, answer_result,
}
use sipgox.Answer.Handlers.Reached.{start_answer}
use sipgox.Answer.Start.{Starting, Started, answer_start, stop_answer}
use sipgox.Answer.Start.Stopped.{Stops, stop_answer-answer_start}
use sipgox.Answer.Start.Whole.{
  with_media_ip, handle_all, ran, stopped_answer, ended_answer, ended_by_caller, after_start,
  answer_phone,
}

-- Anything but an INVITE.
abbrev pub IsNoInvite : Event → Type 0
IsNoInvite (invited env e req) = ⊥
IsNoInvite (acknowledged e taking) = Unit
IsNoInvite (ended e) = Unit
IsNoInvite (registration_ended e) = Unit
IsNoInvite (asked respond) = Unit

-- A handler that ends without an error and leaves the sockets alone.
abbrev KeepsWorld : {n : Sockets} → Answering n → Outcome (Unit {0}) × Answering n → Type 0
KeepsWorld s x = (x.0 ≡ ok tt) × (x.1.world ≡ s.world)

module _ {n : Sockets} where
  hand_over_ack_world :
      (taking : Taking) (s : Answering n) → (hand_over_ack taking s).world ≡ s.world
  unfolding hand_over_ack
  hand_over_ack_world not_taken s = refl
  hand_over_ack_world taken_after_reset s = refl
  hand_over_ack_world reset_after_return s = refl
  hand_over_ack_world reset_in_between s = refl

  read_ack_world :
      (e : Option GoError) (taking : Taking) (s : Answering n)
      → (read_ack e taking s).world ≡ s.world
  unfolding read_ack
  read_ack_world (some e) taking s = refl
  read_ack_world none taking s = hand_over_ack_world taking s

  on_ack_with_world :
      (e : Option GoError) (taking : Taking) (d : Option ServerDialog) (chal : Option Challenge)
      (s : Answering n)
      → (on_ack_with e taking d chal s).world ≡ s.world
  unfolding on_ack_with
  on_ack_with_world e taking none (some chal) s = refl
  on_ack_with_world e taking none none s = read_ack_world e taking _
  on_ack_with_world e taking (some d) chal s = read_ack_world e taking s

  sent_or_world :
      (e : Option GoError) (res : Answered) (s : Answering n) → (sent_or e res s).1.world ≡ s.world
  unfolding sent_or
  sent_or_world none res s = refl
  sent_or_world (some e) res s = refl

  on_bye-KeepsWorld : (e : Option GoError) (s : Answering n) → KeepsWorld s (on_bye e s)
  unfolding on_bye
  on_bye-KeepsWorld none s = (refl, refl)
  on_bye-KeepsWorld (some e) s = (refl, refl)

  handle-KeepsWorld :
      (v6 : Ip6Notation) (g : Digest) (opts : AnswerOptions) (ip : Ip) (e : Event) (s : Answering n)
      → IsNoInvite e
      → KeepsWorld s (handle v6 g opts (with_media_ip ip e) s)
  unfolding handle with_media_ip on_ack on_options on_registration_end try_response
  handle-KeepsWorld v6 g opts ip (invited env e req) s h = absurd h
  handle-KeepsWorld v6 g opts ip (acknowledged e taking) s h =
      (refl, on_ack_with_world e taking s.dialog s.challenge s)
  handle-KeepsWorld v6 g opts ip (ended e) s h = on_bye-KeepsWorld e s
  handle-KeepsWorld v6 g opts ip (registration_ended e) s h = (refl, refl)
  handle-KeepsWorld v6 g opts ip (asked respond) s h = (refl, sent_or_world _ _ s)

  next-KeepsWorld :
      (s : Answering n) (x : Outcome (Unit {0}) × Answering n)
      (go : Answering n → Outcome (Unit {0}) × Answering n)
      → KeepsWorld s x
      → ((s' : Answering n) → KeepsWorld s' (go s'))
      → KeepsWorld s (then_do x (λ _. go))
  next-KeepsWorld s (ok u, s') go (fine, same) rest =
      let (rest_ended, rest_same) = rest s' in (rest_ended, rest_same ∙ same)
  next-KeepsWorld s (err e, s') go (fine, same) rest = cc
  next-KeepsWorld s (panic, s') go (fine, same) rest = cc
  next-KeepsWorld s (diverges, s') go (fine, same) rest = cc

  handle_all-KeepsWorld :
      (v6 : Ip6Notation) (g : Digest) (opts : AnswerOptions) (ip : Ip) (events : List Event)
      (s : Answering n)
      → All IsNoInvite events
      → KeepsWorld s (handle_all v6 g opts ip events s)
  unfolding handle_all
  handle_all-KeepsWorld v6 g opts ip [] s h = (refl, refl)
  handle_all-KeepsWorld v6 g opts ip (e ∷ events) s h =
      next-KeepsWorld s (handle v6 g opts (with_media_ip ip e) s) (handle_all v6 g opts ip events)
        (handle-KeepsWorld v6 g opts ip e s h.0)
        (λ s'. handle_all-KeepsWorld v6 g opts ip events s' h.1)

module _ (n : Sockets) (lawful : IsLawful n) (t : Streams n) (keeps : KeepsStreams t)
    (v6 : Ip6Notation) (rs : Resolver)
    (commute : (w : n.World) (a b : Listener)
      → close_listener n t v6 rs (close_listener n t v6 rs w a) b
        ≡ close_listener n t v6 rs (close_listener n t v6 rs w b) a)
    (print : Ip → Text) (sip : Sip) (agent : Agent) (g : Digest) where
  -- The end of `answer` in a state of the handlers.
  stopped_at :
      (opts : AnswerOptions) (caller : Option GoError) (st : Started sip) (net after : Net sip)
      (w w' : n.World) (x : Outcome (Unit {0}) × Answering n)
      → x.0 ≡ ok tt
      → x.1.world ≡ w'
      → (x.1.stopped || ended_by_caller caller x.1.delivered) ≡ true
      → stop_answer n t v6 rs print sip agent opts st w' net ≡ (w, after, ok tt)
      → ended_answer n t v6 rs print sip agent g opts caller st net x
        ≡ ran st (record x.1 { world = w }) after (answer_result caller x.1)
  unfolding ended_answer stopped_answer
  stopped_at opts caller st net after w w' (ok u, s) fine same stops stopped = rw stops (
      ap
        (λ (y : n.World × Net sip × Outcome (Unit {0})).
          ran st (record s { world = y.0 }) y.1 (y.2 >> answer_result caller s))
        (ap (λ v. stop_answer n t v6 rs print sip agent opts st v net) same ∙ stopped))
  stopped_at opts caller st net after w w' (err e, s) fine same stops stopped = cc
  stopped_at opts caller st net after w w' (panic, s) fine same stops stopped = cc
  stopped_at opts caller st net after w w' (diverges, s) fine same stops stopped = cc

  -- Where lawful sockets may be closed in any order, two replies are still to come from the registrar and no INVITE
  -- comes: once `answer` has started, and a handler stops it or the context of its caller ends before a dialog was
  -- taken, it returns what its shared variables give, and leaves the sockets as they were before it; the request
  -- that unregisters is sent first where there is a registration, and nothing where there is none.
  pub answer_phone-stopped :
      (start : Starting) (opts : AnswerOptions) (phone : Phone) (caller : Option GoError)
      (events : List Event) (r : PortRange) (realm reason : Text) (w : n.World) (net : Net sip)
      {w' : n.World} {first second : Reply} {later : List Reply} {sent : List sip.Request}
      {st : Started sip}
      → answer_start n t v6 rs print sip agent start opts phone w net
        ≡ (w', record { replies = first ∷ second ∷ later; sent = sent }, ok st)
      → All IsNoInvite events
      → let s =
          (handle_all v6 g opts
            (host_media_ip v6 agent st.lhost)
            events
            (start_answer w' r realm reason)).1 in
        let before : Net sip = record { replies = first ∷ second ∷ later; sent = sent } in
        (s.stopped || ended_by_caller caller s.delivered) ≡ true
        → (after : Net sip) × (answer_phone n t v6 rs print sip agent g start opts phone caller
              events r realm reason w net
            ≡ ran st (record s { world = w }) after (answer_result caller s))
          × Stops n lawful t keeps v6 rs commute print sip agent st.registration before after
  unfolding answer_phone after_start start_answer
  answer_phone-stopped start opts phone caller events r realm reason w net {w'} {st = st} started
        calls stops =
      let (after, stopped, sends) =
        stop_answer-answer_start n lawful t keeps v6 rs commute print sip agent start opts phone w
          net started in
      let s = start_answer {n = n} w' r realm reason in
      let (fine, same) =
        handle_all-KeepsWorld v6 g opts (host_media_ip v6 agent st.lhost) events s calls in
      (after, rw started (stopped_at opts caller st _ after w w' _ fine same stops stopped), sends)
