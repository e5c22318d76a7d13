-- ===== src/Answer/Start/Stopped.antt =====
-- What `stopAnswer` leaves of what `answer` has started.
use sipgox.Prelude.{
  ◌≡◌, refl, ap, ◌∙◌, Option, none, some, List, [], ◌∷◌, ◌++◌, ◌⊎◌, inl, inr, Bool-cases,
}
use mathlib.Core.Path.{subst}
use sipgox.Text.{Text, codes, eq_text}
use sipgox.Ip.{Ip, Ip6Notation}
use sipgox.Outcome.{ok, err, panic, diverges, GoError}
use sipgox.Sip.{Contact, Sip, Net, Reply}
use sipgox.Registration.{Called, unregister, unregistering}
use sipgox.Registration.Ended.{Returned, unregister-Returned, unregister_sends}
use sipgox.Ports.{Sockets}
use sipgox.Ports.Pair.{IsLawful}
use sipgox.Listeners.{Listener, Streams, Resolver, create_server_listeners, close_listener}
use sipgox.Listeners.Free.{KeepsStreams}
use sipgox.Listeners.Opened.{close_back}
use sipgox.Listeners.Back.{OpenedBack, create_server_listeners-OpenedBack}
use sipgox.Phone.{Phone, Agent}
use sipgox.Answer.{AnswerOptions}
use sipgox.Answer.Start.{
  Starting, Started, Start, listener_contact, registered_contact, registered, with_registration,
  with_client, with_listeners, with_server, answer_start, close_all, unregistered_then,
  stop_registered, stop_answer, kept_registration,
}

module _ (n : Sockets) (lawful : IsLawful n) (t : Streams n) (keeps : KeepsStreams t)
    (v6 : Ip6Notation) (rs : Resolver)
    (commute : (w : n.World) (a b : Listener)
      → close_listener n t v6 rs (close_listener n t v6 rs w a) b
        ≡ close_listener n t v6 rs (close_listener n t v6 rs w b) a)
    (print : Ip → Text) (sip : Sip) (agent : Agent) where
  open n use {World}

  -- What a stop sends.
  abbrev pub Stops : Option sip.Request → Net sip → Net sip → Type 0
  Stops none net net' = net' ≡ net
  Stops (some origin) net net' =
      (new : List sip.Request) × (net'.sent
        ≡ net.sent
          ++ sip.transmitted (sip.remove_header (codes "Via") (unregistering sip origin)) ∷ new)

  abbrev back : World → List Listener → World
  back w ls = close_back n lawful t keeps v6 rs w ls

  close_back-close_listener :
      (w : World) (l : Listener) (ls : List Listener)
      → back (close_listener n t v6 rs w l) ls ≡ close_listener n t v6 rs (back w ls) l
  close_back-close_listener w l [] = refl
  close_back-close_listener w l (k ∷ ls) =
      ap (λ v. close_listener n t v6 rs v k) (close_back-close_listener w l ls)
      ∙ commute (back w ls) l k

  -- The order of the closings does not matter.
  close_all-close_back :
      (w : World) (ls : List Listener) → close_all n t v6 rs print sip agent w ls ≡ back w ls
  unfolding close_all
  close_all-close_back w [] = refl
  close_all-close_back w (l ∷ ls) =
      close_all-close_back (close_listener n t v6 rs w l) ls ∙ close_back-close_listener w l ls

  -- What is started can be closed again.
  abbrev CanClose : World → Start n t v6 rs print sip agent → Type 0
  CanClose w (w', net, ok s) = back w' s.listeners ≡ w
  CanClose w (w', net, r) = Unit

  registered_contact-CanClose :
      (w w' : World) (ls : List Listener) (lhost : Text) (net : Net sip) (origin : sip.Request)
      (c : Option Contact)
      → back w' ls ≡ w
      → CanClose w (registered_contact n t v6 rs print sip agent w' ls lhost net origin c)
  unfolding registered_contact
  registered_contact-CanClose w w' ls lhost net origin none h = tt
  registered_contact-CanClose w w' ls lhost net origin (some c) h = h

  registered-CanClose :
      (w w' : World) (ls : List Listener) (lhost : Text) (x : Called sip)
      → back w' ls ≡ w
      → CanClose w (registered n t v6 rs print sip agent w' ls lhost x)
  unfolding registered
  registered-CanClose w w' ls lhost (net, origin, ok tt) h =
      registered_contact-CanClose w w' ls lhost net origin (sip.contact origin) h
  registered-CanClose w w' ls lhost (net, origin, err e) h = tt
  registered-CanClose w w' ls lhost (net, origin, panic) h = tt
  registered-CanClose w w' ls lhost (net, origin, diverges) h = tt

  with_registration-CanClose :
      (opts : AnswerOptions) (w w' : World) (ls : List Listener) (c : Contact) (net : Net sip)
      → back w' ls ≡ w
      → CanClose w (with_registration n t v6 rs print sip agent opts w' ls c net)
  unfolding with_registration
  with_registration-CanClose opts w w' ls c net h =
      elim (Bool-cases (eq_text opts.register_addr [])) [
        | inl none_given ↦ rw none_given h
        | inr given ↦ rw given (registered-CanClose w w' ls c.host _ h)
      ]

  with_client-CanClose :
      (client_error : Option GoError) (opts : AnswerOptions) (w w' : World) (ls : List Listener)
      (c : Contact) (net : Net sip)
      → back w' ls ≡ w
      → CanClose w (with_client n t v6 rs print sip agent client_error opts w' ls c net)
  unfolding with_client
  with_client-CanClose (some e) opts w w' ls c net h = tt
  with_client-CanClose none opts w w' ls c net h = with_registration-CanClose opts w w' ls c net h

  with_listeners-CanClose :
      (env : Starting) (opts : AnswerOptions) (w : World) (net : Net sip)
      (x : World × (GoError ⊎ List Listener))
      → OpenedBack n lawful t keeps v6 rs w x
      → CanClose w (with_listeners n t v6 rs print sip agent env opts net x)
  unfolding with_listeners
  with_listeners-CanClose env opts w net (w', inl e) h = tt
  with_listeners-CanClose env opts w net (w', inr []) h = tt
  with_listeners-CanClose env opts w net (w', inr (l ∷ ls)) h =
      with_client-CanClose env.client_error opts w w' (l ∷ ls)
        (listener_contact n t v6 rs print sip agent l) net h

  with_server-CanClose :
      (server_error : Option GoError) (env : Starting) (opts : AnswerOptions) (phone : Phone)
      (w : World) (net : Net sip)
      → CanClose w (with_server n t v6 rs print sip agent server_error env opts phone w net)
  unfolding with_server
  with_server-CanClose (some e) env opts phone w net = tt
  with_server-CanClose none env opts phone w net =
      with_listeners-CanClose env opts w net
        (create_server_listeners n t v6 rs print env.random w phone.listen_addrs)
        (create_server_listeners-OpenedBack n lawful t keeps v6 rs print env.random w
          phone.listen_addrs)

  unregistered_then_lem :
      (w : World) (ls : List Listener) (x : Called sip)
      → Returned x.2
      → unregistered_then n t v6 rs print sip agent w ls x
        ≡ (close_all n t v6 rs print sip agent w ls, x.0, ok tt)
  unfolding unregistered_then
  unregistered_then_lem w ls (net, origin, ok tt) h = refl
  unregistered_then_lem w ls (net, origin, err e) h = refl
  unregistered_then_lem w ls (net, origin, panic) h = elim h [ ]
  unregistered_then_lem w ls (net, origin, diverges) h = elim h [ ]

  -- The stop, for a registration or none.
  stop_registered_lem :
      (opts : AnswerOptions) (ls : List Listener) (r : Option sip.Request) (w' : World)
      (first second : Reply) (later : List Reply) (sent : List sip.Request)
      → let net : Net sip = record { replies = first ∷ second ∷ later; sent = sent } in
        (net' : Net sip) × (stop_registered n t v6 rs print sip agent opts ls r w' net
          ≡ (back w' ls, net', ok tt))
        × Stops r net net'
  unfolding stop_registered
  stop_registered_lem opts ls none w' first second later sent =
      let net : Net sip = record { replies = first ∷ second ∷ later; sent = sent } in
      (net, ap (λ v. (v, net, ok tt)) (close_all-close_back w' ls), refl)
  stop_registered_lem opts ls (some origin) w' first second later sent =
      let net : Net sip = record { replies = first ∷ second ∷ later; sent = sent } in
      let x = unregister sip (kept_registration opts) net origin in
      (
        x.0,
        unregistered_then_lem w' ls x
              (unregister-Returned sip (kept_registration opts) sent first second later origin)
            ∙ ap (λ v. (v, x.0, ok tt)) (close_all-close_back w' ls),
        unregister_sends sip (kept_registration opts) net origin,
      )

  -- Where lawful sockets may be closed in any order and two replies are still to come from the registrar: once
  -- `answer` has started, whatever the phone listens on, `stopAnswer` ends without an error, it leaves the
  -- sockets as they were before `answer`, and it sends nothing where there is no registration, and first of all
  -- the request that unregisters where there is one.
  pub stop_answer-answer_start :
      (env : Starting) (opts : AnswerOptions) (phone : Phone) (w : World) (net : Net sip)
      {w' : World} {first second : Reply} {later : List Reply} {sent : List sip.Request}
      {s : Started sip}
      → answer_start n t v6 rs print sip agent env opts phone w net
        ≡ (w', record { replies = first ∷ second ∷ later; sent = sent }, ok s)
      → let before : Net sip = record { replies = first ∷ second ∷ later; sent = sent } in
        (after : Net sip) × (stop_answer n t v6 rs print sip agent opts s w' before
          ≡ (w, after, ok tt))
        × Stops s.registration before after
  unfolding answer_start stop_answer
  stop_answer-answer_start env opts phone w net {w'} {first} {second} {later} {sent} {s} started =
      let closes : back w' s.listeners ≡ w =
        subst (λ x. CanClose w x) started
          (with_server-CanClose env.server_error env opts phone w net) in
      let (after, stopped, sends) =
        stop_registered_lem opts s.listeners s.registration w' first second later sent in
      (after, stopped ∙ ap (λ v. (v, after, ok tt)) closes, sends)
