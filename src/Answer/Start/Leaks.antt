-- ===== src/Answer/Start/Leaks.antt =====
-- What `answer` leaves open where its start fails.
use sipgox.Prelude.{
  ◌≡◌, refl, ap, sym, ◌∙◌, Bool-cases, Option, none, some, List, [], ◌∷◌, ◌⊎◌, inl, inr,
}
use mathlib.Core.Path.{subst}
use sipgox.Text.{Text, eq_text}
use sipgox.Ip.{Ip, Ip6Notation}
use sipgox.Outcome.{ok, err, panic, diverges, GoError}
use sipgox.Sip.{Contact, Sip, Net}
use sipgox.Registration.{Called}
use sipgox.Ports.{Sockets}
use sipgox.Ports.Pair.{IsLawful}
use sipgox.Listeners.{Listener, Streams, Resolver, create_server_listeners}
use sipgox.Listeners.Free.{KeepsStreams}
use sipgox.Listeners.Opened.{close_back}
use sipgox.Listeners.Back.{OpenedBack, create_server_listeners-OpenedBack}
use sipgox.Phone.{Phone, Agent}
use sipgox.Answer.{AnswerOptions}
use sipgox.Answer.Start.{
  Start, Started, registered_contact, Starting, registered, with_registration, with_client,
  with_listeners, with_server, answer_start,
}

module _ (n : Sockets) (lawful : IsLawful n) (t : Streams n) (keeps : KeepsStreams t)
    (v6 : Ip6Notation) (rs : Resolver) (print : Ip → Text) (sip : Sip) (agent : Agent) where
  -- Whatever comes behind the listeners: the sockets are as they were, and the listeners are kept.
  abbrev KeepsOpen : n.World → List Listener → Start n t v6 rs print sip agent → Type 0
  KeepsOpen w ls x = (x.0 ≡ w) × ((st : Started sip) → x.2 ≡ ok st → st.listeners ≡ ls)

  registered_contact-KeepsOpen :
      (w : n.World) (ls : List Listener) (lhost : Text) (net : Net sip) (origin : sip.Request)
      (contact : Option Contact)
      → KeepsOpen w ls (registered_contact n t v6 rs print sip agent w ls lhost net origin contact)
  unfolding registered_contact
  registered_contact-KeepsOpen w ls lhost net origin none = (refl, λ st h. cc)
  registered_contact-KeepsOpen w ls lhost net origin (some contact) = (refl, λ st h. cc)

  registered-KeepsOpen :
      (w : n.World) (ls : List Listener) (lhost : Text) (x : Called sip)
      → KeepsOpen w ls (registered n t v6 rs print sip agent w ls lhost x)
  unfolding registered
  registered-KeepsOpen w ls lhost (net, origin, ok tt) =
      registered_contact-KeepsOpen w ls lhost net origin (sip.contact origin)
  registered-KeepsOpen w ls lhost (net, origin, err e) = (refl, λ st h. cc)
  registered-KeepsOpen w ls lhost (net, origin, panic) = (refl, λ st h. cc)
  registered-KeepsOpen w ls lhost (net, origin, diverges) = (refl, λ st h. cc)

  with_registration-KeepsOpen :
      (opts : AnswerOptions) (w : n.World) (ls : List Listener) (contact : Contact) (net : Net sip)
      → KeepsOpen w ls (with_registration n t v6 rs print sip agent opts w ls contact net)
  unfolding with_registration
  with_registration-KeepsOpen opts w ls contact net =
      elim (Bool-cases (eq_text opts.register_addr [])) [
        | inl unregistered ↦ rw unregistered (refl, λ st h. cc)
        | inr given ↦ rw given (registered-KeepsOpen w ls contact.host _)
      ]

  with_client-KeepsOpen :
      (error : Option GoError) (opts : AnswerOptions) (w : n.World) (ls : List Listener)
      (contact : Contact) (net : Net sip)
      → KeepsOpen w ls (with_client n t v6 rs print sip agent error opts w ls contact net)
  unfolding with_client
  with_client-KeepsOpen (some e) opts w ls contact net = (refl, λ st h. cc)
  with_client-KeepsOpen none opts w ls contact net =
      with_registration-KeepsOpen opts w ls contact net

  module _ (env : Starting) (phone : Phone) (w : n.World) where
    abbrev opening : n.World × (GoError ⊎ List Listener)
    opening = create_server_listeners n t v6 rs print env.random w phone.listen_addrs

    -- How the start of `answer` leaves the listeners: there was no server to listen with, and nothing was opened; or
    -- the listeners could not be opened, and what `createServerListeners` left open stays open; or they were, and
    -- stay open, so that closing them, the last first, leaves the sockets as before.
    pub data LeavesListeners (x : Start n t v6 rs print sip agent) : Type 0 where
      unserved :
          (e : GoError) → env.server_error ≡ some e → x.2 ≡ err e → x.0 ≡ w → LeavesListeners x
      unlistened :
          (e : GoError)
          → env.server_error ≡ none
          → opening ≡ (x.0, inl e)
          → x.2 ≡ err e
          → LeavesListeners x
      listening :
          (ls : List Listener)
          → env.server_error ≡ none
          → opening ≡ (x.0, inr ls)
          → close_back n lawful t keeps v6 rs x.0 ls ≡ w
          → ((st : Started sip) → x.2 ≡ ok st → st.listeners ≡ ls)
          → LeavesListeners x

    opened-LeavesListeners :
        (w' : n.World) (ls : List Listener) (x : Start n t v6 rs print sip agent)
        → env.server_error ≡ none
        → opening ≡ (w', inr ls)
        → KeepsOpen w' ls x
        → LeavesListeners x
    opened-LeavesListeners w' ls x served opened (same, kept) =
        let closes : close_back n lawful t keeps v6 rs w' ls ≡ w =
          subst (λ y. OpenedBack n lawful t keeps v6 rs w y) opened
            (create_server_listeners-OpenedBack n lawful t keeps v6 rs print env.random w
              phone.listen_addrs) in
        listening ls served (opened ∙ ap (λ v. (v, inr ls)) (sym same))
          (ap (λ v. close_back n lawful t keeps v6 rs v ls) same ∙ closes) kept

    with_listeners-LeavesListeners :
        (opts : AnswerOptions) (net : Net sip) (x : n.World × (GoError ⊎ List Listener))
        → env.server_error ≡ none
        → opening ≡ x
        → LeavesListeners (with_listeners n t v6 rs print sip agent env opts net x)
    unfolding with_listeners
    with_listeners-LeavesListeners opts net (w', inl e) served opened =
        unlistened e served opened refl
    with_listeners-LeavesListeners opts net (w', inr []) served opened =
        opened-LeavesListeners w' [] _ served opened (refl, λ st h. cc)
    with_listeners-LeavesListeners opts net (w', inr (l ∷ ls)) served opened =
        opened-LeavesListeners w' (l ∷ ls) _ served opened
          (with_client-KeepsOpen env.client_error opts w' (l ∷ ls) _ net)

    with_server-LeavesListeners :
        (error : Option GoError) (opts : AnswerOptions) (net : Net sip)
        → env.server_error ≡ error
        → LeavesListeners (with_server n t v6 rs print sip agent error env opts phone w net)
    unfolding with_server
    with_server-LeavesListeners (some e) opts net served = unserved e served refl refl
    with_server-LeavesListeners none opts net served =
        with_listeners-LeavesListeners opts net opening served refl

  -- However the start of `answer` ends, on lawful sockets. Without a server it returns that error and the sockets
  -- are as before. Where `createServerListeners` fails, it returns that error, and the sockets stay as that left
  -- them. Where the listeners were opened, the sockets stay as they then were, whether `answer` goes on with
  -- these listeners or ends in the error of the client or of the registration, or in a panic: closing the
  -- listeners, the last first, leaves the sockets as before.
  pub answer_start-LeavesListeners :
      (env : Starting) (opts : AnswerOptions) (phone : Phone) (w : n.World) (net : Net sip)
      → LeavesListeners env phone w (answer_start n t v6 rs print sip agent env opts phone w net)
  unfolding answer_start
  answer_start-LeavesListeners env opts phone w net =
      with_server-LeavesListeners env phone w env.server_error opts net refl
