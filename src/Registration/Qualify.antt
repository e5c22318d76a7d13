-- ===== src/Registration/Qualify.antt =====
-- The loop that keeps a registration alive, and a registration that begins with unregistering.
use mathlib.Core.List.{append_assoc, append-nil}
use sipgox.Prelude.{
  ℕ, suc, zero, ◌≡◌, ◌≢◌, refl, ap, sym, ◌∙◌, true, none, List, [], ◌∷◌, ◌++◌, replicate, if_true,
}
use sipgox.Prelude.Int.{ℤ, pos, negsuc}
use sipgox.Outcome.{ok, err, panic, diverges, GoError}
use sipgox.Text.{Text, codes}
use sipgox.Sip.{Contact, Response, Sip, Net, Reply, responded, exchange, reply_to, get_response}
use sipgox.Registration.{
  RegisterOptions, accepted, authenticate, register, again_response, reregister, unregister,
  unregistering, Tick, tick, stopped, after_qualify, qualify_ticks, qualify_loop, from_expiry,
  Called, register_phone, unregistered_first, new_register_transaction,
}

module _ (sip : Sip) where
  open sip use {Request, transmitted, contact, remove_header}

  after_qualify_error :
      (go : Net sip → Request → Called sip) (x : Called sip)
      → ((net : Net sip) (origin : Request) → (go net origin).2 ≢ ok tt)
      → (after_qualify sip go x).2 ≢ ok tt
  unfolding after_qualify
  after_qualify_error go (net, origin, ok tt) h = h net origin
  after_qualify_error go (net, origin, err e) h = λ k. cc
  after_qualify_error go (net, origin, panic) h = λ k. cc
  after_qualify_error go (net, origin, diverges) h = λ k. cc

  qualify_ticks_error :
      (opts : RegisterOptions) (ticks : List (Tick sip)) (net : Net sip) (origin : Request)
      → (qualify_ticks sip opts ticks net origin).2 ≢ ok tt
  unfolding qualify_ticks
  qualify_ticks_error opts [] net origin = λ k. cc
  qualify_ticks_error opts (stopped e ∷ ticks) net origin = λ k. cc
  qualify_ticks_error opts (tick ∷ ticks) net origin =
      after_qualify_error (λ net origin. qualify_ticks sip opts ticks net origin)
        (reregister sip opts net origin) (λ net origin. qualify_ticks_error opts ticks net origin)

  -- One round for each tick.
  abbrev pub fine : Response
  fine = record { status = 200; via = none }

  pub reregister-fine :
      (opts : RegisterOptions) (sent : List Request) (later : List Reply) (origin : Request)
      → let req = transmitted (remove_header (codes "Via") origin) in
        reregister sip opts (record { replies = responded fine ∷ later; sent = sent }) origin
        ≡ (record { replies = later; sent = sent ++ req ∷ [] }, req, ok tt)
  unfolding reregister again_response authenticate accepted exchange reply_to get_response
  reregister-fine opts sent later origin = refl

  -- The requests of `n` rounds, each made from the one before.
  unfoldable pub rounds : ℕ → Request → List Request
  rounds zero origin = []
  rounds (suc n) origin =
      let req = transmitted (remove_header (codes "Via") origin) in req ∷ rounds n req

  unfoldable pub last_of : ℕ → Request → Request
  last_of zero origin = origin
  last_of (suc n) origin = last_of n (transmitted (remove_header (codes "Via") origin))

  ticks_fine :
      (n : ℕ) (opts : RegisterOptions) (sent : List Request) (later : List Reply) (origin : Request)
      (e : GoError) (ticks : List (Tick sip))
      → qualify_ticks sip opts
          (replicate n tick ++ stopped e ∷ ticks)
          (record { replies = replicate n (responded fine) ++ later; sent = sent })
          origin
        ≡ (record { replies = later; sent = sent ++ rounds n origin }, last_of n origin, err e)
  unfolding qualify_ticks rounds last_of after_qualify
  ticks_fine zero opts sent later origin e ticks = rw (append-nil sent) refl
  ticks_fine (suc n) opts sent later origin e ticks =
      let req = transmitted (remove_header (codes "Via") origin) in
      rw (reregister-fine opts sent (replicate n (responded fine) ++ later) origin) (
        ticks_fine n opts (sent ++ req ∷ []) later req e ticks
        ∙ rw (append_assoc sent (req ∷ []) (rounds n req)) refl)

  from_expiry_pos :
      (z : ℤ) (seconds : ℕ) (loop failed : Called sip)
      → z ≡ pos seconds
      → from_expiry sip z loop failed ≡ loop
  unfolding from_expiry
  from_expiry_pos (pos n) seconds loop failed h = refl
  from_expiry_pos (negsuc n) seconds loop failed h = cc

  -- With an expiry that is not negative, `QualifyLoop` never returns without an error. While its
  -- registrations are answered by 200 it sends exactly one request for each tick, each made from the one
  -- before, and it ends by the error of its context once that is done.
  pub qualify_loop-rounds :
      (n : ℕ) (opts : RegisterOptions) (seconds : ℕ) (sent : List Request) (later : List Reply)
      (origin : Request) (e : GoError) (ticks any : List (Tick sip)) (net : Net sip)
      → opts.expiry ≡ pos seconds
      → ((qualify_loop sip opts any net origin).2 ≢ ok tt)
        × (qualify_loop sip opts
              (replicate n tick ++ stopped e ∷ ticks)
              (record { replies = replicate n (responded fine) ++ later; sent = sent })
              origin
            ≡ (record { replies = later; sent = sent ++ rounds n origin }, last_of n origin, err e))
  unfolding qualify_loop
  qualify_loop-rounds n opts seconds sent later origin e ticks any net at = (
    λ h.
        qualify_ticks_error opts any net origin
          (ap (λ r. r.2) (sym (from_expiry_pos opts.expiry seconds _ _ at)) ∙ h),
    from_expiry_pos opts.expiry seconds _ _ at ∙ ticks_fine n opts sent later origin e ticks,
  )

  -- With `UnregisterAll`, where the registrar answers the unregistering by 200, the registration goes on
  -- from the unregistering request as it was sent, with `Contact: *` and `Expires: 0`.
  pub register_phone_unregistered :
      (opts : RegisterOptions) (sent : List Request) (recipient : Text) (c : Contact)
      (later : List Reply)
      → opts.unregister_all ≡ true
      → let origin = new_register_transaction sip recipient c opts in
        let req = transmitted (remove_header (codes "Via") (unregistering sip origin)) in
        register_phone sip opts
          (record { replies = responded fine ∷ later; sent = sent })
          recipient
          c
        ≡ register sip opts (record { replies = later; sent = sent ++ req ∷ [] }) req
  unfolding register_phone unregistered_first unregister
  register_phone_unregistered opts sent recipient c later on =
      let origin = new_register_transaction sip recipient c opts in
      if_true _ _ on ∙ rw (reregister-fine opts sent later (unregistering sip origin)) refl
