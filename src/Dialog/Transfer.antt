-- ===== src/Dialog/Transfer.antt =====
-- The transfer of a call: `Refer`, and the `Notify` that reports on it.
use sipgox.Prelude.{
  ◌≡◌, ◌≢◌, ◌↔◌, ◌⊎◌, inl, inr, refl, true, Option, none, some, [], ◌∷◌, arith, Bool-cases, ◌==◌,
  ◌++◌,
}
use sipgox.Text.{Text, codes, has_prefix, eq_text}
use sipgox.Outcome.{Outcome, ok, GoError}
use sipgox.Dialog.{
  Delivery, dialog_ended, never_ends, Message, Event, done, response, context_done, taken, bye,
  refer_to_uri, refer_to_header, refer_client, refer_server, uas_request_build, sent, answered,
  then_hangup, notified, notify, with_body, deliver,
}

-- The events on which a `Refer` has been accepted, as it sees it.
abbrev pub Accepts : GoError ⊎ Event → Type 0
Accepts tx = (tx ≡ inr (response 202)) ⊎ ((tx ≡ inr (done none)) ⊎ (tx ≡ inr (context_done none)))

-- `Refer` of the calling side returns no error exactly on a response 202, on a transaction that ended
-- without an error, and on a context that ended where the cancelling succeeded.
pub refer_client_ok :
    (recipient refer_to : Text) (invite : Message) (answer : Option Message) (tx : GoError ⊎ Event)
    → ((refer_client recipient invite answer refer_to tx).1 ≡ ok tt) ↔ Accepts tx
unfolding refer_client sent answered
refer_client_ok recipient refer_to invite answer (inl e) = ground arith
refer_client_ok recipient refer_to invite answer (inr (done none)) = ground arith
refer_client_ok recipient refer_to invite answer (inr (done (some e))) = ground arith
refer_client_ok recipient refer_to invite answer (inr (response status)) = ground arith
refer_client_ok recipient refer_to invite answer (inr (context_done none)) = ground arith
refer_client_ok recipient refer_to invite answer (inr (context_done (some e))) = ground arith

-- `Refer` of the called side sends its REFER in every case, and a BYE behind it exactly on a response
-- 202; then it ends as the BYE does, and else as the calling side's `Refer` would.
pub refer_server_hangs_up :
    (contact refer_to : Text) (last : Message) (tx : GoError ⊎ Event) (hangup : Outcome (Unit {0}))
    → let refer =
        refer_to_uri contact (uas_request_build [] last ++ refer_to_header refer_to ∷ []) in
      let r = refer_server contact last refer_to tx hangup in
      ((tx ≡ inr (response 202)) × (r ≡ (refer ∷ bye ∷ [], hangup)))
      ⊎ ((tx ≢ inr (response 202)) × (r ≡ (refer ∷ [], (sent tx).1)))
unfolding refer_server sent answered then_hangup
refer_server_hangs_up contact refer_to last (inl e) hangup = inr (λ h. cc, refl)
refer_server_hangs_up contact refer_to last (inr (done e)) hangup = inr (λ h. cc, refl)
refer_server_hangs_up contact refer_to last (inr (response status)) hangup =
    elim (Bool-cases (status == 202)) [
      | inl accepted ↦ inl (ground arith, rw accepted refl)
      | inr refused ↦ inr (ground arith, rw refused refl)
    ]
refer_server_hangs_up contact refer_to last (inr (context_done e)) hangup = inr (λ h. cc, refl)

deliver-ok :
    (e : Option GoError) (delivery : Delivery)
    → delivery ≢ taken
    → ((deliver e delivery).0 ≡ none) × ((deliver e delivery).1 ≢ ok tt)
unfolding deliver
deliver-ok e taken unheard = absurd (unheard refl)
deliver-ok e (dialog_ended reason) unheard = (refl, λ h. cc)
deliver-ok e never_ends unheard = (refl, λ h. cc)

-- A NOTIFY whose result nothing takes, as `Refer` returns in front of its wait: it passes no result on, and it
-- returns no error exactly where it is of the dialog and its body is a prefix of the text `SIP/2.0 1`.
pub notify_unheard :
    (own call_id : Text) (body : Option Text) (delivery : Delivery)
    → delivery ≢ taken
    → ((notify own call_id body delivery).0 ≡ none)
      × (((notify own call_id body delivery).1 ≡ ok tt) ↔ (
          (eq_text call_id own ≡ true)
          × ((b : Text) × (body ≡ some b) × (has_prefix (codes "SIP/2.0 1") b ≡ true))))
unfolding notify with_body
notify_unheard own call_id body delivery unheard = elim (Bool-cases (eq_text call_id own)) [
  | inr other ↦ rw other (refl, ((λ h. cc), (λ h. let (same, _) = h in cc)))
  | inl same ↦ rw same (with_body_unheard body)
]
  where
    with_body_unheard :
        (b : Option Text)
        → ((with_body b delivery).0 ≡ none)
          × (((with_body b delivery).1 ≡ ok tt) ↔ (
              (true ≡ true)
              × ((c : Text) × (b ≡ some c) × (has_prefix (codes "SIP/2.0 1") c ≡ true))))
    with_body_unheard none = (refl, ((λ h. cc), (λ h. let (_, (c, is, _)) = h in cc)))
    with_body_unheard (some c) = elim (Bool-cases (has_prefix (codes "SIP/2.0 1") c)) [
      | inl prefix ↦ rw prefix (refl, ((λ h. (refl, (c, refl, prefix))), (λ h. refl)))
      | inr other ↦
          let (nothing, waits) = deliver-ok (notified c) delivery unheard in
          rw other (nothing, ((λ h. absurd (waits h)), (λ h. let (_, (d, is, holds)) = h in cc)))
    ]
