-- ===== src/Outcome.antt =====
-- How a Go function ends: a value, an error that it returns, or a panic. A loop that runs on fuel
-- ends in `diverges` when the fuel is used up.
use sipgox.Prelude.{ℕ, ◌≡◌, ◌⊎◌, inl, inr, refl}

-- The errors that the program makes, and those of what it calls.
pub data GoError : Type 0 where
  end_of_file net_closed not_type_value : GoError
  media_not_found not_enough_fields no_connection not_ip4 : GoError
  short_buffer short_write packet_too_short : GoError
  no_available_ports payload_type_mismatch : GoError
  not_200 dialog_does_not_exist no_body : GoError
  dialog_response : ℕ → GoError
  no_via transaction_died register_failed : GoError
  register_response : ℕ → GoError
  failed_to_respond cancelled_by_caller finished_while_ringing no_sdp no_dialog_for_ack : GoError
  call_not_answered : ℕ → GoError
  fail_to_send_ack : GoError
  fail_to_find_free_port unsupported_protocol : GoError
  external : ℕ → GoError

pub data Outcome {ℓ} (A : Type ℓ) : Type ℓ where
  ok : A → Outcome A
  err : GoError → Outcome A
  panic : Outcome A
  diverges : Outcome A

infixl 5 ◌>>=◌ ◌>>◌
abbrev pub ◌>>=◌ {ℓ κ} : {A : Type ℓ} {B : Type κ} → Outcome A → (A → Outcome B) → Outcome B
ok a >>= f = f a
err e >>= f = err e
panic >>= f = panic
diverges >>= f = diverges

abbrev pub ◌>>◌ {ℓ κ} : {A : Type ℓ} {B : Type κ} → Outcome A → Outcome B → Outcome B
m >> k = m >>= λ _. k

-- The way a step ended, to split on.
pub Outcome-cases {ℓ} :
    {A : Type ℓ} (m : Outcome A)
    → ((a : A) × (m ≡ ok a)) ⊎ (((e : GoError) × (m ≡ err e)) ⊎ ((m ≡ panic) ⊎ (m ≡ diverges)))
Outcome-cases (ok a) = inl (a, refl)
Outcome-cases (err e) = inr (inl (e, refl))
Outcome-cases panic = inr (inr (inl refl))
Outcome-cases diverges = inr (inr (inr refl))
