-- ===== src/Sdp/Reading/Totality.antt =====
-- The reader's loop ends on every input.
use sipgox.Prelude.{
  Bool-cases, ℕ, zero, suc, ◌<◌, ◌≢◌, refl, Option, none, some, [], ◌∷◌, arith, inl, inr, length,
  ◌==◌,
}
use sipgox.Text.{Text}
use sipgox.Outcome.{Outcome, ok, err, panic, diverges, end_of_file}
use sipgox.Sdp.{
  SessionDescription, Unmarshalled, with_added, with_line, read_string, onto_line, trim_line,
  trimmed, next_line, add_line, at_index, at_end, unmarshal_loop, unmarshal,
}

-- What is left is shorter than `n`.
abbrev Shrinks : ℕ → Option (Text × Text) → Type 0
Shrinks n none = Unit
Shrinks n (some (line, rest)) = length rest < n

abbrev Proceeds : ℕ → Outcome (Text × Text) → Type 0
Proceeds n (ok (line, rest)) = length rest < n
Proceeds n (err e) = Unit
Proceeds n panic = Unit
Proceeds n diverges = ⊥

onto_line-Shrinks :
    (n c : ℕ) (r : Option (Text × Text)) → Shrinks n r → Shrinks (suc n) (onto_line c r)
unfolding onto_line
onto_line-Shrinks n c none h = tt
onto_line-Shrinks n c (some (line, rest)) h = omega arith

read_string-Shrinks : (s : Text) → Shrinks (length s) (read_string s)
unfolding read_string
read_string-Shrinks [] = tt
read_string-Shrinks (c ∷ s) = elim (Bool-cases (c == b'\n')) [
  | inl here ↦ rw here (omega arith)
  | inr later ↦ rw later (onto_line-Shrinks (length s) c (read_string s) (read_string-Shrinks s))
]

trimmed-Proceeds :
    (n : ℕ) (r : Option (Text × Text))
    → Shrinks n r
    → Proceeds n (elim r [ none ↦ err end_of_file | some q ↦ trimmed q ])
unfolding trimmed trim_line
trimmed-Proceeds n none h = tt
trimmed-Proceeds n (some (line, rest)) h = ground arith

next_line-Proceeds : (s : Text) → Proceeds (length s) (next_line s)
unfolding next_line
next_line-Proceeds s = trimmed-Proceeds (length s) (read_string s) (read_string-Shrinks s)

add_line-ne-diverges : (sd : SessionDescription) (line : Text) → add_line sd line ≢ diverges
unfolding add_line at_index
add_line-ne-diverges sd line e = ground arith

with_added-ne-diverges :
    (sd : SessionDescription) (continue : SessionDescription → Unmarshalled)
    (r : Outcome SessionDescription)
    → ((sd' : SessionDescription) → (continue sd').1 ≢ diverges)
    → r ≢ diverges
    → (with_added sd continue r).1 ≢ diverges
unfolding with_added
with_added-ne-diverges sd continue (ok sd') goes_on h = goes_on sd'
with_added-ne-diverges sd continue diverges goes_on h = absurd (h refl)
with_added-ne-diverges sd continue _ goes_on h = λ e. cc

with_line-ne-diverges :
    (sd : SessionDescription) (continue : Text → Text → Unmarshalled) (n : ℕ)
    (r : Outcome (Text × Text))
    → ((line rest : Text) → length rest < n → (continue line rest).1 ≢ diverges)
    → Proceeds n r
    → (with_line sd continue r).1 ≢ diverges
unfolding with_line at_end
with_line-ne-diverges sd continue n (ok (line, rest)) goes_on h = goes_on line rest h
with_line-ne-diverges sd continue n diverges goes_on h = absurd h
with_line-ne-diverges sd continue n (err e) goes_on h = λ p. ground arith
with_line-ne-diverges sd continue n panic goes_on h = λ e. cc

unmarshal_loop-ne-diverges :
    (fuel : ℕ) (sd : SessionDescription) (reader : Text)
    → length reader < fuel
    → (unmarshal_loop fuel sd reader).1 ≢ diverges
unfolding unmarshal_loop
unmarshal_loop-ne-diverges zero sd reader lt = absurd (omega arith)
unmarshal_loop-ne-diverges (suc fuel) sd reader lt =
    with_line-ne-diverges sd _ (length reader) (next_line reader)
      (λ line rest shorter.
        with_added-ne-diverges sd _ (add_line sd line)
          (λ sd'. unmarshal_loop-ne-diverges fuel sd' rest (omega arith))
          (add_line-ne-diverges sd line))
      (next_line-Proceeds reader)

-- `Unmarshal` ends on every input: with the whole description, with an error, or in a panic.
pub unmarshal_total : (input : Text) (sd : SessionDescription) → (unmarshal input sd).1 ≢ diverges
unfolding unmarshal
unmarshal_total input sd = unmarshal_loop-ne-diverges _ sd input (omega arith)
