-- ===== src/Sdp.antt =====
-- sdp/sdp.go: the session description, a map from a line's type to its values, and the reader that
-- fills it. The map is an association list; `Unmarshal` writes to the caller's map, so it returns
-- the map as it then is beside the way it ended. Its pool of buffers is not modelled: the buffer is
-- reset and filled with the whole input before it is read.
pub mod Reading
pub mod Media
pub mod Generate
use sipgox.Prelude.{
  ℕ, zero, suc, ◌+◌, ◌-◌, Bool, true, false, Option, none, some, List, [], ◌∷◌, ◌++◌, ltb, ◌==◌,
  if◌then◌else◌, length, take, drop,
}
use sipgox.Text.{Text, eq_text, index}
use sipgox.Outcome.{Outcome, ◌>>=◌, ok, err, panic, diverges, GoError, end_of_file, not_type_value}

abbrev pub SessionDescription : Type 0
SessionDescription = List (Text × List Text)

unfoldable pub values : SessionDescription → Text → List Text
values [] key = []
values ((k, vs) ∷ sd) key = if eq_text k key then vs else values sd key

first_value : List Text → Text
first_value [] = []
first_value (v ∷ vs) = v

unfoldable pub value : SessionDescription → Text → Text
unfolding first_value
value sd key = first_value (values sd key)

-- `sd[key] = append(sd[key], value)`.
unfoldable pub append_value : SessionDescription → Text → Text → SessionDescription
append_value [] key v = (key, v ∷ []) ∷ []
append_value ((k, vs) ∷ sd) key v =
    if eq_text k key then (k, vs ++ v ∷ []) ∷ sd else (k, vs) ∷ append_value sd key v

onto_line : ℕ → Option (Text × Text) → Option (Text × Text)
onto_line c none = none
onto_line c (some (line, rest)) = some (c ∷ line, rest)

-- `reader.ReadString('\n')`: the text up to and with the newline, and what follows it.
unfoldable pub read_string : Text → Option (Text × Text)
unfolding onto_line
read_string [] = none
read_string (c ∷ cs) =
    let later = read_string cs in if c == b'\n' then some (c ∷ [], cs) else onto_line c later

-- `s[i]`, which panics out of range; what that does is up to the caller.
abbrev pub byte_at : Text → ℕ → ℕ
byte_at [] i = 0
byte_at (c ∷ cs) zero = c
byte_at (c ∷ cs) (suc i) = byte_at cs i

-- `line[lenline-2]` panics on a line that is nothing but its newline.
unfoldable pub trim_line : Text → Outcome Text
trim_line line =
    let lenline = length line in
    if ltb lenline 2
    then panic
    else if byte_at line (lenline - 2) == b'\r'
    then ok (take (lenline - 2) line)
    else ok (take (lenline - 1) line)

trimmed : Text × Text → Outcome (Text × Text)
unfolding trim_line
trimmed (line, rest) = trim_line line >>= λ l. ok (l, rest)

-- The line, and what the reader then still holds.
unfoldable pub next_line : Text → Outcome (Text × Text)
unfolding trimmed
next_line reader = elim (read_string reader) [ none ↦ err end_of_file | some r ↦ trimmed r ]

at_index : SessionDescription → Text → Option ℕ → Outcome SessionDescription
at_index sd line none = err not_type_value
at_index sd line (some zero) = err not_type_value
at_index sd line (some (suc i)) = ok (append_value sd (take (suc i) line) (drop (suc (suc i)) line))

-- What the loop's body does with a line.
unfoldable pub add_line : SessionDescription → Text → Outcome SessionDescription
unfolding at_index
add_line sd line = if ltb (length line) 2 then ok sd else at_index sd line (index line b'=')

-- `io.EOF` is the loop's ordinary end.
at_end : GoError → Outcome (Unit {0})
at_end end_of_file = ok tt
at_end e = err e

abbrev pub Unmarshalled : Type 0
Unmarshalled = SessionDescription × Outcome (Unit {0})

-- The rest of a round, where the line was added, and the rest of the loop, where it was read.
pub with_added :
    SessionDescription
    → (SessionDescription → Unmarshalled)
    → Outcome SessionDescription
    → Unmarshalled
with_added sd continue (ok sd') = continue sd'
with_added sd continue (err e) = (sd, err e)
with_added sd continue panic = (sd, panic)
with_added sd continue diverges = (sd, diverges)

pub with_line :
    SessionDescription → (Text → Text → Unmarshalled) → Outcome (Text × Text) → Unmarshalled
unfolding at_end
with_line sd continue (ok (line, rest)) = continue line rest
with_line sd continue (err e) = (sd, at_end e)
with_line sd continue panic = (sd, panic)
with_line sd continue diverges = (sd, diverges)

unfoldable pub unmarshal_loop : ℕ → SessionDescription → Text → Unmarshalled
unfolding with_line with_added
unmarshal_loop zero sd reader = (sd, diverges)
unmarshal_loop (suc fuel) sd reader =
    with_line sd
      (λ line rest. with_added sd (λ sd'. unmarshal_loop fuel sd' rest) (add_line sd line))
      (next_line reader)

-- Each round reads a byte at least.
unfoldable pub unmarshal : Text → SessionDescription → Unmarshalled
unmarshal input sd = unmarshal_loop (suc (length input)) sd input
