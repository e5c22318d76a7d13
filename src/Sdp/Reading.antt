-- ===== src/Sdp/Reading.antt =====
-- What `Unmarshal` does with its input, line by line.
pub mod Lines
pub mod Totality
use mathlib.Core.List.{append-nil, append_assoc}
use sipgox.Prelude.{
  ℕ, zero, suc, ◌+◌, ◌-◌, ◌<◌, ◌≤◌, ◌≡◌, ◌≢◌, refl, ap, sym, ◌∙◌, Bool, true, false, ◌&&◌, ◌||◌,
  Option, none, some, List, [], ◌∷◌, ◌++◌, arith, ltb, ◌==◌, if◌then◌else◌, length, take, drop, All,
  length-append,
}
use sipgox.Text.{Text, eq_text, contains, index}
use sipgox.Text.Lemmas.{
  eq_text_iff, contains-append, index_here, take-append_left, drop-append_left,
}
use sipgox.Outcome.{Outcome, ok, err, panic, diverges}
use sipgox.Sdp.{
  SessionDescription, values, append_value, read_string, byte_at, trim_line, next_line, add_line,
  unmarshal_loop, unmarshal, at_index, trimmed, at_end, onto_line,
}

-- The last byte of the text is `c`.
unfoldable pub ends_with : Text → ℕ → Bool
ends_with [] c = false
ends_with (x ∷ []) c = x == c
ends_with (x ∷ y ∷ ys) c = ends_with (y ∷ ys) c

-- A line of a description: its type, its value, and whether a carriage return ends it.
pub record Line : Type 0 where
  pub key : Text
  pub content : Text
  pub crlf : Bool

abbrev pub line_text : Line → Text
line_text l = l.key ++ b'=' ∷ l.content

abbrev pub line_end : Bool → Text → Text
line_end true rest = b'\r' ∷ b'\n' ∷ rest
line_end false rest = b'\n' ∷ rest

-- A type that is not empty and holds no `=`, no newline within, and no carriage return of the
-- value's own where a bare newline ends the line.
pub record IsLine (l : Line) : Type 0 where
  pub key_ne_nil : l.key ≢ []
  pub key_plain : contains l.key b'=' ≡ false
  pub one_line : contains (line_text l) b'\n' ≡ false
  pub no_return : l.crlf ≡ false → ends_with (line_text l) b'\r' ≡ false

-- The lines as they stand in the input, with `tail` behind the last.
abbrev pub render : List Line → Text → Text
render [] tail = tail
render (l ∷ ls) tail = line_text l ++ line_end l.crlf (render ls tail)

-- The values that the lines give to a type, in order.
abbrev pub collected : Text → List Line → List Text
collected key [] = []
collected key (l ∷ ls) =
    if eq_text l.key key then l.content ∷ collected key ls else collected key ls

-- The description after the lines have been added.
abbrev pub add_all : SessionDescription → List Line → SessionDescription
add_all sd [] = sd
add_all sd (l ∷ ls) = add_all (append_value sd l.key l.content) ls

pub values-append_value :
    (sd : SessionDescription) (k v key : Text)
    → values (append_value sd k v) key
      ≡ (if eq_text k key then values sd key ++ v ∷ [] else values sd key)
unfolding values append_value
values-append_value [] k v key = refl
values-append_value ((j, vs) ∷ sd) k v key =
    ground
      (arith, eq_text_iff j k, eq_text_iff k key, eq_text_iff j key, values-append_value sd k v key)

pub values-add_all :
    (ls : List Line) (sd : SessionDescription) (key : Text)
    → values (add_all sd ls) key ≡ values sd key ++ collected key ls
values-add_all [] sd key = sym (append-nil _)
values-add_all (l ∷ ls) sd key = ground (
  arith,
  values-add_all ls (append_value sd l.key l.content) key,
  values-append_value sd l.key l.content key,
  append_assoc (values sd key) (l.content ∷ []) (collected key ls),
)

pub read_string_line :
    (body rest : Text)
    → contains body b'\n' ≡ false
    → read_string (body ++ b'\n' ∷ rest) ≡ some (body ++ b'\n' ∷ [], rest)
unfolding read_string contains onto_line
read_string_line [] rest h = refl
read_string_line (x ∷ body) rest h = ground (arith, read_string_line body rest)

pub read_string-none : (s : Text) → contains s b'\n' ≡ false → read_string s ≡ none
unfolding read_string contains onto_line
read_string-none [] h = refl
read_string-none (x ∷ s) h = ground (arith, read_string-none s)

pub byte_at-append : (t r : Text) (c : ℕ) → byte_at (t ++ c ∷ r) (length t) ≡ c
byte_at-append [] r c = refl
byte_at-append (x ∷ t) r c = byte_at-append t r c

byte_at_last :
    (x : ℕ) (t r : Text) (c : ℕ)
    → ends_with (x ∷ t) c ≡ false
    → (byte_at ((x ∷ t) ++ r) (length t) == c) ≡ false
unfolding ends_with
byte_at_last x [] r c h = h
byte_at_last x (y ∷ t) r c h = byte_at_last y t r c h

pub trim_line_crlf : (t : Text) → trim_line (t ++ b'\r' ∷ b'\n' ∷ []) ≡ ok t
unfolding trim_line
trim_line_crlf t =
    let n : length (t ++ b'\r' ∷ b'\n' ∷ []) ≡ length t + 2 = length-append t _ in
    let back : length t + 2 - 2 ≡ length t = omega arith in
    rw (n, back, byte_at-append t (b'\n' ∷ []) b'\r', take-append_left t (b'\r' ∷ b'\n' ∷ []))
      (ground arith)

pub trim_line_lf :
    (x : ℕ) (t : Text)
    → ends_with (x ∷ t) b'\r' ≡ false
    → trim_line ((x ∷ t) ++ b'\n' ∷ []) ≡ ok (x ∷ t)
unfolding trim_line
trim_line_lf x t h =
    let n : length (t ++ b'\n' ∷ []) ≡ length t + 1 = length-append t _ in
    let two : suc (length t + 1) - 2 ≡ length t = omega arith in
    let one : suc (length t + 1) - 1 ≡ suc (length t) = omega arith in
    let short : ltb (suc (length t + 1)) 2 ≡ false = ground arith in
    rw (n, two, one, short, byte_at_last x t (b'\n' ∷ []) b'\r' h)
      (ap (λ r. ok (x ∷ r)) (take-append_left t (b'\n' ∷ [])))
