-- ===== src/Sdp/Reading/Lines.antt =====
-- The reader over well-formed lines.
use mathlib.Core.List.{append_assoc}
use sipgox.Prelude.{
  ℕ, zero, suc, ◌+◌, ◌-◌, ◌<◌, ◌≤◌, ◌≡◌, ◌≢◌, refl, ap, sym, ◌∙◌, Bool, true, false, some, List, [],
  ◌∷◌, ◌++◌, arith, ltb, length, drop, All, length-append,
}
use sipgox.Text.{Text, contains}
use sipgox.Text.Lemmas.{contains-append, index_here, take-append_left}
use sipgox.Outcome.{ok, panic}
use sipgox.Sdp.{
  SessionDescription, values, append_value, read_string, trim_line, next_line, add_line,
  unmarshal_loop, unmarshal, at_index, trimmed, at_end,
}
use sipgox.Sdp.Reading.{
  ends_with, Line, line_text, line_end, IsLine, render, collected, add_all, values-add_all,
  read_string_line, read_string-none, trim_line_crlf, trim_line_lf,
}

next_line_of :
    (t r line rest : Text)
    → read_string t ≡ some (r, rest)
    → trim_line r ≡ ok line
    → next_line t ≡ ok (line, rest)
unfolding next_line
next_line_of t r line rest e f = rw (e, next_line) (rw (f, trimmed))

read_string_crlf :
    (t rest : Text)
    → contains t b'\n' ≡ false
    → read_string (t ++ b'\r' ∷ b'\n' ∷ rest) ≡ some (t ++ b'\r' ∷ b'\n' ∷ [], rest)
read_string_crlf t rest h =
    ap read_string (sym (append_assoc t (b'\r' ∷ []) (b'\n' ∷ rest)))
    ∙ read_string_line (t ++ b'\r' ∷ []) rest (contains-append t _ _ ∙ unfold contains in rw h)
    ∙ ap (λ u. some (u, rest)) (append_assoc t (b'\r' ∷ []) (b'\n' ∷ []))

next_line_ended :
    (crlf : Bool) (x : ℕ) (t rest : Text)
    → contains (x ∷ t) b'\n' ≡ false
    → (crlf ≡ false → ends_with (x ∷ t) b'\r' ≡ false)
    → next_line ((x ∷ t) ++ line_end crlf rest) ≡ ok (x ∷ t, rest)
next_line_ended true x t rest h r =
    next_line_of _ _ _ _ (read_string_crlf (x ∷ t) rest h) (trim_line_crlf (x ∷ t))
next_line_ended false x t rest h r =
    next_line_of _ _ _ _ (read_string_line (x ∷ t) rest h) (trim_line_lf x t (r refl))

-- The reader hands out a line's text, and stands behind its end.
next_line_lem :
    (key content : Text) (crlf : Bool) (rest : Text)
    → IsLine (record { key = key; content = content; crlf = crlf })
    → next_line ((key ++ b'=' ∷ content) ++ line_end crlf rest) ≡ ok (key ++ b'=' ∷ content, rest)
next_line_lem [] content crlf rest w = absurd (w.key_ne_nil refl)
next_line_lem (x ∷ k) content crlf rest w =
    next_line_ended crlf x (k ++ b'=' ∷ content) rest w.one_line w.no_return

add_line_at :
    (sd : SessionDescription) (x : ℕ) (k content : Text)
    → contains (x ∷ k) b'=' ≡ false
    → add_line sd ((x ∷ k) ++ b'=' ∷ content) ≡ ok (append_value sd (x ∷ k) content)
unfolding add_line at_index
add_line_at sd x k content h =
    let n : length (k ++ b'=' ∷ content) ≡ length k + suc (length content) = length-append k _ in
    let long : ltb (suc (length k + suc (length content))) 2 ≡ false = ground arith in
    rw (n, long, index_here (x ∷ k) content b'=' h)
      (rw (take-append_left k (b'=' ∷ content), after k))
  where
    after : (k : Text) → drop (suc (length k)) (k ++ b'=' ∷ content) ≡ content
    after [] = refl
    after (y ∷ k) = after k

add_line_lem :
    (sd : SessionDescription) (l : Line)
    → IsLine l
    → add_line sd (line_text l) ≡ ok (append_value sd l.key l.content)
add_line_lem sd l w = at l.key l.content w.key_ne_nil w.key_plain
  where
    at :
        (k content : Text)
        → k ≢ []
        → contains k b'=' ≡ false
        → add_line sd (k ++ b'=' ∷ content) ≡ ok (append_value sd k content)
    at [] content ne h = absurd (ne refl)
    at (x ∷ k) content ne h = add_line_at sd x k content h

unmarshal_loop_line :
    (fuel : ℕ) (sd sd' : SessionDescription) (reader line rest : Text)
    → next_line reader ≡ ok (line, rest)
    → add_line sd line ≡ ok sd'
    → unmarshal_loop (suc fuel) sd reader ≡ unmarshal_loop fuel sd' rest
unfolding unmarshal_loop
unmarshal_loop_line fuel sd sd' reader line rest e f = rw (e, f)

-- A round of the loop for each well-formed line.
pub unmarshal_loop-render :
    (ls : List Line) (fuel total : ℕ) (sd : SessionDescription) (tail : Text)
    → total ≡ length ls + fuel
    → All IsLine ls
    → unmarshal_loop total sd (render ls tail) ≡ unmarshal_loop fuel (add_all sd ls) tail
unmarshal_loop-render [] fuel total sd tail e w = let same : total ≡ fuel = omega arith in rw same
unmarshal_loop-render (l ∷ ls) fuel zero sd tail e w = absurd (omega arith)
unmarshal_loop-render (l ∷ ls) fuel (suc total) sd tail e w =
    unmarshal_loop_line total sd _ _ _ _ (next_line_lem l.key l.content l.crlf (render ls tail) w.0)
      (add_line_lem sd l w.0)
    ∙ unmarshal_loop-render ls fuel total (append_value sd l.key l.content) tail (omega arith) w.1

length-line_end : (crlf : Bool) (rest : Text) → length rest < length (line_end crlf rest)
length-line_end true rest = omega arith
length-line_end false rest = omega arith

length-render : (ls : List Line) (tail : Text) → length ls + length tail ≤ length (render ls tail)
length-render [] tail = omega arith
length-render (l ∷ ls) tail = omega (
  arith,
  length-render ls tail,
  length-line_end l.crlf (render ls tail),
  length-append (line_text l) (line_end l.crlf (render ls tail)),
)

-- `Unmarshal` on well-formed lines is the loop behind them, with fuel for the rest of the input.
unmarshal-render :
    (ls : List Line) (tail : Text) (sd : SessionDescription)
    → All IsLine ls
    → (fuel : ℕ) × (length tail < fuel)
      × (unmarshal (render ls tail) sd ≡ unmarshal_loop fuel (add_all sd ls) tail)
unfolding unmarshal
unmarshal-render ls tail sd w = (
  suc (length (render ls tail)) - length ls,
  omega (arith, length-render ls tail),
  unmarshal_loop-render ls _ _ sd tail (omega (arith, length-render ls tail)) w,
)

at_tail :
    (fuel : ℕ) (sd : SessionDescription) (tail : Text)
    → length tail < fuel
    → contains tail b'\n' ≡ false
    → unmarshal_loop fuel sd tail ≡ (sd, ok tt)
unfolding unmarshal_loop next_line at_end
at_tail zero sd tail lt h = absurd (omega arith)
at_tail (suc fuel) sd tail lt h = rw (read_string-none tail h, next_line)

at_newline :
    (fuel : ℕ) (sd : SessionDescription) (rest : Text)
    → length (b'\n' ∷ rest) < fuel
    → (unmarshal_loop fuel sd (b'\n' ∷ rest)).1 ≡ panic
unfolding unmarshal_loop next_line read_string trim_line
at_newline zero sd rest lt = absurd (omega arith)
at_newline (suc fuel) sd rest lt = refl

-- On well-formed lines, each ended by LF or CRLF, `Unmarshal` returns without an error, and every
-- type's values are those it had before and then those of its lines, in their order. What stands
-- behind the last newline is not read, whatever it holds.
pub unmarshal_lines :
    (ls : List Line) (tail : Text) (sd : SessionDescription)
    → All IsLine ls
    → contains tail b'\n' ≡ false
    → ((unmarshal (render ls tail) sd).1 ≡ ok tt)
      × ((key : Text)
          → values (unmarshal (render ls tail) sd).0 key ≡ values sd key ++ collected key ls)
unmarshal_lines ls tail sd w h =
    let (fuel, enough, e) = unmarshal-render ls tail sd w in
    let ends = e ∙ at_tail fuel (add_all sd ls) tail enough h in
    (ap (λ r. r.1) ends, λ key. ap (λ r. values r.0 key) ends ∙ values-add_all ls sd key)

-- A line that is nothing but a newline ends the parse of any description by a panic.
pub unmarshal_empty_line :
    (ls : List Line) (rest : Text) (sd : SessionDescription)
    → All IsLine ls
    → (unmarshal (render ls (b'\n' ∷ rest)) sd).1 ≡ panic
unmarshal_empty_line ls rest sd w =
    let (fuel, enough, e) = unmarshal-render ls (b'\n' ∷ rest) sd w in
    ap (λ r. r.1) e ∙ at_newline fuel (add_all sd ls) rest enough
