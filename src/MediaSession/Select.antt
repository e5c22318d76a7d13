-- ===== src/MediaSession/Select.antt =====
-- media.go: `selectFormats`, the numbers of the formats that two lists share.
use sipgox.Prelude.{
  ◌≡◌, refl, sym, ap, ◌∙◌, Option, none, some, List, [], ◌∷◌, ◌++◌, if◌then◌else◌, Bool-cases, inl,
  inr,
}
use sipgox.Prelude.Int.{ℤ}
use sipgox.Text.{Text, NumError, eq_text, atoi}
use sipgox.Text.Lemmas.{eq_text_iff}
use sipgox.MediaSession.{matching, common_formats}

-- A number goes in front of the others; an error is put aside.
pub number_onto : ℤ × Option NumError → List ℤ → List ℤ
number_onto (f, none) fs = f ∷ fs
number_onto (f, some e) fs = fs

-- The inner loop, in front of what the later rounds append.
pub select_matching : Text → List Text → List ℤ → List ℤ
unfolding number_onto
select_matching cr [] later = later
select_matching cr (cs ∷ send_codecs) later =
    let rest = select_matching cr send_codecs later in
    if eq_text cr cs then number_onto (atoi cs) rest else rest

unfoldable pub select_formats : List Text → List Text → List ℤ
unfolding select_matching
select_formats send_codecs [] = []
select_formats send_codecs (cr ∷ recv_codecs) =
    select_matching cr send_codecs (select_formats send_codecs recv_codecs)

-- The numbers of a list of formats, those left out that are no numbers.
unfoldable pub numbers_of : List Text → List ℤ
unfolding number_onto
numbers_of [] = []
numbers_of (f ∷ fs) = number_onto (atoi f) (numbers_of fs)

number_onto-append :
    (f : ℤ × Option NumError) (xs ys : List ℤ) → number_onto f (xs ++ ys) ≡ number_onto f xs ++ ys
unfolding number_onto
number_onto-append (n, none) xs ys = refl
number_onto-append (n, some e) xs ys = refl

numbers_of-append : (xs ys : List Text) → numbers_of (xs ++ ys) ≡ numbers_of xs ++ numbers_of ys
unfolding numbers_of
numbers_of-append [] ys = refl
numbers_of-append (x ∷ xs) ys =
    ap (number_onto (atoi x)) (numbers_of-append xs ys) ∙ number_onto-append (atoi x) _ _

select_matching-matching :
    (cr : Text) (send_codecs : List Text) (later : List ℤ)
    → select_matching cr send_codecs later ≡ numbers_of (matching cr send_codecs) ++ later
unfolding select_matching matching numbers_of
select_matching-matching cr [] later = refl
select_matching-matching cr (cs ∷ send_codecs) later = elim (Bool-cases (eq_text cr cs)) [
  | inl same ↦
      let equal : cr ≡ cs = (eq_text_iff cr cs).0 same in
      rw (same, select_matching-matching cr send_codecs later)
        (ap (λ c. number_onto (atoi c) (numbers_of (matching cr send_codecs) ++ later)) (sym equal)
          ∙ number_onto-append (atoi cr) _ later)
  | inr other ↦ rw other (select_matching-matching cr send_codecs later)
]

-- `selectFormats` gives the numbers of the formats that `updateFormats` would keep of the received ones,
-- in the same order and as often, those left out that are no numbers.
pub select_formats-common_formats :
    (send_codecs recv_codecs : List Text)
    → select_formats send_codecs recv_codecs ≡ numbers_of (common_formats recv_codecs send_codecs)
unfolding select_formats common_formats numbers_of
select_formats-common_formats send_codecs [] = refl
select_formats-common_formats send_codecs (cr ∷ recv_codecs) =
    select_matching-matching cr send_codecs _
    ∙ ap (λ later. numbers_of (matching cr send_codecs) ++ later)
        (select_formats-common_formats send_codecs recv_codecs)
    ∙ sym (numbers_of-append (matching cr send_codecs) (common_formats recv_codecs send_codecs))
