-- ===== src/MediaSession/Formats.antt =====
-- What the negotiation keeps of the formats of both sides.
use sipgox.Prelude.{
  ℕ, ◌+◌, ◌*◌, ◌≤◌, ◌<◌, ◌≡◌, refl, ◌∙◌, true, List, [], ◌∷◌, ◌++◌, arith, if◌then◌else◌, length,
  Bool-cases, inl, inr, ltb,
}
use sipgox.Text.{Text, eq_text}
use sipgox.Text.Lemmas.{eq_text_iff, eq_text_refl}
use sipgox.MediaSession.{MediaSession, matching, common_formats, update_formats}

-- How often a format stands in a list.
abbrev pub occurrences : Text → List Text → ℕ
occurrences f [] = 0
occurrences f (g ∷ gs) = (if eq_text f g then 1 else 0) + occurrences f gs

occurrences-append :
    (f : Text) (xs ys : List Text) → occurrences f (xs ++ ys) ≡ occurrences f xs + occurrences f ys
occurrences-append f [] ys = omega arith
occurrences-append f (x ∷ xs) ys = omega (arith, occurrences-append f xs ys)

occurrences-matching :
    (f g : Text) (local : List Text)
    → occurrences f (matching g local) ≡ (if eq_text f g then occurrences f local else 0)
unfolding matching
occurrences-matching f g [] = ground arith
occurrences-matching f g (h ∷ local) =
    ground
      (arith, occurrences-matching f g local, eq_text_iff f g, eq_text_iff g h, eq_text_iff f h)

common :
    (f : Text) (remote local : List Text)
    → occurrences f (common_formats remote local) ≡ occurrences f remote * occurrences f local
unfolding common_formats
common f [] local = omega arith
common f (g ∷ remote) local = grind (
  arith,
  common f remote local,
  occurrences-matching f g local,
  occurrences-append f (matching g local) (common_formats remote local),
)

-- Where the local side has formats, a format is negotiated as often as it stands in both lists: the
-- product of its counts. So what only one side has is dropped, and nothing else is.
pub occurrences-update_formats :
    (f : Text) (remote : List Text) (s : MediaSession)
    → 0 < length s.formats
    → occurrences f (update_formats s remote).formats
      ≡ occurrences f remote * occurrences f s.formats
unfolding update_formats
occurrences-update_formats f remote s h =
    let some_formats : ltb 0 (length s.formats) ≡ true = ground arith in
    rw some_formats (common f remote s.formats)

-- The remote formats that the local side has, in the remote side's order.
abbrev pub kept : List Text → List Text → List Text
kept [] local = []
kept (f ∷ remote) local =
    let rest = kept remote local in if ltb 0 (occurrences f local) then f ∷ rest else rest

matching_absent : (f : Text) (local : List Text) → occurrences f local ≡ 0 → matching f local ≡ []
unfolding matching
matching_absent f [] h = refl
matching_absent f (g ∷ local) h = ground (arith, matching_absent f local)

matching_once : (f : Text) (local : List Text) → occurrences f local ≡ 1 → matching f local ≡ f ∷ []
unfolding matching
matching_once f [] h = absurd (omega arith)
matching_once f (g ∷ local) h = ground (arith, matching_once f local, matching_absent f local)

-- No format stands twice in the list.
abbrev pub IsDistinct : List Text → Type 0
IsDistinct local = (f : Text) → occurrences f local ≤ 1

common_kept :
    (remote local : List Text) → IsDistinct local → common_formats remote local ≡ kept remote local
unfolding common_formats
common_kept [] local d = refl
common_kept (f ∷ remote) local d = elim (Bool-cases (ltb 0 (occurrences f local))) [
  | inl present ↦
      rw (present, common_kept remote local d) (rw (matching_once f local (ground (arith, d f))))
  | inr absent ↦
      rw (absent, common_kept remote local d) (rw (matching_absent f local (ground arith)))
]

pub update_formats-kept :
    (remote : List Text) (s : MediaSession)
    → 0 < length s.formats
    → IsDistinct s.formats
    → (update_formats s remote).formats ≡ kept remote s.formats
unfolding update_formats
update_formats-kept remote s h distinct =
    let some_formats : ltb 0 (length s.formats) ≡ true = ground arith in
    rw some_formats (common_kept remote s.formats distinct)

nothing_occurs : (fs : List Text) → ((f : Text) → occurrences f fs ≡ 0) → fs ≡ []
nothing_occurs [] h = refl
nothing_occurs (g ∷ fs) h = absurd (ground (arith, h g, eq_text_refl g))

-- A negotiation that finds nothing in common leaves no formats, and the next one then takes over
-- whatever the remote side lists.
pub update_formats_after_mismatch :
    (s : MediaSession) (remote later : List Text)
    → 0 < length s.formats
    → ((f : Text) → occurrences f remote * occurrences f s.formats ≡ 0)
    → ((update_formats s remote).formats ≡ [])
      × ((update_formats (update_formats s remote) later).formats ≡ later)
unfolding update_formats
update_formats_after_mismatch s remote later h none_common =
    let some_formats : ltb 0 (length s.formats) ≡ true = ground arith in
    let empty =
      nothing_occurs (common_formats remote s.formats)
        (λ f. common f remote s.formats ∙ none_common f) in
    rw (some_formats, empty) (refl, refl)
