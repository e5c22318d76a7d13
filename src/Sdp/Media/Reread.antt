-- ===== src/Sdp/Media/Reread.antt =====
-- A media line is read as it was written.
use sipgox.Prelude.{
  ℕ, zero, suc, ◌<◌, ◌≡◌, ◌≢◌, refl, ap, ◌∙◌, true, false, List, [], ◌∷◌, ◌++◌, arith, drop, All,
}
use sipgox.Prelude.Int.{pos}
use sipgox.Text.{Text, codes, contains, index, split, fields, join, itoa, is_digit, is_space}
use sipgox.Text.Lemmas.{eq_text_refl, index_here, take-append_left}
use sipgox.Text.Numbers.{atoi-itoa, contains-itoa, itoa-IsWord}
use sipgox.Text.Words.{
  contains-unspaced, unspaced-append, append-ne-nil, fields-join_words, IsWord, unspaced,
  fields_word_space, split_at, split_none,
}
use sipgox.Outcome.{ok}
use sipgox.Sdp.{SessionDescription, values}
use sipgox.Sdp.Media.{
  MediaDescription, media_string, ports_text, is_media, find_media, first_number, second_number,
  media_of_fields, media_of_value, media_description,
}

is_media_self :
    (w rest : Text)
    → IsWord w
    → is_media (w ++ b' ' ∷ rest) w (index (w ++ b' ' ∷ rest) b' ') ≡ true
unfolding is_media is_space
is_media_self [] rest (u, ne) = absurd (ne refl)
is_media_self (c ∷ w) rest (u, ne) =
    rw (index_here (c ∷ w) rest b' ' (contains-unspaced (c ∷ w) b' ' refl u))
      (rw (take-append_left w (b' ' ∷ rest)) (eq_text_refl (c ∷ w)))

find_media_first :
    (w rest : Text) (others : List Text)
    → IsWord w
    → find_media ((w ++ b' ' ∷ rest) ∷ others) w ≡ w ++ b' ' ∷ rest
unfolding find_media
find_media_first w rest others h = rw (is_media_self w rest h)

-- The port and the number of ports.
abbrev pub IsCount : ℕ → Type 0
IsCount n = n < 0x8000_0000_0000_0000

slash_free : (n : ℕ) → contains (itoa (pos n)) b'/' ≡ false
unfolding is_digit
slash_free n = contains-itoa n b'/' refl

ports_numbers :
    (p q : ℕ)
    → IsCount p
    → IsCount q
    → (first_number (split (ports_text (pos p) (pos q)) b'/') ≡ pos p)
      × (second_number (split (ports_text (pos p) (pos q)) b'/') ≡ pos q)
unfolding ports_text first_number second_number
ports_numbers p zero hp hq =
    rw (split_none (itoa (pos p)) b'/' (slash_free p)) (ap (λ r. r.0) (atoi-itoa p hp), refl)
ports_numbers p (suc q) hp hq =
    rw
      (
        split_at (itoa (pos p)) (itoa (pos (suc q))) b'/' (slash_free p),
        split_none (itoa (pos (suc q))) b'/' (slash_free (suc q)),
      )
      (ap (λ r. r.0) (atoi-itoa p hp), ap (λ r. r.0) (atoi-itoa (suc q) hq))

ports_text-IsWord : (p q : ℕ) → IsWord (ports_text (pos p) (pos q))
unfolding ports_text
ports_text-IsWord p zero = itoa-IsWord p
ports_text-IsWord p (suc q) = (
  unspaced-append (itoa (pos p)) _ (itoa-IsWord p).0
      (unfold unspaced is_space in (itoa-IsWord (suc q)).0),
  append-ne-nil (itoa (pos p)) _ _,
)

-- A value with four or more fields is read field by field.
media_of_value-fields :
    (p q : ℕ) (media proto body : Text) (formats : List Text)
    → IsWord media
    → IsWord proto
    → IsCount p
    → IsCount q
    → formats ≢ []
    → fields body ≡ formats
    → media_of_value (media ++ b' ' ∷ (ports_text (pos p) (pos q) ++ b' ' ∷ (proto ++ b' ' ∷ body)))
      ≡ ok (record {
        media_type = media;
        port = pos p;
        port_numbers = pos q;
        proto = proto;
        formats = formats;
      })
unfolding media_of_value media_of_fields
media_of_value-fields p q [] proto body formats m pr hp hq ne e = absurd (m.1 refl)
media_of_value-fields p q (c ∷ media) proto body [] m pr hp hq ne e = absurd (ne refl)
media_of_value-fields p q (c ∷ media) proto body (f ∷ fs) m pr hp hq ne e =
    let (first, second) = ports_numbers p q hp hq in
    rw
      (
        fields_word_space _ m,
        fields_word_space _ (ports_text-IsWord p q),
        fields_word_space _ pr,
        e,
      )
      (rw (first, second))

-- The first value of a description's media lines is found by its media type.
pub media_description_first :
    (sd : SessionDescription) (p q : ℕ) (media proto body : Text) (formats others : List Text)
    → values sd (codes "m")
      ≡ (media ++ b' ' ∷ (ports_text (pos p) (pos q) ++ b' ' ∷ (proto ++ b' ' ∷ body))) ∷ others
    → IsWord media
    → IsWord proto
    → IsCount p
    → IsCount q
    → formats ≢ []
    → fields body ≡ formats
    → media_description sd media
      ≡ ok (record {
        media_type = media;
        port = pos p;
        port_numbers = pos q;
        proto = proto;
        formats = formats;
      })
unfolding media_description
media_description_first sd p q media proto body formats others e m pr hp hq ne h = rw e (
    rw (find_media_first media _ others m)
      (media_of_value-fields p q media proto body formats m pr hp hq ne h))

-- A description whose media type and protocol are words, whose formats are one or more words, and
-- whose numbers are not negative and fit 64 signed bits.
pub record IsPrintable (m : MediaDescription) (p q : ℕ) (f : Text) (fs : List Text) : Type 0 where
  pub media_word : IsWord m.media_type
  pub proto_word : IsWord m.proto
  pub format_words : All IsWord (f ∷ fs)
  pub formats_are : m.formats ≡ f ∷ fs
  pub port_is : m.port ≡ pos p
  pub port_numbers_is : m.port_numbers ≡ pos q
  pub port_count : p < 0x8000_0000_0000_0000
  pub port_numbers_count : q < 0x8000_0000_0000_0000

-- What `String` prints of a media description of words and of numbers in range, `m=` taken off, is read by `MediaDescription` as
-- that same description, where it is the first media line.
pub media_description-media_string :
    (m : MediaDescription) (p q : ℕ) (f : Text) (fs others : List Text) (sd : SessionDescription)
    → IsPrintable m p q f fs
    → values sd (codes "m") ≡ drop 2 (media_string m) ∷ others
    → media_description sd m.media_type ≡ ok m
unfolding media_string
media_description-media_string m p q f fs others sd w e =
    media_description_first sd p q m.media_type m.proto (join (f ∷ fs) (codes " ")) (f ∷ fs) others
      (e ∙ rw (w.port_is, w.port_numbers_is, w.formats_are)) w.media_word w.proto_word w.port_count
      w.port_numbers_count (λ n. cc) (fields-join_words (f ∷ fs) w.format_words)
    ∙ ground arith
