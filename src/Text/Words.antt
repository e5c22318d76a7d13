-- ===== src/Text/Words.antt =====
-- Words, and what splitting and joining make of them.
use mathlib.Core.List.{append-nil, append_assoc}
use sipgox.Prelude.{
  ◌==◌, ℕ, ◌≡◌, ◌≢◌, refl, ap, sym, ◌∙◌, Bool, true, false, ◌&&◌, not, List, [], ◌∷◌, ◌++◌, arith,
  All,
}
use sipgox.Text.Lemmas.{contains-append}
use sipgox.Text.{Text, contains, split, onto_head, fields_from, fields, end_word, is_space, join}

-- No byte of the text is a space.
unfoldable pub unspaced : Text → Bool
unfolding is_space
unspaced [] = true
unspaced (c ∷ cs) = not (is_space c) && unspaced cs

abbrev pub IsWord : Text → Type 0
IsWord w = (unspaced w ≡ true) × (w ≢ [])

fields_from_word :
    (done w rest : Text)
    → unspaced w ≡ true
    → fields_from done (w ++ rest) ≡ fields_from (done ++ w) rest
unfolding fields_from unspaced
fields_from_word done [] rest h = rw append-nil
fields_from_word done (c ∷ w) rest h =
    ground (arith, fields_from_word (done ++ c ∷ []) w rest, append_assoc done (c ∷ []) w)

end_word_lem : (w : Text) (ws : List Text) → w ≢ [] → end_word w ws ≡ w ∷ ws
unfolding end_word
end_word_lem [] ws h = absurd (h refl)
end_word_lem (c ∷ w) ws h = refl

-- A word and a space in front of a text are its first field.
pub fields_word_space :
    {w : Text} (rest : Text) → IsWord w → fields (w ++ 32 ∷ rest) ≡ w ∷ fields rest
fields_word_space {w} rest (u, ne) =
    fields_from_word [] w (32 ∷ rest) u ∙ unfold fields_from in end_word_lem w (fields rest) ne

pub fields_word : {w : Text} → IsWord w → fields w ≡ w ∷ []
fields_word {w} (u, ne) =
    ap fields (sym (append-nil w))
    ∙ fields_from_word [] w [] u
    ∙ unfold fields_from in end_word_lem w [] ne

pub fields_space : (rest : Text) → fields (32 ∷ rest) ≡ fields rest
unfolding fields_from
fields_space rest = refl

-- Fields of words joined by spaces, with one more word behind.
pub fields-join :
    (ws : List Text) (last : Text)
    → All IsWord ws
    → IsWord last
    → fields (join ws (32 ∷ []) ++ 32 ∷ last) ≡ ws ++ last ∷ []
unfolding join
fields-join [] last h l = fields_space last ∙ fields_word l
fields-join (w ∷ []) last h l = fields_word_space last h.0 ∙ ap (◌∷◌ w) (fields_word l)
fields-join (w ∷ v ∷ ws) last h l =
    rw append_assoc (fields_word_space _ h.0 ∙ ap (◌∷◌ w) (fields-join (v ∷ ws) last h.1 l))

pub split_none : (s : Text) (sep : ℕ) → contains s sep ≡ false → split s sep ≡ s ∷ []
unfolding split contains onto_head
split_none [] sep h = refl
split_none (x ∷ s) sep h = ground (arith, split_none s sep)

pub split_at :
    (s rest : Text) (sep : ℕ)
    → contains s sep ≡ false
    → split (s ++ sep ∷ rest) sep ≡ s ∷ split rest sep
unfolding split contains onto_head
split_at [] rest sep h = ground arith
split_at (x ∷ s) rest sep h = ground (arith, split_at s rest sep)

pub unspaced-append :
    (s t : Text) → unspaced s ≡ true → unspaced t ≡ true → unspaced (s ++ t) ≡ true
unfolding unspaced
unspaced-append [] t h k = k
unspaced-append (x ∷ s) t h k = ground (arith, unspaced-append s t)

pub append-ne-nil : (s : Text) (c : ℕ) (t : Text) → s ++ c ∷ t ≢ []
append-ne-nil [] c t e = cc
append-ne-nil (x ∷ s) c t e = cc

-- Fields of words joined by spaces.
pub fields-join_words : (ws : List Text) → All IsWord ws → fields (join ws (32 ∷ [])) ≡ ws
unfolding join
fields-join_words [] h = unfold fields_from end_word in refl
fields-join_words (w ∷ []) h = fields_word h.0
fields-join_words (w ∷ v ∷ ws) h =
    fields_word_space _ h.0 ∙ ap (◌∷◌ w) (fields-join_words (v ∷ ws) h.1)

-- A space does not stand in a word.
pub contains-unspaced :
    (w : Text) (c : ℕ) → is_space c ≡ true → unspaced w ≡ true → contains w c ≡ false
unfolding contains unspaced is_space
contains-unspaced [] c s h = refl
contains-unspaced (x ∷ w) c s h = ground (arith, contains-unspaced w c)

contains_joined :
    (w rest : Text) (c : ℕ)
    → (32 == c) ≡ false
    → contains w c ≡ false
    → contains rest c ≡ false
    → contains (w ++ (32 ∷ [] ++ rest)) c ≡ false
unfolding contains
contains_joined w rest c k h r = ground (arith, contains-append w (32 ∷ rest) c)

pub contains-join :
    (ws : List Text) (c : ℕ)
    → is_space c ≡ true
    → (32 == c) ≡ false
    → All IsWord ws
    → contains (join ws (32 ∷ [])) c ≡ false
unfolding join
contains-join [] c s k h = unfold contains in refl
contains-join (w ∷ []) c s k h = contains-unspaced w c s h.0.0
contains-join (w ∷ v ∷ ws) c s k h =
    contains_joined w (join (v ∷ ws) (32 ∷ [])) c k (contains-unspaced w c s h.0.0)
      (contains-join (v ∷ ws) c s k h.1)
