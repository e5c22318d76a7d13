-- ===== src/Text/Lemmas.antt =====
-- Laws of comparison, search and slices.
use sipgox.Prelude.{
  ℕ, ◌≡◌, ◌↔◌, refl, ap, true, false, ◌||◌, some, [], ◌∷◌, ◌++◌, arith, length, take, drop,
}
use sipgox.Text.{Text, eq_text, contains, index}

pub eq_text_iff : (a b : Text) → (eq_text a b ≡ true) ↔ (a ≡ b)
unfolding eq_text
eq_text_iff (x ∷ a) (y ∷ b) = ground (arith, eq_text_iff a b)
eq_text_iff _ _ = ground arith

pub eq_text_refl : (a : Text) → eq_text a a ≡ true
eq_text_refl a = (eq_text_iff a a).1 refl

pub contains-append : (a b : Text) (c : ℕ) → contains (a ++ b) c ≡ (contains a c || contains b c)
unfolding contains
contains-append [] b c = refl
contains-append (x ∷ a) b c = ground (arith, contains-append a b c)

pub index_here :
    (a b : Text) (c : ℕ) → contains a c ≡ false → index (a ++ c ∷ b) c ≡ some (length a)
unfolding index contains
index_here [] b c h = ground arith
index_here (x ∷ a) b c h = ground (arith, index_here a b c)

pub take-append_left : (a b : Text) → take (length a) (a ++ b) ≡ a
take-append_left [] b = refl
take-append_left (x ∷ a) b = ap (◌∷◌ x) (take-append_left a b)

pub drop-append_left : (a b : Text) → drop (length a) (a ++ b) ≡ b
drop-append_left [] b = refl
drop-append_left (x ∷ a) b = drop-append_left a b
