-- ===== src/Text.antt =====
-- Texts as lists of character codes: comparison, and the trimming of padded fields in
-- include/itch/messages.hpp and in the transport layer.
use itchcpp.Prelude.{
  ℕ, ◌≡◌, refl, List, [], ◌∷◌, Bool, true, false, ◌&&◌, ◌||◌, reverse, ◌==◌, if◌then◌else◌, arith,
}

-- std::string equality
unfoldable pub text_eq : List ℕ → List ℕ → Bool
text_eq [] [] = true
text_eq [] (d ∷ ds) = false
text_eq (c ∷ cs) [] = false
text_eq (c ∷ cs) (d ∷ ds) = c == d && text_eq cs ds

pub text_eq_refl : (cs : List ℕ) → text_eq cs cs ≡ true
unfolding text_eq
text_eq_refl [] = refl
text_eq_refl (c ∷ cs) = ground (arith, text_eq_refl cs)

pub eq_of_text_eq : (cs ds : List ℕ) → text_eq cs ds ≡ true → cs ≡ ds
unfolding text_eq
eq_of_text_eq [] [] h = refl
eq_of_text_eq [] (d ∷ ds) h = cc
eq_of_text_eq (c ∷ cs) [] h = cc
eq_of_text_eq (c ∷ cs) (d ∷ ds) h = ground (arith, eq_of_text_eq cs ds)

-- Characters are dropped from the end while they are padding.
unfoldable pub drop_while : (ℕ → Bool) → List ℕ → List ℕ
drop_while test [] = []
drop_while test (c ∷ cs) = let rest = drop_while test cs in if test c then rest else c ∷ cs

unfoldable pub trim_end : (ℕ → Bool) → List ℕ → List ℕ
unfolding drop_while
trim_end test cs = reverse (drop_while test (reverse cs))

abbrev pub is_space : ℕ → Bool
is_space c = c == b' '

-- A blank is a space or a null character.
abbrev pub is_blank : ℕ → Bool
is_blank c = c == b' ' || c == 0
