-- ===== src/Text.antt =====
-- C++ strings as lists of bytes: comparison, `toLower`, `find`, and the text of a literal.
use Prim.Native.Char.{code}
use ft_irc.Prelude.{
  ℕ, ◌+◌, String, ◌≡◌, refl, ◌↔◌, Bool, true, false, ◌&&◌, List, [], ◌∷◌, arith, leb, ltb, ◌==◌,
  if◌then◌else◌, map,
}

abbrev pub Text : Type 0
Text = List ℕ

codes : String → Text
codes String.[] = []
codes (String.◌∷◌ c s) = code c ∷ codes s

-- the bytes of an ASCII literal
unfoldable pub txt : String → Text
unfolding codes
txt = codes

unfoldable pub text_eq : Text → Text → Bool
text_eq [] [] = true
text_eq [] (y ∷ ys) = false
text_eq (x ∷ xs) [] = false
text_eq (x ∷ xs) (y ∷ ys) = x == y && text_eq xs ys

pub text_eq_iff : (a b : Text) → (text_eq a b ≡ true) ↔ (a ≡ b)
unfolding text_eq
text_eq_iff [] [] = ground arith
text_eq_iff [] (y ∷ ys) = ground arith
text_eq_iff (x ∷ xs) [] = ground arith
text_eq_iff (x ∷ xs) (y ∷ ys) = ground (arith, text_eq_iff xs ys)

pub text_eq_refl : (a : Text) → text_eq a a ≡ true
text_eq_refl a = (text_eq_iff a a).1 refl

-- the order of `std::string`, by which maps and sets are sorted
unfoldable pub text_lt : Text → Text → Bool
text_lt [] [] = false
text_lt [] (y ∷ ys) = true
text_lt (x ∷ xs) [] = false
text_lt (x ∷ xs) (y ∷ ys) = let rest = text_lt xs ys in if x == y then rest else ltb x y

-- one byte of `Server::toLower`
unfoldable pub lower : ℕ → ℕ
lower c = if leb b'A' c && leb c b'Z' then c + 32 else c

unfoldable pub to_lower : Text → Text
unfolding lower
to_lower = map lower

lower-lower : (c : ℕ) → lower (lower c) ≡ lower c
unfolding lower
lower-lower c = ground arith

pub to_lower-to_lower : (s : Text) → to_lower (to_lower s) ≡ to_lower s
unfolding to_lower
to_lower-to_lower [] = refl
to_lower-to_lower (c ∷ s) = ground (arith, lower-lower c, to_lower-to_lower s)

-- `s.find(c) != npos`
unfoldable pub has_byte : ℕ → Text → Bool
has_byte c [] = false
has_byte c (x ∷ xs) = if x == c then true else has_byte c xs

-- `s.find_first_not_of(allowed) == npos`
unfoldable pub only_bytes : Text → Text → Bool
unfolding has_byte
only_bytes allowed [] = true
only_bytes allowed (x ∷ xs) = has_byte x allowed && only_bytes allowed xs

pub nil_of_to_lower : (s t : Text) → to_lower s ≡ to_lower t → t ≡ [] → s ≡ []
unfolding to_lower
nil_of_to_lower [] t h e = refl
nil_of_to_lower (c ∷ s) [] h e = cc
nil_of_to_lower (c ∷ s) (d ∷ t) h e = cc
