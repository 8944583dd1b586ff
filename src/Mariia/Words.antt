-- ===== src/Mariia/Words.antt =====
-- The functions on texts of project/mariia/sources/utils.cpp, with what they and the parser use of
-- the streams of the standard library.
use ft_irc.Prelude.{
  ℕ, zero, suc, ◌+◌, ◌/◌, ◌%◌, Bool, true, false, not, ◌&&◌, ◌||◌, Option, none, some, List, [],
  ◌∷◌, ◌++◌, leb, ltb, ◌==◌, if◌then◌else◌,
}
use ft_irc.Text.{Text}
use ft_irc.Ann.State.{names_insert}
use ft_irc.Mariia.Modes.{read_int}
use ft_irc.Mariia.State.{invisible, unknown_mode}

abbrev pub onto_first : ℕ → List Text → List Text
onto_first c [] = (c ∷ []) ∷ []
onto_first c (l ∷ ls) = (c ∷ l) ∷ ls

-- `std::getline` until the end: the pieces between the separators, of which an empty last one is
-- not read
unfoldable pub get_lines : ℕ → Text → List Text
get_lines d [] = []
get_lines d (c ∷ s) = let rest = get_lines d s in if c == d then [] ∷ rest else onto_first c rest

abbrev pub is_blank : ℕ → Bool
is_blank c = (leb 9 c && leb c 13) || c == 32

unfoldable pub starts_word : Text → Bool
starts_word [] = false
starts_word (c ∷ s) = not (is_blank c)

-- `stream >> token` until the end
unfoldable pub get_words : Text → List Text
get_words [] = []
get_words (c ∷ s) =
    let rest = get_words s in
    if is_blank c then rest else if starts_word s then onto_first c rest else (c ∷ []) ∷ rest

unfoldable pub set_of : List Text → List Text
set_of [] = []
set_of (x ∷ xs) = names_insert x (set_of xs)

unfoldable pub split : Text → ℕ → Bool → List Text
split src delimiter unique =
    if unique then set_of (get_lines delimiter src) else get_lines delimiter src

-- the loop of `mergeTokensToString`
unfoldable pub spaced : List Text → Text
spaced [] = []
spaced (t ∷ []) = t
spaced (t ∷ u ∷ ts) = t ++ 32 ∷ spaced (u ∷ ts)

unfoldable pub without_colon : Text → Text
without_colon [] = []
without_colon (c ∷ s) = if c == b':' then s else c ∷ s

unfoldable pub merge_tokens : List Text → Bool → Text
merge_tokens tokens remove_colon =
    if remove_colon then without_colon (spaced tokens) else spaced tokens

unfoldable pub is_num : Text → Bool
is_num [] = true
is_num (c ∷ s) = let rest = is_num s in if leb b'0' c && leb c b'9' then rest else false

-- of an int without sign: only the bits 4 and 8 may be set, and one is
abbrev is_mask : Option (Bool × ℕ) → Bool
is_mask none = false
is_mask (some (minus, n)) = n == 4 || n == 8 || n == 12

unfoldable pub is_bit_mask : Text → Bool
is_bit_mask s = if not (is_num s) then false else is_mask (read_int s)

-- of a number that `is_bit_mask` has let through
abbrev mask_mode : Option (Bool × ℕ) → ℕ
mask_mode none = unknown_mode
mask_mode (some (minus, n)) = if n / 8 % 2 == 1 then invisible else unknown_mode

unfoldable pub get_bit_mode : Text → ℕ
get_bit_mode s = mask_mode (read_int s)

-- `stream << n`
unfoldable pub decimal_loop : ℕ → ℕ → Text → Text
decimal_loop zero n acc = acc
decimal_loop (suc f) n acc =
    let rest = decimal_loop f (n / 10) ((48 + n % 10) ∷ acc) in
    if ltb n 10 then (48 + n) ∷ acc else rest

unfoldable pub decimal : ℕ → Text
decimal n = decimal_loop (suc n) n []

-- `paddDigits`, for a number below 1000
unfoldable pub padd_digits : ℕ → Text
padd_digits n = (48 + n / 100) ∷ (48 + n / 10 % 10) ∷ (48 + n % 10) ∷ []
