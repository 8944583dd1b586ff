-- ===== src/Mariia/Tokens.antt =====
-- The words of a line of project/mariia, and the texts that are merged from words.
use ft_irc.Prelude.{ℕ, ◌≡◌, refl, ap, ◌∙◌, false, List, [], ◌∷◌, ◌++◌, arith, All, is_empty}
use ft_irc.Text.{Text}
use ft_irc.Mariia.Words.{onto_first, is_blank, starts_word, get_words, spaced, merge_tokens}

-- A word has a byte, and none that is blank.
pub record IsWord (w : Text) : Type 0 where
  pub some_bytes : is_empty w ≡ false
  pub no_blank : All (λ c. is_blank c ≡ false) w

get_words-next :
    (c d : ℕ) (s : Text)
    → is_blank c ≡ false
    → is_blank d ≡ false
    → get_words (c ∷ d ∷ s) ≡ onto_first c (get_words (d ∷ s))
unfolding get_words starts_word
get_words-next c d s hc hd = rw (hc, hd) refl

get_words-word :
    (c : ℕ) (w rest : Text)
    → All (λ c. is_blank c ≡ false) (c ∷ w)
    → get_words (c ∷ w ++ 32 ∷ rest) ≡ (c ∷ w) ∷ get_words rest
unfolding get_words starts_word
get_words-word c [] rest all = rw all.0 refl
get_words-word c (d ∷ w) rest all =
    get_words-next c d (w ++ 32 ∷ rest) all.0 all.1.0
    ∙ ap (onto_first c) (get_words-word d w rest all.1)

get_words-last :
    (c : ℕ) (w : Text) → All (λ c. is_blank c ≡ false) (c ∷ w) → get_words (c ∷ w) ≡ (c ∷ w) ∷ []
unfolding get_words starts_word
get_words-last c [] all = rw all.0 refl
get_words-last c (d ∷ w) all =
    get_words-next c d w all.0 all.1.0 ∙ ap (onto_first c) (get_words-last d w all.1)

one_word : (w : Text) → IsWord w → get_words w ≡ w ∷ []
one_word [] h = absurd (ground (arith, h.some_bytes))
one_word (c ∷ w) h = get_words-last c w h.no_blank

first_word : (w rest : Text) → IsWord w → get_words (w ++ 32 ∷ rest) ≡ w ∷ get_words rest
first_word [] rest h = absurd (ground (arith, h.some_bytes))
first_word (c ∷ w) rest h = get_words-word c w rest h.no_blank

get_words-spaced : (words : List Text) → All IsWord words → get_words (spaced words) ≡ words
unfolding spaced get_words
get_words-spaced [] all = refl
get_words-spaced (w ∷ []) all = one_word w all.0
get_words-spaced (w ∷ u ∷ ws) all =
    first_word w (spaced (u ∷ ws)) all.0 ∙ ap (◌∷◌ w) (get_words-spaced (u ∷ ws) all.1)

-- The words of a text that has been merged from words without blanks are those words.
pub get_words-merge_tokens :
    (words : List Text) → All IsWord words → get_words (merge_tokens words false) ≡ words
unfolding merge_tokens
get_words-merge_tokens words all = get_words-spaced words all
