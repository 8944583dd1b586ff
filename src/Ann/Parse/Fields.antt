-- ===== src/Ann/Parse/Fields.antt =====
-- `splitArgToSubargs` against its specification: the fields between the commas, without the empty
-- ones.
use ft_irc.Prelude.{
  ℕ, zero, suc, ◌<◌, ◌≡◌, ◌≢◌, refl, ◌∙◌, ap, false, none, some, List, [], ◌∷◌, ◌++◌, arith, ◌==◌,
  if◌then◌else◌, length, All, Option-cases, Bool-cases, inl, inr,
}
use ft_irc.Text.{Text, has_byte}
use ft_irc.Ann.Parse.{break_at, push_part, split_loop, split_arg_to_subargs}

abbrev onto_first : ℕ → List Text → List Text
onto_first x [] = (x ∷ []) ∷ []
onto_first x (p ∷ ps) = (x ∷ p) ∷ ps

-- all fields between separators, the empty ones too
unfoldable pub fields : ℕ → Text → List Text
fields c [] = [] ∷ []
fields c (x ∷ xs) = let rest = fields c xs in if x == c then [] ∷ rest else onto_first x rest

unfoldable pub non_empty : List Text → List Text
non_empty [] = []
non_empty (p ∷ ps) = push_part p (non_empty ps)

-- the fields with a separator between each two
unfoldable pub join : ℕ → List Text → Text
join c [] = []
join c (p ∷ []) = p
join c (p ∷ q ∷ ps) = p ++ c ∷ join c (q ∷ ps)

break_at-none : (c : ℕ) (s : Text) → break_at c s ≡ none → fields c s ≡ s ∷ []
unfolding break_at fields
break_at-none c [] h = refl
break_at-none c (x ∷ xs) h = elim (Bool-cases (x == c)) [
  | inl e ↦ absurd (ground arith)
  | inr e ↦ elim (Option-cases (break_at c xs)) [
    | inl z ↦ rw (e, break_at-none c xs z)
    | inr (p, z) ↦ absurd (ground arith)
  ]
]

break_at-some :
    (c : ℕ) (s a b : Text)
    → break_at c s ≡ some (a, b)
    → (fields c s ≡ a ∷ fields c b) × (length b < length s)
unfolding break_at fields
break_at-some c [] a b h = cc
break_at-some c (x ∷ xs) a b h = elim (Bool-cases (x == c)) [
  | inl e ↦ (ground arith, ground arith)
  | inr e ↦ elim (Option-cases (break_at c xs)) [
    | inl z ↦ absurd (ground arith)
    | inr ((u, v), z) ↦
        let (i, l) = break_at-some c xs u v z in (ground (arith, i), ground (arith, l))
  ]
]

pub split_loop-fields :
    (f c : ℕ) (s : Text) → length s < f → split_loop f c s ≡ non_empty (fields c s)
unfolding split_loop non_empty
split_loop-fields zero c s h = elim h [ ]
split_loop-fields (suc f) c s h = elim (Option-cases (break_at c s)) [
  | inl e ↦ rw (e, split_loop, break_at-none c s e)
  | inr ((a, b), e) ↦
      let (i, l) = break_at-some c s a b e in
      rw (e, split_loop, i) (ap (push_part a) (split_loop-fields f c b (omega arith)))
]

-- The loop of splitArgToSubargs ends, and gives the non-empty fields between the commas, in order.
pub split_arg_to_subargs-fields : (s : Text) → split_arg_to_subargs s ≡ non_empty (fields b',' s)
unfolding split_arg_to_subargs
split_arg_to_subargs-fields s = split_loop-fields (suc (length s)) b',' s (omega arith)

-- A name that can stand in a list: not empty, and without a separator.
abbrev pub IsField : ℕ → Text → Type 0
IsField c p = (p ≢ []) × (has_byte c p ≡ false)

fields-field : (c : ℕ) (p : Text) → has_byte c p ≡ false → fields c p ≡ p ∷ []
unfolding fields has_byte
fields-field c [] h = refl
fields-field c (x ∷ p) h = ground (arith, fields-field c p)

fields-append : (c : ℕ) (p s : Text) → has_byte c p ≡ false → fields c (p ++ c ∷ s) ≡ p ∷ fields c s
unfolding fields has_byte
fields-append c [] s h = ground arith
fields-append c (x ∷ p) s h = ground (arith, fields-append c p s)

push_part-field : (p : Text) (ps : List Text) → p ≢ [] → push_part p ps ≡ p ∷ ps
push_part-field [] ps h = absurd (h refl)
push_part-field (x ∷ p) ps h = refl

non_empty-join :
    (c : ℕ) (ps : List Text) → All (IsField c) ps → non_empty (fields c (join c ps)) ≡ ps
unfolding non_empty join
non_empty-join c [] h = unfold fields in refl
non_empty-join c (p ∷ []) h = rw (fields-field c p h.0.1) (push_part-field p [] h.0.0)
non_empty-join c (p ∷ q ∷ ps) h =
    rw (fields-append c p (join c (q ∷ ps)) h.0.1)
      (ap (push_part p) (non_empty-join c (q ∷ ps) h.1) ∙ push_part-field p (q ∷ ps) h.0.0)

-- Splitting a list of non-empty names without commas, written with a comma between each two, gives
-- the names back.
pub split-join : (ps : List Text) → All (IsField b',') ps → split_arg_to_subargs (join b',' ps) ≡ ps
split-join ps h = split_arg_to_subargs-fields (join b',' ps) ∙ non_empty-join b',' ps h
