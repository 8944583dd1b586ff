-- ===== src/Ann/Parse/Stream.antt =====
-- `splitBufToCmds` over a stream that arrives in pieces.
use ft_irc.Prelude.{
  ℕ, zero, suc, ◌+◌, ◌<◌, ◌≤◌, ◌≡◌, ◌≢◌, refl, sym, ◌∙◌, ap, false, ◌&&◌, none, some, List, [], ◌∷◌,
  ◌++◌, append_assoc, arith, ◌==◌, length, All, Option-cases, Bool-cases, inl, inr,
}
use ft_irc.Text.{Text}
use ft_irc.Ann.Parse.{break_crlf, push_part, crlf_loop, ends_bare_lf, from_nc, split_buf}

-- A CRLF that has arrived stays where it is when more comes.
break_crlf-append :
    (s t a b : Text) → break_crlf s ≡ some (a, b) → break_crlf (s ++ t) ≡ some (a, b ++ t)
unfolding break_crlf
break_crlf-append [] t a b h = cc
break_crlf-append (x ∷ []) t a b h = cc
break_crlf-append (x ∷ y ∷ s) t a b h = elim (Bool-cases (x == 13 && y == 10)) [
  | inl e ↦ rw e (ground arith)
  | inr e ↦ elim (Option-cases (break_crlf (y ∷ s))) [
    | inl z ↦ absurd (ground arith)
    | inr ((u, v), z) ↦ rw (e, break_crlf-append (y ∷ s) t u v z) (ground arith)
  ]
]

break_crlf-shorter : (s a b : Text) → break_crlf s ≡ some (a, b) → length b + 2 ≤ length s
unfolding break_crlf
break_crlf-shorter [] a b h = absurd (ground arith)
break_crlf-shorter (x ∷ []) a b h = absurd (ground arith)
break_crlf-shorter (x ∷ y ∷ s) a b h = elim (Bool-cases (x == 13 && y == 10)) [
  | inl e ↦ ground arith
  | inr e ↦ elim (Option-cases (break_crlf (y ∷ s))) [
    | inl z ↦ absurd (ground arith)
    | inr ((u, v), z) ↦ ground (arith, break_crlf-shorter (y ∷ s) u v z)
  ]
]

-- Enough fuel is enough.
pub crlf_loop-fuel :
    (f g : ℕ) (s : Text) → length s < f → length s < g → crlf_loop f s ≡ crlf_loop g s
unfolding crlf_loop
crlf_loop-fuel zero g s h k = elim h [ ]
crlf_loop-fuel (suc f) zero s h k = elim k [ ]
crlf_loop-fuel (suc f) (suc g) s h k = elim (Option-cases (break_crlf s)) [
  | inl e ↦ rw (e, crlf_loop)
  | inr ((a, b), e) ↦
      let l = break_crlf-shorter s a b e in
      rw (e, crlf_loop, crlf_loop-fuel f g b (omega arith) (omega arith))
]

-- the loop with enough fuel
unfoldable pub frames : Text → List Text × Text
frames s = crlf_loop (suc (length s)) s

frames-none : (s : Text) → break_crlf s ≡ none → frames s ≡ ([], s)
unfolding frames crlf_loop
frames-none s e = rw (e, crlf_loop)

frames-some :
    (s a b : Text)
    → break_crlf s ≡ some (a, b)
    → frames s ≡ (push_part a (frames b).0, (frames b).1)
unfolding frames crlf_loop
frames-some s a b e =
    let l = break_crlf-shorter s a b e in
    let same = crlf_loop-fuel (length s) (suc (length b)) b (omega arith) (omega arith) in
    rw (e, crlf_loop, same)

push_part-append : (a : Text) (ps qs : List Text) → push_part a ps ++ qs ≡ push_part a (ps ++ qs)
push_part-append [] ps qs = refl
push_part-append (x ∷ a) ps qs = refl

abbrev pub then_split : List Text × Text → List Text × Text → List Text × Text
then_split first second = (first.0 ++ second.0, second.1)

pub frames-append :
    (n : ℕ) (s t : Text)
    → length s < n
    → frames (s ++ t) ≡ then_split (frames s) (frames ((frames s).1 ++ t))
frames-append zero s t h = elim h [ ]
frames-append (suc n) s t h = elim (Option-cases (break_crlf s)) [
  | inl e ↦ rw (frames-none s e)
  | inr ((a, b), e) ↦
      let l = break_crlf-shorter s a b e in
      let ih = frames-append n b t (omega arith) in
      let later = frames-some (s ++ t) a (b ++ t) (break_crlf-append s t a b e) in
      let both = ap (λ (r : List Text × Text). (push_part a r.0, r.1)) ih in
      let now = frames-some s a b e in
      later
      ∙ both
      ∙ ap (λ x. (x, (frames ((frames b).1 ++ t)).1))
          (sym (push_part-append a (frames b).0 (frames ((frames b).1 ++ t)).0))
      ∙ sym (ap (λ (r : List Text × Text). then_split r (frames (r.1 ++ t))) now)
]

split_buf-frames : (s : Text) → ends_bare_lf s ≡ false → split_buf s ≡ frames s
unfolding split_buf from_nc frames
split_buf-frames s e = rw e

-- How the stream is cut into reads does not matter: two reads give the commands of the whole, and
-- the same rest, where neither read, nor the whole, ends in a bare line feed.
pub split_buf-append :
    (s t : Text)
    → ends_bare_lf s ≡ false
    → ends_bare_lf (s ++ t) ≡ false
    → ends_bare_lf ((split_buf s).1 ++ t) ≡ false
    → split_buf (s ++ t) ≡ then_split (split_buf s) (split_buf ((split_buf s).1 ++ t))
split_buf-append s t a b c =
    let first = split_buf-frames s a in
    split_buf-frames (s ++ t) b
    ∙ frames-append (suc (length s)) s t (omega arith)
    ∙ ap (λ r. then_split r (frames (r.1 ++ t))) (sym first)
    ∙ ap (then_split (split_buf s)) (sym (split_buf-frames ((split_buf s).1 ++ t) c))

-- A command that can be sent: not empty, and without a CRLF.
abbrev pub IsCommand : Text → Type 0
IsCommand c = (c ≢ []) × (break_crlf c ≡ none)

-- the commands, each with CRLF behind it
unfoldable pub encode : List Text → Text
encode [] = []
encode (c ∷ cs) = c ++ 13 ∷ 10 ∷ encode cs

break_crlf-command :
    (c s : Text) → break_crlf c ≡ none → break_crlf (c ++ 13 ∷ 10 ∷ s) ≡ some (c, s)
unfolding break_crlf
break_crlf-command [] s h = refl
break_crlf-command (x ∷ []) s h = ground arith
break_crlf-command (x ∷ y ∷ c) s h = elim (Option-cases (break_crlf (y ∷ c))) [
  | inl z ↦ ground (arith, break_crlf-command (y ∷ c) s)
  | inr ((u, v), z) ↦ absurd (ground arith)
]

push_part-command : (c : Text) (cs : List Text) → c ≢ [] → push_part c cs ≡ c ∷ cs
push_part-command [] cs h = absurd (h refl)
push_part-command (x ∷ c) cs h = refl

frames-encode :
    (cs : List Text) (rest : Text)
    → All IsCommand cs
    → break_crlf rest ≡ none
    → frames (encode cs ++ rest) ≡ (cs, rest)
unfolding encode
frames-encode [] rest h e = frames-none rest e
frames-encode (c ∷ cs) rest h e =
    let cut = break_crlf-command c (encode cs ++ rest) h.0.1 in
    let more = frames-encode cs rest h.1 e in
    let shape : encode (c ∷ cs) ++ rest ≡ c ++ 13 ∷ 10 ∷ (encode cs ++ rest) =
      append_assoc c (13 ∷ 10 ∷ encode cs) rest in
    ap frames shape
    ∙ frames-some _ c (encode cs ++ rest) cut
    ∙ ap (λ (r : List Text × Text). (push_part c r.0, r.1)) more
    ∙ ap (λ x. (x, rest)) (push_part-command c cs h.0.0)

-- Commands that were sent with CRLF behind each, and the beginning of a next one, come out as they
-- were sent; the beginning is kept for the next read.
pub split_buf-encode :
    (c : Text) (cs : List Text) (rest : Text)
    → All IsCommand (c ∷ cs)
    → break_crlf rest ≡ none
    → split_buf (encode (c ∷ cs) ++ rest) ≡ (c ∷ cs, rest)
unfolding split_buf from_nc
split_buf-encode c cs rest h e =
    let shape : encode (c ∷ cs) ++ rest ≡ c ++ 13 ∷ 10 ∷ (encode cs ++ rest) =
      unfold encode in append_assoc c (13 ∷ 10 ∷ encode cs) rest in
    let cut = ap break_crlf shape ∙ break_crlf-command c (encode cs ++ rest) h.0.1 in
    let plain : from_nc (encode (c ∷ cs) ++ rest) ≡ encode (c ∷ cs) ++ rest = ground (arith, cut) in
    ap (λ t. crlf_loop (suc (length t)) t) plain
    ∙ (unfold frames in frames-encode (c ∷ cs) rest h e)
