-- ===== src/Mariia/Limit.antt =====
-- The limit of a channel of project/mariia, as MODE shows it and as MODE +l reads it.
use ft_irc.Prelude.{
  ℕ, zero, suc, ◌+◌, ◌*◌, ◌-◌, ◌/◌, ◌%◌, ◌^◌, ◌<◌, ◌≡◌, refl, ap, ◌∙◌, true, false, ◌&&◌, some, [],
  ◌∷◌, leb, ltb, ◌==◌, arith, Bool-cases, inl, inr, length,
}
use ft_irc.Text.{Text}
use ft_irc.Mariia.Channel.{Channel, is_mode_set, limit_set}
use ft_irc.Mariia.Flags.{set_mode-HasFlag}
use ft_irc.Mariia.Modes.{read_digits, starts_with_digit, read_int, limit_to, handle_mode_l}
use ft_irc.Mariia.Words.{decimal_loop, decimal}

digit-read_digits :
    (m d : ℕ) (s : Text) → d < 10 → read_digits m ((48 + d) ∷ s) ≡ read_digits (m * 10 + d) s
unfolding read_digits
digit-read_digits m d s small =
    let e : m * 10 + ((48 + d) - 48) ≡ m * 10 + d = omega arith in
    let digit : (leb 48 (48 + d) && leb (48 + d) 57) ≡ true = ground arith in
    rw digit (ap (λ k. read_digits k s) e)

-- The digits of a number, in front of others, are read as that number.
read_digits-decimal_loop :
    (f n : ℕ) (acc : Text) → n < f → read_digits 0 (decimal_loop f n acc) ≡ read_digits n acc
unfolding decimal_loop
read_digits-decimal_loop zero n acc enough = absurd (omega arith)
read_digits-decimal_loop (suc f) n acc enough = elim (Bool-cases (ltb n 10)) [
  | inl one ↦
      let small : n < 10 = ground arith in
      let e : 0 * 10 + n ≡ n = omega arith in
      rw one (digit-read_digits 0 n acc small ∙ ap (λ k. read_digits k acc) e)
  | inr more ↦
      let big : 9 < n = ground arith in
      let less : n / 10 < f = omega arith in
      let small : n % 10 < 10 = omega arith in
      let e : (n / 10) * 10 + n % 10 ≡ n = omega arith in
      rw more (
        read_digits-decimal_loop f (n / 10) ((48 + n % 10) ∷ acc) less
        ∙ digit-read_digits (n / 10) (n % 10) acc small
        ∙ ap (λ k. read_digits k acc) e)
]

starts-decimal_loop :
    (f n : ℕ) (acc : Text) → n < f → starts_with_digit (decimal_loop f n acc) ≡ true
unfolding decimal_loop starts_with_digit
starts-decimal_loop zero n acc enough = absurd (omega arith)
starts-decimal_loop (suc f) n acc enough = elim (Bool-cases (ltb n 10)) [
  | inl one ↦ let digit : (leb 48 (48 + n) && leb (48 + n) 57) ≡ true = ground arith in rw one digit
  | inr more ↦
      let big : 9 < n = ground arith in
      let less : n / 10 < f = omega arith in
      rw more (starts-decimal_loop f (n / 10) ((48 + n % 10) ∷ acc) less)
]

read_int-digits :
    (s : Text) (n : ℕ)
    → starts_with_digit s ≡ true
    → read_digits 0 s ≡ n
    → leb n (2 ^ 31 - 1) ≡ true
    → read_int s ≡ some (false, n)
unfolding read_int starts_with_digit
read_int-digits [] n starts value small = cc
read_int-digits (c ∷ s) n starts value small =
    let no_minus : (c == 45) ≡ false = ground arith in
    let no_plus : (c == 43) ≡ false = ground arith in
    rw (no_minus, no_plus, starts, value, small) refl

read_digits-nil : (n : ℕ) → read_digits n [] ≡ n
unfolding read_digits
read_digits-nil n = refl

handle_mode_l-read :
    (n : ℕ) (ch : Channel)
    → leb n (2 ^ 31 - 1) ≡ true
    → handle_mode_l true (decimal n) ch ≡ limit_to (some (false, n)) ch
unfolding handle_mode_l decimal
handle_mode_l-read n ch small =
    let enough : n < suc n = omega arith in
    ap (λ o. limit_to o ch)
      (read_int-digits (decimal_loop (suc n) n []) n (starts-decimal_loop (suc n) n [] enough)
        (read_digits-decimal_loop (suc n) n [] enough ∙ read_digits-nil n) small)

limit_to-pins :
    (n : ℕ) (ch : Channel)
    → ch.mode < 16
    → leb (length ch.member_fds) n ≡ true
    → ((limit_to (some (false, n)) ch).0 ≡ true)
      × ((limit_to (some (false, n)) ch).1.limit_members ≡ n)
      × (is_mode_set limit_set (limit_to (some (false, n)) ch).1 ≡ true)
      × ((limit_to (some (false, n)) ch).1.member_fds ≡ ch.member_fds)
unfolding limit_to
limit_to-pins n ch bits room =
    let fits : ltb n (length ch.member_fds) ≡ false = ground arith in
    let set' = set_mode-HasFlag 3 (record ch { limit_members = n }) bits (omega arith) in
    rw fits (
      refl,
      ap (λ (x : Channel). x.limit_members) set'.rest,
      set'.flags 3 (omega arith),
      ap (λ (x : Channel). x.member_fds) set'.rest,
    )

-- A limit that is an int and not below the number of members, printed as MODE prints it, is taken by
-- MODE +l: the limit of the channel is that number then, the option is set, and the members stay.
pub handle_mode_l-decimal :
    (n : ℕ) (ch : Channel)
    → leb n (2 ^ 31 - 1) ≡ true
    → leb (length ch.member_fds) n ≡ true
    → ch.mode < 16
    → ((handle_mode_l true (decimal n) ch).0 ≡ true)
      × ((handle_mode_l true (decimal n) ch).1.limit_members ≡ n)
      × (is_mode_set limit_set (handle_mode_l true (decimal n) ch).1 ≡ true)
      × ((handle_mode_l true (decimal n) ch).1.member_fds ≡ ch.member_fds)
handle_mode_l-decimal n ch small room bits =
    rw (handle_mode_l-read n ch small) (limit_to-pins n ch bits room)
