-- ===== src/Ann/Number.antt =====
-- `atoi` and `strtol` of the C library, as MODE +l uses them: a 64-bit `long` that saturates, and
-- its conversion to `int` and `unsigned int`, whose bit pattern is the result.
use ft_irc.Prelude.{
  ℕ, ◌+◌, ◌-◌, ◌*◌, ◌%◌, ◌^◌, Bool, true, false, ◌&&◌, ◌||◌, [], ◌∷◌, leb, ◌==◌, if◌then◌else◌,
}
use Prim.Native.Nat.{min}
use ft_irc.Text.{Text}

is_space : ℕ → Bool
is_space c = c == 32 || leb 9 c && leb c 13

skip_spaces : Text → Text
unfolding is_space
skip_spaces [] = []
skip_spaces (c ∷ s) = if is_space c then skip_spaces s else c ∷ s

digits : ℕ → Text → ℕ
digits n [] = n
digits n (c ∷ s) =
    let rest = digits (n * 10 + (c - 48)) s in if leb 48 c && leb c 57 then rest else n

signed : Text → Bool × ℕ
unfolding digits
signed [] = (false, 0)
signed (c ∷ s) =
    if c == b'-'
    then (true, digits 0 s)
    else if c == b'+'
    then (false, digits 0 s)
    else (false, digits 0 (c ∷ s))

to_bits : Bool × ℕ → ℕ
to_bits (false, n) = min n (2 ^ 63 - 1) % 2 ^ 32
to_bits (true, n) = (2 ^ 32 - min n (2 ^ 63) % 2 ^ 32) % 2 ^ 32

-- the bits of `atoi(s)`, and of `static_cast<int>(strtol(s, ..., 10))`
unfoldable pub atoi : Text → ℕ
unfolding skip_spaces signed to_bits
atoi s = to_bits (signed (skip_spaces s))

-- the sign of an `int`
unfoldable pub is_negative : ℕ → Bool
is_negative bits = leb (2 ^ 31) bits
