-- ===== src/Ann/Parse.antt =====
-- The splitting functions of ann/srcs/utils.cpp. Their loops look for a separator and cut the text
-- there; they run on fuel, one unit for each round.
pub mod Fields
pub mod Stream
use ft_irc.Prelude.{
  ℕ, zero, suc, ◌+◌, Bool, true, false, not, ◌&&◌, ◌||◌, Option, none, some, List, [], ◌∷◌, ◌++◌,
  leb, ltb, ◌==◌, if◌then◌else◌, length, take, is_empty, is_none,
}
use ft_irc.Text.{Text}

abbrev cons_fst : ℕ → Option (Text × Text) → Option (Text × Text)
cons_fst x none = none
cons_fst x (some (a, b)) = some (x ∷ a, b)

-- `pos = s.find(c)`, as the texts before the separator and after it
unfoldable pub break_at : ℕ → Text → Option (Text × Text)
break_at c [] = none
break_at c (x ∷ xs) = let rest = break_at c xs in if x == c then some ([], xs) else cons_fst x rest

-- `pos = s.find("\r\n")`
unfoldable pub break_crlf : Text → Option (Text × Text)
break_crlf [] = none
break_crlf (x ∷ []) = none
break_crlf (x ∷ y ∷ xs) =
    let rest = break_crlf (y ∷ xs) in if x == 13 && y == 10 then some ([], xs) else cons_fst x rest

-- `if(part.size() > 0) parts.push_back(part)`
abbrev pub push_part : Text → List Text → List Text
push_part [] parts = parts
push_part (x ∷ xs) parts = (x ∷ xs) ∷ parts

-- the loop of `splitArgToSubargs` and of `splitCmdToArgs`
unfoldable pub split_loop : ℕ → ℕ → Text → List Text
split_loop zero c s = []
split_loop (suc f) c s = elim (break_at c s) [
  | none ↦ push_part s []
  | some (a, b) ↦ push_part a (split_loop f c b)
]

unfoldable pub split_arg_to_subargs : Text → List Text
split_arg_to_subargs s = split_loop (suc (length s)) b',' s

-- what stands before the first colon, and what stands after it
unfoldable pub before_colon : Text → Text
before_colon s = elim (break_at b':' s) [ none ↦ s | some (a, b) ↦ a ]

unfoldable pub after_colon : Text → Text
after_colon s = elim (break_at b':' s) [ none ↦ [] | some (a, b) ↦ b ]

-- a vector is cut to 17 arguments
unfoldable pub split_cmd_to_args : Text → List Text
split_cmd_to_args s =
    let head = before_colon s in
    take 17 (split_loop (suc (length head)) b' ' head ++ push_part (after_colon s) [])

-- the loop of `splitBufToCmds`: the complete commands, and what is left for `bufRecv`
unfoldable pub crlf_loop : ℕ → Text → List Text × Text
crlf_loop zero s = ([], s)
crlf_loop (suc f) s = elim (break_crlf s) [
  | none ↦ ([], s)
  | some (a, b) ↦ let (parts, rest) = crlf_loop f b in (push_part a parts, rest)
]

-- two bytes at least, of which the last is `\n` and the one before is not `\r`
unfoldable pub ends_bare_lf : Text → Bool
ends_bare_lf [] = false
ends_bare_lf (x ∷ []) = false
ends_bare_lf (x ∷ y ∷ []) = y == 10 && not (x == 13)
ends_bare_lf (x ∷ y ∷ z ∷ s) = ends_bare_lf (y ∷ z ∷ s)

-- `s[s.size() - 1] = '\r'; s += '\n'`
unfoldable pub crlf_last : Text → Text
crlf_last [] = []
crlf_last (x ∷ []) = 13 ∷ 10 ∷ []
crlf_last (x ∷ y ∷ s) = x ∷ crlf_last (y ∷ s)

-- a line that ends in `\n` alone, as `nc` sends it
unfoldable pub from_nc : Text → Text
from_nc s = if ends_bare_lf s && is_none (break_crlf s) then crlf_last s else s

unfoldable pub split_buf : Text → List Text × Text
split_buf s = let t = from_nc s in crlf_loop (suc (length t)) t
