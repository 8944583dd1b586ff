-- ===== src/Ann/Commands/Common.antt =====
-- Tests and texts that several commands of ann/srcs/Commands.cpp repeat.
use ft_irc.Prelude.{
  ℕ, Bool, true, false, not, ◌&&◌, none, some, List, [], ◌∷◌, ◌++◌, ◌==◌, get_elem?, is_empty,
}
use ft_irc.Text.{Text, txt}
use ft_irc.Ann.State.{Cli}
use ft_irc.Ann.Exec.{M}
use ft_irc.Ann.Replies.{reply}

-- `cli->passOk && cli->nick != "" && cli->uName != ""`
abbrev pub is_registered : Cli → Bool
is_registered c = c.pass_ok && not (is_empty c.nick) && not (is_empty c.u_name)

-- ERR_NOTREGISTERED
unfoldable pub not_registered : Cli → M (Unit {0})
not_registered c = reply (txt "451 " ++ c.nick ++ txt " :User not logged in")

-- `":" + nick + "!" + uName + "@" + host`
unfoldable pub prefix : Cli → Text
prefix c = txt ":" ++ c.nick ++ txt "!" ++ c.u_name ++ txt "@" ++ c.host

-- `s[0] == c`
unfoldable pub first_is : ℕ → Text → Bool
first_is c [] = false
first_is c (x ∷ s) = x == c

-- `ar[i] == ""`, where `ar[i]` is there
unfoldable pub arg_is_empty : List Text → ℕ → Bool
arg_is_empty ar i = elim (get_elem? ar i) [ none ↦ true | some t ↦ is_empty t ]
