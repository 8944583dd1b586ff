-- ===== src/Ann/Commands/Join.antt =====
-- JOIN of ann/srcs/Commands.cpp.
use ft_irc.Prelude.{
  ℕ, ◌-◌, Bool, not, ◌&&◌, ◌||◌, Option, none, some, List, [], ◌∷◌, ◌++◌, leb, ltb, ◌==◌,
  if◌then◌else◌, length, drop, is_empty, is_none,
}
use ft_irc.Text.{Text, txt, text_eq, has_byte}
use ft_irc.Ann.State.{
  Cli, Ch, max_chs_per_user, new_ch, set_insert, names_contain, names_erase, insert_ch,
}
use ft_irc.Ann.Exec.{M, pure, done, gets, modify, ◌>>=◌, ◌>>◌}
use ft_irc.Ann.Parse.{split_arg_to_subargs}
use ft_irc.Ann.Replies.{
  author, set_cli, arg, reply, get_ch, ch_at, set_ch, drop_last, get_cli_on_ch, nb_channels,
  resp_to_all, users,
}
use ft_irc.Ann.Commands.Common.{is_registered, not_registered, prefix, first_is}
use ft_irc.Ann.Commands.Talk.{bad_targets}
use ft_irc.Ann.Commands.Leave.{exec_part}

-- the names that JOIN refuses; the source's literal "0\\" holds the digit and the backslash
unfoldable pub bad_ch_name : Text → Bool
bad_ch_name n =
    leb (length n) 1
    || ltb 200 (length n)
    || not (first_is b'#' n)
    || has_byte b'0' n
    || has_byte b'\\' n

-- `ar[1]` of JOIN 0: the names of the author's channels, each with a comma behind it
unfoldable pub own_channels : Cli → List (Text × Ch) → M Text
own_channels c [] = pure []
own_channels c ((k, ch) ∷ m) = do
  member ← get_cli_on_ch c.nick k
  rest ← own_channels c m
  pure (if is_none member then rest else k ++ txt "," ++ rest)

unfoldable pub leave_all : List Text → M (Unit {0})
leave_all ar = do
  c ← author
  all ← gets (λ s. s.chs)
  verb ← arg ar 0
  names ← own_channels c all
  exec_part (verb ∷ drop_last names ∷ [])

-- `chs[name] = new Ch(cli)` where there is no such channel
unfoldable pub open_if : Text → Cli → Option Text → M (Unit {0})
open_if name c none = modify (λ s. record s { chs = insert_ch name (new_ch c.addr) s.chs })
open_if name c (some key) = done

unfoldable pub open_ch : Text → M (Unit {0})
open_ch name = do c ← author; found ← gets (get_ch name); open_if name c found

abbrev pub add_member : ℕ → Ch → Ch
add_member p ch = record ch { clis = set_insert p ch.clis }

-- what the members of a channel are told of a new one
unfoldable pub announce : Text → Cli → M (Unit {0})
announce name c = do
  resp_to_all name (prefix c ++ txt " JOIN " ++ name)
  ch ← ch_at name
  if is_empty ch.topic
      then done
      else reply (txt "332 " ++ c.nick ++ txt " " ++ name ++ txt " :" ++ ch.topic)
  after ← ch_at name
  who ← users after
  resp_to_all name (
      txt ":localhost 353 "
      ++ c.nick
      ++ txt "!"
      ++ c.u_name
      ++ txt "@127.0.0.1 = "
      ++ name
      ++ txt " :"
      ++ who)

unfoldable pub enter_as : Text → Cli → M (Unit {0})
enter_as name c = do
  set_ch name (add_member c.addr)
  set_cli c.addr (λ x. record x { invits = names_erase name x.invits })
  announce name c

unfoldable pub enter_ch : Text → M (Unit {0})
enter_ch name = do c ← author; enter_as name c

-- the tests of one channel, in their order
unfoldable pub admit : Text → Text → M (Unit {0})
admit name pass = do
  ch ← ch_at name
  c ← author
  if not (is_empty ch.pass) && not (text_eq pass ch.pass)
      then reply (txt "475 " ++ name ++ txt " :Cannot join channel (+k)")
      else if leb ch.limit (length ch.clis)
      then reply (txt "471 " ++ name ++ txt " :Cannot join channel (+l)")
      else if ch.opt_i && not (names_contain name c.invits)
      then reply (txt "473 " ++ name ++ txt " :Cannot join channel (+i)")
      else enter_ch name

abbrev first_or_empty : List Text → Text
first_or_empty [] = []
first_or_empty (p ∷ ps) = p

-- one round of the loop, before its next round: `same` with the keys that are left, or `next`
-- without the first of them, which a channel that is tried has taken
unfoldable pub join_one : M (Unit {0}) → M (Unit {0}) → Text → Text → Text → M (Unit {0})
join_one same next a pass name = do
  c ← author
  count ← gets (λ s. nb_channels c.addr s.chs)
  if ltb (max_chs_per_user - 1) count
      then reply (txt "405 " ++ a ++ txt " :You have joined too many channels")
      else if bad_ch_name name
      then (do reply (txt "403 " ++ name ++ txt " :No such channel"); same)
      else do
        member ← get_cli_on_ch c.nick name
        if not (is_none member)
            then (do reply (txt ":you are already on channel " ++ name); same)
            else do open_ch name; admit name pass; next

unfoldable pub join_loop : Text → List Text → List Text → M (Unit {0})
join_loop a passes [] = done
join_loop a passes (name ∷ names) =
    join_one (join_loop a passes names) (join_loop a (drop 1 passes) names) a
      (first_or_empty passes) name

unfoldable pub join_named : List Text → Text → M (Unit {0})
join_named ar a =
    if bad_targets (split_arg_to_subargs a)
    then reply (a ++ txt " :407 recipients. Too many targets.")
    else if leb 3 (length ar)
    then (do keys ← arg ar 2; join_loop a (split_arg_to_subargs keys) (split_arg_to_subargs a))
    else join_loop a [] (split_arg_to_subargs a)

-- JOIN 0 leaves every channel
unfoldable pub join_arg : List Text → Text → M (Unit {0})
join_arg ar a = if length ar == 2 && text_eq a (txt "0") then leave_all ar else join_named ar a

unfoldable pub join_as : List Text → Cli → M (Unit {0})
join_as ar c =
    if not (is_registered c)
    then not_registered c
    else if ltb (length ar) 2
    then reply (txt "461 JOIN :Not enough parameters")
    else do a ← arg ar 1; join_arg ar a

unfoldable pub exec_join : List Text → M (Unit {0})
exec_join ar = do c ← author; join_as ar c
