-- ===== src/Ann/Commands/Talk.antt =====
-- PRIVMSG and NOTICE of ann/srcs/Commands.cpp.
use ft_irc.Prelude.{Bool, not, ◌||◌, List, [], ◌∷◌, ◌++◌, ltb, ◌==◌, if◌then◌else◌, length, is_none}
use ft_irc.Text.{Text, txt, to_lower}
use ft_irc.Ann.State.{Cli, max_nb_targets, names_insert, find_ch}
use ft_irc.Ann.Exec.{M, done, gets, deref, ◌>>=◌}
use ft_irc.Ann.Parse.{split_arg_to_subargs}
use ft_irc.Ann.Replies.{
  for_each, author, arg, prepare_resp, reply, get_ch, get_cli, get_cli_on_ch, resp_except_author,
}
use ft_irc.Ann.Commands.Common.{is_registered, not_registered, first_is}

-- `set<string>(tos.begin(), tos.end())`
unfoldable pub names_set : List Text → List Text
names_set [] = []
names_set (x ∷ xs) = names_insert x (names_set xs)

-- a name twice, or more than `MAX_NB_TARGETS` names
unfoldable pub bad_targets : List Text → Bool
bad_targets tos = ltb (length (names_set tos)) (length tos) || ltb max_nb_targets (length tos)

abbrev local_prefix : Cli → Text
local_prefix c = txt ":" ++ c.nick ++ txt "!" ++ c.u_name ++ txt "@127.0.0.1"

unfoldable pub privmsg : Cli → Text → Text → Text
privmsg c tos text = local_prefix c ++ txt " PRIVMSG " ++ tos ++ txt " :" ++ text

abbrev no_such_target : Text → Text
no_such_target to = txt "401 " ++ to ++ txt " :No such nick/channel " ++ to

-- the look-up by the name in lower case, as `chs.find(toLower(*to))`
unfoldable pub privmsg_to_ch : Cli → Text → Text → M (Unit {0})
privmsg_to_ch c msg to = do
  there ← gets (λ s. find_ch (to_lower to) s.chs)
  if is_none there then reply (no_such_target to) else do
    member ← get_cli_on_ch c.nick to
    if is_none member
        then reply (txt "404 " ++ local_prefix c ++ txt " " ++ to ++ txt " :Cannot send to channel")
        else resp_except_author to msg

unfoldable pub privmsg_to_cli : Text → Text → M (Unit {0})
privmsg_to_cli msg to = do
  found ← gets (get_cli to)
  if is_none found then reply (no_such_target to) else do p ← deref found; prepare_resp p msg

unfoldable pub privmsg_to : Cli → Text → Text → M (Unit {0})
privmsg_to c msg to = if first_is b'#' to then privmsg_to_ch c msg to else privmsg_to_cli msg to

unfoldable pub exec_privmsg : List Text → M (Unit {0})
exec_privmsg ar = do
  c ← author
  if not (is_registered c)
      then not_registered c
      else if length ar == 1
      then (do a0 ← arg ar 0; reply (txt "411 :No recipient given (" ++ a0 ++ txt ")"))
      else if length ar == 2
      then reply (txt "412 :No text to send")
      else do
        tos ← arg ar 1
        text ← arg ar 2
        if bad_targets (split_arg_to_subargs tos)
            then reply (txt "407 " ++ tos ++ txt " not valid recipients")
            else for_each (privmsg_to c (privmsg c tos text)) (split_arg_to_subargs tos)

-- red, by the escapes of a terminal
unfoldable pub notice : Cli → Text → Text → Text
notice c tos text =
    local_prefix c
    ++ txt " NOTICE "
    ++ tos
    ++ txt " :"
    ++ (27 ∷ txt "[1;31m")
    ++ text
    ++ (27 ∷ txt "[0m")

unfoldable pub notice_to : Text → Text → M (Unit {0})
notice_to msg to =
    if first_is b'#' to
    then (do found ← gets (get_ch to); if is_none found then done else resp_except_author to msg)
    else do
      found ← gets (get_cli to)
      if is_none found then done else do p ← deref found; prepare_resp p msg

unfoldable pub exec_notice : List Text → M (Unit {0})
exec_notice ar = do
  c ← author
  if not (is_registered c) || ltb (length ar) 3 then done else do
    tos ← arg ar 1
    text ← arg ar 2
    for_each (notice_to (notice c tos text)) (split_arg_to_subargs tos)
