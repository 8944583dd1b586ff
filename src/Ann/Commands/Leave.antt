-- ===== src/Ann/Commands/Leave.antt =====
-- PART, KICK and QUIT of ann/srcs/Commands.cpp, and `eraseCliFromCh` of ann/srcs/utils.cpp.
use ft_irc.Prelude.{
  ℕ, not, Option, none, some, List, [], ◌∷◌, ◌++◌, ltb, ◌==◌, if◌then◌else◌, length, is_none,
}
use ft_irc.Text.{Text, txt}
use ft_irc.Ann.State.{Cli, Ch, set_insert, set_erase}
use ft_irc.Ann.Exec.{M, pure, gets, modify, ◌>>=◌, ◌>>◌}
use ft_irc.Ann.Parse.{split_arg_to_subargs}
use ft_irc.Ann.Replies.{
  for_each, author, arg, prepare_resp, reply, get_ch, get_cli, set_ch, cli_at, get_cli_on_ch,
  get_adm_on_ch, resp_to_all,
}
use ft_irc.Ann.Commands.Common.{is_registered, not_registered, prefix}

abbrev pub drop_member : Option ℕ → Ch → Ch
drop_member none ch = ch
drop_member (some p) ch = record ch { clis = set_erase p ch.clis; adms = set_erase p ch.adms }

abbrev pub first_as_adm : List ℕ → List ℕ → List ℕ
first_as_adm [] [] = []
first_as_adm [] (p ∷ ps) = p ∷ []
first_as_adm (a ∷ as') ps = a ∷ as'

-- without an operator left, the first member becomes one
unfoldable pub leave_ch : Option ℕ → Ch → Ch
leave_ch p ch =
    let left = drop_member p ch in record left { adms = first_as_adm left.adms left.clis }

unfoldable pub erase_cli_from_ch : Text → Text → M (Unit {0})
erase_cli_from_ch nick name = do p ← gets (get_cli nick); set_ch name (leave_ch p)

unfoldable pub part_msg : Cli → List Text → M Text
part_msg c ar = do
  names ← arg ar 1
  if ltb 2 (length ar)
      then (do why ← arg ar 2; pure (prefix c ++ txt " PART " ++ names ++ txt " :" ++ why))
      else pure (prefix c ++ txt " PART " ++ names)

unfoldable pub part_one : Cli → List Text → Text → M (Unit {0})
part_one c ar name = do
  found ← gets (get_ch name)
  if is_none found then reply (txt "403 " ++ name ++ txt " :No such channel") else do
    member ← get_cli_on_ch c.nick name
    if is_none member then reply (txt "442 " ++ name ++ txt " :You're not on that channel") else do
      names ← arg ar 1
      msg ← part_msg c ar
      resp_to_all names msg
      erase_cli_from_ch c.nick name

unfoldable pub exec_part : List Text → M (Unit {0})
exec_part ar = do
  c ← author
  if not (is_registered c)
      then not_registered c
      else if ltb (length ar) 2
      then reply (txt "461 PART :Not enough parameters")
      else do names ← arg ar 1; for_each (part_one c ar) (split_arg_to_subargs names)

unfoldable pub kick_msg : Cli → List Text → M Text
kick_msg c ar = do
  names ← arg ar 1
  targets ← arg ar 2
  if ltb 3 (length ar)
      then (do
        why ← arg ar 3
        pure (prefix c ++ txt " KICK " ++ names ++ txt " " ++ targets ++ txt " :" ++ why))
      else pure (prefix c ++ txt " KICK " ++ names ++ txt " " ++ targets)

unfoldable pub kick_target : Cli → List Text → Text → Text → M (Unit {0})
kick_target c ar name target = do
  member ← get_cli_on_ch target name
  if is_none member
      then reply (txt "441 " ++ target ++ txt " " ++ name ++ txt " :They aren't on that channel")
      else do
        names ← arg ar 1
        msg ← kick_msg c ar
        resp_to_all names msg
        erase_cli_from_ch target name

unfoldable pub kick_one : Cli → List Text → List Text → Text → M (Unit {0})
kick_one c ar targets name = do
  found ← gets (get_ch name)
  if is_none found then reply (txt "403 " ++ name ++ txt " :No such channel") else do
    member ← get_cli_on_ch c.nick name
    if is_none member then reply (txt "442 " ++ name ++ txt " :You're not on that channel") else do
      adm ← get_adm_on_ch c.nick name
      if is_none adm
          then reply (txt "482 " ++ name ++ txt " :You're not channel operator")
          else for_each (kick_target c ar name) targets

unfoldable pub exec_kick : List Text → M (Unit {0})
exec_kick ar = do
  c ← author
  if not (is_registered c)
      then not_registered c
      else if ltb (length ar) 3
      then reply (txt "461 KICK :Not enough parameters")
      else do
        names ← arg ar 1
        targets ← arg ar 2
        for_each (kick_one c ar (split_arg_to_subargs targets)) (split_arg_to_subargs names)

unfoldable pub quit_msg : List Text → Cli → M Text
quit_msg ar c =
    if length ar == 2
    then (do
      why ← arg ar 1
      pure (c.nick ++ txt "!" ++ c.u_name ++ txt "@" ++ c.host ++ txt " QUIT :Quit:" ++ why))
    else pure (c.nick ++ txt "!" ++ c.u_name ++ txt "@" ++ c.host ++ txt " QUIT :Quit:")

unfoldable pub exec_quit : List Text → M (Unit {0})
exec_quit ar = do
  all ← gets (λ s. s.clis)
  for_each (λ (x : Cli). (do c ← cli_at x.addr; msg ← quit_msg ar c; prepare_resp x.addr msg)) all
  c ← author
  modify (λ s. record s { fds_to_erase = set_insert c.fd s.fds_to_erase })
