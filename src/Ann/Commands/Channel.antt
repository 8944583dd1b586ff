-- ===== src/Ann/Commands/Channel.antt =====
-- INVITE and TOPIC of ann/srcs/Commands.cpp.
use ft_irc.Prelude.{
  not, ◌&&◌, ◌||◌, List, [], ◌++◌, ltb, ◌==◌, if◌then◌else◌, length, is_empty, is_none,
}
use ft_irc.Text.{Text, txt, text_eq}
use ft_irc.Ann.State.{Cli, names_insert}
use ft_irc.Ann.Exec.{M, gets, deref, ◌>>=◌, ◌>>◌}
use ft_irc.Ann.Replies.{
  author, set_cli, arg, prepare_resp, reply, get_ch, get_cli, ch_at, set_ch, get_cli_on_ch,
  get_adm_on_ch, resp_to_all,
}
use ft_irc.Ann.Commands.Common.{is_registered, not_registered, prefix}

unfoldable pub invited : Cli → Text → Text → M (Unit {0})
invited c nick name = do
  who ← gets (get_cli nick)
  p ← deref who
  set_cli p (λ x. record x { invits = names_insert name x.invits })
  reply (prefix c ++ txt " 341 " ++ nick ++ txt " " ++ name)
  prepare_resp p (prefix c ++ txt " INVITE " ++ nick ++ txt " " ++ name)
  resp_to_all name (prefix c ++ txt " INVITE " ++ nick ++ txt " " ++ name)

unfoldable pub invite : Cli → Text → Text → M (Unit {0})
invite c nick name = do
  member ← get_cli_on_ch c.nick name
  if is_none member then reply (txt "442 " ++ name ++ txt " :You're not on that channel") else do
    adm ← get_adm_on_ch c.nick name
    ch ← ch_at name
    if is_none adm && ch.opt_i
        then reply (txt "482 " ++ name ++ txt " :You're not channel operator")
        else do
          other ← get_cli_on_ch nick name
          if not (is_none other)
              then reply (txt "443 " ++ nick ++ txt " " ++ name ++ txt " :is already on channel")
              else invited c nick name

unfoldable pub exec_invite : List Text → M (Unit {0})
exec_invite ar = do
  c ← author
  if not (is_registered c)
      then not_registered c
      else if ltb (length ar) 3
      then reply (txt "461 INVITE :Not enough parameters")
      else do
        nick ← arg ar 1
        name ← arg ar 2
        who ← gets (get_cli nick)
        found ← gets (get_ch name)
        if is_none who
            then reply (txt "401 " ++ nick ++ txt " :No such nick")
            else if is_none found
            then reply (txt "403 " ++ nick ++ txt " :No such channel")
            else invite c nick name

-- the topic is asked for
unfoldable pub show_topic : Cli → Text → M (Unit {0})
show_topic c name = do
  ch ← ch_at name
  if is_empty ch.topic
      then reply (txt "331 :" ++ c.nick ++ txt " " ++ name ++ txt " :No topic is set")
      else reply (txt "332 :" ++ c.nick ++ txt " " ++ name ++ txt " :" ++ ch.topic)

unfoldable pub set_topic : Cli → Text → Text → M (Unit {0})
set_topic c name topic =
    if text_eq topic (txt ":") || is_empty topic
    then (do
      set_ch name (λ ch. record ch { topic = [] })
      resp_to_all name
          (txt ":" ++ c.nick ++ txt "@localhost TOPIC " ++ name ++ txt " :No topic is set")
      reply (txt "331 :" ++ c.nick ++ txt " " ++ name ++ txt " :No topic is set"))
    else do
      set_ch name (λ ch. record ch { topic = topic })
      ch ← ch_at name
      reply (txt "332 :" ++ c.nick ++ txt " " ++ name ++ txt " :1" ++ ch.topic)
      resp_to_all name
          (txt ":" ++ c.nick ++ txt "@localhost TOPIC " ++ name ++ txt " :2" ++ ch.topic)

-- the tests that come before the topic is shown or set
unfoldable pub topic_on : Cli → List Text → Text → M (Unit {0})
topic_on c ar name = do
  member ← get_cli_on_ch c.nick name
  if is_none member then reply (txt "442 " ++ name ++ txt " :You're not on that channel") else do
    adm ← get_adm_on_ch c.nick name
    ch ← ch_at name
    if is_none adm && ch.opt_t
        then reply (txt "482 " ++ name ++ txt " :You're not channel operator")
        else if length ar == 2
        then show_topic c name
        else do topic ← arg ar 2; set_topic c name topic

unfoldable pub exec_topic : List Text → M (Unit {0})
exec_topic ar = do
  c ← author
  if not (is_registered c)
      then not_registered c
      else if ltb (length ar) 2
      then reply (txt "461 TOPIC :Not enough parameters")
      else do
        name ← arg ar 1
        found ← gets (get_ch name)
        if is_none found
            then reply (txt "403 " ++ name ++ txt " :No such channel")
            else topic_on c ar name
