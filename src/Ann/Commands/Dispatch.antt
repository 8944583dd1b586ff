-- ===== src/Ann/Commands/Dispatch.antt =====
-- `execCmd` of ann/srcs/Commands.cpp.
use ft_irc.Prelude.{List, [], ◌∷◌, ◌++◌, if◌then◌else◌}
use ft_irc.Text.{Text, txt, text_eq}
use ft_irc.Ann.Exec.{M, done}
use ft_irc.Ann.Replies.{reply}
use ft_irc.Ann.Commands.Common.{first_is}
use ft_irc.Ann.Commands.Register.{exec_pass, exec_nick, exec_user, exec_ping, exec_cap, exec_whois}
use ft_irc.Ann.Commands.Talk.{exec_privmsg, exec_notice}
use ft_irc.Ann.Commands.Leave.{exec_part, exec_kick, exec_quit}
use ft_irc.Ann.Commands.Join.{exec_join}
use ft_irc.Ann.Commands.Channel.{exec_invite, exec_topic}
use ft_irc.Ann.Commands.Mode.{exec_mode_ch, exec_mode_cli}

-- MODE on a channel, on a client, or with no argument
unfoldable pub exec_mode : List Text → List Text → M (Unit {0})
exec_mode ar [] = reply (txt "461 MODE :Not enough parameters")
exec_mode ar (target ∷ rest) = if first_is b'#' target then exec_mode_ch ar else exec_mode_cli ar

unfoldable pub exec_channel_verb : Text → List Text → List Text → M (Unit {0})
exec_channel_verb verb params ar =
    if text_eq verb (txt "JOIN")
    then exec_join ar
    else if text_eq verb (txt "PART")
    then exec_part ar
    else if text_eq verb (txt "MODE")
    then exec_mode ar params
    else if text_eq verb (txt "TOPIC")
    then exec_topic ar
    else if text_eq verb (txt "INVITE")
    then exec_invite ar
    else if text_eq verb (txt "KICK")
    then exec_kick ar
    else reply (txt "421 " ++ verb ++ txt "  :is unknown mode char to me")

unfoldable pub exec_verb : Text → List Text → List Text → M (Unit {0})
exec_verb verb params ar =
    if text_eq verb (txt "PASS")
    then exec_pass ar
    else if text_eq verb (txt "NICK")
    then exec_nick ar
    else if text_eq verb (txt "USER")
    then exec_user ar
    else if text_eq verb (txt "QUIT")
    then exec_quit ar
    else if text_eq verb (txt "PING")
    then exec_ping
    else if text_eq verb (txt "CAP")
    then exec_cap ar
    else if text_eq verb (txt "WHOIS")
    then exec_whois ar
    else if text_eq verb (txt "PRIVMSG")
    then exec_privmsg ar
    else if text_eq verb (txt "NOTICE")
    then exec_notice ar
    else exec_channel_verb verb params ar

unfoldable pub exec_cmd : List Text → M (Unit {0})
exec_cmd [] = done
exec_cmd (verb ∷ params) = exec_verb verb params (verb ∷ params)
