-- ===== src/Mariia/Commands/Topic.antt =====
-- TOPIC and INVITE of project/mariia/sources/cmd.
use ft_irc.Prelude.{
  ℕ, not, ◌&&◌, Option, none, some, List, [], ◌++◌, ltb, ◌==◌, if◌then◌else◌, is_empty, length,
  drop,
}
use ft_irc.Text.{Text, txt}
use ft_irc.Mariia.Channel.{
  Channel, topic_set, invite_only, is_mode_set, has_member, has_operator, add_invited,
}
use ft_irc.Mariia.State.{Client, active_mode, away}
use ft_irc.Mariia.Exec.{M, done, token, ◌>>=◌, ◌>>◌}
use ft_irc.Mariia.Replies.{
  rpl_topic, rpl_notopic, rpl_inviting, rpl_away, err_needmoreparams, err_nosuchchannel,
  err_nosuchnick, err_notonchannel, err_chanoprivsneeded, err_useronchannel, server_send_error,
  server_send_reply, send_notification, send_notification_to, get_nick_and_hostname, channel_named,
  client_named, set_channel,
}
use ft_irc.Mariia.Commands.Common.{trailing}

unfoldable pub show_topic : ℕ → Text → Text → M (Unit {0})
show_topic fd name topic =
    if is_empty topic
    then server_send_reply fd name rpl_notopic []
    else server_send_reply fd name rpl_topic topic

unfoldable pub set_topic : ℕ → Text → List Text → Channel → M (Unit {0})
set_topic fd name tokens ch = do
  first ← token tokens 2
  topic ← trailing first (drop 2 tokens)
  set_channel (record ch { topic = topic })
  prefix ← get_nick_and_hostname fd
  send_notification_to ch.member_fds prefix (txt "TOPIC") (name ++ txt " :" ++ topic)

unfoldable pub topic_found : ℕ → Text → List Text → Option Channel → M (Unit {0})
topic_found fd name tokens none = server_send_error fd name err_nosuchchannel
topic_found fd name tokens (some ch) =
    if length tokens == 2
    then show_topic fd name ch.topic
    else if not (has_member fd ch)
    then server_send_error fd name err_notonchannel
    else if is_mode_set topic_set ch && not (has_operator fd ch)
    then server_send_error fd name err_chanoprivsneeded
    else set_topic fd name tokens ch

unfoldable pub process_topic : ℕ → List Text → M (Unit {0})
process_topic fd tokens =
    if ltb (length tokens) 2
    then server_send_error fd (txt "TOPIC") err_needmoreparams
    else do name ← token tokens 1; channel ← channel_named name; topic_found fd name tokens channel

unfoldable pub send_invite : ℕ → Text → Text → Client → M (Unit {0})
send_invite fd nick name c = do
  prefix ← get_nick_and_hostname fd
  send_notification c.socket_fd prefix (txt "INVITE") (nick ++ txt " " ++ name)
  server_send_reply fd (nick ++ txt " " ++ name) rpl_inviting []
  if active_mode away c then server_send_reply fd nick rpl_away c.away_message else done

unfoldable pub invite_to : ℕ → Text → Text → Client → Channel → M (Unit {0})
invite_to fd nick name c ch =
    if not (has_member fd ch)
    then server_send_error fd name err_notonchannel
    else if has_member c.socket_fd ch
    then server_send_error fd (nick ++ txt " " ++ name) err_useronchannel
    else if is_mode_set invite_only ch
    then if not (has_operator fd ch)
      then server_send_error fd name err_chanoprivsneeded
      else (do set_channel (add_invited c.socket_fd ch); send_invite fd nick name c)
    else send_invite fd nick name c

unfoldable pub invite_found : ℕ → Text → Text → Option Client → Option Channel → M (Unit {0})
invite_found fd nick name none channel = server_send_error fd nick err_nosuchnick
invite_found fd nick name (some c) none = server_send_error fd name err_nosuchchannel
invite_found fd nick name (some c) (some ch) = invite_to fd nick name c ch

unfoldable pub process_invite : ℕ → List Text → M (Unit {0})
process_invite fd tokens =
    if ltb (length tokens) 3 then server_send_error fd (txt "INVITE") err_needmoreparams else do
      nick ← token tokens 1
      name ← token tokens 2
      client ← client_named nick
      channel ← channel_named name
      invite_found fd nick name client channel
