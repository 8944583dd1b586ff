-- ===== src/Mariia/Commands/Talk.antt =====
-- PRIVMSG and NOTICE of project/mariia/sources/cmd/processPrivmsg.cpp.
use ft_irc.Prelude.{
  ℕ, Bool, true, ◌&&◌, Option, none, some, List, [], ◌++◌, ltb, ◌==◌, if◌then◌else◌, length, drop,
}
use ft_irc.Text.{Text, txt, text_eq}
use ft_irc.Ann.State.{set_erase}
use ft_irc.Mariia.Channel.{Channel, has_member}
use ft_irc.Mariia.State.{Client, active_mode, away}
use ft_irc.Mariia.Exec.{M, done, for_each, token, ◌>>=◌, ◌>>◌}
use ft_irc.Mariia.Words.{split}
use ft_irc.Mariia.Replies.{
  err_norecipient, err_notexttosend, err_nosuchnick, err_cannotsendtochan, err_toomanytargets,
  rpl_away, server_send_error, server_send_reply, send_notification, send_notification_to,
  get_nick_and_hostname, channel_named, client_named,
}
use ft_irc.Mariia.Commands.Common.{max_targets, is_channel_name, trailing}

abbrev pub is_privmsg : Text → Bool
is_privmsg command = text_eq command (txt "PRIVMSG")

-- a NOTICE is never answered by an error
unfoldable pub if_privmsg : Text → M (Unit {0}) → M (Unit {0})
if_privmsg command m = if is_privmsg command then m else done

unfoldable pub pm_to_user : ℕ → Text → Text → Text → Text → Option Client → M (Unit {0})
pm_to_user fd message prefix target command none =
    if_privmsg command (server_send_error fd target err_nosuchnick)
pm_to_user fd message prefix target command (some receiver) = do
  send_notification receiver.socket_fd prefix command (target ++ txt " :" ++ message)
  if is_privmsg command && active_mode away receiver
      then server_send_reply fd target rpl_away receiver.away_message
      else done

unfoldable pub send_pm_to_user : ℕ → Text → Text → Text → Text → M (Unit {0})
send_pm_to_user fd message prefix target command = do
  receiver ← client_named target
  pm_to_user fd message prefix target command receiver

unfoldable pub pm_to_chan : ℕ → Text → Text → Text → Text → Option Channel → M (Unit {0})
pm_to_chan fd message prefix target command none =
    if_privmsg command (server_send_error fd target err_nosuchnick)
pm_to_chan fd message prefix target command (some ch) =
    if has_member fd ch
    then send_notification_to (set_erase fd ch.member_fds) prefix command
        (ch.name ++ txt " :" ++ message)
    else if_privmsg command (server_send_error fd target err_cannotsendtochan)

unfoldable pub send_pm_to_chan : ℕ → Text → Text → Text → Text → M (Unit {0})
send_pm_to_chan fd message prefix target command = do
  channel ← channel_named target
  pm_to_chan fd message prefix target command channel

unfoldable pub send_pm : ℕ → Text → Text → Text → Text → M (Unit {0})
send_pm fd message prefix command target = do
  is_channel ← is_channel_name target
  if is_channel
      then send_pm_to_chan fd message prefix target command
      else send_pm_to_user fd message prefix target command

unfoldable pub send_pms : ℕ → List Text → Text → List Text → M (Unit {0})
send_pms fd tokens command targets = do
  first ← token tokens 2
  message ← trailing first (drop 2 tokens)
  prefix ← get_nick_and_hostname fd
  for_each (send_pm fd message prefix command) targets

unfoldable pub process_privmsg : ℕ → List Text → M (Unit {0})
process_privmsg fd tokens =
    if length tokens == 1
    then server_send_error fd [] err_norecipient
    else if length tokens == 2
    then server_send_error fd [] err_notexttosend
    else do
      command ← token tokens 0
      names ← token tokens 1
      let targets = split names b',' true
      if ltb max_targets (length targets)
          then server_send_error fd command err_toomanytargets
          else send_pms fd tokens command targets
