-- ===== src/Mariia/Commands/Leave.antt =====
-- PART, KICK and QUIT of project/mariia/sources/cmd, with `removeClientFromChannel` of
-- project/mariia/sources/Server.cpp.
use ft_irc.Prelude.{
  ℕ, true, not, Option, none, some, List, [], ◌∷◌, ◌++◌, ltb, if◌then◌else◌, is_empty, length, drop,
}
use ft_irc.Text.{Text, txt, to_lower}
use ft_irc.Ann.State.{set_insert, set_erase}
use ft_irc.Mariia.Channel.{Channel, has_member, has_operator, remove_member}
use ft_irc.Mariia.State.{Client, left_channel, erase_channel}
use ft_irc.Mariia.Exec.{M, pure, done, modify, for_each, token, client_at, set_client, ◌>>=◌, ◌>>◌}
use ft_irc.Mariia.Words.{split}
use ft_irc.Mariia.Replies.{
  error_reply, err_needmoreparams, err_toomanytargets, err_nosuchchannel, err_notonchannel,
  err_chanoprivsneeded, err_usernotinchannel, server_send_error, send_notification_to,
  get_nick_and_hostname, channel_named, client_named, set_channel,
}
use ft_irc.Mariia.Commands.Common.{max_targets, trailing}

-- the last member takes the channel along
unfoldable pub remove_if_empty : Channel → M (Unit {0})
remove_if_empty ch =
    if is_empty ch.member_fds
    then modify (λ s. record s { channels = erase_channel (to_lower ch.name) s.channels })
    else done

unfoldable pub remove_client_from_channel : ℕ → Channel → M (Unit {0})
remove_client_from_channel fd ch = do
  let left = remove_member fd ch
  set_channel left
  c ← client_at fd
  set_client fd (left_channel ch.name)
  remove_if_empty left

unfoldable pub part_found : ℕ → Text → Text → Option Channel → M (Unit {0})
part_found fd reason name none = server_send_error fd name err_nosuchchannel
part_found fd reason name (some ch) =
    if not (has_member fd ch) then server_send_error fd name err_notonchannel else do
      prefix ← get_nick_and_hostname fd
      send_notification_to ch.member_fds prefix (txt "PART") (name ++ txt " :" ++ reason)
      remove_client_from_channel fd ch

unfoldable pub part_one : ℕ → Text → Text → M (Unit {0})
part_one fd reason name = do channel ← channel_named name; part_found fd reason name channel

unfoldable pub part_reason : List Text → M Text
part_reason tokens =
    if ltb 2 (length tokens)
    then (do first ← token tokens 2; trailing first (drop 2 tokens))
    else pure []

unfoldable pub process_part : ℕ → List Text → M (Unit {0})
process_part fd tokens =
    if ltb (length tokens) 2 then server_send_error fd (txt "PART") err_needmoreparams else do
      names ← token tokens 1
      let channels = split names b',' true
      if ltb max_targets (length channels)
          then server_send_error fd (txt "PART") err_toomanytargets
          else do reason ← part_reason tokens; for_each (part_one fd reason) channels

unfoldable pub kick_reason : Text → List Text → M Text
kick_reason target tokens =
    if ltb 3 (length tokens)
    then (do first ← token tokens 3; trailing first (drop 3 tokens))
    else pure target

unfoldable pub kick_found : ℕ → Text → Text → Text → Channel → Option Client → M (Unit {0})
kick_found fd name target reason ch none =
    server_send_error fd (target ++ txt " " ++ name) err_usernotinchannel
kick_found fd name target reason ch (some c) =
    if not (has_member c.socket_fd ch)
    then server_send_error fd (target ++ txt " " ++ name) err_usernotinchannel
    else do
      prefix ← get_nick_and_hostname fd
      send_notification_to ch.member_fds prefix (txt "KICK")
          (name ++ txt " " ++ target ++ txt " :" ++ reason)
      remove_client_from_channel c.socket_fd ch

unfoldable pub kick_from : ℕ → Text → Text → Text → Option Channel → M (Unit {0})
kick_from fd name target reason none = server_send_error fd name err_nosuchchannel
kick_from fd name target reason (some ch) =
    if not (has_member fd ch)
    then server_send_error fd name err_notonchannel
    else if not (has_operator fd ch)
    then server_send_error fd name err_chanoprivsneeded
    else do client ← client_named target; kick_found fd name target reason ch client

unfoldable pub process_kick : ℕ → List Text → M (Unit {0})
process_kick fd tokens =
    if ltb (length tokens) 3 then server_send_error fd (txt "KICK") err_needmoreparams else do
      name ← token tokens 1
      target ← token tokens 2
      reason ← kick_reason target tokens
      channel ← channel_named name
      kick_from fd name target reason channel

abbrev pub union : List ℕ → List ℕ → List ℕ
union [] fds = fds
union (x ∷ xs) fds = set_insert x (union xs fds)

abbrev members_of : Option Channel → List ℕ
members_of none = []
members_of (some ch) = ch.member_fds

-- those who share a channel
unfoldable pub sharing_fds : List Text → M (List ℕ)
sharing_fds [] = pure []
sharing_fds (name ∷ names) = do
  channel ← channel_named name
  rest ← sharing_fds names
  pure (union (members_of channel) rest)

unfoldable pub quit_reason : List Text → M Text
quit_reason [] = pure (txt "Remote host closed connection")
quit_reason (command ∷ []) = pure (txt "Client quit")
quit_reason (command ∷ first ∷ rest) = trailing first (first ∷ rest)

-- the destruction of the client waits until its queue has been sent
unfoldable pub process_quit : ℕ → List Text → M (Unit {0})
process_quit fd tokens = do
  client ← client_at fd
  sharing ← sharing_fds client.channels
  reason ← quit_reason tokens
  prefix ← get_nick_and_hostname fd
  send_notification_to (set_erase fd sharing) prefix (txt "QUIT") (txt ":" ++ reason)
  if is_empty tokens then done else server_send_error fd reason error_reply
  set_client fd (λ c. record c { quit = true })
