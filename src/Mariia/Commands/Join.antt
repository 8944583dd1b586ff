-- ===== src/Mariia/Commands/Join.antt =====
-- JOIN of project/mariia/sources/cmd/processJoin.cpp. What it does to one channel is in
-- Mariia/Join.antt.
use ft_irc.Prelude.{
  ℕ, Bool, true, false, not, ◌&&◌, ◌||◌, Option, none, some, List, [], ◌∷◌, ◌++◌, ltb, ◌==◌,
  if◌then◌else◌, is_empty, length,
}
use ft_irc.Text.{Text, txt}
use ft_irc.Mariia.Channel.{Channel, has_operator}
use ft_irc.Mariia.Modes.{is_valid_name}
use ft_irc.Mariia.Join.{
  Answer, silence, err_invite_only_chan, err_channel_is_full, err_bad_channel_key, joined,
  join_existing_channel, created_channel,
}
use ft_irc.Mariia.State.{Client, joined_channel}
use ft_irc.Mariia.Exec.{M, pure, done, gets, modify, token, client_at, set_client, ◌>>=◌, ◌>>◌}
use ft_irc.Mariia.Words.{split, merge_tokens}
use ft_irc.Mariia.Replies.{
  rpl_topic, rpl_notopic, rpl_namreply, rpl_endofnames, err_inviteonlychan, err_channelisfull,
  err_badchannelkey, err_nosuchchannel, err_needmoreparams, err_toomanytargets, err_toomanychannels,
  server_send_error, server_send_reply, send_notification_to, get_nick_and_hostname, channel_named,
  set_channel,
}
use ft_irc.Mariia.Commands.Common.{max_targets, max_channels}

abbrev pub shown_nick : Channel → ℕ → Client → Text
shown_nick ch fd c = if has_operator fd ch then txt "@" ++ c.nickname else c.nickname

-- `getAllChannelMembersNicks`
unfoldable pub all_nicks : Channel → List ℕ → M (List Text)
all_nicks ch [] = pure []
all_nicks ch (fd ∷ fds) = do
  c ← client_at fd
  rest ← all_nicks ch fds
  pure (shown_nick ch fd c ∷ rest)

unfoldable pub send_join_replies : ℕ → Channel → M (Unit {0})
send_join_replies fd ch = do
  prefix ← get_nick_and_hostname fd
  send_notification_to ch.member_fds prefix (txt "JOIN") ch.name
  if not (is_empty ch.topic)
      then server_send_reply fd ch.name rpl_topic ch.topic
      else server_send_reply fd ch.name rpl_notopic []
  nicks ← all_nicks ch ch.member_fds
  server_send_reply fd ch.name rpl_namreply (merge_tokens nicks false)
  server_send_reply fd ch.name rpl_endofnames []

-- `clients[fd]->addChannel(name)`
unfoldable pub add_channel_of : ℕ → Text → M (Unit {0})
add_channel_of fd name = do c ← client_at fd; set_client fd (joined_channel name)

unfoldable pub answer_join : ℕ → Answer → Channel → M (Unit {0})
answer_join fd silence ch = done
answer_join fd err_invite_only_chan ch = server_send_error fd ch.name err_inviteonlychan
answer_join fd err_channel_is_full ch = server_send_error fd ch.name err_channelisfull
answer_join fd err_bad_channel_key ch = server_send_error fd ch.name err_badchannelkey
answer_join fd joined ch = do add_channel_of fd ch.name; send_join_replies fd ch

unfoldable pub join_existing : ℕ → Text → Channel → M (Unit {0})
join_existing fd password ch = do
  let result = join_existing_channel fd password ch
  set_channel result.1
  answer_join fd result.0 result.1

unfoldable pub is_valid_channel_name : Text → Bool
is_valid_channel_name [] = false
is_valid_channel_name (c ∷ name) = (c == b'#' || c == b'&') && is_valid_name name

-- the client gets the name as it is written, the channel has it in lower case
unfoldable pub create_and_join : ℕ → Text → Text → M (Unit {0})
create_and_join fd name password =
    if is_valid_channel_name name
    then (do
      unset_limit ← gets (λ s. s.unset_limit)
      let ch = created_channel unset_limit fd name password
      add_channel_of fd name
      modify (λ s. record s { channels = s.channels ++ ch ∷ [] })
      send_join_replies fd ch)
    else server_send_error fd name err_nosuchchannel

unfoldable pub join_found : ℕ → Text → Text → Option Channel → M (Unit {0})
join_found fd name password none = create_and_join fd name password
join_found fd name password (some ch) = join_existing fd password ch

abbrev pub first_or_empty : List Text → Text
first_or_empty [] = []
first_or_empty (x ∷ xs) = x

abbrev pub but_first : List Text → List Text
but_first [] = []
but_first (x ∷ xs) = xs

-- the loop over the names, which ends at the limit of channels
unfoldable pub join_loop : ℕ → List Text → List Text → M (Unit {0})
join_loop fd passwords [] = done
join_loop fd passwords (name ∷ names) = do
  c ← client_at fd
  let rest = join_loop fd (but_first passwords) names
  if length c.channels == max_channels then server_send_error fd name err_toomanychannels else do
    channel ← channel_named name
    join_found fd name (first_or_empty passwords) channel
    rest

unfoldable pub passwords_of : List Text → M (List Text)
passwords_of tokens =
    if ltb 2 (length tokens)
    then (do given ← token tokens 2; pure (split given b',' false))
    else pure []

unfoldable pub process_join : ℕ → List Text → M (Unit {0})
process_join fd tokens =
    if ltb (length tokens) 2 then server_send_error fd (txt "JOIN") err_needmoreparams else do
      names ← token tokens 1
      let channels = split names b',' true
      if ltb max_targets (length channels)
          then server_send_error fd (txt "JOIN") err_toomanytargets
          else do passwords ← passwords_of tokens; join_loop fd passwords channels
