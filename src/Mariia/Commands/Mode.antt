-- ===== src/Mariia/Commands/Mode.antt =====
-- MODE of project/mariia/sources/cmd/processMode.cpp. What an option does to a channel is in
-- Mariia/Modes.antt.
use ft_irc.Prelude.{
  ℕ, ◌+◌, ◌^◌, Bool, true, false, not, ◌&&◌, ◌||◌, Option, none, some, List, [], ◌∷◌, ◌++◌, ltb,
  ◌==◌, if◌then◌else◌, is_empty, length, drop,
}
use ft_irc.Text.{Text, txt, text_eq, to_lower}
use ft_irc.Mariia.Channel.{
  Channel, key_set, limit_set, is_mode_set, get_mode_string, has_member, has_operator,
}
use ft_irc.Mariia.Modes.{
  ModeError, err_no_such_nick, err_user_not_in_channel, handle_mode_i, handle_mode_t, handle_mode_k,
  handle_mode_l, handle_mode_o,
}
use ft_irc.Mariia.State.{Client, away, unknown_mode, add_mode, remove_mode, get_mode, return_modes}
use ft_irc.Mariia.Exec.{M, pure, done, deref, token, first_byte, client_at, set_client, ◌>>=◌, ◌>>◌}
use ft_irc.Mariia.Words.{merge_tokens, decimal}
use ft_irc.Mariia.Replies.{
  rpl_channelmodeis, rpl_endofbanlist, rpl_umodeis, err_needmoreparams, err_nosuchchannel,
  err_notonchannel, err_chanoprivsneeded, err_unknownmode, err_nosuchnick, err_usernotinchannel,
  err_usersdontmatch, err_umodeunknownflag, server_send_error, server_send_reply,
  send_notification_to, get_nick_and_hostname, channel_named, client_named, set_channel,
}
use ft_irc.Mariia.Commands.Common.{is_channel_name}

-- the sign bit of `_limitMembers` is the bit 31
unfoldable pub mode_with_parameters : Channel → Text
mode_with_parameters ch =
    get_mode_string ch
    ++ (if is_mode_set key_set ch && not (is_empty ch.password) then txt " " ++ ch.password else [])
    ++ (if is_mode_set limit_set ch && (ltb 0 ch.limit_members && ltb ch.limit_members (2 ^ 31))
        then txt " " ++ decimal ch.limit_members
        else [])

unfoldable pub mode_parameter_needed : Bool → ℕ → Bool
mode_parameter_needed set mode = mode == b'o' || (set && (mode == b'k' || mode == b'l'))

-- the keys of `channelMode`
unfoldable pub known_mode : ℕ → Bool
known_mode mode =
    mode == b'i' || mode == b't' || mode == b'k' || mode == b'l' || mode == b'o' || mode == b'b'

abbrev found_fd : Option Client → Option ℕ
found_fd none = none
found_fd (some c) = some c.socket_fd

unfoldable pub send_mode_error : ℕ → Text → Option ModeError → M (Unit {0})
send_mode_error fd parameter none = done
send_mode_error fd parameter (some err_no_such_nick) = server_send_error fd parameter err_nosuchnick
send_mode_error fd parameter (some err_user_not_in_channel) =
    server_send_error fd parameter err_usernotinchannel

-- the answer of a handler, after its change of the channel
unfoldable pub apply_to : Bool × Channel → M Bool
apply_to (applied, ch) = do set_channel ch; pure applied

unfoldable pub apply_mode_o : ℕ → Bool → Text → Channel → M Bool
apply_mode_o fd set parameter ch = do
  client ← client_named parameter
  let result = handle_mode_o set parameter (found_fd client) ch
  send_mode_error fd parameter result.0
  apply_to result.1

-- `(this->*(it->second))(settingMode, parameter, channel, fd)`
unfoldable pub apply_mode : ℕ → Bool → ℕ → Text → Channel → M Bool
apply_mode fd set mode parameter ch =
    if mode == b'i'
    then apply_to (handle_mode_i set ch)
    else if mode == b't'
    then apply_to (handle_mode_t set ch)
    else if mode == b'k'
    then apply_to (handle_mode_k set parameter ch)
    else if mode == b'l'
    then apply_to (handle_mode_l set parameter ch)
    else if mode == b'o'
    then apply_mode_o fd set parameter ch
    else do server_send_reply fd [] rpl_endofbanlist []; pure false

-- the variables of the loop
pub record ModeLoop : Type 0 where
  pub setting : Bool
  pub last_setting : Bool
  pub param_index : ℕ
  pub changed : Text
  pub parameters : List Text

abbrev sign : Bool → ℕ
sign true = b'+'
sign false = b'-'

-- `changedModes` and `parametersSet` after an option that applied
unfoldable pub note_mode : ℕ → Text → ModeLoop → ModeLoop
note_mode mode parameter l = record l {
  last_setting = l.setting;
  changed =
      l.changed
      ++ (if l.last_setting
          then (if l.setting then [] else sign false ∷ [])
          else if l.setting
          then sign true ∷ []
          else [])
      ++ mode ∷ [];
  parameters = l.parameters ++ parameter ∷ [];
}

unfoldable pub mode_letter_on : ℕ → Text → ℕ → Text → ModeLoop → Option Channel → M ModeLoop
mode_letter_on fd name mode parameter l none = deref none
mode_letter_on fd name mode parameter l (some ch) = do
  applied ← apply_mode fd l.setting mode parameter ch
  pure (if applied then note_mode mode parameter l else l)

unfoldable pub mode_letter_step : ℕ → Text → ℕ → Text → ModeLoop → M ModeLoop
mode_letter_step fd name mode parameter l =
    if not (known_mode mode)
    then (do server_send_error fd (mode ∷ []) err_unknownmode; pure l)
    else do channel ← channel_named name; mode_letter_on fd name mode parameter l channel

-- one character of the modes
unfoldable pub mode_step : ℕ → Text → List Text → ℕ → ModeLoop → M ModeLoop
mode_step fd name tokens mode l =
    if mode == b'+'
    then pure (record l { setting = true })
    else if mode == b'-'
    then pure (record l { setting = false })
    else if mode_parameter_needed l.setting mode && ltb l.param_index (length tokens)
    then (do
      parameter ← token tokens l.param_index
      mode_letter_step fd name mode parameter (record l { param_index = l.param_index + 1 }))
    else mode_letter_step fd name mode [] l

unfoldable pub mode_loop : ℕ → Text → List Text → Text → ModeLoop → M ModeLoop
mode_loop fd name tokens [] l = pure l
mode_loop fd name tokens (mode ∷ modes) l = do
  l' ← mode_step fd name tokens mode l
  mode_loop fd name tokens modes l'

abbrev pub mode_start : ModeLoop
mode_start = record {
  setting = true;
  last_setting = true;
  param_index = 3;
  changed = [];
  parameters = [];
}

abbrev fds_of : Option Channel → List ℕ
fds_of none = []
fds_of (some ch) = ch.member_fds

unfoldable pub tell_modes : ℕ → Text → ModeLoop → M (Unit {0})
tell_modes fd name l =
    if not (is_empty l.changed)
    then (do
      channel ← channel_named name
      prefix ← get_nick_and_hostname fd
      send_notification_to (fds_of channel) prefix (txt "MODE")
          (name ++ txt " " ++ l.changed ++ txt " " ++ merge_tokens l.parameters false))
    else done

unfoldable pub change_modes : ℕ → Text → List Text → M (Unit {0})
change_modes fd name tokens = do
  modes ← token tokens 2
  l ← mode_loop fd name tokens modes mode_start
  tell_modes fd name l

unfoldable pub channel_mode : ℕ → Text → List Text → Option Channel → M (Unit {0})
channel_mode fd name tokens none = server_send_error fd name err_nosuchchannel
channel_mode fd name tokens (some ch) =
    if length tokens == 2
    then if has_member fd ch
      then server_send_reply fd (name ++ txt " " ++ mode_with_parameters ch) rpl_channelmodeis []
      else server_send_reply fd (name ++ txt " " ++ get_mode_string ch) rpl_channelmodeis []
    else if not (has_member fd ch)
    then server_send_error fd name err_notonchannel
    else if not (has_operator fd ch)
    then server_send_error fd name err_chanoprivsneeded
    else change_modes fd name tokens

unfoldable pub process_channel_mode : ℕ → List Text → M (Unit {0})
process_channel_mode fd tokens = do
  name ← token tokens 1
  channel ← channel_named name
  channel_mode fd name tokens channel

-- the loop of `processUserMode`, which ends at the first flag that it does not take
unfoldable pub user_mode_loop : ℕ → List Text → M (Unit {0})
user_mode_loop fd [] = done
user_mode_loop fd (flag ∷ flags) = do
  let rest = user_mode_loop fd flags
  let mode = get_mode flag
  c ← client_at fd
  if mode == unknown_mode || mode == away
      then server_send_error fd flag err_umodeunknownflag
      else do
        s ← first_byte flag
        set_client fd (if s == b'+' then add_mode mode else remove_mode mode)
        changed ← client_at fd
        server_send_reply fd [] rpl_umodeis (return_modes changed)
        rest

unfoldable pub process_user_mode : ℕ → List Text → M (Unit {0})
process_user_mode fd tokens = do
  nick ← token tokens 1
  c ← client_at fd
  if not (text_eq (to_lower nick) c.nickname)
      then server_send_error fd nick err_usersdontmatch
      else if length tokens == 2
      then server_send_reply fd [] rpl_umodeis (return_modes c)
      else user_mode_loop fd (drop 2 tokens)

unfoldable pub process_mode : ℕ → List Text → M (Unit {0})
process_mode fd tokens =
    if ltb (length tokens) 2 then server_send_error fd (txt "MODE") err_needmoreparams else do
      target ← token tokens 1
      is_channel ← is_channel_name target
      if is_channel then process_channel_mode fd tokens else process_user_mode fd tokens
