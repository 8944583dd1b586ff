-- ===== src/Mariia/Parse.antt =====
-- The parser and the registration of project/mariia/sources/parsingServer.cpp.
use ft_irc.Prelude.{
  ℕ, Bool, true, false, not, ◌&&◌, ◌||◌, Option, none, some, List, [], ◌∷◌, ◌++◌, ◌==◌,
  if◌then◌else◌, is_empty,
}
use ft_irc.Text.{Text, txt, text_eq, has_byte}
use ft_irc.Mariia.State.{
  Client, find_client, set_nickname, add_mode, unknown_mode, has_user, insert_user,
}
use ft_irc.Mariia.Exec.{M, pure, done, gets, modify, token, client_at, set_client, ◌>>=◌, ◌>>◌}
use ft_irc.Mariia.Words.{get_lines, get_words, is_bit_mask, get_bit_mode}
use ft_irc.Mariia.Replies.{
  capls, rpl_welcome, rpl_yourhost, rpl_created, rpl_myinfo, err_needmoreparams, err_passwdmismatch,
  err_nicknameinuse, err_umodeunknownflag, err_unknowncommand, server_send_error, server_send_reply,
}
use ft_irc.Mariia.Commands.Common.{trailing}
use ft_irc.Mariia.Commands.Talk.{process_privmsg}
use ft_irc.Mariia.Commands.Join.{process_join}
use ft_irc.Mariia.Commands.Leave.{process_part, process_kick, process_quit}
use ft_irc.Mariia.Commands.Topic.{process_topic, process_invite}
use ft_irc.Mariia.Commands.Mode.{process_mode}
use ft_irc.Mariia.Commands.Info.{
  process_names, process_list, process_ping, process_who, process_whois,
}
use ft_irc.Mariia.Commands.User.{verify_nickname, nick_taken, process_nick, process_away}

-- the table `cmd`, and the error for a command that is not in it
unfoldable pub run_command : Text → ℕ → List Text → M (Unit {0})
run_command command fd tokens =
    if text_eq command (txt "PRIVMSG") || text_eq command (txt "NOTICE")
    then process_privmsg fd tokens
    else if text_eq command (txt "JOIN")
    then process_join fd tokens
    else if text_eq command (txt "INVITE")
    then process_invite fd tokens
    else if text_eq command (txt "KICK")
    then process_kick fd tokens
    else if text_eq command (txt "TOPIC")
    then process_topic fd tokens
    else if text_eq command (txt "PART")
    then process_part fd tokens
    else if text_eq command (txt "MODE")
    then process_mode fd tokens
    else if text_eq command (txt "NAMES")
    then process_names fd tokens
    else if text_eq command (txt "LIST")
    then process_list fd tokens
    else if text_eq command (txt "PING")
    then process_ping fd tokens
    else if text_eq command (txt "AWAY")
    then process_away fd tokens
    else if text_eq command (txt "NICK")
    then process_nick fd tokens
    else if text_eq command (txt "QUIT")
    then process_quit fd tokens
    else if text_eq command (txt "WHO")
    then process_who fd tokens
    else if text_eq command (txt "WHOIS")
    then process_whois fd tokens
    else server_send_error fd command err_unknowncommand

unfoldable pub process_cmd : ℕ → List Text → M (Unit {0})
process_cmd fd [] = done
process_cmd fd (command ∷ params) =
    if text_eq command (txt "CAP") then done else run_command command fd (command ∷ params)

-- the methods of the registration answer whether the client is to be closed
unfoldable pub verify_password : ℕ → Text → M Bool
verify_password fd given =
    if is_empty given then (do server_send_error fd [] err_needmoreparams; pure false) else do
      password ← gets (λ s. s.password)
      if not (text_eq given password)
          then (do server_send_error fd [] err_passwdmismatch; pure true)
          else do c ← client_at fd; set_client fd (λ x. record x { logged = true }); pure false

unfoldable pub handle_pass : ℕ → List Text → M Bool
handle_pass fd [] = do server_send_error fd (txt "PASS") err_needmoreparams; pure true
handle_pass fd (given ∷ params) = do
  wrong ← verify_password fd given
  if wrong
      then pure true
      else do c ← client_at fd; set_client fd (λ x. record x { password = given }); pure false

unfoldable pub handle_nick : ℕ → List Text → M Bool
handle_nick fd [] = do server_send_error fd (txt "NICK") err_needmoreparams; pure false
handle_nick fd (nick ∷ params) = do
  bad ← verify_nickname fd nick
  if bad then pure false else do c ← client_at fd; set_client fd (set_nickname nick); pure false

unfoldable pub set_mask : ℕ → Text → M (Unit {0})
set_mask fd mask =
    if is_bit_mask mask
    then if get_bit_mode mask == unknown_mode
      then server_send_error fd mask err_umodeunknownflag
      else set_client fd (add_mode (get_bit_mode mask))
    else done

unfoldable pub set_user : ℕ → Text → Text → Text → List Text → M Bool
set_user fd username mask first rest = do
  c ← client_at fd
  set_client fd (λ x. record x { username = username })
  realname ← trailing first rest
  if is_empty realname
      then (do server_send_error fd [] err_needmoreparams; pure false)
      else do set_client fd (λ x. record x { real_name = realname }); set_mask fd mask; pure false

unfoldable pub handle_user : ℕ → List Text → M Bool
handle_user fd [] = do server_send_error fd (txt "USER") err_needmoreparams; pure false
handle_user fd (username ∷ []) = do server_send_error fd (txt "USER") err_needmoreparams; pure false
handle_user fd (username ∷ mask ∷ []) = do
  server_send_error fd (txt "USER") err_needmoreparams
  pure false
handle_user fd (username ∷ mask ∷ first ∷ rest) = set_user fd username mask first (first ∷ rest)

unfoldable pub handle_command : ℕ → Text → List Text → M Bool
handle_command fd command params =
    if text_eq command (txt "PASS")
    then handle_pass fd params
    else if text_eq command (txt "NICK")
    then handle_nick fd params
    else if text_eq command (txt "USER")
    then handle_user fd params
    else pure false

unfoldable pub welcome : ℕ → M Bool
welcome fd = do
  set_client fd (λ x. record x { registered = true })
  c ← client_at fd
  server_send_reply fd [] rpl_welcome c.nickname
  server_send_reply fd [] rpl_yourhost []
  server_send_reply fd [] rpl_created []
  server_send_reply fd [] rpl_myinfo []
  pure false

-- `users` holds the nickname: is another client of that name there?
unfoldable pub known_user : ℕ → Client → M Bool
known_user fd c = do
  taken ← gets (λ s. nick_taken fd c.nickname s.clients)
  if taken then (do server_send_error fd c.nickname err_nicknameinuse; pure true) else welcome fd

unfoldable pub new_user : ℕ → Client → M Bool
new_user fd c = do
  modify (λ s. record s { users = insert_user c.nickname c.password s.users })
  welcome fd

unfoldable pub check_registration : ℕ → M Bool
check_registration fd = do
  c ← client_at fd
  if c.logged && (not (is_empty c.nickname) && not (is_empty c.username))
      then (do
        known ← gets (λ s. has_user c.nickname s.users)
        if known then known_user fd c else new_user fd c)
      else pure false

-- `tokens[1]` is read whether it is there or not
unfoldable pub answer_cap : ℕ → List Text → M (Unit {0})
answer_cap fd params = do
  sub ← token params 0
  if text_eq sub (txt "LS") then server_send_reply fd [] capls [] else done

unfoldable pub registration_process : ℕ → List Text → M Bool
registration_process fd [] = pure false
registration_process fd (command ∷ params) =
    if text_eq command (txt "CAP") then (do answer_cap fd params; check_registration fd) else do
      closing ← handle_command fd command params
      if closing then pure true else check_registration fd

-- what stands before a carriage return
unfoldable pub until_cr : Text → Text
until_cr [] = []
until_cr (c ∷ s) = let rest = until_cr s in if c == 13 then [] else c ∷ rest

unfoldable pub run_line : ℕ → Text → M Bool
run_line fd line = do
  let tokens = get_words (until_cr line)
  c ← client_at fd
  if not c.registered then registration_process fd tokens else do process_cmd fd tokens; pure false

unfoldable pub run_lines : ℕ → List Text → M Bool
run_lines fd [] = pure false
run_lines fd (line ∷ lines) = do
  closing ← run_line fd line
  let rest = run_lines fd lines
  if closing then pure true else rest

-- the text of the stream, after what was left over has been put in front and its place cleared
unfoldable pub run_text : ℕ → Text → M Bool
run_text fd text =
    if not (has_byte 10 text)
    then (do set_client fd (λ c. record c { recv_buffer = c.recv_buffer ++ text }); pure false)
    else run_lines fd (get_lines 10 text)

unfoldable pub pars_of : ℕ → Text → Option Client → M Bool
pars_of fd buffer none = run_lines fd (get_lines 10 buffer)
pars_of fd buffer (some c) = do
  set_client fd (λ x. record x { recv_buffer = [] })
  run_text fd (c.recv_buffer ++ buffer)

-- The exception of `getClient`, for a client that is not there, is caught at once, and the lines
-- are run.
unfoldable pub pars_buffer : ℕ → Text → M Bool
pars_buffer fd buffer = do client ← gets (λ s. find_client fd s.clients); pars_of fd buffer client
