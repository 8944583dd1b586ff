-- ===== src/Mariia/Commands/Info.antt =====
-- NAMES, LIST, WHO, WHOIS and PING of project/mariia/sources/cmd.
use ft_irc.Prelude.{
  ℕ, Bool, true, false, not, ◌&&◌, ◌||◌, Option, none, some, List, [], ◌∷◌, ◌++◌, ltb, ◌==◌,
  if◌then◌else◌, is_empty, length,
}
use ft_irc.Text.{Text, txt, text_eq, text_lt, to_lower}
use ft_irc.Mariia.Channel.{Channel, has_member, has_operator}
use ft_irc.Mariia.State.{Client, active_mode, away, invisible, find_channel}
use ft_irc.Mariia.Exec.{M, pure, done, gets, for_each, token, client_at, ◌>>=◌, ◌>>◌}
use ft_irc.Mariia.Words.{split, merge_tokens, decimal}
use ft_irc.Mariia.Replies.{
  rpl_namreply, rpl_endofnames, rpl_list, rpl_listend, rpl_whoreply, rpl_endofwho, rpl_endofwhois,
  err_toomanytargets, err_needmoreparams, err_noorigin, err_nosuchserver, server_name, crlf,
  server_send_error, server_send_reply, server_send_message, channel_named, client_named,
}
use ft_irc.Mariia.Commands.Common.{max_targets, is_channel_name}
use ft_irc.Mariia.Commands.Join.{shown_nick, all_nicks}

-- `getVisibleChannelMembersNicks`
unfoldable pub visible_nicks : Channel → List ℕ → M (List Text)
visible_nicks ch [] = pure []
visible_nicks ch (fd ∷ fds) = do
  c ← client_at fd
  rest ← visible_nicks ch fds
  pure (if not (active_mode invisible c) then shown_nick ch fd c ∷ rest else rest)

-- `nicks.insert`: a name that is there keeps its nicknames
unfoldable pub insert_nicks : Text → List Text → List (Text × List Text) → List (Text × List Text)
insert_nicks name nicks [] = (name, nicks) ∷ []
insert_nicks name nicks ((n, l) ∷ rest) =
    let more = insert_nicks name nicks rest in
    if text_eq n name
    then (n, l) ∷ rest
    else if text_lt name n
    then (name, nicks) ∷ (n, l) ∷ rest
    else (n, l) ∷ more

unfoldable pub channel_nicks : ℕ → Channel → M (List Text)
channel_nicks fd ch =
    if has_member fd ch then all_nicks ch ch.member_fds else visible_nicks ch ch.member_fds

-- `getClientsOfChannels`, with the names that are there
unfoldable pub clients_of_channels :
    ℕ → List Channel → List (Text × List Text) → M (List (Text × List Text))
clients_of_channels fd [] nicks = pure nicks
clients_of_channels fd (ch ∷ chs) nicks = do
  l ← channel_nicks fd ch
  clients_of_channels fd chs (insert_nicks ch.name l nicks)

unfoldable pub without_channels : List Client → List Text
without_channels [] = []
without_channels (c ∷ cs) =
    let rest = without_channels cs in
    if not (active_mode invisible c) && is_empty c.channels then c.nickname ∷ rest else rest

-- `findChannels`
unfoldable pub find_channels : List Text → List Channel → List Channel
find_channels [] chs = []
find_channels (name ∷ names) chs = elim (find_channel (to_lower name) chs) [
  | none ↦ find_channels names chs
  | some ch ↦ ch ∷ find_channels names chs
]

unfoldable pub send_nicks : ℕ → Text × List Text → M (Unit {0})
send_nicks fd (name, nicks) =
    let text = merge_tokens nicks false in
    if not (is_empty text) then server_send_reply fd name rpl_namreply text else done

unfoldable pub send_names : ℕ → List (Text × List Text) → M (Unit {0})
send_names fd nicks = do for_each (send_nicks fd) nicks; server_send_reply fd [] rpl_endofnames []

unfoldable pub all_names : ℕ → M (Unit {0})
all_names fd = do
  channels ← gets (λ s. s.channels)
  clients ← gets (λ s. s.clients)
  nicks ← clients_of_channels fd channels []
  send_names fd (insert_nicks (txt "*") (without_channels clients) nicks)

unfoldable pub names_of : ℕ → List Text → M (Unit {0})
names_of fd names = do
  channels ← gets (λ s. find_channels names s.channels)
  nicks ← clients_of_channels fd channels []
  send_names fd nicks

unfoldable pub process_names : ℕ → List Text → M (Unit {0})
process_names fd tokens = if length tokens == 1 then all_names fd else do
  names ← token tokens 1
  let channels = split names b',' true
  if ltb max_targets (length channels)
      then server_send_error fd (txt "NAMES") err_toomanytargets
      else names_of fd channels

unfoldable pub list_channels : ℕ → List Channel → M (Unit {0})
list_channels fd = for_each (λ ch.
    server_send_reply fd (ch.name ++ txt " " ++ decimal (length ch.member_fds)) rpl_list ch.topic)

unfoldable pub list_named : ℕ → List Text → M (Unit {0})
list_named fd names = do
  channels ← gets (λ s. find_channels names s.channels)
  list_channels fd channels
  server_send_reply fd [] rpl_listend []

unfoldable pub process_list : ℕ → List Text → M (Unit {0})
process_list fd tokens =
    if length tokens == 1
    then (do
      channels ← gets (λ s. s.channels)
      list_channels fd channels
      server_send_reply fd [] rpl_listend [])
    else do
      names ← token tokens 1
      let channels = split names b',' true
      if ltb max_targets (length channels)
          then server_send_error fd (txt "LIST") err_toomanytargets
          else list_named fd channels

-- `takeFullClientInfo`: the name of the channel, or a star, and the mark of its operators
unfoldable pub client_info : Text → Text → Client → Text × Text
client_info channel mark c = (
  channel
      ++ txt " ~"
      ++ c.username
      ++ txt " "
      ++ c.hostname
      ++ txt " "
      ++ server_name
      ++ txt " "
      ++ c.nickname
      ++ txt " "
      ++ (if active_mode away c then txt "G" else txt "H")
      ++ mark,
  txt "0 " ++ c.real_name,
)

unfoldable pub who_members : ℕ → Channel → List ℕ → M (List (Text × Text))
who_members fd ch [] = pure []
who_members fd ch (member ∷ members) = do
  c ← client_at member
  rest ← who_members fd ch members
  pure (
      if not (active_mode invisible c) || has_member fd ch
      then client_info ch.name (if has_operator c.socket_fd ch then txt "@" else []) c ∷ rest
      else rest)

unfoldable pub who_channel : ℕ → Option Channel → M (List (Text × Text))
who_channel fd none = pure []
who_channel fd (some ch) = who_members fd ch ch.member_fds

abbrev who_client : Option Client → List (Text × Text)
who_client none = []
who_client (some c) = client_info (txt "*") [] c ∷ []

unfoldable pub who_target : ℕ → Text → Bool → M (List (Text × Text))
who_target fd target true = do channel ← channel_named target; who_channel fd channel
who_target fd target false = do client ← client_named target; pure (who_client client)

unfoldable pub process_who : ℕ → List Text → M (Unit {0})
process_who fd tokens =
    if ltb (length tokens) 2 then server_send_error fd (txt "WHO") err_needmoreparams else do
      target ← token tokens 1
      is_channel ← is_channel_name target
      info ← who_target fd target is_channel
      for_each (λ (i : Text × Text). server_send_reply fd i.0 rpl_whoreply i.1) info
      server_send_reply fd target rpl_endofwho []

unfoldable pub process_whois : ℕ → List Text → M (Unit {0})
process_whois fd tokens = server_send_reply fd [] rpl_endofwhois []

unfoldable pub process_ping : ℕ → List Text → M (Unit {0})
process_ping fd tokens = if ltb (length tokens) 2 then server_send_error fd [] err_noorigin else do
  target ← token tokens 1
  if not (text_eq target server_name)
      then server_send_error fd [] err_nosuchserver
      else server_send_message fd (txt ":42.IRC PONG 42.IRC :42.IRC" ++ crlf)
