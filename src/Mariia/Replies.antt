-- ===== src/Mariia/Replies.antt =====
-- The replies of project/mariia: `serverRep` of headers/Server.hpp, `initServerMessages` and
-- `getNick` of sources/Server.cpp, and `serverSend...` of sources/parsingServer.cpp. A message waits
-- in the queue of its client; one to a descriptor without a client is dropped.
use ft_irc.Prelude.{ℕ, Option, none, some, List, [], ◌∷◌, ◌++◌, ◌==◌, if◌then◌else◌}
use ft_irc.Text.{Text, txt, to_lower}
use ft_irc.Mariia.Channel.{Channel}
use ft_irc.Mariia.State.{
  Client, Server, find_client, find_nick, find_channel, put_channel, push_send_queue,
}
use ft_irc.Mariia.Exec.{M, pure, gets, modify, for_each, client_at, set_client, ◌>>=◌}
use ft_irc.Mariia.Words.{padd_digits}

pub data Reply : Type 0 where
  capls rpl_welcome rpl_yourhost rpl_created rpl_myinfo error_reply rpl_umodeis rpl_away rpl_unaway
        rpl_nowaway rpl_endofwhois rpl_endofwho rpl_list rpl_listend rpl_channelmodeis rpl_notopic
        rpl_topic rpl_inviting rpl_whoreply rpl_namreply rpl_endofnames rpl_endofbanlist
        err_nosuchnick err_nosuchserver err_nosuchchannel err_cannotsendtochan err_toomanychannels
        err_toomanytargets err_noorigin err_norecipient err_notexttosend err_unknowncommand
        err_nonicknamegiven err_erroneusnickname err_nicknameinuse err_usernotinchannel
        err_notonchannel err_useronchannel err_needmoreparams err_alreadyregistered
        err_passwdmismatch err_channelisfull err_unknownmode err_inviteonlychan err_badchannelkey
        err_chanoprivsneeded err_umodeunknownflag err_usersdontmatch :
      Reply

unfoldable pub code : Reply → ℕ
code capls = 0
code rpl_welcome = 1
code rpl_yourhost = 2
code rpl_created = 3
code rpl_myinfo = 4
code error_reply = 6
code rpl_umodeis = 221
code rpl_away = 301
code rpl_unaway = 305
code rpl_nowaway = 306
code rpl_endofwhois = 318
code rpl_endofwho = 315
code rpl_list = 322
code rpl_listend = 323
code rpl_channelmodeis = 324
code rpl_notopic = 331
code rpl_topic = 332
code rpl_inviting = 341
code rpl_whoreply = 352
code rpl_namreply = 353
code rpl_endofnames = 366
code rpl_endofbanlist = 368
code err_nosuchnick = 401
code err_nosuchserver = 402
code err_nosuchchannel = 403
code err_cannotsendtochan = 404
code err_toomanychannels = 405
code err_toomanytargets = 407
code err_noorigin = 409
code err_norecipient = 411
code err_notexttosend = 412
code err_unknowncommand = 421
code err_nonicknamegiven = 431
code err_erroneusnickname = 432
code err_nicknameinuse = 433
code err_usernotinchannel = 441
code err_notonchannel = 442
code err_useronchannel = 443
code err_needmoreparams = 461
code err_alreadyregistered = 462
code err_passwdmismatch = 464
code err_channelisfull = 471
code err_unknownmode = 472
code err_inviteonlychan = 473
code err_badchannelkey = 475
code err_chanoprivsneeded = 482
code err_umodeunknownflag = 501
code err_usersdontmatch = 502

abbrev pub server_name : Text
server_name = txt "42.IRC"

-- `_serverMessages[id]`: empty for an id that `initServerMessages` leaves out
unfoldable pub server_message : Text → Reply → Text
server_message start rpl_welcome = txt " Welcome to the IRC Network"
server_message start rpl_yourhost = txt " :Your host is 42.IRC version 1.0"
server_message start rpl_created = txt " :This server was created " ++ start
server_message start rpl_myinfo = txt " 42.IRC 1.0 available user/channel modes: +is/+itkl"
server_message start rpl_listend = txt " :End of /LIST"
server_message start rpl_notopic = txt " :No topic is set"
server_message start rpl_endofnames = txt " :End of /NAMES list"
server_message start rpl_unaway = txt " :You are no longer marked as being away"
server_message start rpl_nowaway = txt " :You have been marked as being away"
server_message start rpl_endofwho = txt " :End of WHO list"
server_message start rpl_endofwhois = txt " :End of WHOIS list"
server_message start err_nosuchnick = txt " :No such nick/channel"
server_message start err_nosuchserver = txt " :No such server"
server_message start err_nosuchchannel = txt " :No such channel"
server_message start err_cannotsendtochan = txt " :Cannot send to channel"
server_message start err_toomanychannels = txt " :You have joined too many channels"
server_message start err_toomanytargets = txt " :Too many targets"
server_message start err_noorigin = txt " :No origin specified"
server_message start err_norecipient = txt " :No recipient given"
server_message start err_notexttosend = txt " :No text to send"
server_message start err_unknowncommand = txt " :Unknown command"
server_message start err_erroneusnickname = txt " :Erroneus nickname"
server_message start err_nicknameinuse = txt " :Nickname is already in use"
server_message start err_usernotinchannel = txt " :They aren't on that channel"
server_message start err_notonchannel = txt " :You're not on that channel"
server_message start err_useronchannel = txt " :is already on channel"
server_message start err_needmoreparams = txt " :Not enough parameters"
server_message start err_alreadyregistered = txt " :You may not reregister"
server_message start err_passwdmismatch = txt " :Password incorrect"
server_message start err_channelisfull = txt " :Cannot join channel (+l)"
server_message start err_unknownmode = txt " :is unknown mode char to me"
server_message start err_inviteonlychan = txt " :Cannot join channel (+i)"
server_message start err_badchannelkey = txt " :Cannot join channel (+k)"
server_message start err_chanoprivsneeded = txt " :You're not channel operator"
server_message start err_umodeunknownflag = txt " :Unknown MODE flag"
server_message start err_usersdontmatch = txt " :Cant change mode for other users"
server_message start err_nonicknamegiven = txt " :No nickname given"
server_message start rpl_endofbanlist = txt " :End of channel ban list"
server_message start id = []

abbrev pub crlf : Text
crlf = 13 ∷ 10 ∷ []

abbrev nick_or_empty : Option Client → Text
nick_or_empty none = []
nick_or_empty (some c) = c.nickname

unfoldable pub get_nick : ℕ → Server → Text
get_nick fd s = nick_or_empty (find_client fd s.clients)

unfoldable pub get_nick_and_hostname : ℕ → M Text
get_nick_and_hostname fd = do c ← client_at fd; pure (c.nickname ++ txt "@" ++ c.hostname)

unfoldable pub server_send_message : ℕ → Text → M (Unit {0})
server_send_message fd message = set_client fd (push_send_queue message)

abbrev pub if_present : Text → Text → Text
if_present sep [] = []
if_present sep (c ∷ s) = sep ++ c ∷ s

unfoldable pub server_send_error : ℕ → Text → Reply → M (Unit {0})
server_send_error fd tok id =
    if code id == 6
    then server_send_message fd (txt "ERROR :Closing connection :" ++ tok ++ crlf)
    else do
      nick ← gets (get_nick fd)
      start ← gets (λ s. s.start)
      server_send_message fd (
          txt ":"
          ++ server_name
          ++ txt " "
          ++ padd_digits (code id)
          ++ txt " "
          ++ nick
          ++ if_present (txt " ") tok
          ++ server_message start id
          ++ crlf)

unfoldable pub server_send_reply : ℕ → Text → Reply → Text → M (Unit {0})
server_send_reply fd tok id reply =
    if code id == 0 then server_send_message fd (txt "CAP * LS :" ++ crlf) else do
      nick ← gets (get_nick fd)
      start ← gets (λ s. s.start)
      server_send_message fd (
          txt ":"
          ++ server_name
          ++ txt " "
          ++ padd_digits (code id)
          ++ txt " "
          ++ nick
          ++ if_present (txt " ") tok
          ++ server_message start id
          ++ if_present (txt " :") reply
          ++ crlf)

abbrev pub notification : Text → Text → Text → Text
notification prefix command parameters =
    txt ":" ++ prefix ++ txt " " ++ command ++ txt " " ++ parameters ++ crlf

-- to one client, and to a set of them
unfoldable pub send_notification : ℕ → Text → Text → Text → M (Unit {0})
send_notification fd prefix command parameters =
    server_send_message fd (notification prefix command parameters)

unfoldable pub send_notification_to : List ℕ → Text → Text → Text → M (Unit {0})
send_notification_to fds prefix command parameters =
    for_each (λ fd. server_send_message fd (notification prefix command parameters)) fds

-- `findChannel`, `findClient`
unfoldable pub channel_named : Text → M (Option Channel)
channel_named name = gets (λ s. find_channel (to_lower name) s.channels)

unfoldable pub client_named : Text → M (Option Client)
client_named nick = gets (λ s. find_nick (to_lower nick) s.clients)

unfoldable pub set_channel : Channel → M (Unit {0})
set_channel ch = modify (λ s. record s { channels = put_channel ch s.channels })
