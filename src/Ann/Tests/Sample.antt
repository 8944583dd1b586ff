-- ===== src/Ann/Tests/Sample.antt =====
-- A sample server, and the whole program on an input.
use ft_irc.Prelude.{refl, Option, none, some, List, [], ◌∷◌, ◌++◌, String}
use ft_irc.Text.{Text}
use ft_irc.Ann.State.{Cli, Ch, Server}
use ft_irc.Ann.Exec.{M}
use ft_irc.Ann.Loop.{Event, accepts, receives, bytes}
use ft_irc.Ann.Run.{new_server, new_server-IsWf, Reach, here, next, handles, Reach-IsWf}
use ft_irc.Ann.Wf.{IsWf}
use ft_irc.Text.{txt, text_eq, text_lt, lower, to_lower, has_byte, only_bytes}
use ft_irc.Ann.State.{
  new_cli, new_ch, contains, set_insert, set_erase, names_contain, names_insert, names_erase,
  find_cli, update_cli, find_ch, update_ch, insert_ch, erase_ch,
}
use ft_irc.Ann.Exec.{pure, fault, gets, modify, deref, ◌>>=◌, ◌>>◌}
use ft_irc.Ann.Parse.{
  break_at, break_crlf, split_loop, split_arg_to_subargs, before_colon, after_colon,
  split_cmd_to_args, crlf_loop, ends_bare_lf, crlf_last, from_nc, split_buf,
}
use ft_irc.Ann.Number.{atoi, is_negative}
use ft_irc.Ann.Replies.{
  for_each, cli_at, author, set_cli, arg, prepare_resp, reply, find_name, get_ch, find_nick,
  get_cli, subscript, ch_at, set_key, set_ch, search_nick, get_cli_on_ch, get_adm_on_ch,
  nb_channels, resp_to_all, resp_except_author, user_list, users,
}
use ft_irc.Ann.Commands.Common.{not_registered, prefix, first_is, arg_is_empty}
use ft_irc.Ann.Commands.Register.{
  welcome, welcome_if_complete, wrong_pass, accept_pass, check_pass, exec_pass, nick_bytes,
  nick_in_use, take_nick, exec_nick, exec_user, exec_cap, exec_ping, whois_one, exec_whois,
}
use ft_irc.Ann.Commands.Talk.{
  names_set, bad_targets, privmsg, privmsg_to_ch, privmsg_to_cli, privmsg_to, exec_privmsg, notice,
  notice_to, exec_notice,
}
use ft_irc.Ann.Commands.Leave.{
  leave_ch, erase_cli_from_ch, part_msg, part_one, exec_part, kick_msg, kick_target, kick_one,
  exec_kick, quit_msg, exec_quit,
}
use ft_irc.Ann.Commands.Join.{
  bad_ch_name, own_channels, leave_all, open_if, open_ch, announce, enter_as, enter_ch, admit,
  join_one, join_loop, join_named, join_arg, join_as, exec_join,
}
use ft_irc.Ann.Commands.Channel.{
  invited, invite, exec_invite, show_topic, set_topic, topic_on, exec_topic,
}
use ft_irc.Ann.Commands.Mode.{
  mode_letters, mode, known_opts, takes_value, set_option, bad_limit, drop_operator, apply_option,
  not_there, change_if, change_option, exec_mode_one_option, mode_step, mode_value, mode_loop,
  mode_on, exec_mode_ch, exec_mode_cli,
}
use ft_irc.Ann.Commands.Dispatch.{exec_mode, exec_channel_verb, exec_verb, exec_cmd}
use ft_irc.Ann.Loop.{
  find_fd, erase_fd, insert_cli, erase_poll, mark_poll, mark_polls_all, empty_chs, erase_unused_ch,
  erase_unused_chs, forget_fd, delete_cli, erase_unused_cli, erase_unused_clis, mark_for,
  mark_polls, add_new_client, exec_text, exec_buf, received, receive, unsent, all_sent,
  send_prepared_resps, handle, sweep,
}

-- a list of events, with every definition of the model open
unfoldable pub run_events : List Event → M (Unit {0})
unfolding txt text_eq text_lt lower to_lower has_byte only_bytes new_cli new_ch contains set_insert
    set_erase names_contain names_insert names_erase find_cli update_cli find_ch update_ch insert_ch
    erase_ch pure fault gets modify deref ◌>>=◌ ◌>>◌ break_at break_crlf split_loop
    split_arg_to_subargs before_colon after_colon split_cmd_to_args crlf_loop ends_bare_lf crlf_last
    from_nc split_buf atoi is_negative for_each cli_at author set_cli arg prepare_resp reply
    find_name get_ch find_nick get_cli subscript ch_at set_key set_ch search_nick get_cli_on_ch
    get_adm_on_ch nb_channels resp_to_all resp_except_author user_list users not_registered prefix
    first_is arg_is_empty welcome welcome_if_complete wrong_pass accept_pass check_pass exec_pass
    nick_bytes nick_in_use take_nick exec_nick exec_user exec_cap exec_ping whois_one exec_whois
    names_set bad_targets privmsg privmsg_to_ch privmsg_to_cli privmsg_to exec_privmsg notice
    notice_to exec_notice leave_ch erase_cli_from_ch part_msg part_one exec_part kick_msg
    kick_target kick_one exec_kick quit_msg exec_quit bad_ch_name own_channels leave_all open_if
    open_ch announce enter_as enter_ch admit join_one join_loop join_named join_arg join_as
    exec_join invited invite exec_invite show_topic set_topic topic_on exec_topic mode_letters mode
    known_opts takes_value set_option bad_limit drop_operator apply_option not_there change_if
    change_option exec_mode_one_option mode_step mode_value mode_loop mode_on exec_mode_ch
    exec_mode_cli exec_mode exec_channel_verb exec_verb exec_cmd find_fd erase_fd insert_cli
    erase_poll mark_poll mark_polls_all empty_chs erase_unused_ch erase_unused_chs forget_fd
    delete_cli erase_unused_cli erase_unused_clis mark_for mark_polls add_new_client exec_text
    exec_buf received receive unsent all_sent send_prepared_resps handle sweep new_server
run_events es = for_each handle es

abbrev pub line : String → Text
line s = txt s ++ 13 ∷ 10 ∷ []

-- the state after a list of events
abbrev pub state_of : Option (Unit {0} × Server) → Server → Server
state_of none d = d
state_of (some (a, s)) d = s

abbrev pub connect_al : Event
connect_al = accepts 100 4 (txt "h")

-- the first client registers, opens a channel and locks its topic
abbrev pub al_speaks : Event
al_speaks = receives 4 (
    bytes (
      line "PASS pw"
      ++ line "NICK al"
      ++ line "USER al 0 * :Al"
      ++ line "JOIN #c"
      ++ line "MODE #c +t"))

abbrev pub connect_bo : Event
connect_bo = accepts 90 5 (txt "h")

-- the second registers
abbrev pub bo_speaks : Event
bo_speaks = receives 5 (bytes (line "PASS pw" ++ line "NICK bo" ++ line "USER bo 0 * :Bo"))

abbrev pub fresh : Server
fresh = new_server (txt "pw") 3

abbrev pub connected : Server
connected = state_of (handle connect_al fresh) fresh

abbrev pub joined : Server
joined = state_of (handle al_speaks connected) connected

abbrev pub both : Server
both = state_of (handle connect_bo joined) joined

-- al is on #c, bo is not; the last command was bo's
abbrev pub sample : Server
sample = state_of (handle bo_speaks both) both

abbrev cli_or_new : Option Cli → Cli
cli_or_new none = new_cli 0 0 []
cli_or_new (some c) = c

abbrev ch_or_new : Option Ch → Ch
ch_or_new none = new_ch 0
ch_or_new (some ch) = ch

abbrev pub al : Cli
al = cli_or_new (find_cli 100 sample.clis)

abbrev pub bo : Cli
bo = cli_or_new (find_cli 90 sample.clis)

abbrev pub channel : Ch
channel = ch_or_new (find_ch (txt "#c") sample.chs)

-- the first client before it has said anything
abbrev pub new_al : Cli
new_al = cli_or_new (find_cli 100 connected.clis)

-- al is the author of the next command
abbrev pub al_next : Server
al_next = record sample { cli = 100 }

-- a client that has just connected is the author
abbrev pub newcomer : Server
newcomer = record connected { cli = 100 }

pub sample-Reach : Reach fresh sample
unfolding run_events
sample-Reach =
    next
      (next (next (next here (handles connect_al (refl, refl) refl)) (handles al_speaks tt refl))
        (handles connect_bo (refl, refl) refl))
      (handles bo_speaks tt refl)

pub sample-IsWf : IsWf sample
sample-IsWf = Reach-IsWf (new_server-IsWf (txt "pw") 3) sample-Reach
