-- ===== src/Mariia/Tests/Sample.antt =====
-- A server with two clients on a channel, from the events that lead to it.
use ft_irc.Prelude.{ℕ, ◌≡◌, refl, Option, none, some, List, [], ◌∷◌, ◌++◌, map, String}
use ft_irc.Text.{Text, txt, text_eq, text_lt, lower, to_lower, has_byte}
use ft_irc.Ann.State.{contains, set_insert, set_erase, names_insert, PollFd, pollin}
use ft_irc.Ann.Loop.{erase_poll, mark_poll}
use ft_irc.Mariia.Channel.{
  has_bits, clear_bits, is_mode_set, set_mode, unset_mode, new_channel, mode_letter,
  get_mode_string, add_member, has_member, add_operator, remove_operator, has_operator, add_invited,
  remove_invited, has_invited, remove_member, auth_member,
}
use ft_irc.Mariia.Modes.{
  has_forbidden, is_valid_name, read_digits, starts_with_digit, read_int, handle_mode_i,
  handle_mode_t, handle_mode_k, limit_to, handle_mode_l, handle_mode_o,
}
use ft_irc.Mariia.Join.{join_existing_channel, created_channel}
use ft_irc.Mariia.State.{
  new_client, set_nickname, active_mode, add_mode, remove_mode, return_modes, get_mode,
  push_send_queue, joined_channel, erase_name, left_channel, find_client, update_client,
  insert_client, erase_client, find_nick, find_channel, put_channel, erase_channel, has_user,
  insert_user, erase_user,
}
use ft_irc.Mariia.Exec.{
  pure, throw, crash, gets, modify, deref, ◌>>=◌, ◌>>◌, catching, for_each, token, first_byte,
  client_at, set_client,
}
use ft_irc.Mariia.Words.{
  get_lines, starts_word, get_words, set_of, split, spaced, without_colon, merge_tokens, is_num,
  is_bit_mask, get_bit_mode, decimal_loop, decimal, padd_digits,
}
use ft_irc.Mariia.Replies.{
  code, server_message, get_nick, get_nick_and_hostname, server_send_message, server_send_error,
  server_send_reply, send_notification, send_notification_to, channel_named, client_named,
  set_channel,
}
use ft_irc.Mariia.Commands.Common.{is_channel_name, trailing}
use ft_irc.Mariia.Commands.Talk.{
  if_privmsg, pm_to_user, send_pm_to_user, pm_to_chan, send_pm_to_chan, send_pm, send_pms,
  process_privmsg,
}
use ft_irc.Mariia.Commands.Join.{
  all_nicks, send_join_replies, add_channel_of, answer_join, join_existing, is_valid_channel_name,
  create_and_join, join_found, join_loop, passwords_of, process_join,
}
use ft_irc.Mariia.Commands.Leave.{
  remove_if_empty, remove_client_from_channel, part_found, part_one, part_reason, process_part,
  kick_reason, kick_found, kick_from, process_kick, sharing_fds, quit_reason, process_quit,
}
use ft_irc.Mariia.Commands.Mode.{
  mode_with_parameters, mode_parameter_needed, known_mode, send_mode_error, apply_to, apply_mode_o,
  apply_mode, note_mode, mode_letter_on, mode_letter_step, mode_step, mode_loop, tell_modes,
  change_modes, channel_mode, process_channel_mode, user_mode_loop, process_user_mode, process_mode,
}
use ft_irc.Mariia.Commands.Info.{
  visible_nicks, insert_nicks, channel_nicks, clients_of_channels, without_channels, find_channels,
  send_nicks, send_names, all_names, names_of, process_names, list_channels, list_named,
  process_list, client_info, who_members, who_channel, who_target, process_who, process_whois,
  process_ping,
}
use ft_irc.Mariia.Commands.Topic.{
  show_topic, set_topic, topic_found, process_topic, send_invite, invite_to, invite_found,
  process_invite,
}
use ft_irc.Mariia.Commands.User.{
  has_any, is_bad_nickname, verify_nickname, nick_taken, rename, process_nick, away_text,
  process_away,
}
use ft_irc.Mariia.Parse.{
  run_command, process_cmd, verify_password, handle_pass, handle_nick, set_mask, set_user,
  handle_user, handle_command, welcome, known_user, new_user, check_registration, answer_cap,
  registration_process, until_cr, run_line, run_lines, run_text, pars_of, pars_buffer,
}
use ft_irc.Mariia.Loop.{
  add_client, without_member, remove_client, mark_queues, mark_polls, accept_connection,
  lose_client, until_nul, receive_data, entry, poll_at, set_events_at, set_events, reset_events,
  after_send, send_first, close_if_quit, send_to, send_data, receive_at, handle,
}
use ft_irc.Mariia.Run.{new_server}
use ft_irc.Mariia.State.{Client, Server}
use ft_irc.Mariia.Channel.{Channel}
use ft_irc.Mariia.Exec.{Outcome, returned, thrown, crashed, undefined}
use ft_irc.Mariia.Loop.{Event, accepts, receives, bytes}
use ft_irc.Mariia.Wf.{IsWf}
use ft_irc.Mariia.Run.{Reach, here, next, handles, every_step-IsWf}

-- the step of an event, with all that it computes
unfoldable pub run_event : Event → Server → Outcome (Unit {0})
unfolding has_bits clear_bits is_mode_set set_mode unset_mode new_channel mode_letter
    get_mode_string add_member has_member add_operator remove_operator has_operator add_invited
    remove_invited has_invited remove_member auth_member has_forbidden is_valid_name read_digits
    starts_with_digit read_int handle_mode_i handle_mode_t handle_mode_k limit_to handle_mode_l
    handle_mode_o join_existing_channel created_channel new_client set_nickname active_mode add_mode
    remove_mode return_modes get_mode push_send_queue joined_channel erase_name left_channel
    find_client update_client insert_client erase_client find_nick find_channel put_channel
    erase_channel has_user insert_user erase_user pure throw crash gets modify deref ◌>>=◌ ◌>>◌
    catching for_each token first_byte client_at set_client get_lines starts_word get_words set_of
    split spaced without_colon merge_tokens is_num is_bit_mask get_bit_mode decimal_loop decimal
    padd_digits code server_message get_nick get_nick_and_hostname server_send_message
    server_send_error server_send_reply send_notification send_notification_to channel_named
    client_named set_channel is_channel_name trailing if_privmsg pm_to_user send_pm_to_user
    pm_to_chan send_pm_to_chan send_pm send_pms process_privmsg all_nicks send_join_replies
    add_channel_of answer_join join_existing is_valid_channel_name create_and_join join_found
    join_loop passwords_of process_join remove_if_empty remove_client_from_channel part_found
    part_one part_reason process_part kick_reason kick_found kick_from process_kick sharing_fds
    quit_reason process_quit mode_with_parameters mode_parameter_needed known_mode send_mode_error
    apply_to apply_mode_o apply_mode note_mode mode_letter_on mode_letter_step mode_step mode_loop
    tell_modes change_modes channel_mode process_channel_mode user_mode_loop process_user_mode
    process_mode visible_nicks insert_nicks channel_nicks clients_of_channels without_channels
    find_channels send_nicks send_names all_names names_of process_names list_channels list_named
    process_list client_info who_members who_channel who_target process_who process_whois
    process_ping show_topic set_topic topic_found process_topic send_invite invite_to invite_found
    process_invite has_any is_bad_nickname verify_nickname nick_taken rename process_nick away_text
    process_away run_command process_cmd verify_password handle_pass handle_nick set_mask set_user
    handle_user handle_command welcome known_user new_user check_registration answer_cap
    registration_process until_cr run_line run_lines run_text pars_of pars_buffer add_client
    without_member remove_client mark_queues mark_polls accept_connection lose_client until_nul
    receive_data entry poll_at set_events_at set_events reset_events after_send send_first
    close_if_quit send_to send_data receive_at handle new_server txt text_eq text_lt lower to_lower
    has_byte contains set_insert set_erase names_insert erase_poll mark_poll
run_event e s = handle e s

abbrev pub line : String → Text
line s = txt s ++ 13 ∷ 10 ∷ []

-- the state after a step
abbrev pub state_of : Outcome (Unit {0}) → Server → Server
state_of (returned a s) d = s
state_of (thrown s) d = s
state_of crashed d = d
state_of undefined d = d

abbrev pub fresh : Server
fresh = new_server (txt "now") 0 (txt "pw") 3

abbrev connect_al : Event
connect_al = accepts 4 (txt "h")

-- the first client registers, opens a channel and locks its topic
abbrev al_speaks : Event
al_speaks = receives 1 (
    bytes (
      line "PASS pw"
      ++ line "NICK al"
      ++ line "USER al 0 :Al"
      ++ line "JOIN #c"
      ++ line "MODE #c +t"))

abbrev connect_bo : Event
connect_bo = accepts 5 (txt "h")

-- the second registers and joins the channel
abbrev bo_speaks : Event
bo_speaks =
    receives 2 (bytes (line "PASS pw" ++ line "NICK bo" ++ line "USER bo 0 :Bo" ++ line "JOIN #c"))

abbrev pub connected : Server
connected = state_of (handle connect_al fresh) fresh

abbrev pub opened : Server
opened = state_of (handle al_speaks connected) connected

abbrev both : Server
both = state_of (handle connect_bo opened) opened

-- al, an operator, and bo are on #c
abbrev pub sample : Server
sample = state_of (handle bo_speaks both) both

members_test : map (λ (ch : Channel). ch.member_fds) sample.channels ≡ (4 ∷ 5 ∷ []) ∷ []
unfolding run_event
members_test = refl

abbrev first_entry : PollFd
first_entry = record { fd = 4; events = pollin }

abbrev second_entry : PollFd
second_entry = record { fd = 5; events = pollin }

pub sample-Reach : Reach fresh sample
unfolding run_event
sample-Reach =
    next
      (next
        (next (next here (handles connect_al refl refl)) (
          handles al_speaks
            (record {
              entry = first_entry;
              there = refl;
              bytes = (refl, (refl, (refl, (refl, (refl, tt)))));
            })
            refl))
        (handles connect_bo refl refl))
      (handles bo_speaks
        (record { entry = second_entry; there = refl; bytes = (refl, (refl, (refl, (refl, tt)))) })
        refl)

pub sample-IsWf : IsWf sample
sample-IsWf = (every_step-IsWf (txt "now") 0 (txt "pw") 3 sample sample-Reach).0.wf

abbrev client_or_new : Option Client → Client
client_or_new none = new_client 0 []
client_or_new (some c) = c

abbrev pub client_of : ℕ → Server → Client
client_of fd s = client_or_new (find_client fd s.clients)

abbrev channel_or_new : List Channel → Channel
channel_or_new [] = new_channel 0 [] []
channel_or_new (ch ∷ chs) = ch

abbrev pub channel : Channel
channel = channel_or_new sample.channels
