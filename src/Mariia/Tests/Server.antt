-- ===== src/Mariia/Tests/Server.antt =====
-- The theorems on the server, at a server with two clients on a channel.
use ft_irc.Prelude.{
  ◌≡◌, true, not, false, ◌||◌, inr, refl, some, List, [], ◌∷◌, ◌++◌, drop, length, if◌then◌else◌,
  ◌==◌, arith,
}
use ft_irc.Text.{Text, txt, text_eq}
use ft_irc.Ann.State.{PollFd, pollin}
use ft_irc.Mariia.State.{Client, Server, find_client}
use ft_irc.Mariia.Exec.{returned, crashed, undefined}
use ft_irc.Mariia.Replies.{crlf, notification}
use ft_irc.Mariia.Parse.{handle_pass, process_cmd, registration_process, pars_buffer}
use ft_irc.Mariia.Loop.{Event, handle, receives, bytes, sent, remove_client, send_data}
use ft_irc.Mariia.Commands.Talk.{pm_to_chan}
use ft_irc.Mariia.Commands.Mode.{process_channel_mode}
use ft_irc.Mariia.Commands.Leave.{process_kick}
use ft_irc.Mariia.Commands.Topic.{process_topic}
use ft_irc.Mariia.Safe.{Safe}
use ft_irc.Mariia.Words.{decimal, get_words, merge_tokens}
use ft_irc.Mariia.Modes.{handle_mode_l}
use ft_irc.Mariia.Channel.{is_mode_set, limit_set}
use ft_irc.Mariia.Limit.{handle_mode_l-decimal}
use ft_irc.Mariia.Tokens.{get_words-merge_tokens}
use ft_irc.Mariia.Password.{handle_pass-logged}
use ft_irc.Mariia.Wf.{
  Serves, StillWf, process_cmd-IsWf, registration_process-IsWf, pars_buffer-IsWf,
}
use ft_irc.Mariia.Remove.{IsGone, remove_client-IsWf}
use ft_irc.Mariia.Send.{send_data-IsWf}
use ft_irc.Mariia.Run.{IsExpected, every_step-IsWf}
use ft_irc.Mariia.Crash.{pars_buffer-lone_cap, send_data-last_entry}
use ft_irc.Mariia.Stream.{pars_buffer-unfinished, send_data-partial}
use ft_irc.Mariia.Delivery.{copies, count, pm_to_chan-delivered}
use ft_irc.Mariia.Access.{Untouched, mode_refused, kick_refused, topic_refused}
use ft_irc.Mariia.Tests.Sample.{
  run_event, connected, sample, sample-Reach, sample-IsWf, state_of, client_of, channel, line,
}

every_step-IsWf_example :
    Serves 3 sample × ((e : Event) → IsExpected e sample → Safe (Serves 3) (handle e sample))
every_step-IsWf_example = every_step-IsWf (txt "now") 0 (txt "pw") 3 sample sample-Reach

process_cmd-IsWf_example :
    Safe (StillWf sample) (process_cmd 5 (txt "MODE" ∷ txt "#c" ∷ txt "+ok" ∷ txt "al" ∷ []) sample)
unfolding run_event
process_cmd-IsWf_example =
    process_cmd-IsWf 5 sample sample-IsWf refl (txt "MODE" ∷ txt "#c" ∷ txt "+ok" ∷ txt "al" ∷ [])

registration_process-IsWf_example :
    Safe (StillWf sample) (registration_process 5 (txt "CAP" ∷ txt "LS" ∷ []) sample)
unfolding run_event
registration_process-IsWf_example =
    registration_process-IsWf 5 sample sample-IsWf refl (txt "CAP" ∷ txt "LS" ∷ []) refl

pars_buffer-IsWf_example :
    Safe (StillWf sample) (pars_buffer 5 (line "PART #c" ++ txt "NICK x") sample)
unfolding run_event
pars_buffer-IsWf_example =
    pars_buffer-IsWf 5 sample sample-IsWf refl (line "PART #c" ++ txt "NICK x") (refl, (refl, tt))

remove_client-IsWf_example : Safe (IsGone 5) (remove_client 5 sample)
unfolding run_event
remove_client-IsWf_example = remove_client-IsWf 5 sample sample-IsWf refl

abbrev last_entry : PollFd
last_entry = record { fd = 5; events = pollin }

send_data-IsWf_example : Safe (Serves sample.socket_fd) (send_data 2 (sent 3) sample)
unfolding run_event
send_data-IsWf_example =
    send_data-IsWf 1 (sent 3) last_entry (client_of 5 sample) sample sample-IsWf refl refl refl
      (refl, (refl, (refl, (refl, (refl, (refl, (refl, (refl, tt)))))))) (inr refl)

pars_buffer-lone_cap_example : pars_buffer 4 (txt "CAP" ++ crlf) connected ≡ crashed
unfolding run_event
pars_buffer-lone_cap_example =
    pars_buffer-lone_cap 4 (client_of 4 connected) connected refl refl refl

pars_buffer-unfinished_example :
    pars_buffer 5 (txt "PING" ++ 10 ∷ txt "QU") sample
    ≡ pars_buffer 5 (txt "PING" ++ 10 ∷ (txt "QU" ++ 10 ∷ [])) sample
unfolding run_event
pars_buffer-unfinished_example = pars_buffer-unfinished 5 (txt "PING") (txt "QU") sample refl refl

mode_refused_example :
    Safe
      (Untouched sample.channels)
      (process_channel_mode 5 (txt "MODE" ∷ txt "#C" ∷ txt "+o" ∷ txt "bo" ∷ []) sample)
unfolding run_event
mode_refused_example =
    mode_refused 5 (txt "MODE") (txt "#C") channel sample refl refl (txt "+o") (txt "bo" ∷ [])

kick_refused_example :
    Safe (Untouched sample.channels) (process_kick 5 (txt "KICK" ∷ txt "#c" ∷ txt "al" ∷ []) sample)
unfolding run_event
kick_refused_example = kick_refused 5 (txt "KICK") (txt "#c") channel sample refl refl (txt "al") []

topic_refused_example :
    Safe
      (Untouched sample.channels)
      (process_topic 5 (txt "TOPIC" ∷ txt "#c" ∷ txt ":hi" ∷ []) sample)
unfolding run_event
topic_refused_example =
    topic_refused 5 (txt "TOPIC") (txt "#c") channel sample refl refl (txt ":hi") [] refl

-- the first client has sent a wrong password
abbrev denied : Server
denied = state_of (handle (receives 1 (bytes (line "PASS x"))) connected) connected

abbrev head_of : List Text → Text
head_of [] = []
head_of (m ∷ ms) = m

abbrev tail_of : List Text → List Text
tail_of [] = []
tail_of (m ∷ ms) = ms

abbrev error_line : Text
error_line = head_of (client_of 4 denied).send_queue

send_data-last_entry_example : send_data 1 (sent (length error_line)) denied ≡ undefined
unfolding run_event
send_data-last_entry_example =
    send_data-last_entry 1 (record { fd = 4; events = pollin }) (client_of 4 denied) error_line []
      denied refl refl refl refl refl refl

send_data-partial_example :
    (t : Server) × (send_data 2 (sent 3) sample ≡ returned tt t)
    × (find_client 5 t.clients
        ≡ some (record (client_of 5 sample) {
          send_queue =
              tail_of (client_of 5 sample).send_queue
              ++ drop 3 (head_of (client_of 5 sample).send_queue) ∷ [];
        }))
unfolding run_event
send_data-partial_example =
    send_data-partial 2 3 last_entry (client_of 5 sample) (head_of (client_of 5 sample).send_queue)
      (tail_of (client_of 5 sample).send_queue) sample refl refl refl refl refl

pm_to_chan-delivered_example :
    (t : Server) × (pm_to_chan 4
        (txt "hi")
        (txt "al@h")
        (txt "#c")
        (txt "PRIVMSG")
        (some channel)
        sample
      ≡ returned tt t)
    × (find_client 5 t.clients
        ≡ some (record (client_of 5 sample) {
          send_queue =
              (client_of 5 sample).send_queue
              ++ copies (if 4 == 5 then 0 else count 5 channel.member_fds) (
                  notification (txt "al@h") (txt "PRIVMSG") (channel.name ++ txt " :" ++ txt "hi"));
        }))
unfolding run_event
pm_to_chan-delivered_example =
    pm_to_chan-delivered 4 5 (txt "hi") (txt "al@h") (txt "#c") (txt "PRIVMSG") channel sample
      (client_of 5 sample) refl refl

handle_pass-logged_example :
    (t : Server) × (handle_pass 4 (txt "x" ∷ []) connected
      ≡ returned (not (text_eq (txt "x") connected.password)) t)
    × (d : Client) × (find_client 4 t.clients ≡ some d)
    × (d.logged ≡ (text_eq (txt "x") connected.password || (client_of 4 connected).logged))
unfolding run_event
handle_pass-logged_example =
    handle_pass-logged 4 (txt "x") [] (client_of 4 connected) connected refl refl

get_words-merge_tokens_example :
    get_words (merge_tokens (txt "a" ∷ txt ":b" ∷ []) false) ≡ txt "a" ∷ txt ":b" ∷ []
unfolding run_event
get_words-merge_tokens_example = get_words-merge_tokens (txt "a" ∷ txt ":b" ∷ []) (
  record { some_bytes = refl; no_blank = (refl, tt) },
  (record { some_bytes = refl; no_blank = (refl, (refl, tt)) }, tt),
)

handle_mode_l-decimal_example :
    ((handle_mode_l true (decimal 25) channel).0 ≡ true)
    × ((handle_mode_l true (decimal 25) channel).1.limit_members ≡ 25)
    × (is_mode_set limit_set (handle_mode_l true (decimal 25) channel).1 ≡ true)
    × ((handle_mode_l true (decimal 25) channel).1.member_fds ≡ channel.member_fds)
unfolding run_event
handle_mode_l-decimal_example = handle_mode_l-decimal 25 channel refl refl (omega arith)
