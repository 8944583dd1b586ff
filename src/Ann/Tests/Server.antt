-- ===== src/Ann/Tests/Server.antt =====
-- The theorems on the whole server and on its commands, at the sample server.
use ft_irc.Prelude.{
  ℕ, ◌≡◌, refl, false, none, some, [], ◌∷◌, ◌++◌, length, take, ◌==◌, if◌then◌else◌, ◌+◌, ◌≤◌, map,
  ◌&&◌,
}
use ft_irc.Text.{txt}
use ft_irc.Ann.State.{Cli, Server, find_cli, pollin}
use ft_irc.Ann.Exec.{Post}
use ft_irc.Ann.Total.{Total}
use ft_irc.Ann.Parse.Fields.{join}
use ft_irc.Ann.Replies.{prepare_resp, append_resp}
use ft_irc.Ann.Commands.Register.{exec_pass}
use ft_irc.Ann.Commands.Talk.{exec_privmsg, exec_notice}
use ft_irc.Ann.Commands.Leave.{exec_part, exec_kick}
use ft_irc.Ann.Commands.Join.{exec_join, admit}
use ft_irc.Ann.Commands.Channel.{exec_invite, exec_topic}
use ft_irc.Ann.Commands.Mode.{exec_mode_ch}
use ft_irc.Ann.Commands.Dispatch.{exec_cmd}
use ft_irc.Ann.Loop.{sweep, send_prepared_resps, sent}
use ft_irc.Ann.Wf.{IsWf}
use ft_irc.Ann.Wf.Dispatch.{exec_cmd-IsWf}
use ft_irc.Ann.Wf.Sweep.{sweep-IsWf}
use ft_irc.Ann.Run.{server-IsWf}
use ft_irc.Ann.Rights.{SameChs}
use ft_irc.Ann.Access.{
  HasOneReply, unregistered_refused, no_operator_no_change, locked_topic_no_change,
}
use ft_irc.Ann.Admission.{admit-chs, chs_after}
use ft_irc.Ann.Crash.{wrong_case_crash, part_list_crash}
use ft_irc.Ann.Buffers.{prepare_resp_bounded, send_prepared_resps-sent}
use ft_irc.Ann.Password.{HasPassed, closing_after, exec_pass-HasPassed}
use ft_irc.Ann.Tests.Sample.{
  run_events, sample, sample-Reach, sample-IsWf, al, new_al, bo, channel, al_next, newcomer,
}

server-IsWf_example : IsWf sample
server-IsWf_example = server-IsWf (txt "pw") 3 sample sample-Reach

exec_cmd-IsWf_example : Post IsWf (exec_cmd (txt "JOIN" ∷ txt "#c" ∷ []) sample)
exec_cmd-IsWf_example = exec_cmd-IsWf (txt "JOIN" ∷ txt "#c" ∷ []) sample sample-IsWf

sweep-IsWf_example : Total IsWf (sweep sample)
sweep-IsWf_example = sweep-IsWf sample sample-IsWf

unregistered_refused_example :
    HasOneReply new_al newcomer (exec_privmsg (txt "X" ∷ []) newcomer)
    × HasOneReply new_al newcomer (exec_join (txt "X" ∷ []) newcomer)
    × HasOneReply new_al newcomer (exec_part (txt "X" ∷ []) newcomer)
    × HasOneReply new_al newcomer (exec_kick (txt "X" ∷ []) newcomer)
    × HasOneReply new_al newcomer (exec_invite (txt "X" ∷ []) newcomer)
    × HasOneReply new_al newcomer (exec_topic (txt "X" ∷ []) newcomer)
    × HasOneReply new_al newcomer (exec_mode_ch (txt "X" ∷ []) newcomer)
    × (exec_notice (txt "X" ∷ []) newcomer ≡ some (tt, newcomer))
unfolding run_events
unregistered_refused_example = unregistered_refused (txt "X" ∷ []) new_al newcomer refl refl

no_operator_no_change_example :
    Total (SameChs sample.chs) (exec_kick (txt "X" ∷ txt "#c" ∷ txt "+k" ∷ txt "x" ∷ []) sample)
    × Total
        (SameChs sample.chs)
        (exec_mode_ch (txt "X" ∷ txt "#c" ∷ txt "+k" ∷ txt "x" ∷ []) sample)
unfolding run_events
no_operator_no_change_example =
    no_operator_no_change bo (txt "X") (txt "#c") (txt "+k" ∷ txt "x" ∷ []) channel sample
      sample-IsWf refl refl refl (λ e. cc, refl)

locked_topic_no_change_example :
    Total (SameChs sample.chs) (exec_topic (txt "TOPIC" ∷ txt "#c" ∷ txt "hi" ∷ []) sample)
unfolding run_events
locked_topic_no_change_example =
    locked_topic_no_change bo (txt "TOPIC") (txt "#c") (txt "hi" ∷ []) channel sample sample-IsWf
      refl refl refl refl

admit-chs_example :
    Total
      (SameChs (chs_after (txt "#c") [] bo (txt "#c") channel sample.chs))
      (admit (txt "#c") [] sample)
unfolding run_events
admit-chs_example = admit-chs (txt "#c") bo (txt "#c") channel sample sample-IsWf refl refl refl []

exec_pass-HasPassed_example :
    Total
      (HasPassed 100 (closing_after new_al (txt "no") newcomer))
      (exec_pass (txt "PASS" ∷ txt "no" ∷ []) newcomer)
unfolding run_events
exec_pass-HasPassed_example =
    exec_pass-HasPassed new_al (txt "PASS") (txt "no") [] newcomer refl refl (λ e. cc)

wrong_case_crash_example :
    (exec_part (txt "X" ∷ txt "#C" ∷ []) sample ≡ none)
    × (exec_topic (txt "X" ∷ txt "#C" ∷ []) sample ≡ none)
unfolding run_events
wrong_case_crash_example =
    wrong_case_crash bo (txt "X") (txt "#C") (txt "#c") sample refl refl refl refl (λ e. cc, refl)

part_list_crash_example :
    exec_part (txt "PART" ∷ join b',' (txt "#c" ∷ txt "#d" ∷ []) ∷ []) al_next ≡ none
unfolding run_events join
part_list_crash_example =
    part_list_crash al (txt "PART") (txt "#c") (txt "#c") (txt "#d") [] 100 al_next refl refl
      ((λ e. cc, refl), ((λ e. cc, refl), tt)) refl refl refl

prepare_resp_bounded_example :
    (t : Server) × (prepare_resp 100 (txt "PONG") sample ≡ some (tt, t))
    × (find_cli 100 t.clis ≡ some (append_resp (txt "PONG") al))
    × (length (append_resp (txt "PONG") al).buf_to_send ≤ length al.buf_to_send + 512)
    × ((q : ℕ) → (100 == q) ≡ false → find_cli q t.clis ≡ find_cli q sample.clis)
unfolding run_events
prepare_resp_bounded_example = prepare_resp_bounded 100 (txt "PONG") al sample refl

send_prepared_resps-sent_example :
    (t : Server) × (d : Cli) × (send_prepared_resps 4 (sent 3) sample ≡ some (tt, t))
    × (find_cli al.addr t.clis ≡ some d)
    × (take 3 al.buf_to_send ++ d.buf_to_send ≡ al.buf_to_send)
    × (t.polls
        ≡ map
            (λ p.
              if 3 == length al.buf_to_send && p.fd == 4 then record p { events = pollin } else p)
            sample.polls)
    × (record d { buf_to_send = al.buf_to_send } ≡ al)
    × ((q : ℕ) → (al.addr == q) ≡ false → find_cli q t.clis ≡ find_cli q sample.clis)
    × (t.chs ≡ sample.chs)
unfolding run_events
send_prepared_resps-sent_example =
    send_prepared_resps-sent 4 3 al sample sample-IsWf.clis_differ refl
