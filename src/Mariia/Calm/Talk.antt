-- ===== src/Mariia/Calm/Talk.antt =====
-- PRIVMSG and NOTICE.
use ft_irc.Prelude.{ℕ, ◌≡◌, true, Option, none, some, List, [], ◌∷◌}
use ft_irc.Text.{Text}
use ft_irc.Ann.State.{PollFd, contains}
use ft_irc.Mariia.State.{Client}
use ft_irc.Mariia.Channel.{Channel}
use ft_irc.Mariia.Exec.{token}
use ft_irc.Mariia.Commands.Talk.{
  if_privmsg, pm_to_user, pm_to_chan, send_pm_to_user, send_pm_to_chan, send_pm, send_pms,
  process_privmsg,
}
use ft_irc.Mariia.Safe.{IsSafe}
use ft_irc.Mariia.Frame.{Frame, IsSafe-bind_client, IsSafe-bind_channel}
use ft_irc.Mariia.Calm.Replies.{answer_rules}

module _ {polls : ℕ × List PollFd} {fds : List ℕ} (fd : ℕ) (live : contains fd fds ≡ true) where
  pm_to_user-IsSafe :
      (message prefix target command : Text) (o : Option Client)
      → IsSafe (Frame polls fds []) (pm_to_user fd message prefix target command o)
  unfolding pm_to_user if_privmsg
  pm_to_user-IsSafe message prefix target command none = search (answer_rules) depth 8
  pm_to_user-IsSafe message prefix target command (some c) = search (answer_rules) depth 8

  pm_to_chan-IsSafe :
      (message prefix target command : Text) (o : Option Channel)
      → IsSafe (Frame polls fds []) (pm_to_chan fd message prefix target command o)
  unfolding pm_to_chan if_privmsg
  pm_to_chan-IsSafe message prefix target command none = search (answer_rules) depth 8
  pm_to_chan-IsSafe message prefix target command (some ch) = search (answer_rules) depth 8

  send_pm-IsSafe :
      (message prefix command target : Text)
      → IsSafe (Frame polls fds []) (send_pm fd message prefix command target)
  unfolding send_pm send_pm_to_user send_pm_to_chan
  send_pm-IsSafe message prefix command target =
      search
        (
          answer_rules, IsSafe-bind_client, IsSafe-bind_channel, pm_to_user-IsSafe,
          pm_to_chan-IsSafe,
        )
        depth 10

  pub process_privmsg-IsSafe :
      (command : Text) (params : List Text)
      → IsSafe (Frame polls fds []) (process_privmsg fd (command ∷ params))
  unfolding process_privmsg send_pms token
  process_privmsg-IsSafe command [] = search (answer_rules) depth 8
  process_privmsg-IsSafe command (target ∷ []) = search (answer_rules) depth 8
  process_privmsg-IsSafe command (target ∷ first ∷ rest) =
      search (answer_rules, send_pm-IsSafe) depth 12
