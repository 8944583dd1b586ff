-- ===== src/Mariia/Calm/Replies.antt =====
-- Replies are safe: they change the queues of clients only.
use ft_irc.Prelude.{ℕ, ◌≡◌, refl, true, List}
use ft_irc.Text.{Text}
use ft_irc.Ann.State.{PollFd, contains}
use ft_irc.Mariia.State.{push_send_queue}
use ft_irc.Mariia.Replies.{
  Reply, get_nick_and_hostname, server_send_message, server_send_error, server_send_reply,
  send_notification, send_notification_to,
}
use ft_irc.Mariia.Commands.Common.{is_channel_name, trailing}
use ft_irc.Mariia.Tables.{KeepsFd}
use ft_irc.Mariia.Safe.{IsSafe, safe_rules}
use ft_irc.Mariia.Frame.{Frame, IsSafe-client_at, IsSafe-set_client}

push-KeepsFd : (msg : Text) → KeepsFd (push_send_queue msg)
unfolding push_send_queue
push-KeepsFd msg = record { fd_same = λ c. refl }

module _ {polls : ℕ × List PollFd} {fds : List ℕ} {names : List Text} where
  pub IsSafe-message :
      (fd : ℕ) (msg : Text) → IsSafe (Frame polls fds names) (server_send_message fd msg)
  unfolding server_send_message
  IsSafe-message fd msg = IsSafe-set_client fd (push_send_queue msg) (push-KeepsFd msg)

  pub IsSafe-error :
      (fd : ℕ) (tok : Text) (id : Reply)
      → IsSafe (Frame polls fds names) (server_send_error fd tok id)
  unfolding server_send_error
  IsSafe-error fd tok id = search (safe_rules, IsSafe-message) depth 8

  pub IsSafe-reply :
      (fd : ℕ) (tok : Text) (id : Reply) (text : Text)
      → IsSafe (Frame polls fds names) (server_send_reply fd tok id text)
  unfolding server_send_reply
  IsSafe-reply fd tok id text = search (safe_rules, IsSafe-message) depth 8

  pub IsSafe-notify :
      (fd : ℕ) (prefix command parameters : Text)
      → IsSafe (Frame polls fds names) (send_notification fd prefix command parameters)
  unfolding send_notification
  IsSafe-notify fd prefix command parameters = IsSafe-message fd _

  pub IsSafe-notify_all :
      (targets : List ℕ) (prefix command parameters : Text)
      → IsSafe (Frame polls fds names) (send_notification_to targets prefix command parameters)
  unfolding send_notification_to
  IsSafe-notify_all targets prefix command parameters = search (safe_rules, IsSafe-message) depth 6

  pub IsSafe-nick_and_hostname :
      (fd : ℕ) → contains fd fds ≡ true → IsSafe (Frame polls fds names) (get_nick_and_hostname fd)
  unfolding get_nick_and_hostname
  IsSafe-nick_and_hostname fd live = search (safe_rules, IsSafe-client_at) depth 6

  pub IsSafe-is_channel_name : (name : Text) → IsSafe (Frame polls fds names) (is_channel_name name)
  unfolding is_channel_name
  IsSafe-is_channel_name name = search (safe_rules) depth 6

  pub IsSafe-trailing :
      (first : Text) (tokens : List Text) → IsSafe (Frame polls fds names) (trailing first tokens)
  unfolding trailing
  IsSafe-trailing first tokens = search (safe_rules) depth 6

pub ruleset answer_rules = (
  safe_rules, IsSafe-message, IsSafe-error, IsSafe-reply, IsSafe-notify, IsSafe-notify_all,
  IsSafe-nick_and_hostname, IsSafe-is_channel_name, IsSafe-trailing, IsSafe-client_at,
)
