-- ===== src/Ann/Keeps/Talk.antt =====
-- Commands that only reply: PRIVMSG, NOTICE, PING, WHOIS, MODE on a client.
use ft_irc.Prelude.{List}
use ft_irc.Text.{Text}
use ft_irc.Ann.State.{Cli, Server}
use ft_irc.Ann.Exec.{Keeps}
use ft_irc.Ann.Keeps.{KeptByReplies, reply_rules}
use ft_irc.Ann.Commands.Register.{exec_ping, whois_one, exec_whois}
use ft_irc.Ann.Commands.Talk.{
  privmsg_to_ch, privmsg_to_cli, privmsg_to, exec_privmsg, notice_to, exec_notice,
}
use ft_irc.Ann.Commands.Mode.{exec_mode_cli}

module _ {P : Server → Type 0} (k : KeptByReplies P) where
  pub Keeps-exec_ping : Keeps P exec_ping
  unfolding exec_ping
  Keeps-exec_ping = search reply_rules

  Keeps-whois_one : (nick : Text) → Keeps P (whois_one nick)
  unfolding whois_one
  Keeps-whois_one nick = search reply_rules depth 9

  pub Keeps-exec_whois : (ar : List Text) → Keeps P (exec_whois ar)
  unfolding exec_whois
  Keeps-exec_whois ar = search (reply_rules, Keeps-whois_one) depth 9

  Keeps-privmsg_to_ch : (c : Cli) (msg to : Text) → Keeps P (privmsg_to_ch c msg to)
  unfolding privmsg_to_ch
  Keeps-privmsg_to_ch c msg to = search reply_rules depth 9

  Keeps-privmsg_to_cli : (msg to : Text) → Keeps P (privmsg_to_cli msg to)
  unfolding privmsg_to_cli
  Keeps-privmsg_to_cli msg to = search reply_rules depth 9

  Keeps-privmsg_to : (c : Cli) (msg to : Text) → Keeps P (privmsg_to c msg to)
  unfolding privmsg_to
  Keeps-privmsg_to c msg to = search (reply_rules, Keeps-privmsg_to_ch, Keeps-privmsg_to_cli)

  pub Keeps-exec_privmsg : (ar : List Text) → Keeps P (exec_privmsg ar)
  unfolding exec_privmsg
  Keeps-exec_privmsg ar = search (reply_rules, Keeps-privmsg_to) depth 9

  Keeps-notice_to : (msg to : Text) → Keeps P (notice_to msg to)
  unfolding notice_to
  Keeps-notice_to msg to = search reply_rules depth 9

  pub Keeps-exec_notice : (ar : List Text) → Keeps P (exec_notice ar)
  unfolding exec_notice
  Keeps-exec_notice ar = search (reply_rules, Keeps-notice_to) depth 9

  pub Keeps-exec_mode_cli : (ar : List Text) → Keeps P (exec_mode_cli ar)
  unfolding exec_mode_cli
  Keeps-exec_mode_cli ar = search reply_rules depth 12
