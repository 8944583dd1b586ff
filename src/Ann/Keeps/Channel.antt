-- ===== src/Ann/Keeps/Channel.antt =====
-- PART, KICK, QUIT, INVITE and TOPIC keep what their assignments keep.
use ft_irc.Prelude.{ℕ, List}
use ft_irc.Text.{Text}
use ft_irc.Ann.State.{Cli, Server}
use ft_irc.Ann.Exec.{Keeps, modify}
use ft_irc.Ann.Replies.{set_cli, set_ch}
use ft_irc.Ann.Commands.Leave.{
  erase_cli_from_ch, part_msg, part_one, exec_part, kick_msg, kick_target, kick_one, exec_kick,
  quit_msg, exec_quit,
}
use ft_irc.Ann.Commands.Channel.{
  invited, invite, exec_invite, show_topic, set_topic, topic_on, exec_topic,
}
use ft_irc.Ann.Keeps.{KeptByReplies, reply_rules}

-- The assignments of these commands.
pub record ChannelLaws (P : Server → Type 0) : Type 0 where
  pub replies : KeptByReplies P
  pub leave : (nick name : Text) → Keeps P (erase_cli_from_ch nick name)
  pub topic : (name t : Text) → Keeps P (set_ch name (λ ch. record ch { topic = t }))
  pub invits : (p : ℕ) (f : Cli → List Text) → Keeps P (set_cli p (λ x. record x { invits = f x }))
  pub fds : (f : Server → List ℕ) → Keeps P (modify (λ s. record s { fds_to_erase = f s }))

module _ {P : Server → Type 0} (l : ChannelLaws P) where
  replies : KeptByReplies P
  replies = l.replies

  Keeps-leave : (nick name : Text) → Keeps P (erase_cli_from_ch nick name)
  Keeps-leave = l.leave

  Keeps-topic : (name t : Text) → Keeps P (set_ch name (λ ch. record ch { topic = t }))
  Keeps-topic = l.topic

  Keeps-invits :
      (p : ℕ) (f : Cli → List Text) → Keeps P (set_cli p (λ x. record x { invits = f x }))
  Keeps-invits = l.invits

  Keeps-fds : (f : Server → List ℕ) → Keeps P (modify (λ s. record s { fds_to_erase = f s }))
  Keeps-fds = l.fds

  Keeps-part_msg : (c : Cli) (ar : List Text) → Keeps P (part_msg c ar)
  unfolding part_msg
  Keeps-part_msg c ar = search reply_rules depth 9

  Keeps-part_one : (c : Cli) (ar : List Text) (name : Text) → Keeps P (part_one c ar name)
  unfolding part_one
  Keeps-part_one c ar name = search (reply_rules, replies, Keeps-part_msg, Keeps-leave) depth 14

  pub Keeps-exec_part : (ar : List Text) → Keeps P (exec_part ar)
  unfolding exec_part
  Keeps-exec_part ar = search (reply_rules, replies, Keeps-part_one) depth 14

  Keeps-kick_msg : (c : Cli) (ar : List Text) → Keeps P (kick_msg c ar)
  unfolding kick_msg
  Keeps-kick_msg c ar = search reply_rules depth 9

  Keeps-kick_target : (c : Cli) (ar : List Text) (n t : Text) → Keeps P (kick_target c ar n t)
  unfolding kick_target
  Keeps-kick_target c ar n t = search (reply_rules, replies, Keeps-kick_msg, Keeps-leave) depth 14

  Keeps-kick_one : (c : Cli) (ar ts : List Text) (n : Text) → Keeps P (kick_one c ar ts n)
  unfolding kick_one
  Keeps-kick_one c ar ts n = search (reply_rules, replies, Keeps-kick_target) depth 14

  pub Keeps-exec_kick : (ar : List Text) → Keeps P (exec_kick ar)
  unfolding exec_kick
  Keeps-exec_kick ar = search (reply_rules, replies, Keeps-kick_one) depth 14

  Keeps-quit_msg : (ar : List Text) (c : Cli) → Keeps P (quit_msg ar c)
  unfolding quit_msg
  Keeps-quit_msg ar c = search reply_rules depth 9

  pub Keeps-exec_quit : (ar : List Text) → Keeps P (exec_quit ar)
  unfolding exec_quit
  Keeps-exec_quit ar = search (reply_rules, replies, Keeps-quit_msg, Keeps-fds) depth 14

  Keeps-invited : (c : Cli) (nick name : Text) → Keeps P (invited c nick name)
  unfolding invited
  Keeps-invited c nick name = search (reply_rules, replies, Keeps-invits) depth 14

  Keeps-invite : (c : Cli) (nick name : Text) → Keeps P (invite c nick name)
  unfolding invite
  Keeps-invite c nick name = search (reply_rules, replies, Keeps-invited) depth 14

  pub Keeps-exec_invite : (ar : List Text) → Keeps P (exec_invite ar)
  unfolding exec_invite
  Keeps-exec_invite ar = search (reply_rules, replies, Keeps-invite) depth 14

  Keeps-show_topic : (c : Cli) (name : Text) → Keeps P (show_topic c name)
  unfolding show_topic
  Keeps-show_topic c name = search (reply_rules, replies) depth 9

  Keeps-set_topic : (c : Cli) (name t : Text) → Keeps P (set_topic c name t)
  unfolding set_topic
  Keeps-set_topic c name t = search (reply_rules, replies, Keeps-topic) depth 14

  Keeps-topic_on : (c : Cli) (ar : List Text) (name : Text) → Keeps P (topic_on c ar name)
  unfolding topic_on
  Keeps-topic_on c ar name =
      search (reply_rules, replies, Keeps-show_topic, Keeps-set_topic) depth 14

  pub Keeps-exec_topic : (ar : List Text) → Keeps P (exec_topic ar)
  unfolding exec_topic
  Keeps-exec_topic ar = search (reply_rules, replies, Keeps-topic_on) depth 14
