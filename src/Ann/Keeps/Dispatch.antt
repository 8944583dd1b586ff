-- ===== src/Ann/Keeps/Dispatch.antt =====
-- Every command keeps what the assignments of the commands keep.
use ft_irc.Prelude.{List, [], ◌∷◌}
use ft_irc.Text.{Text}
use ft_irc.Ann.State.{Server}
use ft_irc.Ann.Exec.{Keeps, Keeps-pure}
use ft_irc.Ann.Commands.Register.{exec_nick}
use ft_irc.Ann.Commands.Join.{exec_join}
use ft_irc.Ann.Commands.Mode.{change_option, exec_mode_ch}
use ft_irc.Ann.Commands.Dispatch.{exec_mode, exec_channel_verb, exec_verb, exec_cmd}
use ft_irc.Ann.Keeps.{KeptByReplies, reply_rules}
use ft_irc.Ann.Keeps.Talk.{
  Keeps-exec_ping, Keeps-exec_whois, Keeps-exec_privmsg, Keeps-exec_notice, Keeps-exec_mode_cli,
}
use ft_irc.Ann.Keeps.Register.{RegisterLaws, Keeps-exec_pass, Keeps-exec_user, Keeps-exec_cap}
use ft_irc.Ann.Keeps.Channel.{
  ChannelLaws, Keeps-exec_part, Keeps-exec_kick, Keeps-exec_quit, Keeps-exec_invite,
  Keeps-exec_topic,
}
use ft_irc.Ann.Keeps.Mode.{Keeps-exec_mode_ch}

-- What an invariant has to show for the assignments, and for the commands whose tests it needs.
pub record CommandLaws (P : Server → Type 0) : Type 0 where
  pub register_laws : RegisterLaws P
  pub channel_laws : ChannelLaws P
  pub nick : (ar : List Text) → Keeps P (exec_nick ar)
  pub option : (name opt val : Text) → Keeps P (change_option name opt val)
  pub join : (ar : List Text) → Keeps P (exec_join ar)

module _ {P : Server → Type 0} (l : CommandLaws P) where
  replies : KeptByReplies P
  replies = l.channel_laws.replies

  registering : RegisterLaws P
  registering = l.register_laws

  leaving : ChannelLaws P
  leaving = l.channel_laws

  Keeps-exec_mode_channel : (ar : List Text) → Keeps P (exec_mode_ch ar)
  Keeps-exec_mode_channel = Keeps-exec_mode_ch replies l.option

  Keeps-exec_nick : (ar : List Text) → Keeps P (exec_nick ar)
  Keeps-exec_nick = l.nick

  Keeps-exec_join : (ar : List Text) → Keeps P (exec_join ar)
  Keeps-exec_join = l.join

  Keeps-exec_mode : (ar params : List Text) → Keeps P (exec_mode ar params)
  unfolding exec_mode
  Keeps-exec_mode ar [] = search (reply_rules, replies)
  Keeps-exec_mode ar (target ∷ rest) =
      search
        (reply_rules, replies, registering, leaving, Keeps-exec_mode_channel, Keeps-exec_mode_cli)

  Keeps-exec_channel_verb :
      (verb : Text) (params ar : List Text) → Keeps P (exec_channel_verb verb params ar)
  unfolding exec_channel_verb
  Keeps-exec_channel_verb verb params ar =
      search
        (
          reply_rules, replies, registering, leaving, Keeps-exec_mode, Keeps-exec_join,
          Keeps-exec_part, Keeps-exec_kick, Keeps-exec_invite, Keeps-exec_topic,
        )
        depth 14

  Keeps-exec_verb : (verb : Text) (params ar : List Text) → Keeps P (exec_verb verb params ar)
  unfolding exec_verb
  Keeps-exec_verb verb params ar =
      search
        (
          reply_rules, replies, registering, leaving, Keeps-exec_pass, Keeps-exec_nick,
          Keeps-exec_user, Keeps-exec_cap, Keeps-exec_quit, Keeps-exec_ping, Keeps-exec_whois,
          Keeps-exec_privmsg, Keeps-exec_notice, Keeps-exec_channel_verb,
        )
        depth 16

  pub Keeps-exec_cmd : (ar : List Text) → Keeps P (exec_cmd ar)
  unfolding exec_cmd
  Keeps-exec_cmd [] = Keeps-pure tt
  Keeps-exec_cmd (verb ∷ params) = Keeps-exec_verb verb params (verb ∷ params)
