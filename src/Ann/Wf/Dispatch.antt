-- ===== src/Ann/Wf/Dispatch.antt =====
-- Every command keeps the invariant.
use ft_irc.Prelude.{List}
use ft_irc.Text.{Text}
use ft_irc.Ann.Exec.{Keeps, Post}
use ft_irc.Ann.State.{Server}
use ft_irc.Ann.Commands.Dispatch.{exec_cmd}
use ft_irc.Ann.Keeps.Dispatch.{CommandLaws, Keeps-exec_cmd}
use ft_irc.Ann.Wf.{IsWf}
use ft_irc.Ann.Wf.Register.{register_laws-IsWf, exec_nick-IsWf}
use ft_irc.Ann.Wf.Channel.{channel_laws-IsWf}
use ft_irc.Ann.Wf.Mode.{change_option-IsWf}
use ft_irc.Ann.Wf.Join.{exec_join-IsWf}

command_laws-IsWf : CommandLaws IsWf
command_laws-IsWf = record {
  register_laws = register_laws-IsWf;
  channel_laws = channel_laws-IsWf;
  nick = exec_nick-IsWf;
  option = change_option-IsWf;
  join = exec_join-IsWf;
}

pub exec_cmd-Keeps : (ar : List Text) → Keeps IsWf (exec_cmd ar)
exec_cmd-Keeps = Keeps-exec_cmd command_laws-IsWf

-- From a well-formed state, every command that returns ends in a well-formed state, whichever command
-- it is and whatever its arguments are.
pub exec_cmd-IsWf : (ar : List Text) (s : Server) → IsWf s → Post IsWf (exec_cmd ar s)
exec_cmd-IsWf ar = (exec_cmd-Keeps ar).kept
