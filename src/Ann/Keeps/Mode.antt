-- ===== src/Ann/Keeps/Mode.antt =====
-- MODE on a channel keeps what one option keeps.
use ft_irc.Prelude.{List, [], ◌∷◌}
use ft_irc.Text.{Text}
use ft_irc.Ann.State.{Ch, Cli, Server}
use ft_irc.Ann.Exec.{Keeps, Keeps-bind, Keeps-then, Keeps-if}
use ft_irc.Ann.Commands.Mode.{
  mode, change_option, exec_mode_one_option, mode_step, mode_value, mode_loop, mode_on,
  exec_mode_ch, takes_value,
}
use ft_irc.Ann.Keeps.{KeptByReplies, reply_rules}

module _ {P : Server → Type 0} (replies : KeptByReplies P)
    (Keeps-change_option : (name opt val : Text) → Keeps P (change_option name opt val)) where
  Keeps-mode : (ch : Ch) → Keeps P (mode ch)
  unfolding mode
  Keeps-mode ch = search reply_rules depth 9

  Keeps-exec_mode_one_option :
      (ar : List Text) (opt val : Text) → Keeps P (exec_mode_one_option ar opt val)
  unfolding exec_mode_one_option
  Keeps-exec_mode_one_option ar opt val =
      search (reply_rules, replies, Keeps-change_option) depth 14

  Keeps-mode_step : (ar : List Text) (opt val : Text) → Keeps P (mode_step ar opt val)
  unfolding mode_step
  Keeps-mode_step ar opt val = search (reply_rules, Keeps-exec_mode_one_option) depth 9

  Keeps-mode_value : (ar : List Text) (opt : Text) → Keeps P (mode_value ar opt)
  unfolding mode_value
  Keeps-mode_value ar opt = search reply_rules

  Keeps-mode_loop : (ar opts : List Text) → Keeps P (mode_loop ar opts)
  unfolding mode_loop
  Keeps-mode_loop ar [] = search reply_rules
  Keeps-mode_loop ar (opt ∷ []) = Keeps-mode_step ar opt []
  Keeps-mode_loop ar (opt ∷ next ∷ rest) =
      let skipped = Keeps-mode_loop ar rest in
      let kept = Keeps-mode_loop ar (next ∷ rest) in
      Keeps-bind (mode_value ar opt) _ (Keeps-mode_value ar opt) λ val.
        Keeps-then (mode_step ar opt val) _ (Keeps-mode_step ar opt val)
          (Keeps-if (takes_value opt) _ _ (λ _. skipped) (λ _. kept))

  Keeps-mode_on : (c : Cli) (ar : List Text) (name : Text) → Keeps P (mode_on c ar name)
  unfolding mode_on
  Keeps-mode_on c ar name = search (reply_rules, replies, Keeps-mode, Keeps-mode_loop) depth 14

  pub Keeps-exec_mode_ch : (ar : List Text) → Keeps P (exec_mode_ch ar)
  unfolding exec_mode_ch
  Keeps-exec_mode_ch ar = search (reply_rules, replies, Keeps-mode_on) depth 16
