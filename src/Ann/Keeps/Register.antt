-- ===== src/Ann/Keeps/Register.antt =====
-- PASS, USER and CAP keep what their assignments keep.
use ft_irc.Prelude.{ℕ, Bool, List}
use ft_irc.Text.{Text}
use ft_irc.Ann.State.{Cli, Server}
use ft_irc.Ann.Exec.{Keeps, modify}
use ft_irc.Ann.Replies.{set_cli}
use ft_irc.Ann.Commands.Register.{
  wrong_pass, accept_pass, check_pass, exec_pass, exec_user, exec_cap, welcome_if_complete,
}
use ft_irc.Ann.Keeps.{KeptByReplies, reply_rules}

-- The assignments of these commands.
pub record RegisterLaws (P : Server → Type 0) : Type 0 where
  pub replies : KeptByReplies P
  pub registration :
      (p : ℕ) (ok cap : Cli → Bool) (u r : Cli → Text)
      → Keeps P (
          set_cli p
            (λ x. record x { pass_ok = ok x; cap_in_progress = cap x; u_name = u x; r_name = r x }))
  pub fds : (f : Server → List ℕ) → Keeps P (modify (λ s. record s { fds_to_erase = f s }))

module _ {P : Server → Type 0} (l : RegisterLaws P) where
  replies : KeptByReplies P
  replies = l.replies

  Keeps-fds : (f : Server → List ℕ) → Keeps P (modify (λ s. record s { fds_to_erase = f s }))
  Keeps-fds = l.fds

  Keeps-registration :
      (p : ℕ) (ok cap : Cli → Bool) (u r : Cli → Text)
      → Keeps P (
          set_cli p
            (λ x. record x { pass_ok = ok x; cap_in_progress = cap x; u_name = u x; r_name = r x }))
  Keeps-registration = l.registration

  pub Keeps-welcome : Keeps P welcome_if_complete
  unfolding welcome_if_complete
  Keeps-welcome = search (reply_rules, replies) depth 9

  pub Keeps-exec_pass : (ar : List Text) → Keeps P (exec_pass ar)
  unfolding exec_pass check_pass wrong_pass accept_pass
  Keeps-exec_pass ar =
      search (reply_rules, replies, Keeps-welcome, Keeps-registration, Keeps-fds) depth 14

  pub Keeps-exec_user : (ar : List Text) → Keeps P (exec_user ar)
  unfolding exec_user
  Keeps-exec_user ar =
      search (reply_rules, replies, Keeps-welcome, Keeps-registration, Keeps-fds) depth 14

  pub Keeps-exec_cap : (ar : List Text) → Keeps P (exec_cap ar)
  unfolding exec_cap
  Keeps-exec_cap ar =
      search (reply_rules, replies, Keeps-welcome, Keeps-registration, Keeps-fds) depth 14
