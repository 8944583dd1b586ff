-- ===== src/Mariia/Calm/User.antt =====
-- NICK and AWAY.
use ft_irc.Prelude.{ℕ, ◌≡◌, refl, true, List, [], ◌∷◌}
use ft_irc.Text.{Text}
use ft_irc.Ann.State.{PollFd, contains}
use ft_irc.Mariia.State.{away, set_nickname, add_mode}
use ft_irc.Mariia.Exec.{token}
use ft_irc.Mariia.Commands.User.{verify_nickname, rename, process_nick, process_away}
use ft_irc.Mariia.Tables.{KeepsFd}
use ft_irc.Mariia.Safe.{IsSafe}
use ft_irc.Mariia.Frame.{Frame, IsSafe-set_client}
use ft_irc.Mariia.Calm.Replies.{answer_rules}
use ft_irc.Mariia.Calm.Mode.{add-KeepsFd, remove-KeepsFd}

pub nickname-KeepsFd : (nick : Text) → KeepsFd (set_nickname nick)
unfolding set_nickname
nickname-KeepsFd nick = record { fd_same = λ c. refl }

away-KeepsFd : (text : Text) → KeepsFd (λ x. add_mode away (record x { away_message = text }))
away-KeepsFd text = record {
  fd_same = λ c. (add-KeepsFd away).fd_same (record c { away_message = text });
}

module _ {polls : ℕ × List PollFd} {fds : List ℕ} (fd : ℕ) (live : contains fd fds ≡ true) where
  pub verify_nickname-IsSafe : (nick : Text) → IsSafe (Frame polls fds []) (verify_nickname fd nick)
  unfolding verify_nickname
  verify_nickname-IsSafe nick = search (answer_rules) depth 8

  rename-IsSafe : (nick : Text) → IsSafe (Frame polls fds []) (rename fd nick)
  unfolding rename
  rename-IsSafe nick =
      search (answer_rules, verify_nickname-IsSafe, IsSafe-set_client, nickname-KeepsFd) depth 12

  pub process_nick-IsSafe :
      (tokens : List Text) → IsSafe (Frame polls fds []) (process_nick fd tokens)
  unfolding process_nick token
  process_nick-IsSafe [] = search (answer_rules) depth 8
  process_nick-IsSafe (command ∷ []) = search (answer_rules) depth 8
  process_nick-IsSafe (command ∷ nick ∷ rest) = search (answer_rules, rename-IsSafe) depth 12

  pub process_away-IsSafe :
      (tokens : List Text) → IsSafe (Frame polls fds []) (process_away fd tokens)
  unfolding process_away
  process_away-IsSafe tokens =
      search (answer_rules, IsSafe-set_client, away-KeepsFd, remove-KeepsFd) depth 12
