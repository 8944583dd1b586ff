-- ===== src/Mariia/Calm/Parse.antt =====
-- The parser and the registration.
use ft_irc.Prelude.{
  ℕ, ◌≡◌, refl, subst, Bool, true, false, Option, none, some, List, [], ◌∷◌, ◌++◌, arith, All,
  Option-cases, inl, inr,
}
use ft_irc.Text.{Text, txt, text_eq}
use ft_irc.Ann.State.{PollFd, contains}
use ft_irc.Mariia.State.{Client, Server, find_client, insert_user}
use ft_irc.Mariia.Exec.{gets, modify, token, ◌>>=◌}
use ft_irc.Mariia.Words.{get_lines, get_words}
use ft_irc.Mariia.Parse.{
  run_command, process_cmd, verify_password, handle_pass, handle_nick, set_mask, set_user,
  handle_user, handle_command, welcome, known_user, new_user, check_registration, answer_cap,
  registration_process, until_cr, run_line, run_lines, run_text, pars_of, pars_buffer,
}
use ft_irc.Mariia.Tables.{KeepsFd}
use ft_irc.Mariia.Safe.{Safe, IsSafe, IsSafe-if, IsSafe-modify, IsSafe-then}
use ft_irc.Mariia.Frame.{Frame, IsSafe-set_client}
use ft_irc.Mariia.Calm.Replies.{answer_rules}
use ft_irc.Mariia.Calm.Talk.{process_privmsg-IsSafe}
use ft_irc.Mariia.Calm.Join.{process_join-IsSafe}
use ft_irc.Mariia.Calm.Leave.{process_part-IsSafe, process_kick-IsSafe, process_quit-IsSafe}
use ft_irc.Mariia.Calm.Mode.{process_mode-IsSafe, add-KeepsFd}
use ft_irc.Mariia.Calm.Topic.{process_topic-IsSafe, process_invite-IsSafe}
use ft_irc.Mariia.Calm.Info.{
  process_names-IsSafe, process_list-IsSafe, process_who-IsSafe, process_whois-IsSafe,
  process_ping-IsSafe,
}
use ft_irc.Mariia.Calm.User.{
  verify_nickname-IsSafe, nickname-KeepsFd, process_nick-IsSafe, process_away-IsSafe,
}

ruleset command_rules = (
  answer_rules, process_privmsg-IsSafe, process_join-IsSafe, process_part-IsSafe,
  process_kick-IsSafe, process_quit-IsSafe, process_mode-IsSafe, process_topic-IsSafe,
  process_invite-IsSafe, process_names-IsSafe, process_list-IsSafe, process_who-IsSafe,
  process_whois-IsSafe, process_ping-IsSafe, process_nick-IsSafe, process_away-IsSafe,
)

-- Two texts of the registration that keep the descriptor.
logged-KeepsFd : KeepsFd (λ x. record x { logged = true })
logged-KeepsFd = record { fd_same = λ c. refl }

password-KeepsFd : (given : Text) → KeepsFd (λ x. record x { password = given })
password-KeepsFd given = record { fd_same = λ c. refl }

username-KeepsFd : (name : Text) → KeepsFd (λ x. record x { username = name })
username-KeepsFd name = record { fd_same = λ c. refl }

realname-KeepsFd : (name : Text) → KeepsFd (λ x. record x { real_name = name })
realname-KeepsFd name = record { fd_same = λ c. refl }

registered-KeepsFd : KeepsFd (λ x. record x { registered = true })
registered-KeepsFd = record { fd_same = λ c. refl }

buffer-KeepsFd : (text : Text) → KeepsFd (λ c. record c { recv_buffer = c.recv_buffer ++ text })
buffer-KeepsFd text = record { fd_same = λ c. refl }

cleared-KeepsFd : KeepsFd (λ x. record x { recv_buffer = [] })
cleared-KeepsFd = record { fd_same = λ c. refl }

ruleset field_rules = (
  answer_rules, IsSafe-set_client, logged-KeepsFd, password-KeepsFd, username-KeepsFd,
  realname-KeepsFd, registered-KeepsFd, buffer-KeepsFd, cleared-KeepsFd, nickname-KeepsFd,
  add-KeepsFd,
)

-- the command CAP, with no argument
abbrev pub is_lone_cap : List Text → Bool
is_lone_cap [] = false
is_lone_cap (command ∷ []) = text_eq command (txt "CAP")
is_lone_cap (command ∷ sub ∷ params) = false

-- No line of a text is a lone CAP.
abbrev pub NoLoneCap : Text → Type 0
NoLoneCap text = All (λ line. is_lone_cap (get_words (until_cr line)) ≡ false) (get_lines 10 text)

module _ {polls : ℕ × List PollFd} {fds : List ℕ} where
  users-IsSafe :
      (nick password : Text)
      → IsSafe
          (Frame polls fds [])
          (modify λ s. record s { users = insert_user nick password s.users })
  users-IsSafe nick password = IsSafe-modify _ λ s p. record {
    same = p.same;
    polls_same = p.polls_same;
    names_differ = p.names_differ;
    channels = p.channels;
    present = tt;
  }

module _ {polls : ℕ × List PollFd} {fds : List ℕ} (fd : ℕ) (live : contains fd fds ≡ true) where
  pub run_command-IsSafe :
      (command : Text) (params : List Text)
      → IsSafe (Frame polls fds []) (run_command command fd (command ∷ params))
  unfolding run_command
  run_command-IsSafe command params = search (command_rules) depth 24

  pub process_cmd-IsSafe :
      (tokens : List Text) → IsSafe (Frame polls fds []) (process_cmd fd tokens)
  unfolding process_cmd
  process_cmd-IsSafe [] = search (answer_rules)
  process_cmd-IsSafe (command ∷ params) = search (answer_rules, run_command-IsSafe) depth 4

  verify_password-IsSafe : (given : Text) → IsSafe (Frame polls fds []) (verify_password fd given)
  unfolding verify_password
  verify_password-IsSafe given = search (field_rules) depth 14

  handle_pass-IsSafe : (params : List Text) → IsSafe (Frame polls fds []) (handle_pass fd params)
  unfolding handle_pass
  handle_pass-IsSafe [] = search (field_rules) depth 8
  handle_pass-IsSafe (given ∷ params) = search (field_rules, verify_password-IsSafe) depth 10

  handle_nick-IsSafe : (params : List Text) → IsSafe (Frame polls fds []) (handle_nick fd params)
  unfolding handle_nick
  handle_nick-IsSafe [] = search (field_rules) depth 8
  handle_nick-IsSafe (nick ∷ params) = search (field_rules, verify_nickname-IsSafe) depth 10

  set_mask-IsSafe : (mask : Text) → IsSafe (Frame polls fds []) (set_mask fd mask)
  unfolding set_mask
  set_mask-IsSafe mask = search (field_rules) depth 8

  set_user-IsSafe :
      (username mask first : Text) (rest : List Text)
      → IsSafe (Frame polls fds []) (set_user fd username mask first rest)
  unfolding set_user
  set_user-IsSafe username mask first rest = search (field_rules, set_mask-IsSafe) depth 14

  handle_user-IsSafe : (params : List Text) → IsSafe (Frame polls fds []) (handle_user fd params)
  unfolding handle_user
  handle_user-IsSafe [] = search (field_rules) depth 6
  handle_user-IsSafe (username ∷ []) = search (field_rules) depth 6
  handle_user-IsSafe (username ∷ mask ∷ []) = search (field_rules) depth 6
  handle_user-IsSafe (username ∷ mask ∷ first ∷ rest) =
      set_user-IsSafe username mask first (first ∷ rest)

  handle_command-IsSafe :
      (command : Text) (params : List Text)
      → IsSafe (Frame polls fds []) (handle_command fd command params)
  unfolding handle_command
  handle_command-IsSafe command params =
      search (answer_rules, handle_pass-IsSafe, handle_nick-IsSafe, handle_user-IsSafe) depth 10

  welcome-IsSafe : IsSafe (Frame polls fds []) (welcome fd)
  unfolding welcome
  welcome-IsSafe = search (field_rules) depth 14

  check_registration-IsSafe : IsSafe (Frame polls fds []) (check_registration fd)
  unfolding check_registration known_user new_user
  check_registration-IsSafe = search (answer_rules, welcome-IsSafe, users-IsSafe) depth 16

  pub registration_process-IsSafe :
      (tokens : List Text)
      → is_lone_cap tokens ≡ false
      → IsSafe (Frame polls fds []) (registration_process fd tokens)
  unfolding registration_process answer_cap token
  registration_process-IsSafe [] h = search (answer_rules)
  registration_process-IsSafe (command ∷ []) h =
      IsSafe-if (text_eq command (txt "CAP")) _ _ (λ lone. absurd (ground (arith, h, lone)))
        (λ other. search (answer_rules, check_registration-IsSafe, handle_command-IsSafe) depth 10)
  registration_process-IsSafe (command ∷ sub ∷ params) h =
      search (answer_rules, check_registration-IsSafe, handle_command-IsSafe) depth 14

  run_line-IsSafe :
      (line : Text)
      → is_lone_cap (get_words (until_cr line)) ≡ false
      → IsSafe (Frame polls fds []) (run_line fd line)
  unfolding run_line
  run_line-IsSafe line h =
      search (answer_rules, registration_process-IsSafe, process_cmd-IsSafe) depth 10

  run_lines-IsSafe :
      (lines : List Text)
      → All (λ line. is_lone_cap (get_words (until_cr line)) ≡ false) lines
      → IsSafe (Frame polls fds []) (run_lines fd lines)
  unfolding run_lines
  run_lines-IsSafe [] h = search (answer_rules)
  run_lines-IsSafe (line ∷ lines) h =
      let here = run_line-IsSafe line h.0 in
      let rest = run_lines-IsSafe lines h.1 in search (answer_rules) depth 8

  run_text-IsSafe : (text : Text) → NoLoneCap text → IsSafe (Frame polls fds []) (run_text fd text)
  unfolding run_text
  run_text-IsSafe text h = search (field_rules, run_lines-IsSafe) depth 10

-- The text that the stream adds to, with what the client has left over.
abbrev pub left_over : Option Client → Text
left_over none = []
left_over (some c) = c.recv_buffer

module _ (fd : ℕ) (s : Server) where
  pub pars_buffer-Safe :
      (buffer : Text) {polls : ℕ × List PollFd} {fds : List ℕ}
      → contains fd fds ≡ true
      → Frame polls fds [] s
      → NoLoneCap (left_over (find_client fd s.clients) ++ buffer)
      → Safe (Frame polls fds []) (pars_buffer fd buffer s)
  unfolding pars_buffer pars_of gets ◌>>=◌
  pars_buffer-Safe buffer {fds} live p lines = elim (Option-cases (find_client fd s.clients)) [
    | inl e ↦ rw e (
        (run_lines-IsSafe fd live (get_lines 10 buffer)
            (subst (λ o. NoLoneCap (left_over o ++ buffer)) e lines)).from
          s p)
    | inr (c, e) ↦ rw e (
        (IsSafe-then _ _ (IsSafe-set_client fd _ cleared-KeepsFd) (
            run_text-IsSafe fd live (c.recv_buffer ++ buffer)
              (subst (λ o. NoLoneCap (left_over o ++ buffer)) e lines))).from
          s p)
  ]
