-- ===== src/Mariia/Access.antt =====
-- Who may change a channel of project/mariia.
use ft_irc.Prelude.{
  ℕ, ◌≡◌, refl, true, false, not, ◌&&◌, Option, some, List, [], ◌∷◌, arith, length, ltb,
  if◌then◌else◌,
}
use ft_irc.Text.{Text, to_lower}
use ft_irc.Mariia.Channel.{Channel, topic_set, is_mode_set, has_operator}
use ft_irc.Mariia.State.{Server, find_channel}
use ft_irc.Mariia.Exec.{M, token, deref, set_client, ◌>>=◌}
use ft_irc.Mariia.Replies.{
  Reply, server_send_message, server_send_error, server_send_reply, channel_named,
}
use ft_irc.Mariia.Commands.Common.{trailing}
use ft_irc.Mariia.Commands.Leave.{kick_reason, kick_from, process_kick}
use ft_irc.Mariia.Commands.Mode.{channel_mode, process_channel_mode}
use ft_irc.Mariia.Commands.Topic.{show_topic, topic_found, process_topic}
use ft_irc.Mariia.Safe.{IsSafe-bind_read, Safe, IsSafe, IsSafe-modify, safe_rules, Safe-and_then}

module _ (l : List Channel) where
  abbrev pub Untouched : Server → Type 0
  Untouched s = s.channels ≡ l

  error-IsSafe : (fd : ℕ) (tok : Text) (id : Reply) → IsSafe Untouched (server_send_error fd tok id)
  unfolding server_send_error server_send_message set_client
  error-IsSafe fd tok id = search (safe_rules, IsSafe-modify) depth 8

  reply-IsSafe :
      (fd : ℕ) (tok : Text) (id : Reply) (text : Text)
      → IsSafe Untouched (server_send_reply fd tok id text)
  unfolding server_send_reply server_send_message set_client
  reply-IsSafe fd tok id text = search (safe_rules, IsSafe-modify) depth 8

  kick_reason-IsSafe :
      (command name target : Text) (params : List Text)
      → IsSafe Untouched (kick_reason target (command ∷ name ∷ target ∷ params))
  unfolding kick_reason trailing token
  kick_reason-IsSafe command name target [] = search (safe_rules) depth 6
  kick_reason-IsSafe command name target (first ∷ params) = search (safe_rules) depth 8

module _ (fd : ℕ) (command name : Text) (ch : Channel) (s : Server)
    (found : find_channel (to_lower name) s.channels ≡ some ch)
    (no_operator : has_operator fd ch ≡ false) where
  bind_found-IsSafe :
      {B : Type 0} (next : Option Channel → M B)
      → IsSafe (Untouched s.channels) (next (some ch))
      → IsSafe (Untouched s.channels) (channel_named name >>= next)
  unfolding channel_named
  bind_found-IsSafe next later = IsSafe-bind_read _ next λ t same. rw (same, found) later

  refused-IsSafe :
      {A : Type 0} (error rest : M A)
      → IsSafe (Untouched s.channels) error
      → IsSafe (Untouched s.channels) (if not (has_operator fd ch) then error else rest)
  refused-IsSafe error rest safe = rw no_operator safe

  -- A client that is no operator of a channel changes no channel by MODE on it with options,
  -- whatever they are, and does not crash the server.
  pub mode_refused :
      (modes : Text) (params : List Text)
      → Safe (Untouched s.channels) (process_channel_mode fd (command ∷ name ∷ modes ∷ params) s)
  unfolding process_channel_mode channel_mode token deref ◌>>=◌
  mode_refused modes params =
      let safe : IsSafe (Untouched s.channels)
          (process_channel_mode fd (command ∷ name ∷ modes ∷ params)) =
        search (safe_rules, bind_found-IsSafe, refused-IsSafe, error-IsSafe, reply-IsSafe) depth
          12 in
      safe.from s refl

  kick_from-IsSafe :
      (target reason : Text)
      → IsSafe (Untouched s.channels) (channel_named name >>= kick_from fd name target reason)
  unfolding kick_from
  kick_from-IsSafe target reason =
      bind_found-IsSafe _ (search (safe_rules, refused-IsSafe, error-IsSafe) depth 8)

  -- A client that is no operator of a channel changes no channel by KICK from it, whomever it names,
  -- and does not crash the server.
  pub kick_refused :
      (target : Text) (params : List Text)
      → Safe (Untouched s.channels) (process_kick fd (command ∷ name ∷ target ∷ params) s)
  unfolding process_kick token deref ◌>>=◌
  kick_refused target params =
      let enough : ltb (length (command ∷ name ∷ target ∷ params)) 3 ≡ false = ground arith in
      rw enough (
        Safe-and_then (kick_reason target (command ∷ name ∷ target ∷ params) s) _
          ((kick_reason-IsSafe s.channels command name target params).from s refl)
          (kick_from-IsSafe target))

  locked-IsSafe :
      {A : Type 0} (error rest : M A)
      → is_mode_set topic_set ch ≡ true
      → IsSafe (Untouched s.channels) error
      → IsSafe
          (Untouched s.channels)
          (if is_mode_set topic_set ch && not (has_operator fd ch) then error else rest)
  locked-IsSafe error rest locked safe =
      let no : (is_mode_set topic_set ch && not (has_operator fd ch)) ≡ true =
        ground (arith, locked, no_operator) in
      rw no safe

  -- A client that is no operator of a channel whose topic is locked changes no channel by TOPIC on
  -- it with a text, and does not crash the server.
  pub topic_refused :
      (topic : Text) (params : List Text)
      → is_mode_set topic_set ch ≡ true
      → Safe (Untouched s.channels) (process_topic fd (command ∷ name ∷ topic ∷ params) s)
  unfolding process_topic topic_found show_topic token deref ◌>>=◌
  topic_refused topic params locked =
      let safe : IsSafe (Untouched s.channels)
          (channel_named name >>= topic_found fd name (command ∷ name ∷ topic ∷ params)) =
        bind_found-IsSafe _
          (search (safe_rules, locked-IsSafe, error-IsSafe, reply-IsSafe) depth 10) in
      let enough : ltb (length (command ∷ name ∷ topic ∷ params)) 2 ≡ false = ground arith in
      rw enough (safe.from s refl)
