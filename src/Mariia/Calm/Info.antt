-- ===== src/Mariia/Calm/Info.antt =====
-- NAMES, LIST, WHO, WHOIS and PING.
use ft_irc.Prelude.{
  ℕ, ◌≡◌, Bool, true, false, Option, none, some, List, [], ◌∷◌, arith, All, Option-cases, inl, inr,
}
use ft_irc.Text.{Text, to_lower}
use ft_irc.Ann.State.{PollFd, contains}
use ft_irc.Mariia.Channel.{Channel}
use ft_irc.Mariia.State.{find_channel}
use ft_irc.Mariia.Exec.{M, gets, token, ◌>>=◌}
use ft_irc.Mariia.Commands.Info.{
  visible_nicks, channel_nicks, clients_of_channels, find_channels, send_nicks, send_names,
  all_names, names_of, process_names, list_channels, list_named, process_list, who_members,
  who_channel, who_target, process_who, process_whois, process_ping, insert_nicks,
}
use ft_irc.Mariia.Tables.{find_channel-All}
use ft_irc.Mariia.Safe.{IsSafe, IsSafe-bind_read}
use ft_irc.Mariia.Frame.{
  Frame, ChannelIsWf, ChannelIsFound, IsSafe-bind_client, IsSafe-bind_channel,
}
use ft_irc.Mariia.Calm.Replies.{answer_rules}
use ft_irc.Mariia.Calm.Join.{all_nicks-IsSafe}

All-find_channels :
    (P : Channel → Type 0) (names : List Text) (chs : List Channel)
    → All P chs
    → All P (find_channels names chs)
unfolding find_channels
All-find_channels P [] chs all = tt
All-find_channels P (name ∷ names) chs all =
    elim (Option-cases (find_channel (to_lower name) chs)) [
      | inl e ↦ rw (All, e) (All-find_channels P names chs all)
      | inr (ch, e) ↦
          rw (All, e)
            (find_channel-All P (to_lower name) chs ch all e, All-find_channels P names chs all)
    ]

module _ {polls : ℕ × List PollFd} {fds : List ℕ} where
  bind_named-IsSafe :
      {B : Type 0} (names : List Text) (next : List Channel → M B)
      → ((chs : List Channel) → All (ChannelIsWf fds) chs → IsSafe (Frame polls fds []) (next chs))
      → IsSafe (Frame polls fds []) (gets (λ s. find_channels names s.channels) >>= next)
  bind_named-IsSafe names next later =
      IsSafe-bind_read _ next
        λ s p. later _ (All-find_channels (ChannelIsWf fds) names s.channels p.channels)

  bind_channels-IsSafe :
      {B : Type 0} (next : List Channel → M B)
      → ((chs : List Channel) → All (ChannelIsWf fds) chs → IsSafe (Frame polls fds []) (next chs))
      → IsSafe (Frame polls fds []) (gets (λ s. s.channels) >>= next)
  bind_channels-IsSafe next later = IsSafe-bind_read _ next λ s p. later _ p.channels

  visible_nicks-IsSafe :
      (ch : Channel) (l : List ℕ)
      → ((p : ℕ) → contains p l ≡ true → contains p fds ≡ true)
      → IsSafe (Frame polls fds []) (visible_nicks ch l)
  unfolding visible_nicks contains
  visible_nicks-IsSafe ch [] h = search (answer_rules)
  visible_nicks-IsSafe ch (p ∷ l) h =
      let here : contains p fds ≡ true = h p (ground arith) in
      let rest = visible_nicks-IsSafe ch l (λ q e. h q (ground arith)) in
      search (answer_rules) depth 6

  who_members-IsSafe :
      (fd : ℕ) (ch : Channel) (l : List ℕ)
      → ((p : ℕ) → contains p l ≡ true → contains p fds ≡ true)
      → IsSafe (Frame polls fds []) (who_members fd ch l)
  unfolding who_members contains
  who_members-IsSafe fd ch [] h = search (answer_rules)
  who_members-IsSafe fd ch (p ∷ l) h =
      let here : contains p fds ≡ true = h p (ground arith) in
      let rest = who_members-IsSafe fd ch l (λ q e. h q (ground arith)) in
      search (answer_rules) depth 6

module _ {polls : ℕ × List PollFd} {fds : List ℕ} (fd : ℕ) (live : contains fd fds ≡ true) where
  channel_nicks-IsSafe :
      (ch : Channel) → ChannelIsWf fds ch → IsSafe (Frame polls fds []) (channel_nicks fd ch)
  unfolding channel_nicks
  channel_nicks-IsSafe ch w =
      let every = all_nicks-IsSafe {polls = polls} fd live ch ch.member_fds w.members in
      let seen = visible_nicks-IsSafe {polls = polls} ch ch.member_fds w.members in
      search (answer_rules) depth 6

  clients_of_channels-IsSafe :
      (chs : List Channel) (nicks : List (Text × List Text))
      → All (ChannelIsWf fds) chs
      → IsSafe (Frame polls fds []) (clients_of_channels fd chs nicks)
  unfolding clients_of_channels
  clients_of_channels-IsSafe [] nicks all = search (answer_rules)
  clients_of_channels-IsSafe (ch ∷ chs) nicks all =
      let here = channel_nicks-IsSafe ch all.0 in
      let rest =
        λ (l : List Text). clients_of_channels-IsSafe chs (insert_nicks ch.name l nicks) all.1 in
      search (answer_rules) depth 6

  send_names-IsSafe :
      (nicks : List (Text × List Text)) → IsSafe (Frame polls fds []) (send_names fd nicks)
  unfolding send_names send_nicks
  send_names-IsSafe nicks = search (answer_rules) depth 10

  pub process_names-IsSafe :
      (command : Text) (params : List Text)
      → IsSafe (Frame polls fds []) (process_names fd (command ∷ params))
  unfolding process_names all_names names_of token
  process_names-IsSafe command [] =
      search (answer_rules, bind_channels-IsSafe, clients_of_channels-IsSafe, send_names-IsSafe)
        depth 14
  process_names-IsSafe command (names ∷ rest) =
      search
        (
          answer_rules, bind_channels-IsSafe, bind_named-IsSafe, clients_of_channels-IsSafe,
          send_names-IsSafe,
        )
        depth 14

  pub process_list-IsSafe :
      (command : Text) (params : List Text)
      → IsSafe (Frame polls fds []) (process_list fd (command ∷ params))
  unfolding process_list list_channels list_named token
  process_list-IsSafe command [] = search (answer_rules) depth 14
  process_list-IsSafe command (names ∷ rest) = search (answer_rules) depth 14

  who_target-IsSafe :
      (target : Text) (is_channel : Bool)
      → IsSafe (Frame polls fds []) (who_target fd target is_channel)
  unfolding who_target who_channel
  who_target-IsSafe target true = IsSafe-bind_channel target _ who
    where
      who :
          (o : Option Channel)
          → ChannelIsFound fds target o
          → IsSafe (Frame polls fds []) (who_channel fd o)
      who none found = search (answer_rules)
      who (some ch) found = who_members-IsSafe fd ch ch.member_fds found.0.members
  who_target-IsSafe target false = search (answer_rules, IsSafe-bind_client) depth 6

  pub process_who-IsSafe :
      (tokens : List Text) → IsSafe (Frame polls fds []) (process_who fd tokens)
  unfolding process_who token
  process_who-IsSafe [] = search (answer_rules) depth 8
  process_who-IsSafe (command ∷ []) = search (answer_rules) depth 8
  process_who-IsSafe (command ∷ target ∷ rest) = search (answer_rules, who_target-IsSafe) depth 12

  pub process_whois-IsSafe :
      (tokens : List Text) → IsSafe (Frame polls fds []) (process_whois fd tokens)
  unfolding process_whois
  process_whois-IsSafe tokens = search (answer_rules)

  pub process_ping-IsSafe :
      (tokens : List Text) → IsSafe (Frame polls fds []) (process_ping fd tokens)
  unfolding process_ping token
  process_ping-IsSafe [] = search (answer_rules) depth 8
  process_ping-IsSafe (command ∷ []) = search (answer_rules) depth 8
  process_ping-IsSafe (command ∷ target ∷ rest) = search (answer_rules) depth 8
