-- ===== src/Mariia/Calm/Topic.antt =====
-- TOPIC and INVITE.
use ft_irc.Prelude.{ℕ, ◌≡◌, true, Option, none, some, List, [], ◌∷◌}
use ft_irc.Text.{Text}
use ft_irc.Ann.State.{PollFd, contains}
use ft_irc.Mariia.State.{Client}
use ft_irc.Mariia.Channel.{Channel, is_mode_set, add_invited}
use ft_irc.Mariia.Exec.{token}
use ft_irc.Mariia.Commands.Topic.{
  show_topic, set_topic, topic_found, process_topic, send_invite, invite_to, invite_found,
  process_invite,
}
use ft_irc.Mariia.Sound.{IsSound}
use ft_irc.Mariia.Safe.{IsSafe}
use ft_irc.Mariia.Frame.{
  Frame, ChannelIsWf, ChannelIsFound, IsSafe-set_channel, IsSafe-bind_client, IsSafe-bind_channel,
}
use ft_irc.Mariia.Calm.Replies.{answer_rules}

topic-IsSound : (topic : Text) (ch : Channel) → IsSound ch → IsSound (record ch { topic = topic })
unfolding is_mode_set
topic-IsSound topic ch s = record {
  bits = s.bits;
  operators = s.operators;
  key = s.key;
  limit = s.limit;
}

topic-ChannelIsWf :
    {fds : List ℕ} (topic : Text) (ch : Channel)
    → ChannelIsWf fds ch
    → ChannelIsWf fds (record ch { topic = topic })
topic-ChannelIsWf topic ch w = record {
  sound = topic-IsSound topic ch w.sound;
  members = w.members;
  inhabited = w.inhabited;
  lower_name = w.lower_name;
}

invited-IsSound : (fd : ℕ) (ch : Channel) → IsSound ch → IsSound (add_invited fd ch)
unfolding is_mode_set add_invited
invited-IsSound fd ch s = record {
  bits = s.bits;
  operators = s.operators;
  key = s.key;
  limit = s.limit;
}

invited-ChannelIsWf :
    {fds : List ℕ} (fd : ℕ) (ch : Channel)
    → ChannelIsWf fds ch
    → ChannelIsWf fds (add_invited fd ch)
unfolding add_invited
invited-ChannelIsWf fd ch w = record {
  sound = unfold add_invited in invited-IsSound fd ch w.sound;
  members = w.members;
  inhabited = w.inhabited;
  lower_name = w.lower_name;
}

module _ {polls : ℕ × List PollFd} {fds : List ℕ} (fd : ℕ) (live : contains fd fds ≡ true) where
  topic_found-IsSafe :
      (name : Text) (command target first : Text) (rest : List Text) (o : Option Channel)
      → ChannelIsFound fds name o
      → IsSafe (Frame polls fds []) (topic_found fd name (command ∷ target ∷ first ∷ rest) o)
  unfolding topic_found show_topic set_topic token
  topic_found-IsSafe name command target first rest none h = search (answer_rules) depth 6
  topic_found-IsSafe name command target first rest (some ch) h =
      let w = h.0 in search (answer_rules, IsSafe-set_channel, topic-ChannelIsWf) depth 14

  show_topic-IsSafe : (name topic : Text) → IsSafe (Frame polls fds []) (show_topic fd name topic)
  unfolding show_topic
  show_topic-IsSafe name topic = search (answer_rules) depth 6

  topic_shown-IsSafe :
      (name : Text) (command target : Text) (o : Option Channel)
      → IsSafe (Frame polls fds []) (topic_found fd name (command ∷ target ∷ []) o)
  unfolding topic_found
  topic_shown-IsSafe name command target none = search (answer_rules) depth 6
  topic_shown-IsSafe name command target (some ch) = show_topic-IsSafe name ch.topic

  pub process_topic-IsSafe :
      (tokens : List Text) → IsSafe (Frame polls fds []) (process_topic fd tokens)
  unfolding process_topic token
  process_topic-IsSafe [] = search (answer_rules) depth 8
  process_topic-IsSafe (command ∷ []) = search (answer_rules) depth 8
  process_topic-IsSafe (command ∷ target ∷ []) =
      search (answer_rules, IsSafe-bind_channel, topic_shown-IsSafe) depth 10
  process_topic-IsSafe (command ∷ target ∷ first ∷ rest) =
      search (answer_rules, IsSafe-bind_channel, topic_found-IsSafe) depth 10

  send_invite-IsSafe :
      (nick name : Text) (c : Client) → IsSafe (Frame polls fds []) (send_invite fd nick name c)
  unfolding send_invite
  send_invite-IsSafe nick name c = search (answer_rules) depth 10

  invite_found-IsSafe :
      (nick name : Text) (c : Option Client) (o : Option Channel)
      → ChannelIsFound fds name o
      → IsSafe (Frame polls fds []) (invite_found fd nick name c o)
  unfolding invite_found invite_to
  invite_found-IsSafe nick name none o h = search (answer_rules) depth 6
  invite_found-IsSafe nick name (some c) none h = search (answer_rules) depth 6
  invite_found-IsSafe nick name (some c) (some ch) h =
      let w = h.0 in
      search (answer_rules, send_invite-IsSafe, IsSafe-set_channel, invited-ChannelIsWf) depth 10

  pub process_invite-IsSafe :
      (tokens : List Text) → IsSafe (Frame polls fds []) (process_invite fd tokens)
  unfolding process_invite token
  process_invite-IsSafe [] = search (answer_rules) depth 8
  process_invite-IsSafe (command ∷ []) = search (answer_rules) depth 8
  process_invite-IsSafe (command ∷ nick ∷ []) = search (answer_rules) depth 8
  process_invite-IsSafe (command ∷ nick ∷ name ∷ rest) =
      search (answer_rules, IsSafe-bind_client, IsSafe-bind_channel, invite_found-IsSafe) depth 12
