-- ===== src/Mariia/Calm/Leave.antt =====
-- PART, KICK and QUIT. A channel goes with its last member.
use ft_irc.Prelude.{
  ℕ, ◌≡◌, refl, sym, ◌∙◌, ap, subst, true, false, Option, none, some, List, [], ◌∷◌, arith,
  is_empty, All, Bool-cases, inl, inr,
}
use ft_irc.Text.{Text, text_eq_refl, to_lower}
use ft_irc.Ann.State.{PollFd, contains}
use ft_irc.Ann.Tables.{contains-set_erase}
use ft_irc.Mariia.State.{Client, Server, left_channel, put_channel, erase_channel}
use ft_irc.Mariia.Channel.{Channel, remove_member, remove_operator, remove_invited}
use ft_irc.Mariia.Exec.{pure, modify, deref, token, client_at, set_client, ◌>>=◌, ◌>>◌}
use ft_irc.Mariia.Replies.{set_channel}
use ft_irc.Mariia.Commands.Leave.{
  remove_if_empty, remove_client_from_channel, part_found, part_one, part_reason, process_part,
  kick_reason, kick_found, kick_from, process_kick, sharing_fds, quit_reason, process_quit,
}
use ft_irc.Mariia.Tables.{
  KeepsFd, find_client-live, client_fds-update_client, All-put_channel, All-erase_channel,
  NamesDiffer-put_channel, NamesDiffer-erase_channel,
}
use ft_irc.Mariia.Sound.{remove_member-IsSound}
use ft_irc.Mariia.Safe.{Safe, IsSafe}
use ft_irc.Mariia.Frame.{
  Frame, ChannelIsWf, ClientIsFound, ChannelIsFound, IsSafe-set_client, IsSafe-bind_client,
  IsSafe-bind_channel,
}
use ft_irc.Mariia.Calm.Replies.{answer_rules}

left-KeepsFd : (name : Text) → KeepsFd (left_channel name)
unfolding left_channel
left-KeepsFd name = record { fd_same = λ c. refl }

quit-KeepsFd : KeepsFd (λ c. record c { quit = true })
quit-KeepsFd = record { fd_same = λ c. refl }

-- What has been put under a name is erased under it.
erase_channel-put_channel :
    (new : Channel) (l : List Channel)
    → erase_channel new.name (put_channel new l) ≡ erase_channel new.name l
unfolding erase_channel put_channel
erase_channel-put_channel new [] = refl
erase_channel-put_channel new (ch ∷ l) =
    ground (arith, text_eq_refl new.name, erase_channel-put_channel new l)

pub remove_member-name : (fd : ℕ) (ch : Channel) → (remove_member fd ch).name ≡ ch.name
unfolding remove_member remove_operator remove_invited
remove_member-name fd ch = refl

pub remove_member-ChannelIsWf :
    (fds : List ℕ) (fd : ℕ) (ch : Channel)
    → ChannelIsWf fds ch
    → is_empty (remove_member fd ch).member_fds ≡ false
    → ChannelIsWf fds (remove_member fd ch)
unfolding remove_member remove_operator remove_invited
remove_member-ChannelIsWf fds fd ch w some_left = record {
  sound = unfold remove_member in remove_member-IsSound ch w.sound fd;
  members = λ p h. ground (arith, contains-set_erase p fd ch.member_fds, w.members p);
  inhabited = some_left;
  lower_name = w.lower_name;
}

module _ {polls : ℕ × List PollFd} {fds : List ℕ} where
  removed-Safe :
      (fd : ℕ) (ch : Channel) (s : Server)
      → contains fd fds ≡ true
      → ChannelIsWf fds ch
      → Frame polls fds [] s
      → Safe (Frame polls fds []) (remove_client_from_channel fd ch s)
  unfolding remove_client_from_channel remove_if_empty set_channel client_at deref modify set_client
      pure ◌>>=◌ ◌>>◌
  removed-Safe fd ch s live w p =
      let left = remove_member fd ch in
      let (c, e) = find_client-live fd s.clients (rw p.same live) in
      let same =
        client_fds-update_client fd (left_channel ch.name) s.clients (left-KeepsFd ch.name)
        ∙ p.same in
      let low : to_lower left.name ≡ left.name =
        ap to_lower (remove_member-name fd ch) ∙ w.lower_name ∙ sym (remove_member-name fd ch) in
      elim (Bool-cases (is_empty left.member_fds)) [
        | inl gone ↦
            rw (e, deref, gone, low)
              (record {
                same = same;
                polls_same = p.polls_same;
                present = tt;
                names_differ =
                    NamesDiffer-erase_channel left.name (put_channel left s.channels)
                      (NamesDiffer-put_channel left s.channels p.names_differ);
                channels =
                    subst (All (ChannelIsWf fds)) (sym (erase_channel-put_channel left s.channels))
                      (All-erase_channel (ChannelIsWf fds) left.name s.channels p.channels);
              })
        | inr more ↦
            rw (e, deref, more)
              (record {
                same = same;
                polls_same = p.polls_same;
                present = tt;
                names_differ = NamesDiffer-put_channel left s.channels p.names_differ;
                channels =
                    All-put_channel (ChannelIsWf fds) left
                      (remove_member-ChannelIsWf fds fd ch w more) s.channels p.channels;
              })
      ]

  removed-IsSafe :
      (fd : ℕ) (ch : Channel)
      → contains fd fds ≡ true
      → ChannelIsWf fds ch
      → IsSafe (Frame polls fds []) (remove_client_from_channel fd ch)
  removed-IsSafe fd ch live w = record { from = λ s p. removed-Safe fd ch s live w p }

module _ {polls : ℕ × List PollFd} {fds : List ℕ} (fd : ℕ) (live : contains fd fds ≡ true) where
  part_found-IsSafe :
      (reason name : Text) (o : Option Channel)
      → ChannelIsFound fds name o
      → IsSafe (Frame polls fds []) (part_found fd reason name o)
  unfolding part_found
  part_found-IsSafe reason name none h = search (answer_rules) depth 6
  part_found-IsSafe reason name (some ch) h =
      let removed = removed-IsSafe {polls = polls} fd ch live h.0 in search (answer_rules) depth 9

  part_one-IsSafe : (reason name : Text) → IsSafe (Frame polls fds []) (part_one fd reason name)
  unfolding part_one
  part_one-IsSafe reason name = search (IsSafe-bind_channel, part_found-IsSafe)

  pub process_part-IsSafe :
      (tokens : List Text) → IsSafe (Frame polls fds []) (process_part fd tokens)
  unfolding process_part part_reason token
  process_part-IsSafe [] = search (answer_rules) depth 8
  process_part-IsSafe (command ∷ []) = search (answer_rules) depth 8
  process_part-IsSafe (command ∷ names ∷ []) = search (answer_rules, part_one-IsSafe) depth 10
  process_part-IsSafe (command ∷ names ∷ first ∷ rest) =
      search (answer_rules, part_one-IsSafe) depth 12

  kick_found-IsSafe :
      (name target reason : Text) (ch : Channel) (o : Option Client)
      → ChannelIsWf fds ch
      → ClientIsFound fds o
      → IsSafe (Frame polls fds []) (kick_found fd name target reason ch o)
  unfolding kick_found
  kick_found-IsSafe name target reason ch none w h = search (answer_rules) depth 6
  kick_found-IsSafe name target reason ch (some c) w h =
      let removed = removed-IsSafe {polls = polls} c.socket_fd ch h w in
      search (answer_rules) depth 9

  kick_from-IsSafe :
      (name target reason : Text) (o : Option Channel)
      → ChannelIsFound fds name o
      → IsSafe (Frame polls fds []) (kick_from fd name target reason o)
  unfolding kick_from
  kick_from-IsSafe name target reason none h = search (answer_rules) depth 6
  kick_from-IsSafe name target reason (some ch) h =
      let w = h.0 in search (answer_rules, IsSafe-bind_client, kick_found-IsSafe) depth 9

  pub process_kick-IsSafe :
      (tokens : List Text) → IsSafe (Frame polls fds []) (process_kick fd tokens)
  unfolding process_kick kick_reason token
  process_kick-IsSafe [] = search (answer_rules) depth 8
  process_kick-IsSafe (command ∷ []) = search (answer_rules) depth 8
  process_kick-IsSafe (command ∷ name ∷ []) = search (answer_rules) depth 8
  process_kick-IsSafe (command ∷ name ∷ target ∷ []) =
      search (answer_rules, IsSafe-bind_channel, kick_from-IsSafe) depth 12
  process_kick-IsSafe (command ∷ name ∷ target ∷ first ∷ rest) =
      search (answer_rules, IsSafe-bind_channel, kick_from-IsSafe) depth 12

  sharing_fds-IsSafe : (names : List Text) → IsSafe (Frame polls fds []) (sharing_fds names)
  unfolding sharing_fds
  sharing_fds-IsSafe [] = search (answer_rules) depth 6
  sharing_fds-IsSafe (name ∷ names) =
      let rest = sharing_fds-IsSafe names in
      IsSafe-bind_channel name _ λ o h. search (answer_rules) depth 6

  quit_reason-IsSafe : (tokens : List Text) → IsSafe (Frame polls fds []) (quit_reason tokens)
  unfolding quit_reason
  quit_reason-IsSafe [] = search (answer_rules)
  quit_reason-IsSafe (command ∷ []) = search (answer_rules)
  quit_reason-IsSafe (command ∷ first ∷ rest) = search (answer_rules)

  pub process_quit-IsSafe :
      (tokens : List Text) → IsSafe (Frame polls fds []) (process_quit fd tokens)
  unfolding process_quit
  process_quit-IsSafe tokens =
      search (answer_rules, sharing_fds-IsSafe, quit_reason-IsSafe, IsSafe-set_client, quit-KeepsFd)
        depth 16
