-- ===== src/Mariia/Calm/Join.antt =====
-- JOIN.
use ft_irc.Prelude.{
  ℕ, ◌≡◌, refl, sym, ◌∙◌, ap, true, false, none, List, [], ◌∷◌, ◌++◌, arith, is_empty, Bool-cases,
  Option-cases, inl, inr,
}
use ft_irc.Text.{Text, to_lower, to_lower-to_lower}
use ft_irc.Ann.State.{PollFd, contains, set_insert}
use ft_irc.Ann.Tables.{contains-set_insert}
use ft_irc.Mariia.State.{Server, joined_channel, find_channel, update_client}
use ft_irc.Mariia.Channel.{
  Channel, is_mode_set, has_bits, add_member, add_operator, remove_invited, auth_member, set_mode,
  new_channel,
}
use ft_irc.Mariia.Join.{
  Answer, silence, err_invite_only_chan, err_channel_is_full, err_bad_channel_key, joined,
  join_existing_channel, created_channel,
}
use ft_irc.Mariia.Exec.{M, gets, modify, deref, token, client_at, set_client, ◌>>=◌, ◌>>◌}
use ft_irc.Mariia.Replies.{channel_named}
use ft_irc.Mariia.Commands.Join.{
  all_nicks, send_join_replies, add_channel_of, answer_join, join_existing, create_and_join,
  is_valid_channel_name, join_found, but_first, join_loop, passwords_of, process_join,
}
use ft_irc.Mariia.Tables.{
  KeepsFd, find_client-live, find_channel-All, client_fds-update_client, All-push, NamesDiffer-push,
}
use ft_irc.Mariia.Sound.{join-IsSound}
use ft_irc.Mariia.Life.{created-IsSound}
use ft_irc.Mariia.Safe.{Safe, Safe-and_then, IsSafe, IsSafe-then}
use ft_irc.Mariia.Frame.{Frame, ChannelIsWf, IsSafe-set_client, IsSafe-set_channel}
use ft_irc.Mariia.Calm.Replies.{answer_rules, IsSafe-error}

joined-KeepsFd : (name : Text) → KeepsFd (joined_channel name)
unfolding joined_channel
joined-KeepsFd name = record { fd_same = λ c. refl }

join-name :
    (fd : ℕ) (password : Text) (ch : Channel)
    → (join_existing_channel fd password ch).1.name ≡ ch.name
unfolding join_existing_channel auth_member add_member remove_invited
join-name fd password ch = ground arith

is_empty-set_insert : (a : ℕ) (l : List ℕ) → is_empty (set_insert a l) ≡ false
unfolding set_insert
is_empty-set_insert a [] = refl
is_empty-set_insert a (x ∷ l) = ground arith

join-inhabited :
    (fd : ℕ) (password : Text) (ch : Channel)
    → is_empty ch.member_fds ≡ false
    → is_empty (join_existing_channel fd password ch).1.member_fds ≡ false
unfolding join_existing_channel auth_member add_member remove_invited
join-inhabited fd password ch h = ground (arith, is_empty-set_insert fd ch.member_fds)

join-members :
    (fds : List ℕ) (fd : ℕ) (password : Text) (ch : Channel) (p : ℕ)
    → contains fd fds ≡ true
    → (contains p ch.member_fds ≡ true → contains p fds ≡ true)
    → contains p (join_existing_channel fd password ch).1.member_fds ≡ true
    → contains p fds ≡ true
unfolding join_existing_channel auth_member add_member remove_invited
join-members fds fd password ch p live old h =
    ground (arith, contains-set_insert p fd ch.member_fds)

created-name :
    (unset_limit fd : ℕ) (name password : Text)
    → (created_channel unset_limit fd name password).name ≡ to_lower name
unfolding created_channel add_operator add_member new_channel set_mode is_mode_set has_bits
created-name unset_limit fd name [] = refl
created-name unset_limit fd name (c ∷ password) = refl

created-members :
    (unset_limit fd : ℕ) (name password : Text)
    → (created_channel unset_limit fd name password).member_fds ≡ fd ∷ []
unfolding created_channel add_operator add_member new_channel set_mode set_insert is_mode_set
    has_bits
created-members unset_limit fd name [] = refl
created-members unset_limit fd name (c ∷ password) = refl

module _ {fds : List ℕ} (fd : ℕ) (live : contains fd fds ≡ true) where
  join-ChannelIsWf :
      (password : Text) (ch : Channel)
      → ChannelIsWf fds ch
      → ChannelIsWf fds (join_existing_channel fd password ch).1
  join-ChannelIsWf password ch w = record {
    sound = join-IsSound ch w.sound fd password;
    members = λ p. join-members fds fd password ch p live (w.members p);
    inhabited = join-inhabited fd password ch w.inhabited;
    lower_name =
        ap to_lower (join-name fd password ch) ∙ w.lower_name ∙ sym (join-name fd password ch);
  }

  created-ChannelIsWf :
      (unset_limit : ℕ) (name password : Text)
      → ChannelIsWf fds (created_channel unset_limit fd name password)
  unfolding contains
  created-ChannelIsWf unset_limit name password =
      let named = created-name unset_limit fd name password in
      let alone = created-members unset_limit fd name password in
      record {
        sound = created-IsSound unset_limit fd name password;
        members = λ p h. ground (arith, alone, live);
        inhabited = ap is_empty alone;
        lower_name = ap to_lower named ∙ to_lower-to_lower name ∙ sym named;
      }

module _ {polls : ℕ × List PollFd} {fds : List ℕ} (fd : ℕ) (live : contains fd fds ≡ true) where
  pub all_nicks-IsSafe :
      (ch : Channel) (l : List ℕ)
      → ((p : ℕ) → contains p l ≡ true → contains p fds ≡ true)
      → IsSafe (Frame polls fds []) (all_nicks ch l)
  unfolding all_nicks contains
  all_nicks-IsSafe ch [] h = search (answer_rules)
  all_nicks-IsSafe ch (p ∷ l) h =
      let here : contains p fds ≡ true = h p (ground arith) in
      let rest = all_nicks-IsSafe ch l (λ q e. h q (ground arith)) in search (answer_rules) depth 6

  send_join_replies-IsSafe :
      (ch : Channel) → ChannelIsWf fds ch → IsSafe (Frame polls fds []) (send_join_replies fd ch)
  unfolding send_join_replies
  send_join_replies-IsSafe ch w =
      let nicks = all_nicks-IsSafe ch ch.member_fds w.members in search (answer_rules) depth 14

  answer_join-IsSafe :
      (a : Answer) (ch : Channel)
      → ChannelIsWf fds ch
      → IsSafe (Frame polls fds []) (answer_join fd a ch)
  unfolding answer_join add_channel_of
  answer_join-IsSafe silence ch w = search (answer_rules)
  answer_join-IsSafe err_invite_only_chan ch w = search (answer_rules)
  answer_join-IsSafe err_channel_is_full ch w = search (answer_rules)
  answer_join-IsSafe err_bad_channel_key ch w = search (answer_rules)
  answer_join-IsSafe joined ch w =
      let replies = send_join_replies-IsSafe ch w in
      search (answer_rules, IsSafe-set_client, joined-KeepsFd) depth 8

  join_existing-IsSafe :
      (password : Text) (ch : Channel)
      → ChannelIsWf fds ch
      → IsSafe (Frame polls fds []) (join_existing fd password ch)
  unfolding join_existing
  join_existing-IsSafe password ch w =
      let w' = join-ChannelIsWf fd live password ch w in
      IsSafe-then _ _ (IsSafe-set_channel _ w') (answer_join-IsSafe _ _ w')

  -- the state after `createAndJoinNewChannel`, before its replies
  opened-Frame :
      (name password : Text) (s : Server)
      → Frame polls fds [] s
      → find_channel (to_lower name) s.channels ≡ none
      → Frame polls fds [] (record s {
        clients = update_client fd (joined_channel name) s.clients;
        channels = s.channels ++ created_channel s.unset_limit fd name password ∷ [];
      })
  opened-Frame name password s p fresh =
      let named = created-name s.unset_limit fd name password in
      record {
        same = client_fds-update_client fd _ s.clients (joined-KeepsFd name) ∙ p.same;
        polls_same = p.polls_same;
        names_differ =
            NamesDiffer-push _ s.channels p.names_differ
              (ap (λ n. find_channel n s.channels) named ∙ fresh);
        present = tt;
        channels =
            All-push (ChannelIsWf fds) _ (created-ChannelIsWf fd live s.unset_limit name password)
              s.channels p.channels;
      }

  create_and_join-Safe :
      (name password : Text) (s : Server)
      → Frame polls fds [] s
      → find_channel (to_lower name) s.channels ≡ none
      → Safe (Frame polls fds []) (create_and_join fd name password s)
  unfolding create_and_join add_channel_of client_at deref gets modify set_client ◌>>=◌ ◌>>◌
  create_and_join-Safe name password s p fresh = elim (Bool-cases (is_valid_channel_name name)) [
    | inl valid ↦
        let (c, e) = find_client-live fd s.clients (rw p.same live) in
        rw (valid, e, deref)
          ((send_join_replies-IsSafe _
              (created-ChannelIsWf fd live s.unset_limit name password)).from
            _ (opened-Frame name password s p fresh))
    | inr bad ↦ rw bad ((IsSafe-error fd name _).from s p)
  ]

  join_one-IsSafe :
      (name password : Text) (rest : M (Unit {0}))
      → IsSafe (Frame polls fds []) rest
      → IsSafe
          (Frame polls fds [])
          (channel_named name >>= λ o. join_found fd name password o >> rest)
  unfolding channel_named gets join_found ◌>>=◌ ◌>>◌
  join_one-IsSafe name password rest later = record {
    from = λ s p. elim (Option-cases (find_channel (to_lower name) s.channels)) [
      | inl e ↦
          rw e (Safe-and_then _ (λ _. rest) (create_and_join-Safe name password s p e) (λ _. later))
      | inr (ch, e) ↦
          let w = find_channel-All (ChannelIsWf fds) (to_lower name) s.channels ch p.channels e in
          rw e (
            Safe-and_then _ (λ _. rest) ((join_existing-IsSafe password ch w).from s p)
              (λ _. later))
    ];
  }

  join_loop-IsSafe :
      (passwords names : List Text) → IsSafe (Frame polls fds []) (join_loop fd passwords names)
  unfolding join_loop
  join_loop-IsSafe passwords [] = search (answer_rules)
  join_loop-IsSafe passwords (name ∷ names) =
      let rest = join_loop-IsSafe (but_first passwords) names in
      search (answer_rules, join_one-IsSafe) depth 10

  pub process_join-IsSafe :
      (tokens : List Text) → IsSafe (Frame polls fds []) (process_join fd tokens)
  unfolding process_join passwords_of token
  process_join-IsSafe [] = search (answer_rules) depth 8
  process_join-IsSafe (command ∷ []) = search (answer_rules) depth 8
  process_join-IsSafe (command ∷ names ∷ []) = search (answer_rules, join_loop-IsSafe) depth 10
  process_join-IsSafe (command ∷ names ∷ given ∷ rest) =
      search (answer_rules, join_loop-IsSafe) depth 12
