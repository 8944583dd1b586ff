-- ===== src/Mariia/Frame.antt =====
-- The invariant of the tables of clients and channels, as the commands keep it: they add no client
-- and remove none.
use ft_irc.Prelude.{
  ℕ, ◌≡◌, refl, sym, ap, ◌∙◌, true, false, Option, none, some, List, [], ◌∷◌, All, is_empty,
  is_none,
}
use ft_irc.Text.{Text, to_lower}
use ft_irc.Ann.State.{PollFd, contains}
use ft_irc.Mariia.Channel.{Channel}
use ft_irc.Mariia.State.{Client, Server, find_nick, find_channel, put_channel}
use ft_irc.Mariia.Exec.{M, deref, client_at, set_client, ◌>>=◌}
use ft_irc.Mariia.Replies.{channel_named, client_named, set_channel}
use ft_irc.Mariia.Tables.{
  client_fds, NamesDiffer, KeepsFd, client_fds-update_client, find_client-live, find_nick-live,
  find_channel-All, find_channel-name, All-put_channel, NamesDiffer-put_channel,
  is_none-find_channel-put,
}
use ft_irc.Mariia.Sound.{IsSound}
use ft_irc.Mariia.Safe.{IsSafe, IsSafe-modify, IsSafe-bind_read}

-- A channel is sound, has a member, and a name in lower case; its members are clients.
pub record ChannelIsWf (fds : List ℕ) (ch : Channel) : Type 0 where
  pub sound : IsSound ch
  pub members : (p : ℕ) → contains p ch.member_fds ≡ true → contains p fds ≡ true
  pub inhabited : is_empty ch.member_fds ≡ false
  pub lower_name : to_lower ch.name ≡ ch.name

-- The listening socket and the entries of the poll are `polls`, the clients those of `fds`, and the channels of `names` are there.
pub record Frame (polls : ℕ × List PollFd) (fds : List ℕ) (names : List Text) (s : Server)
    : Type 0 where
  pub polls_same : (s.socket_fd, s.poll_fds) ≡ polls
  pub same : client_fds s.clients ≡ fds
  pub names_differ : NamesDiffer s.channels
  pub channels : All (ChannelIsWf fds) s.channels
  pub present : All (λ n. is_none (find_channel n s.channels) ≡ false) names

-- The client that is found is a client; the channel that is found is well formed, and has the name.
abbrev pub ClientIsFound : List ℕ → Option Client → Type 0
ClientIsFound fds none = Unit
ClientIsFound fds (some c) = contains c.socket_fd fds ≡ true

abbrev pub ChannelIsFound : List ℕ → Text → Option Channel → Type 0
ChannelIsFound fds name none = Unit
ChannelIsFound fds name (some ch) = ChannelIsWf fds ch × (ch.name ≡ to_lower name)

present-put_channel :
    (ch : Channel) (l : List Channel) (names : List Text)
    → All (λ n. is_none (find_channel n l) ≡ false) names
    → All (λ n. is_none (find_channel n (put_channel ch l)) ≡ false) names
present-put_channel ch l [] all = tt
present-put_channel ch l (n ∷ names) all =
    (is_none-find_channel-put n ch l ∙ all.0, present-put_channel ch l names all.1)

module _ {polls : ℕ × List PollFd} {fds : List ℕ} {names : List Text} where
  pub IsSafe-client_at :
      (fd : ℕ) → contains fd fds ≡ true → IsSafe (Frame polls fds names) (client_at fd)
  unfolding client_at deref
  IsSafe-client_at fd live = record {
    from = λ s p. let (c, e) = find_client-live fd s.clients (rw p.same live) in rw (e, deref) p;
  }

  pub IsSafe-set_client :
      (fd : ℕ) (f : Client → Client) → KeepsFd f → IsSafe (Frame polls fds names) (set_client fd f)
  unfolding set_client
  IsSafe-set_client fd f k = IsSafe-modify _ λ s p. record {
    same = client_fds-update_client fd f s.clients k ∙ p.same;
    polls_same = p.polls_same;
    names_differ = p.names_differ;
    channels = p.channels;
    present = p.present;
  }

  pub IsSafe-set_channel :
      (ch : Channel) → ChannelIsWf fds ch → IsSafe (Frame polls fds names) (set_channel ch)
  unfolding set_channel
  IsSafe-set_channel ch fine = IsSafe-modify _ λ s p. record {
    same = p.same;
    polls_same = p.polls_same;
    names_differ = NamesDiffer-put_channel ch s.channels p.names_differ;
    channels = All-put_channel (ChannelIsWf fds) ch fine s.channels p.channels;
    present = present-put_channel ch s.channels names p.present;
  }

  pub IsSafe-bind_client :
      {B : Type 0} (nick : Text) (next : Option Client → M B)
      → ((o : Option Client) → ClientIsFound fds o → IsSafe (Frame polls fds names) (next o))
      → IsSafe (Frame polls fds names) (client_named nick >>= next)
  unfolding client_named
  IsSafe-bind_client nick next later =
      IsSafe-bind_read _ next λ s p. later _ (found s p (find_nick (to_lower nick) s.clients) refl)
    where
      found :
          (s : Server)
          → Frame polls fds names s
          → (o : Option Client) → find_nick (to_lower nick) s.clients ≡ o
          → ClientIsFound fds o
      found s p none e = tt
      found s p (some c) e =
          ap (contains c.socket_fd) (sym p.same) ∙ find_nick-live (to_lower nick) s.clients c e

  pub IsSafe-bind_channel :
      {B : Type 0} (name : Text) (next : Option Channel → M B)
      → ((o : Option Channel) → ChannelIsFound fds name o → IsSafe (Frame polls fds names) (next o))
      → IsSafe (Frame polls fds names) (channel_named name >>= next)
  unfolding channel_named
  IsSafe-bind_channel name next later =
      IsSafe-bind_read _ next
        λ s p. later _ (found s p (find_channel (to_lower name) s.channels) refl)
    where
      found :
          (s : Server)
          → Frame polls fds names s
          → (o : Option Channel) → find_channel (to_lower name) s.channels ≡ o
          → ChannelIsFound fds name o
      found s p none e = tt
      found s p (some ch) e = (
        find_channel-All (ChannelIsWf fds) (to_lower name) s.channels ch p.channels e,
        find_channel-name (to_lower name) s.channels ch e,
      )
