-- ===== src/Mariia/Remove.antt =====
-- `removeClient` of project/mariia/sources/Server.cpp keeps the invariant.
use ft_irc.Prelude.{
  ◌∙◌, ℕ, ◌≡◌, refl, subst, true, false, none, List, [], ◌∷◌, arith, ◌==◌, All, Bool-cases, inl,
  inr, is_empty,
}
use ft_irc.Text.{Text}
use ft_irc.Ann.State.{PollFd, contains}
use ft_irc.Ann.Tables.{contains-set_erase}
use ft_irc.Ann.Loop.{erase_poll}
use ft_irc.Mariia.Channel.{Channel, remove_member, remove_operator, remove_invited}
use ft_irc.Mariia.State.{Client, Server, erase_client, find_channel}
use ft_irc.Mariia.Exec.{modify}
use ft_irc.Mariia.Loop.{without_member, remove_client}
use ft_irc.Mariia.Tables.{client_fds, NamesDiffer}
use ft_irc.Mariia.Sound.{remove_member-IsSound}
use ft_irc.Mariia.Safe.{Safe}
use ft_irc.Mariia.Frame.{ChannelIsWf}
use ft_irc.Mariia.Calm.Leave.{remove_member-name}
use ft_irc.Mariia.Wf.{first_fd, IsWf, numbers, PollsDiffer, behind_first}

contains-erase_client :
    (fd p : ℕ) (l : List Client)
    → (fd == p) ≡ false
    → contains p (client_fds l) ≡ true
    → contains p (client_fds (erase_client fd l)) ≡ true
unfolding contains erase_client
contains-erase_client fd p [] other h = h
contains-erase_client fd p (c ∷ l) other h = ground (arith, contains-erase_client fd p l other)

contains-erase_poll :
    (fd p : ℕ) (l : List PollFd)
    → contains p (numbers (erase_poll fd l)) ≡ true
    → contains p (numbers l) ≡ true
unfolding contains erase_poll
contains-erase_poll fd p [] h = h
contains-erase_poll fd p (q ∷ l) h = ground (arith, contains-erase_poll fd p l)

erased-erase_poll :
    (fd : ℕ) (l : List PollFd) → PollsDiffer l → contains fd (numbers (erase_poll fd l)) ≡ false
unfolding contains erase_poll
erased-erase_poll fd [] d = refl
erased-erase_poll fd (q ∷ l) d = ground (arith, d.0, erased-erase_poll fd l d.1)

PollsDiffer-erase_poll : (fd : ℕ) (l : List PollFd) → PollsDiffer l → PollsDiffer (erase_poll fd l)
unfolding erase_poll
PollsDiffer-erase_poll fd [] d = tt
PollsDiffer-erase_poll fd (q ∷ l) d = elim (Bool-cases (q.fd == fd)) [
  | inl here ↦ rw here d.1
  | inr there ↦
      rw there (ground (arith, d.0, contains-erase_poll fd q.fd l), PollsDiffer-erase_poll fd l d.1)
]

-- A member that stays is another client.
left-ChannelIsWf :
    (fds to : List ℕ) (fd : ℕ) (ch : Channel)
    → ((p : ℕ) → (fd == p) ≡ false → contains p fds ≡ true → contains p to ≡ true)
    → ChannelIsWf fds ch
    → is_empty (remove_member fd ch).member_fds ≡ false
    → ChannelIsWf to (remove_member fd ch)
unfolding remove_member remove_operator remove_invited
left-ChannelIsWf fds to fd ch stay w some_left = record {
  sound = unfold remove_member in remove_member-IsSound ch w.sound fd;
  members = λ p h. ground (arith, contains-set_erase p fd ch.member_fds, w.members p, stay p);
  inhabited = some_left;
  lower_name = w.lower_name;
}

All-without_member :
    (fds to : List ℕ) (fd : ℕ) (l : List Channel)
    → ((p : ℕ) → (fd == p) ≡ false → contains p fds ≡ true → contains p to ≡ true)
    → All (ChannelIsWf fds) l
    → All (ChannelIsWf to) (without_member fd l)
unfolding without_member
All-without_member fds to fd [] stay all = tt
All-without_member fds to fd (ch ∷ l) stay all =
    elim (Bool-cases (is_empty (remove_member fd ch).member_fds)) [
      | inl gone ↦ rw gone (All-without_member fds to fd l stay all.1)
      | inr more ↦
          rw more (
            left-ChannelIsWf fds to fd ch stay all.0 more,
            All-without_member fds to fd l stay all.1,
          )
    ]

find_channel-without_member :
    (fd : ℕ) (n : Text) (l : List Channel)
    → find_channel n l ≡ none
    → find_channel n (without_member fd l) ≡ none
unfolding without_member find_channel
find_channel-without_member fd n [] h = refl
find_channel-without_member fd n (ch ∷ l) h =
    ground (arith, remove_member-name fd ch, find_channel-without_member fd n l)

NamesDiffer-without_member :
    (fd : ℕ) (l : List Channel) → NamesDiffer l → NamesDiffer (without_member fd l)
unfolding without_member
NamesDiffer-without_member fd [] d = tt
NamesDiffer-without_member fd (ch ∷ l) d =
    elim (Bool-cases (is_empty (remove_member fd ch).member_fds)) [
      | inl gone ↦ rw gone (NamesDiffer-without_member fd l d.1)
      | inr more ↦
          rw (more, remove_member-name fd ch)
            (find_channel-without_member fd ch.name l d.0, NamesDiffer-without_member fd l d.1)
    ]

not_member : (fd : ℕ) (ch : Channel) → contains fd (remove_member fd ch).member_fds ≡ false
unfolding remove_member remove_operator remove_invited
not_member fd ch = ground (arith, contains-set_erase fd fd ch.member_fds)

unlisted-without_member :
    (fd : ℕ) (l : List Channel)
    → All (λ ch. contains fd ch.member_fds ≡ false) (without_member fd l)
unfolding without_member
unlisted-without_member fd [] = tt
unlisted-without_member fd (ch ∷ l) =
    elim (Bool-cases (is_empty (remove_member fd ch).member_fds)) [
      | inl gone ↦ rw gone (unlisted-without_member fd l)
      | inr more ↦ rw more (not_member fd ch, unlisted-without_member fd l)
    ]

-- The listening socket, which comes first, is not the client.
not_first :
    (fd : ℕ) (l : List PollFd)
    → PollsDiffer l
    → contains fd (numbers (behind_first l)) ≡ true
    → behind_first (erase_poll fd l) ≡ erase_poll fd (behind_first l)
unfolding erase_poll contains
not_first fd [] d h = refl
not_first fd (q ∷ l) d h = ground (arith, d.0)

still_listening :
    (fd : ℕ) (l : List PollFd)
    → PollsDiffer l
    → contains fd (numbers (behind_first l)) ≡ true
    → first_fd (erase_poll fd l) ≡ first_fd l
unfolding erase_poll contains
still_listening fd [] d h = refl
still_listening fd (q ∷ l) d h = ground (arith, d.0)

PollsDiffer-behind : (l : List PollFd) → PollsDiffer l → PollsDiffer (behind_first l)
PollsDiffer-behind [] d = tt
PollsDiffer-behind (q ∷ l) d = d.1

other_number :
    (a p : ℕ) (l : List ℕ) → contains a l ≡ false → contains p l ≡ true → (a == p) ≡ false
other_number a p l absent there = ground arith

-- The invariant, and a descriptor that is on no channel and is not watched.
pub record IsGone (fd : ℕ) (s : Server) : Type 0 where
  pub wf : IsWf s
  pub unlisted : All (λ ch. contains fd ch.member_fds ≡ false) s.channels
  pub unwatched : contains fd (numbers s.poll_fds) ≡ false

-- The removal of a client that is watched keeps the invariant: the client is on no channel
-- afterwards, the channels it was the last member of are gone, and it is not watched any more.
pub remove_client-IsWf :
    (fd : ℕ) (s : Server)
    → IsWf s
    → contains fd (numbers (behind_first s.poll_fds)) ≡ true
    → Safe (IsGone fd) (remove_client fd s)
unfolding remove_client modify
remove_client-IsWf fd s w seen =
    let stay = λ (p : ℕ) (other : (fd == p) ≡ false). contains-erase_client fd p s.clients other in
    record {
      wf = record {
        frame = record {
          polls_same = refl;
          same = refl;
          names_differ = NamesDiffer-without_member fd s.channels w.frame.names_differ;
          channels =
              All-without_member (client_fds s.clients) _ fd s.channels stay w.frame.channels;
          present = tt;
        };
        polls_differ = PollsDiffer-erase_poll fd s.poll_fds w.polls_differ;
        listening = still_listening fd s.poll_fds w.polls_differ seen ∙ w.listening;
        watched = λ p h.
            let behind =
              subst (λ l. contains p (numbers l) ≡ true)
                (not_first fd s.poll_fds w.polls_differ seen) h in
            stay p
              (other_number fd p _
                (erased-erase_poll fd (behind_first s.poll_fds)
                  (PollsDiffer-behind s.poll_fds w.polls_differ))
                behind)
              (w.watched p (contains-erase_poll fd p _ behind));
      };
      unlisted = unlisted-without_member fd s.channels;
      unwatched = erased-erase_poll fd s.poll_fds w.polls_differ;
    }
