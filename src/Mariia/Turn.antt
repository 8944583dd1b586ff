-- ===== src/Mariia/Turn.antt =====
-- The steps of the loop of project/mariia/sources/Server.cpp on states with the invariant.
use ft_irc.Prelude.{
  ℕ, zero, suc, ◌≡◌, refl, subst, true, false, some, List, [], ◌∷◌, ◌++◌, arith, ◌==◌,
  if◌then◌else◌, All, Bool-cases, inl, inr, get_elem?,
}
use ft_irc.Text.{Text}
use ft_irc.Ann.State.{PollFd, pollin, contains}
use ft_irc.Mariia.Channel.{Channel}
use ft_irc.Mariia.State.{Client, Server, find_client, new_client, insert_client}
use ft_irc.Mariia.Exec.{
  M, Outcome, returned, thrown, crashed, undefined, modify, throw, and_then, ◌>>=◌, ◌>>◌,
}
use ft_irc.Mariia.Commands.Leave.{process_quit}
use ft_irc.Mariia.Loop.{
  add_client, accept_connection, Received, error, closed, bytes, lose_client, until_nul,
  receive_data, remove_client, entry, poll_at, receive_at,
}
use ft_irc.Mariia.Tables.{client_fds, KeepsFd}
use ft_irc.Mariia.Safe.{Safe, Safe-and_then, Safe-weaken}
use ft_irc.Mariia.Frame.{ChannelIsWf, IsSafe-set_client}
use ft_irc.Mariia.Calm.Parse.{NoLoneCap, left_over, pars_buffer-Safe}
use ft_irc.Mariia.Calm.Replies.{answer_rules}
use ft_irc.Mariia.Parse.{pars_buffer}
use ft_irc.Mariia.Calm.Leave.{process_quit-IsSafe}
use ft_irc.Mariia.Wf.{IsWf, StillWf, Serves, numbers, PollsDiffer, first_fd, behind_first, still}
use ft_irc.Mariia.Remove.{IsGone, remove_client-IsWf}

Safe-next :
    {A B : Type 0} {P Q : Server → Type 0} (o : Outcome A) (next : A → M B)
    → Safe P o
    → ((s : Server) → P s → Q s)
    → ((a : A) (s : Server) → P s → Safe Q (next a s))
    → Safe Q (and_then o next)
Safe-next (returned a s) next now weaken later = later a s now
Safe-next (thrown s) next now weaken later = weaken s now
Safe-next crashed next now weaken later = now
Safe-next undefined next now weaken later = now

-- ACCEPT

contains-insert_client :
    (c : Client) (p : ℕ) (l : List Client)
    → contains p (client_fds l) ≡ true
    → contains p (client_fds (insert_client c l)) ≡ true
unfolding contains insert_client
contains-insert_client c p [] h = absurd (ground arith)
contains-insert_client c p (d ∷ l) h = ground (arith, contains-insert_client c p l)

inserted-insert_client :
    (c : Client) (l : List Client) → contains c.socket_fd (client_fds (insert_client c l)) ≡ true
unfolding contains insert_client
inserted-insert_client c [] = ground arith
inserted-insert_client c (d ∷ l) = ground (arith, inserted-insert_client c l)

more-ChannelIsWf :
    (fds to : List ℕ)
    → ((p : ℕ) → contains p fds ≡ true → contains p to ≡ true)
    → (l : List Channel) → All (ChannelIsWf fds) l
    → All (ChannelIsWf to) l
more-ChannelIsWf fds to more [] all = tt
more-ChannelIsWf fds to more (ch ∷ l) all = (
  record {
    sound = all.0.sound;
    members = λ p h. more p (all.0.members p h);
    inhabited = all.0.inhabited;
    lower_name = all.0.lower_name;
  },
  more-ChannelIsWf fds to more l all.1,
)

-- A new entry at the end.
contains-pushed :
    (p : ℕ) (new : PollFd) (l : List PollFd)
    → contains p (numbers (l ++ new ∷ [])) ≡ (if contains p (numbers l) then true else new.fd == p)
unfolding contains
contains-pushed p new [] = ground arith
contains-pushed p new (q ∷ l) = ground (arith, contains-pushed p new l)

PollsDiffer-pushed :
    (new : PollFd) (l : List PollFd)
    → PollsDiffer l
    → contains new.fd (numbers l) ≡ false
    → PollsDiffer (l ++ new ∷ [])
unfolding contains
PollsDiffer-pushed new [] d h = (refl, tt)
PollsDiffer-pushed new (q ∷ l) d h = (
  ground (arith, d.0, contains-pushed q.fd new l),
  PollsDiffer-pushed new l d.1 (ground (arith, h)),
)

first-pushed :
    (new : PollFd) (l : List PollFd) (socket : ℕ)
    → first_fd l ≡ some socket
    → first_fd (l ++ new ∷ []) ≡ some socket
first-pushed new [] socket h = cc
first-pushed new (q ∷ l) socket h = h

watched-pushed :
    (c : Client) (new : PollFd) (l : List PollFd) (clients : List Client) (socket : ℕ)
    → new.fd ≡ c.socket_fd
    → first_fd l ≡ some socket
    → ((p : ℕ)
        → contains p (numbers (behind_first l)) ≡ true
        → contains p (client_fds clients) ≡ true)
    → (p : ℕ) → contains p (numbers (behind_first (l ++ new ∷ []))) ≡ true
    → contains p (client_fds (insert_client c clients)) ≡ true
watched-pushed c new [] clients socket same some_there old p h = cc
watched-pushed c new (q ∷ l) clients socket same some_there old p h =
    elim (Bool-cases (contains p (numbers l))) [
      | inl there ↦ contains-insert_client c p clients (old p there)
      | inr here ↦
          let e : c.socket_fd ≡ p = ground (arith, contains-pushed p new l) in
          subst (λ n. contains n (client_fds (insert_client c clients)) ≡ true) e
            (inserted-insert_client c clients)
    ]

-- A connection with a fresh descriptor keeps the invariant.
pub accept_connection-IsWf :
    (fd : ℕ) (hostname : Text) (s : Server)
    → IsWf s
    → contains fd (numbers s.poll_fds) ≡ false
    → Safe (Serves s.socket_fd) (accept_connection fd hostname s)
unfolding accept_connection add_client new_client modify ◌>>◌ ◌>>=◌
accept_connection-IsWf fd hostname s w fresh =
    let c = new_client fd hostname in
    let new : PollFd = record { fd = fd; events = pollin } in
    let named : c.socket_fd ≡ fd = refl in
    record {
      at_socket = refl;
      wf = record {
        frame = record {
          polls_same = refl;
          same = refl;
          names_differ = w.frame.names_differ;
          channels =
              more-ChannelIsWf (client_fds s.clients) _ (λ p. contains-insert_client c p s.clients)
                s.channels w.frame.channels;
          present = tt;
        };
        polls_differ = PollsDiffer-pushed new s.poll_fds w.polls_differ fresh;
        listening = first-pushed new s.poll_fds s.socket_fd w.listening;
        watched = watched-pushed c new s.poll_fds s.clients s.socket_fd refl w.listening w.watched;
      };
    }

-- RECV

in_list :
    (l : List PollFd) (i : ℕ) (p : PollFd)
    → get_elem? l i ≡ some p
    → contains p.fd (numbers l) ≡ true
unfolding contains
in_list [] i p h = cc
in_list (q ∷ l) zero p h =
    let same : q ≡ p = ground arith in
    subst (λ (x : PollFd). contains x.fd (numbers (q ∷ l)) ≡ true) same (ground arith)
in_list (q ∷ l) (suc i) p h = ground (arith, in_list l i p)

pub get_elem?-watched :
    (l : List PollFd) (i : ℕ) (p : PollFd)
    → get_elem? l (suc i) ≡ some p
    → contains p.fd (numbers (behind_first l)) ≡ true
get_elem?-watched [] i p h = cc
get_elem?-watched (q ∷ l) i p h = in_list l i p h

quit-KeepsFd : KeepsFd (λ x. record x { quit = true })
quit-KeepsFd = record { fd_same = λ c. refl }

pub lose_client-IsWf :
    (fd : ℕ) (s : Server)
    → IsWf s
    → contains fd (numbers (behind_first s.poll_fds)) ≡ true
    → Safe (Serves s.socket_fd) (lose_client fd s)
unfolding lose_client remove_client modify ◌>>◌ ◌>>=◌
lose_client-IsWf fd s w seen =
    Safe-next (process_quit fd [] s) (λ _. remove_client fd)
      (Safe-weaken _ (λ t. still s t w)
        ((process_quit-IsSafe fd (w.watched fd seen) []).from s w.frame))
      (λ t k. record { wf = k.wf; at_socket = k.same_socket })
      (λ a t k.
        let gone : IsGone fd _ = remove_client-IsWf fd t k.wf (rw k.same_polls seen) in
        record { wf = gone.wf; at_socket = k.same_socket })

-- What is received is an error, the end of the stream, or bytes of which no line is CAP alone.
abbrev pub ReceivedExpected : ℕ → Received → Server → Type 0
ReceivedExpected fd error s = Unit
ReceivedExpected fd closed s = Unit
ReceivedExpected fd (bytes buffer) s =
    NoLoneCap (left_over (find_client fd s.clients) ++ until_nul buffer)

receive_data-IsWf :
    (fd : ℕ) (r : Received) (s : Server)
    → IsWf s
    → contains fd (numbers (behind_first s.poll_fds)) ≡ true
    → ReceivedExpected fd r s
    → Safe (Serves s.socket_fd) (receive_data fd r s)
unfolding receive_data throw ◌>>=◌
receive_data-IsWf fd error s w seen lines = record { wf = w; at_socket = refl }
receive_data-IsWf fd closed s w seen lines = lose_client-IsWf fd s w seen
receive_data-IsWf fd (bytes buffer) s w seen lines =
    let live = w.watched fd seen in
    Safe-weaken _ (λ t (k : StillWf s t). record { wf = k.wf; at_socket = k.same_socket })
      (Safe-weaken _ (λ t. still s t w)
        (Safe-and_then (pars_buffer fd (until_nul buffer) s) _
          (pars_buffer-Safe fd s (until_nul buffer) live w.frame lines)
          (λ closing. search (answer_rules, IsSafe-set_client, quit-KeepsFd) depth 8)))

-- Whatever is received from a client that is watched, but for CAP alone on a line, is handled
-- without a crash and keeps the invariant; so does the end of its stream, or an error.
pub receive_at-IsWf :
    (i : ℕ) (r : Received) (p : PollFd) (s : Server)
    → IsWf s
    → get_elem? s.poll_fds (suc i) ≡ some p
    → ReceivedExpected p.fd r s
    → Safe (Serves s.socket_fd) (receive_at (suc i) r s)
unfolding receive_at poll_at entry ◌>>=◌
receive_at-IsWf i r p s w there lines =
    rw (there, entry) (receive_data-IsWf p.fd r s w (get_elem?-watched s.poll_fds i p there) lines)
