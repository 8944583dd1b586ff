-- ===== src/Mariia/Run.antt =====
-- The server of project/mariia as a transition system: the marks that `run` sets before its poll,
-- and the events that the poll reports, in any order. What a step throws is caught by `main`, which
-- goes on. Of `accept` it is assumed that a new client has a descriptor that is not watched.
use ft_irc.Prelude.{
  ℕ, zero, suc, ◌≡◌, refl, subst, ap, ◌∙◌, ◌⊎◌, Bool, true, false, some, List, [], ◌∷◌, arith, ltb,
  get_elem?, length, All, is_empty, not, if◌then◌else◌,
}
use ft_irc.Text.{Text}
use ft_irc.Ann.State.{PollFd, Events, pollin, pollout, contains}
use ft_irc.Ann.Loop.{mark_poll}
use ft_irc.Mariia.State.{Client, Server, find_client}
use ft_irc.Mariia.Exec.{Outcome, returned, thrown, crashed, undefined, modify, caught}
use ft_irc.Mariia.Loop.{
  Sent, Received, mark_queues, mark_polls, Event, accepts, receives, sends, handle,
}
use ft_irc.Mariia.Safe.{Safe}
use ft_irc.Mariia.Wf.{IsWf, Serves, numbers}
use ft_irc.Mariia.Turn.{ReceivedExpected, accept_connection-IsWf, receive_at-IsWf}
use ft_irc.Mariia.Polls.{polls-IsWf}
use ft_irc.Mariia.Ends.{is_broken}
use ft_irc.Mariia.Send.{send_data-IsWf}

-- after the constructor
unfoldable pub new_server : Text → ℕ → Text → ℕ → Server
new_server start unset_limit password fd = record {
  start = start;
  unset_limit = unset_limit;
  password = password;
  socket_fd = fd;
  poll_fds = record { fd = fd; events = pollin } ∷ [];
  clients = [];
  channels = [];
  users = [];
}

-- Where the server sends to a client: the client has not closed its end, no message of the queue is
-- empty, and the client does not quit, or another entry is behind it.
pub record SendsExpected (i : ℕ) (answer : Sent) (s : Server) : Type 0 where
  pub entry : PollFd
  pub client : Client
  pub there : get_elem? s.poll_fds (suc i) ≡ some entry
  pub found : find_client entry.fd s.clients ≡ some client
  pub alive : is_broken answer ≡ false
  pub filled : All (λ m. is_empty m ≡ false) client.send_queue
  pub stays : (ltb (suc (suc i)) (length s.poll_fds) ≡ true) ⊎ (client.quit ≡ false)

pub record ReceivesExpected (i : ℕ) (r : Received) (s : Server) : Type 0 where
  pub entry : PollFd
  pub there : get_elem? s.poll_fds (suc i) ≡ some entry
  pub bytes : ReceivedExpected entry.fd r s

-- The events of which the theorems speak. The entry 0 is the listening socket.
abbrev pub IsExpected : Event → Server → Type 0
IsExpected (accepts fd hostname) s = contains fd (numbers s.poll_fds) ≡ false
IsExpected (receives zero r) s = ⊥
IsExpected (receives (suc i) r) s = ReceivesExpected i r s
IsExpected (sends zero answer) s = ⊥
IsExpected (sends (suc i) answer) s = SendsExpected i answer s

pub data Step : Server → Server → Type 0 where
  marks : {s t : Server} → mark_polls s ≡ returned tt t → Step s t
  handles :
      {s t : Server} (e : Event) → IsExpected e s → caught (handle e s) ≡ returned tt t → Step s t

pub data Reach (s : Server) : Server → Type 0 where
  here : Reach s s
  next : {t u : Server} → Reach s t → Step t u → Reach s u

new_server-IsWf :
    (start : Text) (unset_limit : ℕ) (password : Text) (fd : ℕ)
    → IsWf (new_server start unset_limit password fd)
unfolding new_server contains
new_server-IsWf start unset_limit password fd = record {
  frame = record { polls_same = refl; same = refl; names_differ = tt; channels = tt; present = tt };
  polls_differ = (refl, tt);
  listening = refl;
  watched = λ p h. h;
}

numbers-mark_poll : (fd : ℕ) (e : Events) (l : List PollFd) → numbers (mark_poll fd e l) ≡ numbers l
unfolding mark_poll
numbers-mark_poll fd e [] = refl
numbers-mark_poll fd e (p ∷ l) = ground (arith, numbers-mark_poll fd e l)

numbers-mark_queues : (cs : List Client) (l : List PollFd) → numbers (mark_queues cs l) ≡ numbers l
unfolding mark_queues
numbers-mark_queues [] l = refl
numbers-mark_queues (c ∷ cs) l =
    numbers-mark_queues cs _ ∙ marked (not (is_empty c.send_queue)) c.socket_fd l
  where
    marked :
        (b : Bool) (fd : ℕ) (l : List PollFd)
        → numbers (if b then mark_poll fd pollout l else l) ≡ numbers l
    marked true fd l = numbers-mark_poll fd pollout l
    marked false fd l = refl

mark_polls-IsWf : (s : Server) → IsWf s → Safe (Serves s.socket_fd) (mark_polls s)
unfolding mark_polls modify
mark_polls-IsWf s w = record {
  wf = polls-IsWf s _ (numbers-mark_queues s.clients s.poll_fds) w;
  at_socket = refl;
}

-- In a state with the invariant, no expected event makes the server crash, and whether the step
-- returns or throws, the state has the invariant after it.
pub handle-IsWf :
    (e : Event) (s : Server) → IsWf s → IsExpected e s → Safe (Serves s.socket_fd) (handle e s)
unfolding handle
handle-IsWf (accepts fd hostname) s w fresh = accept_connection-IsWf fd hostname s w fresh
handle-IsWf (receives zero r) s w h = absurd h
handle-IsWf (receives (suc i) r) s w h = receive_at-IsWf i r h.entry s w h.there h.bytes
handle-IsWf (sends zero answer) s w h = absurd h
handle-IsWf (sends (suc i) answer) s w h =
    send_data-IsWf i answer h.entry h.client s w h.there h.found h.alive h.filled h.stays

after_caught :
    (socket : ℕ) (o : Outcome (Unit {0})) (t : Server)
    → Safe (Serves socket) o
    → caught o ≡ returned tt t
    → Serves socket t
after_caught socket (returned a s) t h e = let same : s ≡ t = cc in subst (Serves socket) same h
after_caught socket (thrown s) t h e = let same : s ≡ t = cc in subst (Serves socket) same h
after_caught socket crashed t h e = absurd h
after_caught socket undefined t h e = absurd h

-- A step leaves the listening socket as it is.
Step-Serves : (socket : ℕ) {s t : Server} → Serves socket s → Step s t → Serves socket t
Step-Serves socket w (marks {s} {t} e) =
    let next' = after_caught s.socket_fd (mark_polls s) t (mark_polls-IsWf s w.wf) (ap caught e) in
    record { wf = next'.wf; at_socket = next'.at_socket ∙ w.at_socket }
Step-Serves socket w (handles {s} {t} e allowed done) =
    let next' = after_caught s.socket_fd (handle e s) t (handle-IsWf e s w.wf allowed) done in
    record { wf = next'.wf; at_socket = next'.at_socket ∙ w.at_socket }

Reach-Serves : (socket : ℕ) {s t : Server} → Serves socket s → Reach s t → Serves socket t
Reach-Serves socket w here = w
Reach-Serves socket w (next r step) = Step-Serves socket (Reach-Serves socket w r) step

-- In every state that a new server reaches by expected events: no two channels have one name, each
-- channel is sound, is in lower case, has a member, and has clients only; the first entry of the poll
-- is that of the listening socket the server was made with, and the others are those of clients, each
-- once. Every expected event that comes next, whether it returns or throws, is handled without a
-- crash and with defined behaviour, and all this holds after it.
pub every_step-IsWf :
    (start : Text) (unset_limit : ℕ) (password : Text) (fd : ℕ) (s : Server)
    → Reach (new_server start unset_limit password fd) s
    → Serves fd s × ((e : Event) → IsExpected e s → Safe (Serves fd) (handle e s))
every_step-IsWf start unset_limit password fd s r =
    let w =
      Reach-Serves fd
        (record { wf = new_server-IsWf start unset_limit password fd; at_socket = made }) r in
    (
      w,
      λ e allowed.
          subst (λ n. Safe (Serves n) (handle e s)) w.at_socket (handle-IsWf e s w.wf allowed),
    )
  where
    made : (new_server start unset_limit password fd).socket_fd ≡ fd
    made = unfold new_server in refl
