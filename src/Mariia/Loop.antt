-- ===== src/Mariia/Loop.antt =====
-- The loop of project/mariia/sources/Server.cpp: `run`, `receiveData`, `sendData`, and the clients
-- that come and go. What the kernel answers to `accept`, `recv` and `send` is an argument.
use ft_irc.Prelude.{
  ℕ, zero, suc, true, not, Option, none, some, List, [], ◌∷◌, ◌++◌, ltb, ◌==◌, if◌then◌else◌,
  is_empty, length, drop, get_elem?,
}
use ft_irc.Text.{Text}
use ft_irc.Ann.State.{Events, PollFd, pollin, pollout}
use ft_irc.Ann.Loop.{erase_poll, mark_poll}
use ft_irc.Mariia.Channel.{Channel, remove_member}
use ft_irc.Mariia.State.{
  Client, new_client, find_client, insert_client, erase_client, erase_user, push_send_queue,
}
use ft_irc.Mariia.Exec.{
  M, returned, undefined, crash, done, throw, gets, modify, client_at, set_client, catching, ◌>>=◌,
  ◌>>◌,
}
use ft_irc.Mariia.Commands.Leave.{process_quit}
use ft_irc.Mariia.Parse.{pars_buffer}

unfoldable pub add_client : ℕ → Text → M (Unit {0})
add_client fd hostname =
    modify (λ s. record s { clients = insert_client (new_client fd hostname) s.clients })

-- without the client, and without the channels that are empty then
unfoldable pub without_member : ℕ → List Channel → List Channel
without_member fd [] = []
without_member fd (ch ∷ chs) =
    let left = remove_member fd ch in
    let rest = without_member fd chs in if is_empty left.member_fds then rest else left ∷ rest

abbrev without_user : Option Client → List (Text × Text) → List (Text × Text)
without_user none users = users
without_user (some c) users = erase_user c.nickname users

unfoldable pub remove_client : ℕ → M (Unit {0})
remove_client fd = modify (λ s. record s {
  channels = without_member fd s.channels;
  poll_fds = erase_poll fd s.poll_fds;
  users = without_user (find_client fd s.clients) s.users;
  clients = erase_client fd s.clients;
})

-- the first part of `run`: clients with messages wait for output
unfoldable pub mark_queues : List Client → List PollFd → List PollFd
mark_queues [] polls = polls
mark_queues (c ∷ cs) polls =
    mark_queues cs
      (if not (is_empty c.send_queue) then mark_poll c.socket_fd pollout polls else polls)

unfoldable pub mark_polls : M (Unit {0})
mark_polls = modify (λ s. record s { poll_fds = mark_queues s.clients s.poll_fds })

-- a connection on the listening socket
unfoldable pub accept_connection : ℕ → Text → M (Unit {0})
accept_connection fd hostname = do
  modify (λ s. record s { poll_fds = s.poll_fds ++ record { fd = fd; events = pollin } ∷ [] })
  add_client fd hostname

-- what `recv` answers: an error, the end of the stream, or bytes
pub data Received : Type 0 where
  error : Received
  closed : Received
  bytes : Text → Received

unfoldable pub lose_client : ℕ → M (Unit {0})
lose_client fd = do process_quit fd []; remove_client fd

-- the buffer is a C string: it ends at the first NUL
unfoldable pub until_nul : Text → Text
until_nul [] = []
until_nul (c ∷ s) = let rest = until_nul s in if c == 0 then [] else c ∷ rest

unfoldable pub receive_data : ℕ → Received → M (Unit {0})
receive_data fd error = throw
receive_data fd closed = lose_client fd
receive_data fd (bytes buffer) = do
  closing ← pars_buffer fd (until_nul buffer)
  if closing then (do c ← client_at fd; set_client fd (λ x. record x { quit = true })) else done

-- an entry of `pollFds`; past its end the behaviour is undefined
unfoldable pub entry : Option PollFd → M PollFd
entry none s = undefined
entry (some p) s = returned p s

-- `pollFds[index]`
unfoldable pub poll_at : ℕ → M PollFd
poll_at index s = entry (get_elem? s.poll_fds index) s

unfoldable pub set_events_at : ℕ → Events → List PollFd → List PollFd
set_events_at index e [] = []
set_events_at zero e (p ∷ ps) = record p { events = e } ∷ ps
set_events_at (suc index) e (p ∷ ps) = p ∷ set_events_at index e ps

-- `pollFds[index].events = e`
unfoldable pub set_events : ℕ → Events → M (Unit {0})
set_events index e = do
  p ← poll_at index
  modify (λ s. record s { poll_fds = set_events_at index e s.poll_fds })

-- `resetEvents`: the results of the poll are no part of the state, but the index is used
unfoldable pub reset_events : ℕ → M (Unit {0})
reset_events index = do p ← poll_at index; done

-- What `send` answers: the number of bytes it took; or -1, where the client has closed its end, so
-- that SIGPIPE is raised (there is no MSG_NOSIGNAL, and `main` handles SIGINT only), or for another
-- reason, as a full socket.
pub data Sent : Type 0 where
  refused : Sent
  broken : Sent
  sent : ℕ → Sent

-- A message of which a part has been sent goes to the end of the queue. For the answer -1 `substr`
-- throws, if the signal has not ended the process. An empty message, of which no byte has been sent,
-- closes the client.
unfoldable pub after_send : ℕ → ℕ → Text → Sent → M (Unit {0})
after_send index fd message refused = throw
after_send index fd message broken = crash
after_send index fd message (sent n) =
    if ltb n (length message)
    then (do set_client fd (push_send_queue (drop n message)); set_events index pollout)
    else if n == 0
    then (do lose_client fd; throw)
    else done

unfoldable pub send_first : ℕ → ℕ → Sent → List Text → M (Unit {0})
send_first index fd answer [] = done
send_first index fd answer (message ∷ queue) = do
  set_client fd (λ c. record c { send_queue = queue })
  after_send index fd message answer

unfoldable pub close_if_quit : ℕ → M (Unit {0})
close_if_quit fd = do c ← client_at fd; if c.quit then remove_client fd else done

-- The index is used after the client may have been removed from `pollFds`.
unfoldable pub send_to : ℕ → ℕ → Sent → Option Client → M (Unit {0})
send_to index fd answer none = throw
send_to index fd answer (some c) = do
  send_first index fd answer c.send_queue
  close_if_quit fd
  set_events index pollin

unfoldable pub send_data : ℕ → Sent → M (Unit {0})
send_data index answer = do
  p ← poll_at index
  catching do client ← gets (λ s. find_client p.fd s.clients); send_to index p.fd answer client
  reset_events index

-- what the poll reports: a connection, and for the entry of an index what `recv` or `send` answers
pub data Event : Type 0 where
  accepts : ℕ → Text → Event
  receives : ℕ → Received → Event
  sends : ℕ → Sent → Event

unfoldable pub receive_at : ℕ → Received → M (Unit {0})
receive_at index r = do p ← poll_at index; receive_data p.fd r

unfoldable pub handle : Event → M (Unit {0})
handle (accepts fd hostname) = accept_connection fd hostname
handle (receives index r) = receive_at index r
handle (sends index answer) = send_data index answer
