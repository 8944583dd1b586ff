-- ===== src/Ann/Loop.antt =====
-- The event loop of ann/srcs/Server.cpp, with the sweeps, `sendPreparedResps` and
-- `markPollsToSendMsgsTo` of ann/srcs/utils.cpp. What the kernel answers to `accept`, `recv` and
-- `send`, and the address of a new object, are arguments.
use ft_irc.Prelude.{
  ℕ, Bool, false, Option, none, some, List, [], ◌∷◌, ◌++◌, ltb, ◌==◌, if◌then◌else◌, length, drop,
  is_empty,
}
use ft_irc.Text.{Text, text_eq}
use ft_irc.Ann.State.{
  Cli, Ch, Events, pollin, pollout, PollFd, new_cli, set_insert, set_erase, erase_ch,
}
use ft_irc.Ann.Exec.{M, done, fault, gets, modify, deref, ◌>>=◌, ◌>>◌}
use ft_irc.Ann.Parse.{split_buf, split_cmd_to_args}
use ft_irc.Ann.Replies.{for_each, set_cli, get_ch}
use ft_irc.Ann.Commands.Leave.{erase_cli_from_ch}
use ft_irc.Ann.Commands.Dispatch.{exec_cmd}

-- `clis.find(fd)`
unfoldable pub find_fd : ℕ → List Cli → Option Cli
find_fd fd [] = none
find_fd fd (c ∷ cs) = if c.fd == fd then some c else find_fd fd cs

-- `clis.erase(fd)`, with the object
unfoldable pub erase_fd : ℕ → List Cli → List Cli
erase_fd fd [] = []
erase_fd fd (c ∷ cs) = let rest = erase_fd fd cs in if c.fd == fd then cs else c ∷ rest

-- `clis[fd] = c`
unfoldable pub insert_cli : Cli → List Cli → List Cli
insert_cli c [] = c ∷ []
insert_cli c (d ∷ ds) =
    let rest = insert_cli c ds in
    if d.fd == c.fd then c ∷ ds else if ltb c.fd d.fd then c ∷ d ∷ ds else d ∷ rest

unfoldable pub erase_poll : ℕ → List PollFd → List PollFd
erase_poll fd [] = []
erase_poll fd (p ∷ ps) = let rest = erase_poll fd ps in if p.fd == fd then ps else p ∷ rest

-- `poll->events = e` on the first entry of a descriptor
unfoldable pub mark_poll : ℕ → Events → List PollFd → List PollFd
mark_poll fd e [] = []
mark_poll fd e (p ∷ ps) =
    let rest = mark_poll fd e ps in if p.fd == fd then record p { events = e } ∷ ps else p ∷ rest

-- the same on every entry of it
unfoldable pub mark_polls_all : ℕ → Events → List PollFd → List PollFd
mark_polls_all fd e [] = []
mark_polls_all fd e (p ∷ ps) =
    let rest = mark_polls_all fd e ps in (if p.fd == fd then record p { events = e } else p) ∷ rest

-- the names that `eraseUnusedChs` collects
unfoldable pub empty_chs : List (Text × Ch) → List Text
empty_chs [] = []
empty_chs ((k, ch) ∷ m) = let rest = empty_chs m in if is_empty ch.clis then k ∷ rest else rest

-- `delete getCh(name); chs.erase(name)`: a fault, if the two are not one channel
unfoldable pub erase_unused_ch : Text → M (Unit {0})
erase_unused_ch name = do
  found ← gets (get_ch name)
  key ← deref found
  if text_eq key name then modify (λ s. record s { chs = erase_ch name s.chs }) else fault

unfoldable pub erase_unused_chs : M (Unit {0})
erase_unused_chs = do names ← gets (λ s. empty_chs s.chs); for_each erase_unused_ch names

unfoldable pub forget_fd : ℕ → M (Unit {0})
forget_fd fd =
    modify
      (λ s. record s { polls = erase_poll fd s.polls; fds_to_erase = set_erase fd s.fds_to_erase })

-- from every channel, then the object and its map entry, then the poll entry
unfoldable pub delete_cli : Cli → M (Unit {0})
delete_cli c = do
  all ← gets (λ s. s.chs)
  for_each (λ (e : Text × Ch). erase_cli_from_ch c.nick e.0) all
  modify (λ s. record s { clis = erase_fd c.fd s.clis })
  forget_fd c.fd

-- one descriptor of `fdsToEraseNextIteration`; it waits until its replies have been sent
unfoldable pub erase_unused_cli : ℕ → M (Unit {0})
erase_unused_cli fd s = elim (find_fd fd s.clis) [
  | none ↦ forget_fd fd s
  | some c ↦ (if is_empty c.buf_to_send then delete_cli c else done) s
]

unfoldable pub erase_unused_clis : M (Unit {0})
erase_unused_clis = do fds ← gets (λ s. s.fds_to_erase); for_each erase_unused_cli fds

unfoldable pub mark_for : List Cli → List PollFd → List PollFd
mark_for [] ps = ps
mark_for (c ∷ cs) ps =
    mark_for cs (if is_empty c.buf_to_send then ps else mark_poll c.fd pollout ps)

unfoldable pub mark_polls : M (Unit {0})
mark_polls = modify (λ s. record s { polls = mark_for s.clis s.polls })

-- `accept` gave a descriptor
unfoldable pub add_new_client : ℕ → ℕ → Text → M (Unit {0})
add_new_client addr fd host = modify (λ s. record s {
  clis = insert_cli (new_cli addr fd host) s.clis;
  polls = s.polls ++ record { fd = fd; events = pollin } ∷ [];
})

-- what `recv` answers: an error, the end of the stream, or some bytes
pub data Recv : Type 0 where
  failed closed : Recv
  bytes : Text → Recv

unfoldable pub exec_text : Text → M (Unit {0})
exec_text cmd = exec_cmd (split_cmd_to_args cmd)

-- `splitBufToCmds` of what was left and what came, and the commands in turn
unfoldable pub exec_buf : Cli → Text → M (Unit {0})
exec_buf c buf = do
  let (cmds, rest) = split_buf (c.buf_recv ++ buf)
  set_cli c.addr (λ x. record x { buf_recv = rest })
  for_each exec_text cmds

unfoldable pub received : Cli → Recv → M (Unit {0})
received c failed = done
received c closed = modify (λ s. record s { fds_to_erase = set_insert c.fd s.fds_to_erase })
received c (bytes buf) = exec_buf c buf

unfoldable pub receive : ℕ → Recv → M (Unit {0})
receive fd r = do
  found ← gets (λ s. find_fd fd s.clis)
  c ← deref found
  modify (λ s. record s { cli = c.addr })
  received c r

-- what `send` answers: the number of bytes that it took, or -1
pub data Sent : Type 0 where
  refused : Sent
  sent : ℕ → Sent

-- `bufToSend` afterwards: `erase(0, n)`, where -1 converts to the largest `size_t`
unfoldable pub unsent : Sent → Text → Text
unsent refused buf = []
unsent (sent n) buf = drop n buf

unfoldable pub all_sent : Sent → Text → Bool
all_sent refused buf = false
all_sent (sent n) buf = n == length buf

unfoldable pub send_prepared_resps : ℕ → Sent → M (Unit {0})
send_prepared_resps fd r = do
  found ← gets (λ s. find_fd fd s.clis)
  c ← deref found
  set_cli c.addr (λ x. record x { buf_to_send = unsent r c.buf_to_send })
  if all_sent r c.buf_to_send
      then modify (λ s. record s { polls = mark_polls_all fd pollin s.polls })
      else done

-- what the loop over `polls` finds in `revents`
pub data Event : Type 0 where
  accepts : ℕ → ℕ → Text → Event
  receives : ℕ → Recv → Event
  sends : ℕ → Sent → Event

unfoldable pub handle : Event → M (Unit {0})
handle (accepts addr fd host) = add_new_client addr fd host
handle (receives fd r) = receive fd r
handle (sends fd r) = send_prepared_resps fd r

-- what `run` does before it polls
unfoldable pub sweep : M (Unit {0})
sweep = do erase_unused_clis; erase_unused_chs; mark_polls
