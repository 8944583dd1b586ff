-- ===== src/Mariia/Wf.antt =====
-- The invariant of the server of project/mariia, and the commands on it.
use ft_irc.Prelude.{ℕ, ◌≡◌, refl, true, false, List, [], ◌∷◌, ◌++◌, map, ap, Option, none, some}
use ft_irc.Text.{Text}
use ft_irc.Ann.State.{PollFd, contains}
use ft_irc.Mariia.State.{Server, find_client}
use ft_irc.Mariia.Parse.{process_cmd, registration_process, pars_buffer}
use ft_irc.Mariia.Tables.{client_fds}
use ft_irc.Mariia.Safe.{Safe, Safe-weaken}
use ft_irc.Mariia.Frame.{Frame}
use ft_irc.Mariia.Calm.Parse.{
  is_lone_cap, NoLoneCap, left_over, process_cmd-IsSafe, registration_process-IsSafe,
  pars_buffer-Safe,
}

abbrev pub numbers : List PollFd → List ℕ
numbers = map (λ p. p.fd)

-- no two entries of one descriptor
abbrev pub PollsDiffer : List PollFd → Type 0
PollsDiffer [] = Unit
PollsDiffer (p ∷ ps) = (contains p.fd (numbers ps) ≡ false) × PollsDiffer ps

-- the descriptor of the first entry
abbrev pub first_fd : List PollFd → Option ℕ
first_fd [] = none
first_fd (p ∷ ps) = some p.fd

-- the entries behind that of the listening socket
abbrev pub behind_first : List PollFd → List PollFd
behind_first [] = []
behind_first (p ∷ ps) = ps

-- No two channels have one name up to case; each is sound, is in lower case, has a member, and its
-- members are clients. The poll watches the listening socket, as its first entry, and behind it
-- clients, each once.
pub record IsWf (s : Server) : Type 0 where
  pub frame : Frame (s.socket_fd, s.poll_fds) (client_fds s.clients) [] s
  pub polls_differ : PollsDiffer s.poll_fds
  pub listening : first_fd s.poll_fds ≡ some s.socket_fd
  pub watched :
      (p : ℕ)
      → contains p (numbers (behind_first s.poll_fds)) ≡ true
      → contains p (client_fds s.clients) ≡ true

-- The invariant, where the listening socket is that of a descriptor.
pub record Serves (socket : ℕ) (s : Server) : Type 0 where
  pub wf : IsWf s
  pub at_socket : s.socket_fd ≡ socket

-- The invariant, with the listening socket, the clients and the entries of the poll that a state had.
pub record StillWf (before s : Server) : Type 0 where
  pub wf : IsWf s
  pub same_clients : client_fds s.clients ≡ client_fds before.clients
  pub same_polls : s.poll_fds ≡ before.poll_fds
  pub same_socket : s.socket_fd ≡ before.socket_fd

pub still :
    (before s : Server)
    → IsWf before
    → Frame (before.socket_fd, before.poll_fds) (client_fds before.clients) [] s
    → StillWf before s
still before s w p =
    let polls : s.poll_fds ≡ before.poll_fds = ap (λ (x : ℕ × List PollFd). x.1) p.polls_same in
    let socket : s.socket_fd ≡ before.socket_fd = ap (λ (x : ℕ × List PollFd). x.0) p.polls_same in
    record {
      wf = record {
        frame = record {
          polls_same = refl;
          same = refl;
          names_differ = p.names_differ;
          channels = rw p.same p.channels;
          present = tt;
        };
        polls_differ = rw polls w.polls_differ;
        listening = rw (polls, socket) w.listening;
        watched = rw (polls, p.same) w.watched;
      };
      same_clients = p.same;
      same_polls = polls;
      same_socket = socket;
    }

module _ (fd : ℕ) (s : Server) (w : IsWf s) (live : contains fd (client_fds s.clients) ≡ true) where
  -- In a state with the invariant, every command of a client returns or throws: it never crashes,
  -- whatever its words. The state then has the invariant, and the same clients and poll entries.
  pub process_cmd-IsWf : (tokens : List Text) → Safe (StillWf s) (process_cmd fd tokens s)
  process_cmd-IsWf tokens =
      Safe-weaken _ (λ t. still s t w) ((process_cmd-IsSafe fd live tokens).from s w.frame)

  -- In a state with the invariant, every message of the registration but the word CAP alone returns
  -- or throws: it never crashes. The state then has the invariant, and the same clients and poll
  -- entries.
  pub registration_process-IsWf :
      (tokens : List Text)
      → is_lone_cap tokens ≡ false
      → Safe (StillWf s) (registration_process fd tokens s)
  registration_process-IsWf tokens other =
      Safe-weaken _ (λ t. still s t w)
        ((registration_process-IsSafe fd live tokens other).from s w.frame)

  -- In a state with the invariant, the bytes of a client, of which no line is CAP alone when they
  -- stand behind what was left over, are run without a crash. The state then has the invariant, and
  -- the same clients and poll entries.
  pub pars_buffer-IsWf :
      (buffer : Text)
      → NoLoneCap (left_over (find_client fd s.clients) ++ buffer)
      → Safe (StillWf s) (pars_buffer fd buffer s)
  pars_buffer-IsWf buffer lines =
      Safe-weaken _ (λ t. still s t w) (pars_buffer-Safe fd s buffer live w.frame lines)
