-- ===== src/Ann/Run.antt =====
-- The server as a transition system: the sweeps of `run`, and the events that the poll reports, in
-- any order. Of `accept` and of the allocator it is assumed that a new client has a descriptor and
-- an address that no present client has.
use ft_irc.Prelude.{
  ℕ, ◌≡◌, ◌≢◌, refl, subst, Option, none, some, List, [], ◌∷◌, arith, inl, inr, ◌==◌, Bool-cases,
}
use ft_irc.Text.{Text, nil_of_to_lower}
use ft_irc.Ann.State.{Cli, Server, pollin, PollFd, new_cli, find_cli, find_ch}
use ft_irc.Ann.Exec.{
  Keeps, Post, modify, gets, deref, Keeps-bind, Keeps-then, Keeps-gets, Keeps-deref, Keeps-if,
  Keeps-pure,
}
use ft_irc.Ann.Replies.{set_cli}
use ft_irc.Ann.Loop.{
  find_fd, insert_cli, sweep, Recv, failed, closed, bytes, Sent, received, receive, exec_text,
  exec_buf, unsent, all_sent, send_prepared_resps, mark_polls_all, add_new_client, Event, accepts,
  receives, sends, handle,
}
use ft_irc.Ann.Tables.{find_cli-insert_cli, insert_cli-ClisDiffer}
use ft_irc.Ann.Keeps.{read_rules}
use ft_irc.Ann.Total.{Total-Post}
use ft_irc.Ann.Wf.{IsWf}
use ft_irc.Ann.Wf.Prims.{set_cli-IsWf}
use ft_irc.Ann.Wf.Register.{modify_fds-IsWf}
use ft_irc.Ann.Wf.Dispatch.{exec_cmd-Keeps}
use ft_irc.Ann.Wf.Sweep.{sweep-IsWf}

-- What the kernel and the allocator promise of an event.
abbrev pub IsAllowed : Event → Server → Type 0
IsAllowed (accepts addr fd host) s = (find_fd fd s.clis ≡ none) × (find_cli addr s.clis ≡ none)
IsAllowed (receives fd r) s = Unit
IsAllowed (sends fd r) s = Unit

pub data Step : Server → Server → Type 0 where
  sweeps : {s t : Server} → sweep s ≡ some (tt, t) → Step s t
  handles : {s t : Server} (e : Event) → IsAllowed e s → handle e s ≡ some (tt, t) → Step s t

pub data Reach (s : Server) : Server → Type 0 where
  here : Reach s s
  next : {t u : Server} → Reach s t → Step t u → Reach s u

set_bufs-IsWf :
    (p : ℕ) (f g : Cli → Text)
    → Keeps IsWf (set_cli p (λ x. record x { buf_to_send = f x; buf_recv = g x }))
set_bufs-IsWf p f g =
    set_cli-IsWf p _
      (record { keys = record { addr = λ c. refl; fd = λ c. refl }; nick = λ c. refl })

set_unsent-IsWf : (p : ℕ) (t : Text) → Keeps IsWf (set_cli p (λ x. record x { buf_to_send = t }))
set_unsent-IsWf p t = set_bufs-IsWf p (λ x. t) (λ x. x.buf_recv)

modify_rest-IsWf :
    (f : Server → Server)
    → ((s : Server) → (f s).clis ≡ s.clis)
    → ((s : Server) → (f s).chs ≡ s.chs)
    → Keeps IsWf (modify f)
unfolding modify
modify_rest-IsWf f same_clis same_chs = record {
  kept = λ s w. record {
    clis_differ = rw same_clis w.clis_differ;
    names_differ = rw same_chs w.names_differ;
    nicks_differ = rw same_clis w.nicks_differ;
    chs_sound = rw (same_clis, same_chs) w.chs_sound;
  };
}

set_polls-IsWf : (f : Server → List PollFd) → Keeps IsWf (modify (λ s. record s { polls = f s }))
set_polls-IsWf f = modify_rest-IsWf _ (λ s. refl) (λ s. refl)

exec_text-IsWf : (cmd : Text) → Keeps IsWf (exec_text cmd)
unfolding exec_text
exec_text-IsWf cmd = exec_cmd-Keeps _

exec_buf-IsWf : (c : Cli) (buf : Text) → Keeps IsWf (exec_buf c buf)
unfolding exec_buf
exec_buf-IsWf c buf = search (read_rules, set_bufs-IsWf, exec_text-IsWf)

received-IsWf : (c : Cli) (r : Recv) → Keeps IsWf (received c r)
unfolding received
received-IsWf c failed = search read_rules
received-IsWf c closed = modify_fds-IsWf _
received-IsWf c (bytes buf) = exec_buf-IsWf c buf

receive-IsWf : (fd : ℕ) (r : Recv) → Keeps IsWf (receive fd r)
unfolding receive
receive-IsWf fd r =
    search
      (
        read_rules,
        received-IsWf,
        λ (p : ℕ). modify_rest-IsWf (λ s. record s { cli = p }) (λ s. refl) (λ s. refl),
      )
      depth 9

send-IsWf : (fd : ℕ) (r : Sent) → Keeps IsWf (send_prepared_resps fd r)
unfolding send_prepared_resps
send-IsWf fd r = Keeps-bind (gets (λ s. find_fd fd s.clis)) _ (Keeps-gets _) λ found.
    Keeps-bind (deref found) _ (Keeps-deref found) λ c.
      Keeps-then (set_cli c.addr (λ x. record x { buf_to_send = unsent r c.buf_to_send })) _
        (set_unsent-IsWf c.addr _)
        (Keeps-if (all_sent r c.buf_to_send) _ _
          (λ _. set_polls-IsWf (λ s. mark_polls_all fd pollin s.polls)) (λ _. Keeps-pure tt))

-- A fresh client is on no channel and has no nickname.
add_new_client-IsWf :
    (addr fd : ℕ) (host : Text) (s : Server)
    → IsWf s
    → find_fd fd s.clis ≡ none
    → find_cli addr s.clis ≡ none
    → Post IsWf (add_new_client addr fd host s)
unfolding add_new_client modify new_cli
add_new_client-IsWf addr fd host s w free new = record {
  clis_differ = insert_cli-ClisDiffer c s.clis w.clis_differ free new;
  names_differ = w.names_differ;
  nicks_differ = λ p q a b ha hb named low.
      w.nicks_differ p q a b (old p a ha named)
        (old q b hb (λ z. named (nil_of_to_lower a.nick b.nick low z))) named low;
  chs_sound = λ k ch h. record {
    members = λ p on.
        let (d, live, named) = (w.chs_sound k ch h).members p on in
        (d, ground (arith, find_cli-insert_cli p c s.clis free new, new), named);
    operators = (w.chs_sound k ch h).operators;
  };
}
  where
    c : Cli
    c = new_cli addr fd host

    old :
        (p : ℕ) (a : Cli)
        → find_cli p (insert_cli c s.clis) ≡ some a
        → a.nick ≢ []
        → find_cli p s.clis ≡ some a
    old p a h named = elim (Bool-cases (addr == p)) [
      | inl e ↦ absurd (named (ground (arith, find_cli-insert_cli p c s.clis free new)))
      | inr e ↦ ground (arith, find_cli-insert_cli p c s.clis free new)
    ]

handle-IsWf : (e : Event) (s : Server) → IsWf s → IsAllowed e s → Post IsWf (handle e s)
unfolding handle
handle-IsWf (accepts addr fd host) s w ok = add_new_client-IsWf addr fd host s w ok.0 ok.1
handle-IsWf (receives fd r) s w ok = (receive-IsWf fd r).kept s w
handle-IsWf (sends fd r) s w ok = (send-IsWf fd r).kept s w

Post-some :
    (P : Server → Type 0) {r : Option (Unit {0} × Server)} (t : Server)
    → r ≡ some (tt, t)
    → Post P r
    → P t
Post-some P t e h = subst (Post P) e h

-- Every step, a sweep or an event, keeps the invariant.
pub Step-IsWf : {s t : Server} → Step s t → IsWf s → IsWf t
Step-IsWf {s} {t} (sweeps e) w = Post-some IsWf t e (Total-Post IsWf (sweep s) (sweep-IsWf s w))
Step-IsWf {s} {t} (handles ev ok e) w = Post-some IsWf t e (handle-IsWf ev s w ok)

pub Reach-IsWf : {s t : Server} → IsWf s → Reach s t → IsWf t
Reach-IsWf w here = w
Reach-IsWf w (next r st) = Step-IsWf st (Reach-IsWf w r)

-- the server that `init` has set up
unfoldable pub new_server : Text → ℕ → Server
new_server pass fd = record {
  pass = pass;
  fd_for_new_clis = fd;
  polls = record { fd = fd; events = pollin } ∷ [];
  clis = [];
  chs = [];
  cli = 0;
  fds_to_erase = [];
}

pub new_server-IsWf : (pass : Text) (fd : ℕ) → IsWf (new_server pass fd)
unfolding new_server find_cli find_ch
new_server-IsWf pass fd = record {
  clis_differ = tt;
  names_differ = tt;
  nicks_differ = λ p q c d h. cc;
  chs_sound = λ k ch h. cc;
}

-- However the kernel orders the events of a new server, and whatever clients send: in every state
-- that it reaches, no two clients share an address, a descriptor or, in upper or lower case, a
-- nickname; no two channels share a name in upper or lower case; each pointer of a channel is that
-- of a live client with a nickname; and the operators of a channel are on it.
pub server-IsWf : (pass : Text) (fd : ℕ) (s : Server) → Reach (new_server pass fd) s → IsWf s
server-IsWf pass fd s r = Reach-IsWf (new_server-IsWf pass fd) r
