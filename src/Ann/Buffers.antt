-- ===== src/Ann/Buffers.antt =====
-- The bytes that wait for a client, and their way out.
use ft_irc.Prelude.{
  ℕ, ◌+◌, ◌-◌, ◌≤◌, ◌≡◌, refl, ap, Bool, true, false, ◌&&◌, some, List, [], ◌∷◌, map, ◌++◌, arith,
  Bool-cases, inl, inr, ◌==◌, if◌then◌else◌, length, take, length-append, length-take-le,
  take-append-drop,
}
use ft_irc.Text.{Text}
use ft_irc.Ann.State.{PollFd, Cli, Server, max_cmd_len, pollin, find_cli, update_cli}
use ft_irc.Ann.Exec.{gets, modify, deref, pure, ◌>>=◌, ◌>>◌}
use ft_irc.Ann.Replies.{append_resp, crlf, prepare_resp, set_cli}
use ft_irc.Ann.Loop.{find_fd, Sent, sent, unsent, all_sent, mark_polls_all, send_prepared_resps}
use ft_irc.Ann.Tables.{find_cli-update_cli, find_cli-find_fd, ClisDiffer}

resp_length :
    (msg buf : Text) → length (buf ++ take (max_cmd_len - 2) msg ++ crlf) ≤ length buf + max_cmd_len
resp_length msg buf = omega (
  arith,
  length-append (buf ++ take (max_cmd_len - 2) msg) crlf,
  length-append buf (take (max_cmd_len - 2) msg),
  length-take-le (max_cmd_len - 2) msg,
)

-- A reply to a present client returns; it adds the message, cut to 510 bytes, and CRLF to that
-- client's buffer, which are 512 bytes at most, and changes no other client.
pub prepare_resp_bounded :
    (p : ℕ) (msg : Text) (c : Cli) (s : Server)
    → find_cli p s.clis ≡ some c
    → (t : Server) × (prepare_resp p msg s ≡ some (tt, t))
      × (find_cli p t.clis ≡ some (append_resp msg c))
      × (length (append_resp msg c).buf_to_send ≤ length c.buf_to_send + 512)
      × ((q : ℕ) → (p == q) ≡ false → find_cli q t.clis ≡ find_cli q s.clis)
unfolding prepare_resp set_cli
prepare_resp_bounded p msg c s e =
    let law = λ (q : ℕ).
      find_cli-update_cli (append_resp msg) (record { addr = λ x. refl; fd = λ x. refl }) p q
        s.clis in
    (
      record s { clis = update_cli p (append_resp msg) s.clis },
      rw (e, set_cli),
      ground (arith, law p),
      resp_length msg c.buf_to_send,
      λ q apart. ground (arith, law q),
    )

-- What a client has left to send, where `send` answered `r`.
abbrev pub with_unsent : Sent → Cli → Cli
with_unsent r c = record c { buf_to_send = unsent r c.buf_to_send }

-- the state after the call
abbrev pub after_send : ℕ → Sent → Cli → Server → Server
after_send fd r c s = record s {
  clis = update_cli c.addr (λ x. record x { buf_to_send = unsent r c.buf_to_send }) s.clis;
  polls = (if all_sent r c.buf_to_send then mark_polls_all fd pollin s.polls else s.polls);
}

module _ (fd : ℕ) (r : Sent) (c : Cli) (s : Server) (differ : ClisDiffer s.clis)
    (e : find_fd fd s.clis ≡ some c) where
  send-runs : send_prepared_resps fd r s ≡ some (tt, after_send fd r c s)
  unfolding send_prepared_resps gets deref modify pure set_cli ◌>>=◌ ◌>>◌
  send-runs =
      let at = find_cli-find_fd fd c s.clis differ e in
      elim (Bool-cases (all_sent r c.buf_to_send)) [
        | inl y ↦ rw (e, deref, ◌>>◌, at, set_cli, y)
        | inr n ↦ rw (e, deref, ◌>>◌, at, set_cli, n)
      ]

  send-cli : find_cli c.addr (after_send fd r c s).clis ≡ some (with_unsent r c)
  send-cli = ground (
    arith,
    find_cli-find_fd fd c s.clis differ e,
    find_cli-update_cli (λ x. record x { buf_to_send = unsent r c.buf_to_send })
        (record { addr = λ x. refl; fd = λ x. refl }) c.addr c.addr s.clis,
  )

send-others :
    (fd : ℕ) (r : Sent) (c : Cli) (s : Server) (q : ℕ)
    → (c.addr == q) ≡ false
    → find_cli q (after_send fd r c s).clis ≡ find_cli q s.clis
send-others fd r c s q apart = ground (
  arith,
  find_cli-update_cli (λ x. record x { buf_to_send = unsent r c.buf_to_send })
      (record { addr = λ x. refl; fd = λ x. refl }) c.addr q s.clis,
)

-- The entries of a descriptor, if `all` is sent.
marked-polls :
    (fd : ℕ) (all : Bool) (l : List PollFd)
    → (if all then mark_polls_all fd pollin l else l)
      ≡ map (λ p. if all && p.fd == fd then record p { events = pollin } else p) l
unfolding mark_polls_all
marked-polls fd true [] = refl
marked-polls fd false [] = refl
marked-polls fd true (p ∷ l) =
    ap (◌∷◌ (if p.fd == fd then record p { events = pollin } else p)) (marked-polls fd true l)
marked-polls fd false (p ∷ l) = ap (◌∷◌ p) (marked-polls fd false l)

-- `sendPreparedResps` returns. After `send` has taken n bytes, those and the buffer that is left are
-- the buffer as it was. If n is all, each entry of the descriptor waits for input; every other entry,
-- and each entry if n is not all, is as it was. Nothing else of the client and no other client or
-- channel has changed.
pub send_prepared_resps-sent :
    (fd n : ℕ) (c : Cli) (s : Server)
    → ClisDiffer s.clis
    → find_fd fd s.clis ≡ some c
    → (t : Server) × (d : Cli) × (send_prepared_resps fd (sent n) s ≡ some (tt, t))
      × (find_cli c.addr t.clis ≡ some d)
      × (take n c.buf_to_send ++ d.buf_to_send ≡ c.buf_to_send)
      × (t.polls
          ≡ map
              (λ p.
                if n == length c.buf_to_send && p.fd == fd then record p { events = pollin } else p)
              s.polls)
      × (record d { buf_to_send = c.buf_to_send } ≡ c)
      × ((q : ℕ) → (c.addr == q) ≡ false → find_cli q t.clis ≡ find_cli q s.clis)
      × (t.chs ≡ s.chs)
unfolding unsent all_sent
send_prepared_resps-sent fd n c s differ e = (
  after_send fd (sent n) c s,
  with_unsent (sent n) c,
  send-runs fd (sent n) c s differ e,
  send-cli fd (sent n) c s differ e,
  take-append-drop n c.buf_to_send,
  marked-polls fd (n == length c.buf_to_send) s.polls,
  refl,
  send-others fd (sent n) c s,
  refl,
)
