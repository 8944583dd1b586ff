-- ===== src/Mariia/Stream.antt =====
-- What `parsBuffer` and `sendData` of project/mariia make of a stream.
use ft_irc.Prelude.{
  ℕ, ◌≡◌, refl, sym, ap, subst, ◌∙◌, Bool, true, false, some, List, [], ◌∷◌, ◌++◌, arith, is_empty,
  append_assoc, Option-cases, inl, inr, suc, zero, drop, ltb, length, get_elem?,
}
use ft_irc.Text.{Text, has_byte}
use ft_irc.Ann.State.{PollFd, Events, pollin, pollout}
use ft_irc.Mariia.State.{Client, Server, find_client, update_client, push_send_queue}
use ft_irc.Mariia.Exec.{
  M, returned, gets, set_client, modify, client_at, deref, pure, catching, ◌>>=◌, ◌>>◌,
}
use ft_irc.Mariia.Words.{get_lines}
use ft_irc.Mariia.Loop.{
  sent, entry, poll_at, set_events_at, set_events, reset_events, after_send, send_first,
  close_if_quit, send_to, send_data,
}
use ft_irc.Mariia.Crash.{find_client-updated}
use ft_irc.Mariia.Parse.{run_text, pars_of, pars_buffer}

-- A line that has no newline at its end is read like one that has.
get_lines-end :
    (b : Text)
    → is_empty b ≡ false
    → has_byte 10 b ≡ false
    → get_lines 10 b ≡ get_lines 10 (b ++ 10 ∷ [])
unfolding get_lines has_byte
get_lines-end [] h nl = cc
get_lines-end (c ∷ []) h nl = ground (arith, nl)
get_lines-end (c ∷ d ∷ b) h nl = ground (arith, nl, get_lines-end (d ∷ b))

get_lines-last :
    (a b : Text)
    → is_empty b ≡ false
    → has_byte 10 b ≡ false
    → get_lines 10 (a ++ 10 ∷ b) ≡ get_lines 10 (a ++ 10 ∷ (b ++ 10 ∷ []))
unfolding get_lines
get_lines-last [] b h nl = ap (◌∷◌ []) (get_lines-end b h nl)
get_lines-last (c ∷ a) b h nl = rw (get_lines-last a b h nl)

has_byte-append : (a b : Text) → has_byte 10 (a ++ 10 ∷ b) ≡ true
unfolding has_byte
has_byte-append [] b = refl
has_byte-append (c ∷ a) b = ground (arith, has_byte-append a b)

run_text-last :
    (fd : ℕ) (a b : Text)
    → is_empty b ≡ false
    → has_byte 10 b ≡ false
    → run_text fd (a ++ 10 ∷ b) ≡ run_text fd (a ++ 10 ∷ (b ++ 10 ∷ []))
unfolding run_text
run_text-last fd a b some_bytes nl =
    rw (has_byte-append a b, has_byte-append a (b ++ 10 ∷ []), get_lines-last a b some_bytes nl)

-- the same behind what was left over
run_text-left_over :
    (fd : ℕ) (r a b : Text)
    → is_empty b ≡ false
    → has_byte 10 b ≡ false
    → run_text fd (r ++ (a ++ 10 ∷ b)) ≡ run_text fd (r ++ (a ++ 10 ∷ (b ++ 10 ∷ [])))
run_text-left_over fd r a b some_bytes nl =
    ap (run_text fd) (sym (append_assoc r a (10 ∷ b)))
    ∙ run_text-last fd (r ++ a) b some_bytes nl
    ∙ ap (run_text fd) (append_assoc r a (10 ∷ (b ++ 10 ∷ [])))

-- The end of a stream that has no newline yet is run as a command at once if there is a newline
-- before it: nothing of it is kept for the bytes that complete it.
pub pars_buffer-unfinished :
    (fd : ℕ) (a b : Text) (s : Server)
    → is_empty b ≡ false
    → has_byte 10 b ≡ false
    → pars_buffer fd (a ++ 10 ∷ b) s ≡ pars_buffer fd (a ++ 10 ∷ (b ++ 10 ∷ [])) s
unfolding pars_buffer pars_of gets ◌>>=◌
pars_buffer-unfinished fd a b s some_bytes nl = elim (Option-cases (find_client fd s.clients)) [
  | inl e ↦ rw (e, get_lines-last a b some_bytes nl)
  | inr (c, e) ↦ rw e (
      ap (λ (m : M Bool). (set_client fd (λ x. record x { recv_buffer = [] }) >> m) s)
        (run_text-left_over fd c.recv_buffer a b some_bytes nl))
]

get_elem?-set_events_at :
    (l : List PollFd) (i : ℕ) (e : Events) (p : PollFd)
    → get_elem? l i ≡ some p
    → get_elem? (set_events_at i e l) i ≡ some (record p { events = e })
unfolding set_events_at
get_elem?-set_events_at [] i e p h = cc
get_elem?-set_events_at (q ∷ l) zero e p h =
    let same : q ≡ p = ground arith in ap (λ (x : PollFd). some (record x { events = e })) same
get_elem?-set_events_at (q ∷ l) (suc i) e p h = get_elem?-set_events_at l i e p h

-- Where the socket takes a part of a message only, the rest of that message is put behind all the
-- other messages of the queue, in the middle of which the client then reads it.
pub send_data-partial :
    (i n : ℕ) (p : PollFd) (c : Client) (message : Text) (queue : List Text) (s : Server)
    → get_elem? s.poll_fds i ≡ some p
    → find_client p.fd s.clients ≡ some c
    → c.send_queue ≡ message ∷ queue
    → ltb n (length message) ≡ true
    → c.quit ≡ false
    → (t : Server) × (send_data i (sent n) s ≡ returned tt t)
      × (find_client p.fd t.clients ≡ some (record c { send_queue = queue ++ drop n message ∷ [] }))
unfolding send_data send_to send_first after_send close_if_quit set_events reset_events poll_at
    entry deref catching gets set_client push_send_queue modify client_at pure ◌>>=◌ ◌>>◌
send_data-partial i n p c message queue s there found queued part stays =
    let first =
      find_client-updated p.fd (λ x. record x { send_queue = queue }) s.clients c (λ c. refl)
        found in
    let second =
      find_client-updated p.fd (push_send_queue (drop n message)) _ _ (λ c. refl) first in
    let out = get_elem?-set_events_at s.poll_fds i pollout p there in
    let back = get_elem?-set_events_at _ i pollin _ out in
    let ended =
      subst
        (λ q.
          find_client p.fd (
            update_client p.fd (push_send_queue (drop n message))
              (update_client p.fd (λ x. record x { send_queue = queue }) s.clients))
          ≡ some (record c { send_queue = queue ++ drop n message ∷ []; quit = q }))
        stays second in
    rw (there, entry, found, queued, part, there, second, stays, out, back) (_, refl, ended)
