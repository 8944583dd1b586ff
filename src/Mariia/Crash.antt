-- ===== src/Mariia/Crash.antt =====
-- Two ways in which clients make the server of project/mariia go past the end of a vector.
use ft_irc.Prelude.{
  ℕ, zero, suc, ◌≡◌, refl, ap, ◌∙◌, true, false, none, some, List, [], ◌∷◌, ◌++◌, arith, ◌==◌,
  is_empty, ltb, length, get_elem?, Bool-cases, inl, inr,
}
use ft_irc.Text.{Text, txt, has_byte, text_eq}
use ft_irc.Ann.State.{PollFd}
use ft_irc.Ann.Loop.{erase_poll}
use ft_irc.Mariia.State.{Client, Server, find_client, update_client}
use ft_irc.Mariia.Exec.{
  crashed, undefined, gets, modify, deref, token, set_client, client_at, pure, catching, ◌>>=◌,
  ◌>>◌,
}
use ft_irc.Mariia.Replies.{crlf}
use ft_irc.Mariia.Words.{get_lines, get_words, starts_word}
use ft_irc.Mariia.Parse.{
  until_cr, run_line, run_lines, run_text, pars_of, pars_buffer, registration_process, answer_cap,
}
use ft_irc.Mariia.Loop.{
  sent, entry, poll_at, set_events, after_send, send_first, close_if_quit, remove_client, send_to,
  send_data,
}

-- What is found after an assignment.
pub find_client-updated :
    (fd : ℕ) (f : Client → Client) (l : List Client) (c : Client)
    → ((c : Client) → (f c).socket_fd ≡ c.socket_fd)
    → find_client fd l ≡ some c
    → find_client fd (update_client fd f l) ≡ some (f c)
unfolding find_client update_client
find_client-updated fd f [] c k h = cc
find_client-updated fd f (d ∷ l) c k h = elim (Bool-cases (d.socket_fd == fd)) [
  | inl here ↦
      let same : d ≡ c = ground arith in
      let kept : ((f d).socket_fd == fd) ≡ true = ap (λ n. n == fd) (k d) ∙ here in
      rw (here, kept) (ap (λ x. some (f x)) same)
  | inr there ↦ rw (there, there) (find_client-updated fd f l c k (ground arith))
]

-- A client that is not registered crashes the server with the line `CAP`, which has no argument.
pub pars_buffer-lone_cap :
    (fd : ℕ) (c : Client) (s : Server)
    → find_client fd s.clients ≡ some c
    → c.registered ≡ false
    → c.recv_buffer ≡ []
    → pars_buffer fd (txt "CAP" ++ crlf) s ≡ crashed
unfolding pars_buffer pars_of run_text run_lines run_line registration_process answer_cap token
    deref gets set_client modify client_at ◌>>=◌ ◌>>◌ get_lines get_words until_cr txt starts_word
    has_byte text_eq
pars_buffer-lone_cap fd c s found unregistered nothing_left =
    let again =
      find_client-updated fd (λ x. record x { recv_buffer = [] }) s.clients c (λ c. refl) found in
    rw (found, nothing_left, again, unregistered) refl

length-erase_poll :
    (l : List PollFd) (i : ℕ) (p : PollFd)
    → get_elem? l i ≡ some p
    → suc (length (erase_poll p.fd l)) ≡ length l
unfolding erase_poll
length-erase_poll [] i p h = cc
length-erase_poll (q ∷ l) zero p h =
    let same : q ≡ p = ground arith in
    let fd : q.fd ≡ p.fd = ap (λ (x : PollFd). x.fd) same in ground (arith, fd)
length-erase_poll (q ∷ l) (suc i) p h = ground (arith, length-erase_poll l i p h)

length-filled : (message : Text) → is_empty message ≡ false → (length message == 0) ≡ false
length-filled [] h = cc
length-filled (c ∷ message) h = ground arith

no_entry : (l : List PollFd) (i : ℕ) → length l ≡ i → get_elem? l i ≡ none
no_entry [] i h = refl
no_entry (q ∷ l) zero h = absurd (ground arith)
no_entry (q ∷ l) (suc i) h = no_entry l i (ground arith)

-- For a client that quits and is the last entry of the poll, the first message of its queue sent in
-- full ends in undefined behaviour: the client is removed, and the entry of its index, which is past
-- the end of the vector then, is written all the same.
pub send_data-last_entry :
    (i : ℕ) (p : PollFd) (c : Client) (message : Text) (queue : List Text) (s : Server)
    → get_elem? s.poll_fds i ≡ some p
    → length s.poll_fds ≡ suc i
    → find_client p.fd s.clients ≡ some c
    → c.send_queue ≡ message ∷ queue
    → is_empty message ≡ false
    → c.quit ≡ true
    → send_data i (sent (length message)) s ≡ undefined
unfolding send_data send_to send_first after_send close_if_quit remove_client set_events poll_at
    entry deref catching gets set_client modify client_at pure ◌>>=◌ ◌>>◌
send_data-last_entry i p c message queue s there last found queued some_bytes quits =
    let again =
      find_client-updated p.fd (λ x. record x { send_queue = queue }) s.clients c (λ c. refl)
        found in
    let gone =
      no_entry (erase_poll p.fd s.poll_fds) i
        (ground (arith, length-erase_poll s.poll_fds i p there, last)) in
    let whole : ltb (length message) (length message) ≡ false = ground arith in
    let some_sent : (length message == 0) ≡ false = length-filled message some_bytes in
    rw (there, entry, found, queued, whole, some_sent, again, quits, gone) refl
