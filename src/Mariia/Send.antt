-- ===== src/Mariia/Send.antt =====
-- `sendData` of project/mariia/sources/Server.cpp on states with the invariant.
use ft_irc.Prelude.{
  ℕ, suc, ◌≡◌, refl, sym, ap, ◌∙◌, ◌⊎◌, true, false, some, List, [], ◌∷◌, arith, ◌==◌, All,
  Bool-cases, inl, inr, is_empty, get_elem?, length, ltb, drop,
}
use ft_irc.Text.{Text}
use ft_irc.Ann.State.{PollFd, Events, pollin, pollout, contains}
use ft_irc.Mariia.State.{Client, Server, find_client, push_send_queue}
use ft_irc.Mariia.Exec.{
  Outcome, returned, thrown, crashed, undefined, crash, modify, pure, deref, throw, and_then,
  client_at, set_client, gets, caught, catching, ◌>>=◌, ◌>>◌,
}
use ft_irc.Mariia.Loop.{
  Sent, refused, broken, sent, entry, remove_client, poll_at, set_events_at, set_events,
  reset_events, after_send, send_first, close_if_quit, send_to, send_data,
}
use ft_irc.Mariia.Tables.{KeepsFd, find_client-live}
use ft_irc.Mariia.Safe.{Safe}
use ft_irc.Mariia.Frame.{IsSafe-set_client}
use ft_irc.Mariia.Wf.{IsWf, Serves, still}
use ft_irc.Mariia.Remove.{IsGone, remove_client-IsWf}
use ft_irc.Mariia.Turn.{get_elem?-watched}
use ft_irc.Mariia.Polls.{
  length-erase_poll, numbers-set_events_at, length-same, behind-same, polls-IsWf, entry_at,
  lt_entry,
}
use ft_irc.Mariia.Ends.{
  Ends, Ends-and_then, is_broken, HasEntry, MaySend, filled_lt, find_client-update_client,
}

module _ (index socket fd : ℕ) where
  abbrev Q : Server → Type 0
  Q = HasEntry index socket

  abbrev R : Server → Type 0
  R = MaySend index socket fd

  set_events-Ends : (e : Events) (s : Server) → Q s → Ends Q Q (set_events index e s)
  unfolding set_events poll_at entry modify ◌>>=◌
  set_events-Ends e s h =
      let (p, there) = entry_at s.poll_fds index h.entry in
      let same = numbers-set_events_at index e s.poll_fds in
      rw (there, entry)
        (record {
          wf = polls-IsWf s (set_events_at index e s.poll_fds) same h.wf;
          at_socket = h.at_socket;
          entry = ap (ltb index) (length-same s.poll_fds _ same) ∙ h.entry;
        })

  set_client-Ends :
      (f : Client → Client) (s : Server)
      → ((c : Client) → ((f c).socket_fd ≡ c.socket_fd) × ((f c).quit ≡ c.quit))
      → R s
      → Ends R Q (set_client fd f s)
  unfolding set_client modify
  set_client-Ends f s k h =
      let kept : KeepsFd f = record { fd_same = λ c. (k c).0 } in
      let w = h.has_entry.wf in
      let after = still s _ w ((IsSafe-set_client fd f kept).from s w.frame) in
      record {
        has_entry = record {
          wf = after.wf;
          at_socket = after.same_socket ∙ h.has_entry.at_socket;
          entry = h.has_entry.entry;
        };
        seen = h.seen;
        stays = elim h.stays [
          | inl room ↦ inl room
          | inr stay ↦ inr (λ c. find_client-update_client fd f s.clients c k stay)
        ];
      }

  removed :
      (s : Server)
      → R s
      → ltb (suc index) (length s.poll_fds) ≡ true
      → Ends Q Q (remove_client fd s)
  unfolding remove_client modify
  removed s h room =
      let gone : IsGone fd _ = remove_client-IsWf fd s h.has_entry.wf h.seen in
      record {
        wf = gone.wf;
        at_socket = h.has_entry.at_socket;
        entry = length-erase_poll fd index s.poll_fds room;
      }

  close_if_quit-Ends : (s : Server) → R s → Ends Q Q (close_if_quit fd s)
  unfolding close_if_quit client_at deref pure ◌>>=◌
  close_if_quit-Ends s h =
      let w = h.has_entry.wf in
      let (c, e) = find_client-live fd s.clients (w.watched fd h.seen) in
      elim (Bool-cases c.quit) [
        | inr on ↦ rw (e, deref, on) h.has_entry
        | inl off ↦ elim h.stays [
          | inl room ↦ rw (e, deref, off) (removed s h room)
          | inr stay ↦ absurd (ground (arith, stay c e, off))
        ]
      ]

  set_events-MaySend : (e : Events) (s : Server) → R s → Ends R Q (set_events index e s)
  unfolding set_events poll_at entry modify ◌>>=◌
  set_events-MaySend e s h =
      let (p, there) = entry_at s.poll_fds index h.has_entry.entry in
      let same = numbers-set_events_at index e s.poll_fds in
      rw (there, entry)
        (record {
          has_entry = record {
            wf = polls-IsWf s (set_events_at index e s.poll_fds) same h.has_entry.wf;
            at_socket = h.has_entry.at_socket;
            entry = ap (ltb index) (length-same s.poll_fds _ same) ∙ h.has_entry.entry;
          };
          seen = ap (contains fd) (behind-same s.poll_fds _ same) ∙ h.seen;
          stays = elim h.stays [
            | inl room ↦ inl (ap (ltb (suc index)) (length-same s.poll_fds _ same) ∙ room)
            | inr stay ↦ inr stay
          ];
        })

  after_send-Ends :
      (message : Text) (answer : Sent) (s : Server)
      → is_broken answer ≡ false
      → is_empty message ≡ false
      → R s
      → Ends R Q (after_send index fd message answer s)
  unfolding after_send throw crash pure push_send_queue ◌>>=◌ ◌>>◌
  after_send-Ends message refused s alive some_bytes h = h.has_entry
  after_send-Ends message broken s alive some_bytes h = cc
  after_send-Ends message (sent n) s alive some_bytes h =
      elim (Bool-cases (ltb n (length message))) [
        | inl part ↦ rw part (
            Ends-and_then R R Q (set_client fd (push_send_queue (drop n message)) s)
              (λ _. set_events index pollout)
              (set_client-Ends (push_send_queue (drop n message)) s (λ c. (refl, refl)) h)
              (λ _. set_events-MaySend pollout))
        | inr whole ↦ elim (Bool-cases (n == 0)) [
          | inl none_sent ↦ absurd (ground (arith, filled_lt message some_bytes))
          | inr some_sent ↦ rw (whole, some_sent) h
        ]
      ]

  send_first-Ends :
      (answer : Sent) (queue : List Text) (s : Server)
      → is_broken answer ≡ false
      → All (λ m. is_empty m ≡ false) queue
      → R s
      → Ends R Q (send_first index fd answer queue s)
  unfolding send_first pure ◌>>=◌ ◌>>◌
  send_first-Ends answer [] s alive filled h = h
  send_first-Ends answer (message ∷ queue) s alive filled h =
      Ends-and_then R R Q (set_client fd (λ c. record c { send_queue = queue }) s)
        (λ _. after_send index fd message answer)
        (set_client-Ends (λ c. record c { send_queue = queue }) s (λ c. (refl, refl)) h)
        (λ _ t. after_send-Ends message answer t alive filled.0)

  send_to-Ends :
      (answer : Sent) (c : Client) (s : Server)
      → is_broken answer ≡ false
      → All (λ m. is_empty m ≡ false) c.send_queue
      → R s
      → Ends Q Q (send_to index fd answer (some c) s)
  unfolding send_to ◌>>=◌ ◌>>◌
  send_to-Ends answer c s alive filled h =
      Ends-and_then R Q Q (send_first index fd answer c.send_queue s)
        (λ _ t. and_then (close_if_quit fd t) (λ _. set_events index pollin))
        (send_first-Ends answer c.send_queue s alive filled h)
        (λ _ t k.
          Ends-and_then Q Q Q (close_if_quit fd t) (λ _. set_events index pollin)
            (close_if_quit-Ends t k) (λ _. set_events-Ends pollin))

  reset_events-Safe : (s : Server) → Q s → Safe (Serves socket) (reset_events index s)
  unfolding reset_events poll_at entry pure ◌>>=◌
  reset_events-Safe s h =
      let (p, e) = entry_at s.poll_fds index h.entry in
      rw (e, entry) (record { wf = h.wf; at_socket = h.at_socket })

  caught-Safe :
      (o : Outcome (Unit {0}))
      → Ends Q Q o
      → Safe (Serves socket) (and_then (caught o) (λ _. reset_events index))
  caught-Safe (returned a s) h = reset_events-Safe s h
  caught-Safe (thrown s) h = reset_events-Safe s h
  caught-Safe crashed h = h
  caught-Safe undefined h = h

-- A round of `sendData` on a client that is watched and has not closed its end, of whatever `send`
-- takes or where it fails for another reason, does not crash, has a defined behaviour and keeps the
-- invariant and the listening socket, if no message of the queue is empty and, where the client is the last entry of the poll,
-- it does not quit.
pub send_data-IsWf :
    (i : ℕ) (answer : Sent) (p : PollFd) (c : Client) (s : Server)
    → IsWf s
    → get_elem? s.poll_fds (suc i) ≡ some p
    → find_client p.fd s.clients ≡ some c
    → is_broken answer ≡ false
    → All (λ m. is_empty m ≡ false) c.send_queue
    → (ltb (suc (suc i)) (length s.poll_fds) ≡ true) ⊎ (c.quit ≡ false)
    → Safe (Serves s.socket_fd) (send_data (suc i) answer s)
unfolding send_data poll_at entry catching gets ◌>>=◌ ◌>>◌
send_data-IsWf i answer p c s w there found alive filled stays =
    let may : MaySend (suc i) s.socket_fd p.fd s = record {
      has_entry = record { wf = w; at_socket = refl; entry = lt_entry s.poll_fds (suc i) p there };
      seen = get_elem?-watched s.poll_fds i p there;
      stays = elim stays [
        | inl room ↦ inl room
        | inr off ↦ inr (λ d e.
            let same : c ≡ d = ground (arith, e, found) in
            ap (λ (x : Client). x.quit) (sym same) ∙ off)
      ];
    } in
    rw (there, entry, found)
      (caught-Safe (suc i) s.socket_fd p.fd _
        (send_to-Ends (suc i) s.socket_fd p.fd answer c s alive filled may))
