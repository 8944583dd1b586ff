-- ===== src/Mariia/Polls.antt =====
-- The entries of the poll: an index, a removal, and a change of the events.
use ft_irc.Prelude.{
  ℕ, zero, suc, ◌≡◌, refl, ap, ◌∙◌, true, some, List, [], ◌∷◌, arith, get_elem?, length, ltb,
}
use ft_irc.Ann.State.{PollFd, Events}
use ft_irc.Ann.Loop.{erase_poll}
use ft_irc.Mariia.State.{Server}
use ft_irc.Mariia.Loop.{set_events_at}
use ft_irc.Mariia.Wf.{IsWf, numbers, PollsDiffer, first_fd, behind_first}

pub length-erase_poll :
    (fd index : ℕ) (l : List PollFd)
    → ltb (suc index) (length l) ≡ true
    → ltb index (length (erase_poll fd l)) ≡ true
unfolding erase_poll
length-erase_poll fd index l h = ground (arith, at_most fd l)
  where
    at_most :
        (fd : ℕ) (l : List PollFd) → ltb (length l) (suc (suc (length (erase_poll fd l)))) ≡ true
    at_most fd [] = ground arith
    at_most fd (p ∷ l) = ground (arith, at_most fd l)

pub numbers-set_events_at :
    (index : ℕ) (e : Events) (l : List PollFd) → numbers (set_events_at index e l) ≡ numbers l
unfolding set_events_at
numbers-set_events_at index e [] = refl
numbers-set_events_at zero e (p ∷ l) = refl
numbers-set_events_at (suc index) e (p ∷ l) = ap (◌∷◌ p.fd) (numbers-set_events_at index e l)

-- Two lists of entries with the same descriptors.
PollsDiffer-same : (l l' : List PollFd) → numbers l' ≡ numbers l → PollsDiffer l → PollsDiffer l'
PollsDiffer-same l [] e d = tt
PollsDiffer-same [] (p ∷ l') e d = cc
PollsDiffer-same (q ∷ l) (p ∷ l') e d =
    let head : p.fd ≡ q.fd = cc in
    let tail : numbers l' ≡ numbers l = cc in (rw (head, tail) d.0, PollsDiffer-same l l' tail d.1)

pub length-same : (l l' : List PollFd) → numbers l' ≡ numbers l → length l' ≡ length l
length-same [] [] e = refl
length-same [] (p ∷ l') e = cc
length-same (q ∷ l) [] e = cc
length-same (q ∷ l) (p ∷ l') e =
    let tail : numbers l' ≡ numbers l = cc in ap suc (length-same l l' tail)

pub behind-same :
    (l l' : List PollFd)
    → numbers l' ≡ numbers l
    → numbers (behind_first l') ≡ numbers (behind_first l)
behind-same [] [] e = refl
behind-same [] (p ∷ l') e = cc
behind-same (q ∷ l) [] e = cc
behind-same (q ∷ l) (p ∷ l') e = cc

first-same : (l l' : List PollFd) → numbers l' ≡ numbers l → first_fd l' ≡ first_fd l
first-same [] [] e = refl
first-same [] (p ∷ l') e = cc
first-same (q ∷ l) [] e = cc
first-same (q ∷ l) (p ∷ l') e = cc

-- A change of the events only.
pub polls-IsWf :
    (s : Server) (l : List PollFd)
    → numbers l ≡ numbers s.poll_fds
    → IsWf s
    → IsWf (record s { poll_fds = l })
polls-IsWf s l e w = record {
  frame = record {
    polls_same = refl;
    same = refl;
    names_differ = w.frame.names_differ;
    channels = w.frame.channels;
    present = tt;
  };
  polls_differ = PollsDiffer-same s.poll_fds l e w.polls_differ;
  listening = first-same s.poll_fds l e ∙ w.listening;
  watched = rw (behind-same s.poll_fds l e) w.watched;
}

pub entry_at :
    (l : List PollFd) (i : ℕ) → ltb i (length l) ≡ true → (p : PollFd) × (get_elem? l i ≡ some p)
entry_at [] i h = absurd (ground arith)
entry_at (p ∷ l) zero h = (p, refl)
entry_at (p ∷ l) (suc i) h = entry_at l i (ground arith)

pub lt_entry :
    (l : List PollFd) (i : ℕ) (p : PollFd) → get_elem? l i ≡ some p → ltb i (length l) ≡ true
lt_entry [] i p h = cc
lt_entry (q ∷ l) zero p h = ground arith
lt_entry (q ∷ l) (suc i) p h = ground (arith, lt_entry l i p h)
