-- ===== src/Mariia/Ends.antt =====
-- How a step of `sendData` (project/mariia/sources/Server.cpp) ends, and from which states.
use ft_irc.Prelude.{
  Bool, ℕ, suc, ◌≡◌, sym, ap, ◌∙◌, ◌⊎◌, true, false, some, List, [], ◌∷◌, arith, ◌==◌, Bool-cases,
  inl, inr, is_empty, length, ltb,
}
use ft_irc.Text.{Text}
use ft_irc.Ann.State.{contains}
use ft_irc.Mariia.State.{Client, Server, find_client, update_client}
use ft_irc.Mariia.Exec.{M, Outcome, returned, thrown, crashed, undefined, and_then}
use ft_irc.Mariia.Loop.{Sent, refused, broken, sent}
use ft_irc.Mariia.Wf.{IsWf, numbers, behind_first}

-- A method returns with one predicate of the state, and throws with another.
abbrev pub Ends : {A : Type 0} → (Server → Type 0) → (Server → Type 0) → Outcome A → Type 0
Ends R Q (returned a s) = R s
Ends R Q (thrown s) = Q s
Ends R Q crashed = ⊥
Ends R Q undefined = ⊥

pub Ends-and_then :
    {A B : Type 0} (R T Q : Server → Type 0) (o : Outcome A) (next : A → M B)
    → Ends R Q o
    → ((a : A) (s : Server) → R s → Ends T Q (next a s))
    → Ends T Q (and_then o next)
Ends-and_then R T Q (returned a s) next now later = later a s now
Ends-and_then R T Q (thrown s) next now later = now
Ends-and_then R T Q crashed next now later = now
Ends-and_then R T Q undefined next now later = now

-- The client has closed its end.
abbrev pub is_broken : Sent → Bool
is_broken refused = false
is_broken broken = true
is_broken (sent n) = false

-- There is an entry of that index, and the listening socket is `socket`.
pub record HasEntry (index socket : ℕ) (s : Server) : Type 0 where
  pub wf : IsWf s
  pub at_socket : s.socket_fd ≡ socket
  pub entry : ltb index (length s.poll_fds) ≡ true

-- The client is watched at that index; another entry is behind it, or it does not quit.
pub record MaySend (index socket fd : ℕ) (s : Server) : Type 0 where
  pub has_entry : HasEntry index socket s
  pub seen : contains fd (numbers (behind_first s.poll_fds)) ≡ true
  pub stays :
      (ltb (suc index) (length s.poll_fds) ≡ true)
      ⊎ ((c : Client) → find_client fd s.clients ≡ some c → c.quit ≡ false)

pub filled_lt : (message : Text) → is_empty message ≡ false → ltb 0 (length message) ≡ true
filled_lt [] h = cc
filled_lt (c ∷ message) h = ground arith

pub find_client-update_client :
    (fd : ℕ) (f : Client → Client) (l : List Client) (c : Client)
    → ((c : Client) → ((f c).socket_fd ≡ c.socket_fd) × ((f c).quit ≡ c.quit))
    → ((d : Client) → find_client fd l ≡ some d → d.quit ≡ false)
    → find_client fd (update_client fd f l) ≡ some c
    → c.quit ≡ false
unfolding find_client update_client
find_client-update_client fd f [] c k old h = cc
find_client-update_client fd f (d ∷ l) c k old h = elim (Bool-cases (d.socket_fd == fd)) [
  | inl here ↦
      let same : f d ≡ c = ground (arith, (k d).0) in
      ap (λ (x : Client). x.quit) (sym same) ∙ (k d).1 ∙ old d (ground arith)
  | inr there ↦ find_client-update_client fd f l c k (λ x e. old x (ground arith)) (ground arith)
]
