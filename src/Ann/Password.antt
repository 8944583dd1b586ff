-- ===== src/Ann/Password.antt =====
-- PASS, as the code answers it.
use ft_irc.Prelude.{
  ℕ, ◌≡◌, ◌≢◌, refl, sym, ◌∙◌, ap, true, false, not, ◌&&◌, some, List, [], ◌∷◌, ◌++◌, arith,
  Bool-cases, ◌⊎◌, inl, inr, if◌then◌else◌, length, ltb,
}
use ft_irc.Text.{Text, txt, text_eq}
use ft_irc.Ann.State.{Cli, Server, find_cli, update_cli, set_insert}
use ft_irc.Ann.Exec.{pure, modify, gets, deref, done, ◌>>=◌, ◌>>◌}
use ft_irc.Ann.Total.{Total, Total-then}
use ft_irc.Ann.Replies.{set_cli, arg, prepare_resp, append_resp, reply}
use ft_irc.Ann.Commands.Common.{arg_is_empty, is_registered}
use ft_irc.Ann.Commands.Register.{
  welcome, wrong_pass, accept_pass, check_pass, exec_pass, welcome_if_complete,
}
use ft_irc.Ann.Tables.{KeepsKeys, find_cli-update_cli, find_cli-addr}
use ft_irc.Ann.Rights.{author-found}

-- The client is there, whatever it has done, and these descriptors are to be closed.
record IsThere (p : ℕ) (fds : List ℕ) (s : Server) : Type 0 where
  client : Cli
  author_is : s.cli ≡ p
  live : find_cli p s.clis ≡ some client
  closing : s.fds_to_erase ≡ fds

-- There is such a client, it has passed, and exactly these descriptors are to be closed.
pub record HasPassed (p : ℕ) (fds : List ℕ) (s : Server) : Type 0 where
  pub client : Cli
  pub author_is : s.cli ≡ p
  pub live : find_cli p s.clis ≡ some client
  pub passed : client.pass_ok ≡ true
  pub closing : s.fds_to_erase ≡ fds

-- An assignment through a live pointer, and a reply to a live author, return.
module _ (p : ℕ) (s : Server) (c : Cli) (live : find_cli p s.clis ≡ some c) where
  set_cli-runs :
      (f : Cli → Cli) → set_cli p f s ≡ some (tt, record s { clis = update_cli p f s.clis })
  unfolding set_cli
  set_cli-runs f = rw (live, set_cli) refl

  find_cli-set : (f : Cli → Cli) → KeepsKeys f → find_cli p (update_cli p f s.clis) ≡ some (f c)
  find_cli-set f k = ground (arith, live, find_cli-update_cli f k p p s.clis)

  reply-runs :
      (msg : Text)
      → s.cli ≡ p
      → reply msg s ≡ some (tt, record s { clis = update_cli p (append_resp msg) s.clis })
  unfolding reply gets prepare_resp ◌>>=◌
  reply-runs msg e = ap (λ q. set_cli q (append_resp msg) s) e ∙ set_cli-runs (append_resp msg)

reply-HasPassed :
    (p : ℕ) (fds : List ℕ) (msg : Text) (s : Server)
    → HasPassed p fds s
    → Total (HasPassed p fds) (reply msg s)
reply-HasPassed p fds msg s h = rw (reply-runs p s h.client h.live msg h.author_is) (record {
  client = append_resp msg h.client;
  author_is = h.author_is;
  live =
      find_cli-set p s h.client h.live (append_resp msg)
        (record { addr = λ x. refl; fd = λ x. refl });
  passed = h.passed;
  closing = h.closing;
})

welcome-HasPassed :
    (p : ℕ) (fds : List ℕ) (s : Server)
    → HasPassed p fds s
    → Total (HasPassed p fds) (welcome_if_complete s)
unfolding welcome_if_complete pure ◌>>=◌
welcome-HasPassed p fds s h =
    let me : find_cli s.cli s.clis ≡ some h.client =
      ap (λ q. find_cli q s.clis) h.author_is ∙ h.live in
    elim (Bool-cases (is_registered h.client && not h.client.cap_in_progress)) [
      | inl y ↦
          rw (author-found s h.client me, ◌>>=◌, y) (reply-HasPassed p fds (welcome h.client) s h)
      | inr n ↦ rw (author-found s h.client me, ◌>>=◌, n) h
    ]

accept_pass-HasPassed :
    (c : Cli) (fds : List ℕ) (s : Server)
    → IsThere c.addr fds s
    → Total (HasPassed c.addr fds) (accept_pass c s)
unfolding accept_pass
accept_pass-HasPassed c fds s h =
    Total-then (HasPassed c.addr fds) (HasPassed c.addr fds) (set_cli c.addr pass)
      welcome_if_complete s
      (rw (set_cli-runs c.addr s h.client h.live pass) (record {
        client = pass h.client;
        author_is = h.author_is;
        live =
            find_cli-set c.addr s h.client h.live pass
              (record { addr = λ x. refl; fd = λ x. refl });
        passed = refl;
        closing = h.closing;
      }))
      (welcome-HasPassed c.addr fds)
  where
    pass : Cli → Cli
    pass x = record x { pass_ok = true }

-- the descriptors to close after PASS
abbrev pub closing_after : Cli → Text → Server → List ℕ
closing_after c given s =
    if text_eq given s.pass then s.fds_to_erase else set_insert c.fd s.fds_to_erase

wrong_pass-IsThere :
    (c : Cli) (s : Server)
    → find_cli c.addr s.clis ≡ some c
    → s.cli ≡ c.addr
    → Total (IsThere c.addr (set_insert c.fd s.fds_to_erase)) (wrong_pass c s)
unfolding wrong_pass modify ◌>>=◌ ◌>>◌
wrong_pass-IsThere c s e me =
    let msg = txt "464 :" ++ c.nick ++ txt " :Password incorrect" in
    rw (reply-runs c.addr (record s { fds_to_erase = set_insert c.fd s.fds_to_erase }) c e msg me)
      (record {
        client = append_resp msg c;
        author_is = me;
        live =
            find_cli-set c.addr s c e (append_resp msg)
              (record { addr = λ x. refl; fd = λ x. refl });
        closing = refl;
      })

check_pass-HasPassed :
    (c : Cli) (given : Text) (s : Server)
    → find_cli c.addr s.clis ≡ some c
    → s.cli ≡ c.addr
    → Total (HasPassed c.addr (closing_after c given s)) (check_pass c given s.pass s)
unfolding check_pass
check_pass-HasPassed c given s e me =
    Total-then (IsThere c.addr (closing_after c given s)) _ _ (accept_pass c) s
      (there (Bool-cases (text_eq given s.pass)))
      (accept_pass-HasPassed c (closing_after c given s))
  where
    there :
        (text_eq given s.pass ≡ true) ⊎ (text_eq given s.pass ≡ false)
        → Total
            (IsThere c.addr (closing_after c given s))
            ((if text_eq given s.pass then done else wrong_pass c) s)
    there (inl y) =
        rw y (unfold pure in record { client = c; author_is = me; live = e; closing = refl })
    there (inr n) = rw n (wrong_pass-IsThere c s e me)

-- PASS with a non-empty password returns, and has marked its author, that had not passed, as having
-- passed, also where the password is wrong; a wrong password only adds the descriptor to those that
-- are to be closed.
pub exec_pass-HasPassed :
    (c : Cli) (verb given : Text) (rest : List Text) (s : Server)
    → find_cli s.cli s.clis ≡ some c
    → c.pass_ok ≡ false
    → given ≢ []
    → Total (HasPassed c.addr (closing_after c given s)) (exec_pass (verb ∷ given ∷ rest) s)
unfolding exec_pass arg deref gets arg_is_empty ◌>>=◌ check_pass wrong_pass accept_pass
exec_pass-HasPassed c verb [] rest s e fresh named = absurd (named refl)
exec_pass-HasPassed c verb (x ∷ given) rest s e fresh named =
    let at : find_cli c.addr s.clis ≡ some c =
      ap (λ p. find_cli p s.clis) (find_cli-addr s.cli c s.clis e) ∙ e in
    let me : s.cli ≡ c.addr = sym (find_cli-addr s.cli c s.clis e) in
    let few : ltb (length (verb ∷ (x ∷ given) ∷ rest)) 2 ≡ false = ground arith in
    rw (author-found s c e, ◌>>=◌, fresh, few) (check_pass-HasPassed c (x ∷ given) s at me)
