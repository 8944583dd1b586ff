-- ===== src/Ann/Entry.antt =====
-- What JOIN tells the members of a channel does not fault where their pointers are those of clients.
use ft_irc.Prelude.{
  ℕ, Bool, ◌≡◌, refl, ap, ◌∙◌, true, false, some, List, [], ◌∷◌, ◌++◌, arith, if◌then◌else◌,
  is_empty, is_none, Option-cases, inl, inr,
}
use ft_irc.Text.{Text, txt, to_lower}
use ft_irc.Ann.State.{Cli, Ch, Server, contains, find_cli, update_cli, find_ch}
use ft_irc.Ann.Exec.{pure, gets, deref, ◌>>=◌, done}
use ft_irc.Ann.Replies.{
  append_resp, cli_at, set_cli, prepare_resp, reply, find_name, get_ch, ch_at, subscript,
  resp_to_all, user_list, users, drop_last,
}
use ft_irc.Ann.Commands.Common.{prefix}
use ft_irc.Ann.Commands.Join.{announce}
use ft_irc.Ann.Tables.{KeepsKeys, find_cli-update_cli}
use ft_irc.Ann.Total.{Total, Total-then, Total-if, Total-read, Total-for_each, Total-map}

-- The pointer is that of a client.
abbrev pub IsHere : ℕ → Server → Type 0
IsHere p s = is_none (find_cli p s.clis) ≡ false

pub here-client : (p : ℕ) (s : Server) → IsHere p s → (c : Cli) × (find_cli p s.clis ≡ some c)
here-client p s h = elim (Option-cases (find_cli p s.clis)) [
  | inl e ↦ absurd (ground (arith, e))
  | inr (c, e) ↦ (c, e)
]

module _ (name k : Text) (ch : Ch) (chs : List (Text × Ch))
    (key : find_name (to_lower name) chs ≡ some k) (there : find_ch k chs ≡ some ch) where
  -- The channels are `chs`, and the author and the members of the channel are clients.
  pub record IsReady (s : Server) : Type 0 where
    pub chs_same : s.chs ≡ chs
    pub author_here : IsHere s.cli s
    pub members_here : (p : ℕ) → contains p ch.clis ≡ true → IsHere p s

  pub set_cli-IsReady :
      (p : ℕ) (f : Cli → Cli) (s : Server)
      → KeepsKeys f
      → IsHere p s
      → IsReady s
      → Total IsReady (set_cli p f s)
  unfolding set_cli
  set_cli-IsReady p f s keys here ready =
      let (c, e) = here-client p s here in
      rw (e, set_cli)
        (record {
          chs_same = ready.chs_same;
          author_here = stays s.cli ready.author_here;
          members_here = λ q on. stays q (ready.members_here q on);
        })
    where
      stays : (q : ℕ) → IsHere q s → is_none (find_cli q (update_cli p f s.clis)) ≡ false
      stays q h = ground (arith, h, find_cli-update_cli f keys p q s.clis)

  prepare_resp-IsReady :
      (p : ℕ) (msg : Text) (s : Server)
      → IsHere p s
      → IsReady s
      → Total IsReady (prepare_resp p msg s)
  unfolding prepare_resp
  prepare_resp-IsReady p msg s =
      set_cli-IsReady p (append_resp msg) s record { addr = λ x. refl; fd = λ x. refl }

  reply-IsReady : (msg : Text) (s : Server) → IsReady s → Total IsReady (reply msg s)
  unfolding reply gets ◌>>=◌
  reply-IsReady msg s ready = prepare_resp-IsReady s.cli msg s ready.author_here ready

  ch_at-ready : (s : Server) → IsReady s → ch_at name s ≡ some (ch, s)
  unfolding ch_at get_ch gets deref subscript ◌>>=◌
  ch_at-ready s ready =
      let found : find_name (to_lower name) s.chs ≡ some k =
        ap (find_name (to_lower name)) ready.chs_same ∙ key in
      let at : find_ch k s.chs ≡ some ch = ap (find_ch k) ready.chs_same ∙ there in
      rw (found, deref, at)

  resp_to_all-IsReady :
      (msg : Text) (s : Server) → IsReady s → Total IsReady (resp_to_all name msg s)
  unfolding resp_to_all contains
  resp_to_all-IsReady msg s ready = Total-read IsReady (ch_at name) _ ch s (ch_at-ready s ready) (
      Total-map {Q = IsReady} (λ t h. h.0) _
        (Total-for_each Left (λ p. prepare_resp p msg) each ch.clis s (ready, λ p on. on)))
    where
      Left : List ℕ → Server → Type 0
      Left ps t = IsReady t × ((p : ℕ) → contains p ps ≡ true → contains p ch.clis ≡ true)

      each :
          (p : ℕ) (ps : List ℕ) (t : Server)
          → Left (p ∷ ps) t
          → Total (Left ps) (prepare_resp p msg t)
      each p ps t h =
          let here = h.0.members_here p (h.1 p (ground arith)) in
          Total-map {Q = Left ps} (λ u r. (r, λ q on. h.1 q (ground (arith, on)))) _
            (prepare_resp-IsReady p msg t here h.0)

  user_list-runs :
      (ps : List ℕ) (s : Server)
      → ((p : ℕ) → contains p ps ≡ true → IsHere p s)
      → (names : Text) × (user_list ch.adms ps s ≡ some (names, s))
  unfolding user_list cli_at deref pure contains ◌>>=◌
  user_list-runs [] s here = ([], refl)
  user_list-runs (p ∷ ps) s here =
      let (c, e) = here-client p s (here p (ground arith)) in
      let (names, rest) = user_list-runs ps s (λ q on. here q (ground (arith, on))) in
      (
        (if contains p ch.adms then txt "@" else []) ++ c.nick ++ txt " " ++ names,
        rw (e, deref, rest) refl,
      )

  users-runs : (s : Server) → IsReady s → (who : Text) × (users ch s ≡ some (who, s))
  unfolding users pure ◌>>=◌
  users-runs s ready = go (is_empty ch.clis) refl
    where
      go : (b : Bool) → is_empty ch.clis ≡ b → (who : Text) × (users ch s ≡ some (who, s))
      go true e = (txt "no users", rw e refl)
      go false e =
          let (names, runs) = user_list-runs ch.clis s ready.members_here in
          (drop_last names, rw (e, runs) refl)

  -- The members are told of a new one.
  pub announce-IsReady : (c : Cli) (s : Server) → IsReady s → Total IsReady (announce name c s)
  unfolding announce
  announce-IsReady c s ready =
      Total-then IsReady IsReady (resp_to_all name (prefix c ++ txt " JOIN " ++ name)) _ s
        (resp_to_all-IsReady _ s ready)
        λ t r. Total-read IsReady (ch_at name) _ ch t (ch_at-ready t r) (
          Total-then IsReady IsReady _ _ t
            (Total-if IsReady (is_empty ch.topic) done _ t (λ _. unfold pure in r)
              λ _. reply-IsReady _ t r)
            λ u q.
              let (who, runs) = users-runs u q in
              Total-read IsReady (ch_at name) _ ch u (ch_at-ready u q)
                (Total-read IsReady (users ch) _ who u runs (resp_to_all-IsReady _ u q)))
