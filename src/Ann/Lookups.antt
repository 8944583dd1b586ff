-- ===== src/Ann/Lookups.antt =====
-- `getCliOnCh` and `getAdmOnCh` of ann/srcs/utils.cpp return for a channel that is there under that
-- name, in states with the invariant.
use ft_irc.Prelude.{
  ℕ, ◌≡◌, refl, true, false, Option, none, some, List, [], ◌∷◌, arith, Bool-cases, inl, inr,
}
use ft_irc.Text.{Text, text_eq, text_eq_iff, to_lower}
use ft_irc.Ann.State.{Cli, Ch, Server, contains, find_cli, find_ch}
use ft_irc.Ann.Exec.{pure, gets, deref, ◌>>=◌}
use ft_irc.Ann.Replies.{cli_at, ch_at, subscript, search_nick, get_cli_on_ch, get_adm_on_ch}
use ft_irc.Ann.Wf.{IsWf, get_ch-find_ch}
use ft_irc.Ann.Entry.{IsHere, here-client}

search_nick-runs :
    (n : Text) (ps : List ℕ) (s : Server)
    → ((p : ℕ) → contains p ps ≡ true → IsHere p s)
    → (found : Option ℕ) × (search_nick n ps s ≡ some (found, s))
unfolding search_nick cli_at deref pure contains ◌>>=◌
search_nick-runs n [] s here = (none, refl)
search_nick-runs n (p ∷ ps) s here =
    let (c, e) = here-client p s (here p (ground arith)) in
    elim (Bool-cases (text_eq (to_lower c.nick) n)) [
      | inl same ↦ (some p, rw (e, deref, same) refl)
      | inr other ↦
          let (found, rest) = search_nick-runs n ps s (λ q on. here q (ground (arith, on))) in
          (found, rw (e, deref, other) rest)
    ]

search_nick-none :
    (n : Text) (ps : List ℕ) (s : Server)
    → ((p : ℕ)
        → contains p ps ≡ true
        → (d : Cli) × (find_cli p s.clis ≡ some d) × (text_eq (to_lower d.nick) n ≡ false))
    → search_nick n ps s ≡ some (none, s)
unfolding search_nick cli_at deref pure contains ◌>>=◌
search_nick-none n [] s other = refl
search_nick-none n (p ∷ ps) s other =
    let (d, live, unlike) = other p (ground arith) in
    rw (live, deref, unlike) (search_nick-none n ps s (λ q on. other q (ground (arith, on))))

module _ (nick name : Text) (ch : Ch) (s : Server) (w : IsWf s)
    (there : find_ch name s.chs ≡ some ch) where
  member-IsHere : (p : ℕ) → contains p ch.clis ≡ true → IsHere p s
  member-IsHere p on =
      let (d, live, named) = (w.chs_sound name ch there).members p on in ground (arith, live)

  pub get_cli_on_ch-runs : (found : Option ℕ) × (get_cli_on_ch nick name s ≡ some (found, s))
  unfolding get_cli_on_ch gets subscript deref pure ◌>>=◌
  get_cli_on_ch-runs =
      let key = get_ch-find_ch w name ch there in
      let (found, e) = search_nick-runs (to_lower nick) ch.clis s member-IsHere in
      (found, rw (key, there, deref) e)

  pub ch_at-runs : ch_at name s ≡ some (ch, s)
  unfolding ch_at gets subscript deref ◌>>=◌
  ch_at-runs = let key = get_ch-find_ch w name ch there in rw (key, deref, there)

  -- No operator has the nickname of a client that is no operator.
  pub get_adm_on_ch-none :
      (c : Cli)
      → find_cli s.cli s.clis ≡ some c
      → contains s.cli ch.adms ≡ false
      → get_adm_on_ch c.nick name s ≡ some (none, s)
  unfolding get_adm_on_ch gets subscript deref ◌>>=◌
  get_adm_on_ch-none c me plain =
      let key = get_ch-find_ch w name ch there in
      rw (key, there, deref)
        (search_nick-none (to_lower c.nick) ch.adms s λ p on.
          let sound = w.chs_sound name ch there in
          let (d, live, named) = sound.members p (sound.operators p on) in
          (
            d,
            live,
            elim (Bool-cases (text_eq (to_lower d.nick) (to_lower c.nick))) [
              | inl same ↦
                  let low = (text_eq_iff (to_lower d.nick) (to_lower c.nick)).0 same in
                  let own : p ≡ s.cli = w.nicks_differ p s.cli d c live me named low in
                  absurd (ground (arith, on, plain, own))
              | inr unlike ↦ unlike
            ],
          ))
