-- ===== src/Ann/Wf/Mode.antt =====
-- MODE keeps the invariant; +o adds nobody who is not on the channel.
use ft_irc.Prelude.{
  ℕ, ◌≡◌, sym, ◌∙◌, ap, subst, Bool, true, false, ◌||◌, Option, none, some, List, arith, Bool-cases,
  inl, inr, is_none,
}
use ft_irc.Text.{Text, to_lower}
use ft_irc.Ann.State.{Cli, Ch, Server}
use ft_irc.Ann.Exec.{
  Keeps, Post, pure, gets, ◌>>=◌, Keeps-bind, Keeps-bind-run, Post-then, >>=-eq-some,
}
use ft_irc.Ann.Replies.{author, set_ch, get_cli, get_cli_on_ch, resp_to_all}
use ft_irc.Ann.Commands.Mode.{
  set_option, add_adm, remove_adm, apply_option, drop_operator, not_there, change_if, change_option,
  is_opt, bad_limit,
}
use ft_irc.Ann.Tables.{contains-set_erase, contains-set_insert}
use ft_irc.Ann.Found.{IsOnCh, get_cli_on_ch-some, get_cli_on_ch-state}
use ft_irc.Ann.Keeps.{reply_rules, Keeps-reply, Keeps-resp_to_all, Keeps-author}
use ft_irc.Ann.Wf.{IsWf, ChIsSound, get_ch-find_ch, get_cli-find_cli}
use ft_irc.Ann.Wf.Prims.{set_ch-IsWf, set_ch-at}
use ft_irc.Ann.Wf.Register.{replies-IsWf}

set_option-clis : (opt val : Text) (ch : Ch) → (set_option opt val ch).clis ≡ ch.clis
unfolding set_option
set_option-clis opt val ch = ground arith

set_option-adms : (opt val : Text) (ch : Ch) → (set_option opt val ch).adms ≡ ch.adms
unfolding set_option
set_option-adms opt val ch = ground arith

set_option-ChIsSound :
    (opt val : Text) (l : List Cli) (ch : Ch) → ChIsSound l ch → ChIsSound l (set_option opt val ch)
set_option-ChIsSound opt val l ch h = record {
  members = rw set_option-clis h.members;
  operators = rw (set_option-clis, set_option-adms) h.operators;
}

remove_adm-ChIsSound :
    (p : Option ℕ) (l : List Cli) (ch : Ch) → ChIsSound l ch → ChIsSound l (remove_adm p ch)
remove_adm-ChIsSound none l ch h = h
remove_adm-ChIsSound (some p) l ch h = record {
  members = h.members;
  operators = λ q m. h.operators q (ground (arith, contains-set_erase q p ch.adms));
}

-- The argument of +o is on the channel.
abbrev MayAdd : Text → Text → Text → Server → Type 0
MayAdd name opt val s = is_opt opt "+o" ≡ true → (p : ℕ) × IsOnCh val name p s

add_adm_sound :
    (name val : Text) (p : ℕ) (s : Server)
    → IsWf s
    → IsOnCh val name p s
    → Post IsWf (set_ch name (add_adm (get_cli val s)) s)
add_adm_sound name val p s w on =
    let f = on.found in
    let old = w.chs_sound name on.channel on.there in
    let (c, live, named) = old.members p f.on_list in
    let same : c ≡ f.client = ground (arith, f.live) in
    let who : get_cli val s ≡ some p =
      get_cli-find_cli w p c val live named (ap (λ (x : Cli). to_lower x.nick) same ∙ f.named) in
    rw who (
      set_ch-at name (add_adm (some p)) s w λ k ch e h.
        let key : some k ≡ some name = sym e ∙ get_ch-find_ch w name on.channel on.there in
        let here : ch ≡ on.channel = ground (arith, on.there, key) in
        record {
          members = (w.chs_sound k ch h).members;
          operators = λ q m.
              ground (
                arith,
                f.on_list,
                contains-set_insert q p ch.adms,
                (w.chs_sound k ch h).operators q,
              );
        })

drop_operator-IsWf : (name val : Text) → Keeps IsWf (drop_operator name val)
unfolding drop_operator
drop_operator-IsWf name val =
    search (reply_rules, λ (p : Option ℕ). set_ch-IsWf name (remove_adm p) (remove_adm-ChIsSound p))
      depth 9

apply_option-IsWf :
    (name opt val : Text) (s : Server)
    → IsWf s
    → MayAdd name opt val s
    → Post IsWf (apply_option name opt val s)
unfolding apply_option
apply_option-IsWf name opt val s w may = elim (Bool-cases (is_opt opt "+o")) [
  | inl plus ↦
      let (p, on) = may plus in rw plus (unfold gets ◌>>=◌ in add_adm_sound name val p s w on)
  | inr other ↦ rw other (elim (Bool-cases (is_opt opt "-o")) [
    | inl minus ↦ rw minus ((drop_operator-IsWf name val).kept s w)
    | inr rest ↦
        rw rest ((set_ch-IsWf name (set_option opt val) (set_option-ChIsSound opt val)).kept s w)
  ])
]

-- Where the membership test lets +o pass, it has found a member, and nothing has changed.
found_member :
    (name val : Text) (r : Option ℕ) (s t u : Server)
    → get_cli_on_ch val name s ≡ some (r, u)
    → pure (is_none r) u ≡ some (false, t)
    → (t ≡ s) × ((p : ℕ) × IsOnCh val name p s)
unfolding pure
found_member name val none s t u e f = cc
found_member name val (some p) s t u e f = (
  ground (arith, get_cli_on_ch-state val name (some p) s u e),
  (p, get_cli_on_ch-some val name p s u e),
)

not_there-IsWf :
    (name opt val : Text) (s : Server) (b : Bool) (t : Server)
    → IsWf s
    → not_there name opt val s ≡ some (b, t)
    → IsWf t
unfolding not_there
not_there-IsWf name opt val s b t w h =
    let k : Keeps IsWf (not_there name opt val) = search reply_rules depth 9 in
    subst (Post IsWf) h (k.kept s w)

pure_state : {A : Type 0} (a : A) (s : Server) {b : A} (t : Server) → pure a s ≡ some (b, t) → t ≡ s
unfolding pure
pure_state a s t h = ground arith

not_there-false :
    (name opt val : Text) (s t : Server)
    → not_there name opt val s ≡ some (false, t)
    → (t ≡ s) × MayAdd name opt val s
unfolding not_there
not_there-false name opt val s t h = elim (Bool-cases (is_opt opt "+o" || is_opt opt "-o")) [
  | inl tested ↦
      let (r, u, e, f) =
        >>=-eq-some (get_cli_on_ch val name) (λ m. pure (is_none m)) s
          (rw (tested, not_there) at h) in
      let (same, on) = found_member name val r s t u e f in (same, λ _. on)
  | inr free ↦ (
    ground (arith, pure_state false s t (rw (free, not_there) at h)),
    λ plus. absurd (ground arith),
  )
]

change_if-IsWf :
    (c : Cli) (name opt val : Text) (s : Server) (absent : Bool) (t : Server)
    → IsWf s
    → not_there name opt val s ≡ some (absent, t)
    → Post IsWf (change_if c name opt val absent t)
unfolding change_if
change_if-IsWf c name opt val s true t w h =
    (Keeps-reply replies-IsWf _).kept t (not_there-IsWf name opt val s true t w h)
change_if-IsWf c name opt val s false t w h =
    let (same, may) = not_there-false name opt val s t h in
    let here : IsWf t = subst IsWf (sym same) w in
    elim (Bool-cases (bad_limit opt val)) [
      | inl bad ↦ rw bad ((Keeps-reply replies-IsWf _).kept t here)
      | inr good ↦ rw good (
          Post-then (apply_option name opt val) (resp_to_all name _) t
            (apply_option-IsWf name opt val t here (subst (MayAdd name opt val) (sym same) may))
            (Keeps-resp_to_all replies-IsWf name _))
    ]

pub change_option-IsWf : (name opt val : Text) → Keeps IsWf (change_option name opt val)
unfolding change_option
change_option-IsWf name opt val = Keeps-bind author _ Keeps-author λ c.
    Keeps-bind-run (not_there name opt val) (change_if c name opt val)
      (change_if-IsWf c name opt val)
