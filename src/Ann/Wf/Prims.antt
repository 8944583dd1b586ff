-- ===== src/Ann/Wf/Prims.antt =====
-- The primitive assignments keep the invariant.
use ft_irc.Prelude.{
  ℕ, ◌≡◌, sym, ◌∙◌, ap, none, some, List, arith, Bool-cases, Option-cases, subst, ◌⊎◌, inl, inr,
  ◌==◌, if◌then◌else◌,
}
use ft_irc.Text.{Text, text_eq, to_lower, text_eq_iff}
use ft_irc.Ann.State.{Cli, Ch, Server, find_cli, find_ch, update_cli, update_ch}
use ft_irc.Ann.Exec.{Keeps, Post, gets, deref, ◌>>=◌}
use ft_irc.Ann.Replies.{get_ch, set_cli, set_ch, set_key}
use ft_irc.Ann.Tables.{
  KeepsKeys, find_cli-update_cli, update_cli-ClisDiffer, find_ch-update_ch, update_ch-NamesDiffer,
}
use ft_irc.Ann.Wf.{IsWf, ChIsSound, IsLive, NicksDiffer}

-- What no assignment but that of `execNick` touches.
pub record KeepsNames (f : Cli → Cli) : Type 0 where
  pub keys : KeepsKeys f
  pub nick : (c : Cli) → (f c).nick ≡ c.nick

module _ (f : Cli → Cli) (k : KeepsNames f) (p : ℕ) (l : List Cli) where
  -- Each client of the new list is an old one, with its nickname.
  find_cli-before :
      (q : ℕ) (c : Cli)
      → find_cli q (update_cli p f l) ≡ some c
      → (d : Cli) × (find_cli q l ≡ some d) × (c.nick ≡ d.nick)
  find_cli-before q c h = elim (Option-cases (find_cli q l)) [
    | inl e ↦ absurd (ground (arith, find_cli-update_cli f k.keys p q l))
    | inr (d, e) ↦ (d, e, ground (arith, find_cli-update_cli f k.keys p q l, k.nick d))
  ]

  pub IsLive-update_cli : (q : ℕ) → IsLive q l → IsLive q (update_cli p f l)
  IsLive-update_cli q (d, e, named) = (
    (if p == q then f d else d),
    ground (arith, find_cli-update_cli f k.keys p q l),
    ground (arith, k.nick d),
  )

  pub NicksDiffer-update_cli : NicksDiffer l → NicksDiffer (update_cli p f l)
  NicksDiffer-update_cli n q r c d hc hd named low =
      let (c', ec, nc) = find_cli-before q c hc in
      let (d', ed, nd) = find_cli-before r d hd in
      n q r c' d' ec ed (λ z. named (nc ∙ z)) (ap to_lower (sym nc) ∙ low ∙ ap to_lower nd)

pub set_cli-IsWf : (p : ℕ) (f : Cli → Cli) → KeepsNames f → Keeps IsWf (set_cli p f)
unfolding set_cli
set_cli-IsWf p f k = record { kept = λ s w. at' s w (Option-cases (find_cli p s.clis)) }
  where
    after : (s : Server) → IsWf s → IsWf (record s { clis = update_cli p f s.clis })
    after s w = record {
      clis_differ = update_cli-ClisDiffer p f s.clis k.keys w.clis_differ;
      names_differ = w.names_differ;
      nicks_differ = NicksDiffer-update_cli f k p s.clis w.nicks_differ;
      chs_sound = λ n ch h. record {
        members = λ q m. IsLive-update_cli f k p s.clis q ((w.chs_sound n ch h).members q m);
        operators = (w.chs_sound n ch h).operators;
      };
    }

    at' :
        (s : Server)
        → IsWf s
        → (find_cli p s.clis ≡ none) ⊎ ((c : Cli) × (find_cli p s.clis ≡ some c))
        → Post IsWf (set_cli p f s)
    at' s w (inl e) = rw (e, set_cli) tt
    at' s w (inr (c, e)) = rw (e, set_cli) (after s w)

-- An assignment to one channel keeps the invariant if it leaves that channel sound.
pub update_ch-IsWf :
    (k : Text) (f : Ch → Ch) (s : Server)
    → IsWf s
    → ((ch : Ch) → find_ch k s.chs ≡ some ch → ChIsSound s.clis (f ch))
    → IsWf (record s { chs = update_ch k f s.chs })
update_ch-IsWf k f s w sound = record {
  clis_differ = w.clis_differ;
  names_differ = update_ch-NamesDiffer k f s.chs w.names_differ;
  nicks_differ = w.nicks_differ;
  chs_sound = λ n ch h. elim (Bool-cases (text_eq k n)) [
    | inl e ↦
        let same : k ≡ n = (text_eq_iff k n).0 e in
        elim (Option-cases (find_ch n s.chs)) [
          | inl z ↦ absurd (ground (arith, find_ch-update_ch f k n s.chs))
          | inr (old, z) ↦
              let x : f old ≡ ch = ground (arith, find_ch-update_ch f k n s.chs) in
              subst (ChIsSound s.clis) x (sound old (ap (λ t. find_ch t s.chs) same ∙ z))
        ]
    | inr e ↦ w.chs_sound n ch (ground (arith, find_ch-update_ch f k n s.chs))
  ];
}

pub set_ch-at :
    (name : Text) (f : Ch → Ch) (s : Server)
    → IsWf s
    → ((k : Text) (ch : Ch)
        → get_ch name s ≡ some k
        → find_ch k s.chs ≡ some ch
        → ChIsSound s.clis (f ch))
    → Post IsWf (set_ch name f s)
unfolding set_ch gets deref ◌>>=◌ set_key
set_ch-at name f s w sound = elim (Option-cases (get_ch name s)) [
  | inl e ↦ rw (e, set_ch) tt
  | inr (k, e) ↦ rw (e, set_ch) (update_ch-IsWf k f s w (λ ch. sound k ch e))
]

-- An assignment that keeps every channel sound.
pub set_ch-IsWf :
    (name : Text) (f : Ch → Ch)
    → ((l : List Cli) (ch : Ch) → ChIsSound l ch → ChIsSound l (f ch))
    → Keeps IsWf (set_ch name f)
set_ch-IsWf name f sound = record {
  kept = λ s w. set_ch-at name f s w (λ k ch e h. sound s.clis ch (w.chs_sound k ch h));
}
