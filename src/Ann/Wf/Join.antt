-- ===== src/Ann/Wf/Join.antt =====
-- JOIN keeps the invariant, for an author that is there and has a nickname.
use ft_irc.Prelude.{
  ℕ, ◌≡◌, refl, sym, subst, true, ◌&&◌, Option, none, some, List, [], ◌∷◌, arith, Bool-cases,
  Option-cases, inl, inr, ◌==◌, length, ltb, drop, get_elem?,
}
use ft_irc.Text.{Text, text_eq, txt}
use ft_irc.Ann.State.{Cli, Ch, Server, contains, find_cli, insert_ch, new_ch, names_erase}
use ft_irc.Ann.Exec.{
  M, Keeps, Post, pure, gets, modify, deref, ◌>>=◌, Keeps-pure, Keeps-bind, Keeps-bind-run,
  Post-then, Post-map,
}
use ft_irc.Ann.Replies.{
  arg, author, cli_at, get_cli_on_ch, set_ch, set_key, set_cli, get_ch, prepare_resp, append_resp,
}
use ft_irc.Ann.Commands.Common.{is_registered}
use ft_irc.Ann.Commands.Join.{
  own_channels, leave_all, open_ch, open_if, add_member, announce, enter_as, enter_ch, admit,
  join_one, join_loop, join_named, join_arg, join_as, exec_join,
}
use ft_irc.Ann.Tables.{find_ch-insert_ch, insert_ch-NamesDiffer, contains-set_insert, find_cli-addr}
use ft_irc.Ann.Keeps.{
  KeptByReplies, reply_rules, Keeps-reply, Keeps-get_cli_on_ch, Keeps-not_registered,
}
use ft_irc.Ann.Wf.{IsWf, IsLive, ChIsSound}
use ft_irc.Ann.Wf.Prims.{KeepsNames, set_cli-IsWf, update_ch-IsWf, IsLive-update_cli}
use ft_irc.Ann.Wf.Register.{replies-IsWf}
use ft_irc.Ann.Keeps.Channel.{Keeps-exec_part}
use ft_irc.Ann.Wf.Channel.{channel_laws-IsWf}

-- The invariant while a registered client joins.
pub record IsJoining (s : Server) : Type 0 where
  pub wf : IsWf s
  pub named : IsLive s.cli s.clis

set_cli-IsJoining : (p : ℕ) (f : Cli → Cli) → KeepsNames f → Keeps IsJoining (set_cli p f)
unfolding set_cli
set_cli-IsJoining p f k = record {
  kept = λ s j. elim (Option-cases (find_cli p s.clis)) [
    | inl e ↦ rw (e, set_cli) tt
    | inr (c, e) ↦
        rw (e, set_cli)
          (record {
            wf = rw (e, set_cli) at ((set_cli-IsWf p f k).kept s j.wf);
            named = IsLive-update_cli f k p s.clis s.cli j.named;
          })
  ];
}

replies-IsJoining : KeptByReplies IsJoining
unfolding prepare_resp
replies-IsJoining = record {
  resp = λ p msg.
      set_cli-IsJoining p (append_resp msg)
        (record { keys = record { addr = λ c. refl; fd = λ c. refl }; nick = λ c. refl });
}

erase_invit-IsJoining :
    (p : ℕ) (n : Text)
    → Keeps IsJoining (set_cli p (λ x. record x { invits = names_erase n x.invits }))
erase_invit-IsJoining p n =
    set_cli-IsJoining p _
      (record { keys = record { addr = λ c. refl; fd = λ c. refl }; nick = λ c. refl })

-- What `author` gives is the author.
pub author-some :
    (s : Server) (c : Cli) (t : Server)
    → author s ≡ some (c, t)
    → (t ≡ s) × (find_cli s.cli s.clis ≡ some c) × (c.addr ≡ s.cli)
unfolding author cli_at deref
author-some s c t h = elim (Option-cases (find_cli s.cli s.clis)) [
  | inl e ↦ absurd (ground arith)
  | inr (d, e) ↦ (ground arith, ground arith, ground (arith, find_cli-addr s.cli d s.clis e))
]

-- A new channel holds its author alone, as member and operator.
new_ch-ChIsSound : (p : ℕ) (l : List Cli) → IsLive p l → ChIsSound l (new_ch p)
unfolding new_ch contains
new_ch-ChIsSound p l live = record {
  members = λ q m. subst (λ t. IsLive t l) (ground arith) live;
  operators = λ q m. m;
}

insert_ch-IsWf :
    (name : Text) (p : ℕ) (s : Server)
    → IsWf s
    → IsLive p s.clis
    → get_ch name s ≡ none
    → IsWf (record s { chs = insert_ch name (new_ch p) s.chs })
unfolding get_ch
insert_ch-IsWf name p s w live fresh = record {
  clis_differ = w.clis_differ;
  names_differ = insert_ch-NamesDiffer name (new_ch p) s.chs w.names_differ fresh;
  nicks_differ = w.nicks_differ;
  chs_sound = λ k ch h. elim (Bool-cases (text_eq name k)) [
    | inl e ↦
        subst (ChIsSound s.clis) (ground (arith, find_ch-insert_ch name k (new_ch p) s.chs))
          (new_ch-ChIsSound p s.clis live)
    | inr e ↦ w.chs_sound k ch (ground (arith, find_ch-insert_ch name k (new_ch p) s.chs))
  ];
}

open_if-IsJoining :
    (name : Text) (c : Cli) (s : Server) (r : Option Text)
    → IsJoining s
    → c.addr ≡ s.cli
    → get_ch name s ≡ r
    → Post IsJoining (open_if name c r s)
unfolding open_if modify pure
open_if-IsJoining name c s none j e h =
    let live : IsLive c.addr s.clis = subst (λ p. IsLive p s.clis) (sym e) j.named in
    record { wf = insert_ch-IsWf name c.addr s j.wf live h; named = j.named }
open_if-IsJoining name c s (some k) j e h = j

-- A rule for what the author does: the state is that of the look-up.
Keeps-as-author :
    (k : Cli → M (Unit {0}))
    → ((c : Cli) (s : Server)
        → IsJoining s
        → find_cli s.cli s.clis ≡ some c
        → c.addr ≡ s.cli
        → Post IsJoining (k c s))
    → Keeps IsJoining (author >>= k)
Keeps-as-author k h = Keeps-bind-run author k λ s c t j e.
    let (same, found, at) = author-some s c t e in
    subst (λ u. Post IsJoining (k c u)) (sym same) (h c s j found at)

open_ch-IsJoining : (name : Text) → Keeps IsJoining (open_ch name)
unfolding open_ch gets ◌>>=◌
open_ch-IsJoining name =
    Keeps-as-author (λ c. gets (get_ch name) >>= open_if name c)
      (λ c s j found at. open_if-IsJoining name c s (get_ch name s) j at refl)

add_member-ChIsSound :
    (p : ℕ) (l : List Cli) (ch : Ch) → IsLive p l → ChIsSound l ch → ChIsSound l (add_member p ch)
add_member-ChIsSound p l ch live h = record {
  members = λ q m. elim (Bool-cases (p == q)) [
    | inl e ↦ subst (λ t. IsLive t l) (ground arith) live
    | inr e ↦ h.members q (ground (arith, contains-set_insert q p ch.clis))
  ];
  operators = λ q m. ground (arith, contains-set_insert q p ch.clis, h.operators q);
}

set_ch-IsJoining :
    (name : Text) (f : Ch → Ch) (s : Server)
    → IsJoining s
    → ((ch : Ch) → ChIsSound s.clis ch → ChIsSound s.clis (f ch))
    → Post IsJoining (set_ch name f s)
unfolding set_ch gets deref set_key ◌>>=◌
set_ch-IsJoining name f s j sound = elim (Option-cases (get_ch name s)) [
  | inl e ↦ rw (e, set_ch) tt
  | inr (k, e) ↦
      rw (e, set_ch)
        (record {
          wf = update_ch-IsWf k f s j.wf (λ ch h. sound ch (j.wf.chs_sound k ch h));
          named = j.named;
        })
]

announce-IsJoining : (name : Text) (c : Cli) → Keeps IsJoining (announce name c)
unfolding announce
announce-IsJoining name c = search (reply_rules, replies-IsJoining) depth 14

enter_ch-IsJoining : (name : Text) → Keeps IsJoining (enter_ch name)
unfolding enter_ch enter_as
enter_ch-IsJoining name = Keeps-as-author (enter_as name) λ c s j found at.
    let live : IsLive c.addr s.clis = subst (λ p. IsLive p s.clis) (sym at) j.named in
    Post-then {P = IsJoining} (set_ch name (add_member c.addr)) _ s
      (set_ch-IsJoining name _ s j (λ ch. add_member-ChIsSound c.addr s.clis ch live))
      (search (reply_rules, erase_invit-IsJoining, announce-IsJoining))

admit-IsJoining : (name pass : Text) → Keeps IsJoining (admit name pass)
unfolding admit
admit-IsJoining name pass = search (reply_rules, replies-IsJoining, enter_ch-IsJoining) depth 14

join_one-IsJoining :
    (same next : M (Unit {0})) (a pass name : Text)
    → Keeps IsJoining same
    → Keeps IsJoining next
    → Keeps IsJoining (join_one same next a pass name)
unfolding join_one
join_one-IsJoining same next a pass name ks kn =
    search (reply_rules, replies-IsJoining, open_ch-IsJoining, admit-IsJoining) depth 16

join_loop-IsJoining :
    (a : Text) (passes names : List Text) → Keeps IsJoining (join_loop a passes names)
unfolding join_loop
join_loop-IsJoining a passes [] = Keeps-pure tt
join_loop-IsJoining a passes (name ∷ names) =
    join_one-IsJoining (join_loop a passes names) (join_loop a (drop 1 passes) names) a _ name
      (join_loop-IsJoining a passes names) (join_loop-IsJoining a (drop 1 passes) names)

join_named-IsJoining : (ar : List Text) (a : Text) → Keeps IsJoining (join_named ar a)
unfolding join_named
join_named-IsJoining ar a = search (reply_rules, replies-IsJoining, join_loop-IsJoining) depth 9

own_channels-IsWf : (c : Cli) (m : List (Text × Ch)) → Keeps IsWf (own_channels c m)
unfolding own_channels
own_channels-IsWf c [] = search reply_rules
own_channels-IsWf c ((k, ch) ∷ m) =
    let rest = own_channels-IsWf c m in
    Keeps-bind (get_cli_on_ch c.nick k) _ (Keeps-get_cli_on_ch c.nick k)
      λ member. search (reply_rules, rest)

leave_all-IsWf : (ar : List Text) → Keeps IsWf (leave_all ar)
unfolding leave_all
leave_all-IsWf ar =
    search (reply_rules, own_channels-IsWf, Keeps-exec_part channel_laws-IsWf) depth 14

join_arg-IsWf : (ar : List Text) (a : Text) (s : Server) → IsJoining s → Post IsWf (join_arg ar a s)
unfolding join_arg
join_arg-IsWf ar a s j = elim (Bool-cases (length ar == 2 && text_eq a (txt "0"))) [
  | inl zero' ↦ rw zero' ((leave_all-IsWf ar).kept s j.wf)
  | inr named ↦ rw named (
      Post-map (λ (t : Server) (h : IsJoining t). h.wf) ((join_named ar a) s)
        ((join_named-IsJoining ar a).kept s j))
]

join_as-IsWf :
    (ar : List Text) (c : Cli) (s : Server)
    → IsWf s
    → (is_registered c ≡ true → IsJoining s)
    → Post IsWf (join_as ar c s)
unfolding join_as arg deref ◌>>=◌
join_as-IsWf ar c s w j = elim (Bool-cases (is_registered c)) [
  | inr not' ↦ rw not' ((Keeps-not_registered replies-IsWf c).kept s w)
  | inl reg ↦ rw reg (elim (Bool-cases (ltb (length ar) 2)) [
    | inl few ↦ rw few ((Keeps-reply replies-IsWf _).kept s w)
    | inr enough ↦ rw enough (elim (Option-cases (get_elem? ar 1)) [
      | inl e ↦ rw (e, deref) tt
      | inr (a, e) ↦ rw (e, deref) (join_arg-IsWf ar a s (j reg))
    ])
  ])
]

pub exec_join-IsWf : (ar : List Text) → Keeps IsWf (exec_join ar)
unfolding exec_join
exec_join-IsWf ar = Keeps-bind-run author (join_as ar) λ s c t w e.
    let (same, found, at) = author-some s c t e in
    subst (λ u. Post IsWf (join_as ar c u)) (sym same)
      (join_as-IsWf ar c s w λ reg. record { wf = w; named = (c, found, ground arith) })
