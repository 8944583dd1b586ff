-- ===== src/Ann/Found.antt =====
-- What the look-ups of a client on a channel have found.
use ft_irc.Prelude.{
  ℕ, ◌≡◌, refl, sym, ◌∙◌, ap, subst, true, Option, some, List, [], ◌∷◌, arith, Bool-cases,
  Option-cases, inl, inr,
}
use ft_irc.Text.{Text, text_eq, text_eq_iff, to_lower}
use ft_irc.Ann.State.{Cli, Ch, Server, contains, find_cli, find_ch}
use ft_irc.Ann.Exec.{Post, pure, gets, deref, ◌>>=◌}
use ft_irc.Ann.Replies.{cli_at, subscript, search_nick, get_ch, get_cli_on_ch}
use ft_irc.Ann.Keeps.{Keeps-get_cli_on_ch}

-- A client on the list has the nickname.
pub record IsFound (n : Text) (ps : List ℕ) (p : ℕ) (l : List Cli) : Type 0 where
  pub on_list : contains p ps ≡ true
  pub client : Cli
  pub live : find_cli p l ≡ some client
  pub named : to_lower client.nick ≡ n

search_nick-some :
    (n : Text) (ps : List ℕ) (p : ℕ) (s t : Server)
    → search_nick n ps s ≡ some (some p, t)
    → IsFound n ps p s.clis
unfolding search_nick ◌>>=◌ cli_at deref pure contains
search_nick-some n [] p s t h = cc
search_nick-some n (q ∷ ps) p s t h = elim (Option-cases (find_cli q s.clis)) [
  | inl e ↦ absurd (ground arith)
  | inr (c, e) ↦ elim (Bool-cases (text_eq (to_lower c.nick) n)) [
    | inl same ↦
        let at : q ≡ p = ground arith in
        record {
          on_list = ground arith;
          client = c;
          live = ap (λ x. find_cli x s.clis) (sym at) ∙ e;
          named = (text_eq_iff (to_lower c.nick) n).0 same;
        }
    | inr other ↦
        let rest = search_nick-some n ps p s t (ground arith) in
        record {
          on_list = ground (arith, rest.on_list);
          client = rest.client;
          live = rest.live;
          named = rest.named;
        }
  ]
]

-- `getCliOnCh` has found a client: the channel is there under that very name, and the client is on
-- it.
pub record IsOnCh (nick name : Text) (p : ℕ) (s : Server) : Type 0 where
  pub channel : Ch
  pub there : find_ch name s.chs ≡ some channel
  pub found : IsFound (to_lower nick) channel.clis p s.clis

pub get_cli_on_ch-some :
    (nick name : Text) (p : ℕ) (s t : Server)
    → get_cli_on_ch nick name s ≡ some (some p, t)
    → IsOnCh nick name p s
unfolding get_cli_on_ch gets deref subscript ◌>>=◌ pure
get_cli_on_ch-some nick name p s t h = elim (Option-cases (get_ch name s)) [
  | inl e ↦ absurd (ground arith)
  | inr (k, e) ↦ elim (Option-cases (find_ch name s.chs)) [
    | inl z ↦ absurd (ground arith)
    | inr (ch, z) ↦ record {
      channel = ch;
      there = z;
      found = search_nick-some (to_lower nick) ch.clis p s t (ground arith);
    }
  ]
]

-- The look-ups change nothing.
pub get_cli_on_ch-state :
    (nick name : Text) (r : Option ℕ) (s t : Server)
    → get_cli_on_ch nick name s ≡ some (r, t)
    → t ≡ s
get_cli_on_ch-state nick name r s t h =
    subst (Post (λ u. u ≡ s)) h ((Keeps-get_cli_on_ch {P = λ u. u ≡ s} nick name).kept s refl)
