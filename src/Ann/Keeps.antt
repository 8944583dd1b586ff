-- ===== src/Ann/Keeps.antt =====
-- Rules for invariants of methods: what only reads keeps every predicate, and what only replies
-- keeps each predicate that one reply keeps.
pub mod Talk
pub mod Channel
pub mod Register
pub mod Mode
pub mod Dispatch
use ft_irc.Prelude.{ℕ, Option, none, some, List, [], ◌∷◌}
use ft_irc.Text.{Text}
use ft_irc.Ann.State.{Cli, Ch, Server, find_cli, find_ch}
use ft_irc.Ann.Exec.{
  M, Keeps, keeps_rules, Keeps-deref, Keeps-pure, Keeps-then, Keeps-bind, Keeps-if, pure, deref,
  ◌>>=◌, ◌>>◌,
}
use ft_irc.Ann.Replies.{
  cli_at, author, subscript, ch_at, arg, prepare_resp, reply, for_each, search_nick, get_cli_on_ch,
  get_adm_on_ch, resp_to_all, resp_except_author, user_list, users,
}
use ft_irc.Ann.Commands.Common.{not_registered}

module _ {P : Server → Type 0} where
  pub Keeps-for_each :
      {A : Type 0} (f : A → M (Unit {0})) (xs : List A)
      → ((x : A) → Keeps P (f x))
      → Keeps P (for_each f xs)
  unfolding for_each
  Keeps-for_each f [] k = Keeps-pure tt
  Keeps-for_each f (x ∷ xs) k = Keeps-then (f x) (for_each f xs) (k x) (Keeps-for_each f xs k)

  pub Keeps-cli_at : (p : ℕ) → Keeps P (cli_at p)
  unfolding cli_at
  Keeps-cli_at p = record { kept = λ s h. (Keeps-deref (find_cli p s.clis)).kept s h }

  pub Keeps-author : Keeps P author
  unfolding author
  Keeps-author = record { kept = λ s h. (Keeps-cli_at s.cli).kept s h }

  pub Keeps-arg : (ar : List Text) (i : ℕ) → Keeps P (arg ar i)
  unfolding arg
  Keeps-arg ar i = search keeps_rules

  pub Keeps-subscript : (name : Text) → Keeps P (subscript name)
  unfolding subscript
  Keeps-subscript name = record { kept = λ s h. (Keeps-deref (find_ch name s.chs)).kept s h }

  pub Keeps-ch_at : (name : Text) → Keeps P (ch_at name)
  unfolding ch_at
  Keeps-ch_at name = search (keeps_rules, Keeps-subscript)

  pub Keeps-search_nick : (n : Text) (ps : List ℕ) → Keeps P (search_nick n ps)
  unfolding search_nick
  Keeps-search_nick n [] = Keeps-pure none
  Keeps-search_nick n (p ∷ ps) =
      let rest = Keeps-search_nick n ps in
      Keeps-bind (cli_at p) _ (Keeps-cli_at p) λ c. search (keeps_rules, rest)

  pub Keeps-get_cli_on_ch : (nick name : Text) → Keeps P (get_cli_on_ch nick name)
  unfolding get_cli_on_ch
  Keeps-get_cli_on_ch nick name = search (keeps_rules, Keeps-subscript, Keeps-search_nick)

  pub Keeps-get_adm_on_ch : (nick name : Text) → Keeps P (get_adm_on_ch nick name)
  unfolding get_adm_on_ch
  Keeps-get_adm_on_ch nick name = search (keeps_rules, Keeps-subscript, Keeps-search_nick)

  pub Keeps-user_list : (adms ps : List ℕ) → Keeps P (user_list adms ps)
  unfolding user_list
  Keeps-user_list adms [] = Keeps-pure []
  Keeps-user_list adms (p ∷ ps) =
      let rest = Keeps-user_list adms ps in
      Keeps-bind (cli_at p) _ (Keeps-cli_at p) λ c. search (keeps_rules, rest)

  pub Keeps-users : (ch : Ch) → Keeps P (users ch)
  unfolding users
  Keeps-users ch = search (keeps_rules, Keeps-user_list)

pub ruleset read_rules = (
  keeps_rules, Keeps-for_each, Keeps-cli_at, Keeps-author, Keeps-arg, Keeps-ch_at,
  Keeps-get_cli_on_ch, Keeps-get_adm_on_ch, Keeps-users,
)

-- A predicate that a reply to any client keeps.
pub record KeptByReplies (P : Server → Type 0) : Type 0 where
  pub resp : (p : ℕ) (msg : Text) → Keeps P (prepare_resp p msg)

module _ {P : Server → Type 0} (k : KeptByReplies P) where
  pub Keeps-prepare_resp : (p : ℕ) (msg : Text) → Keeps P (prepare_resp p msg)
  Keeps-prepare_resp = k.resp

  pub Keeps-reply : (msg : Text) → Keeps P (reply msg)
  unfolding reply
  Keeps-reply msg = search (read_rules, Keeps-prepare_resp)

  pub Keeps-resp_to_all : (name msg : Text) → Keeps P (resp_to_all name msg)
  unfolding resp_to_all
  Keeps-resp_to_all name msg = search (read_rules, Keeps-prepare_resp)

  pub Keeps-resp_except_author : (name msg : Text) → Keeps P (resp_except_author name msg)
  unfolding resp_except_author
  Keeps-resp_except_author name msg = search (read_rules, Keeps-prepare_resp) depth 9

  pub Keeps-not_registered : (c : Cli) → Keeps P (not_registered c)
  unfolding not_registered
  Keeps-not_registered c = Keeps-reply _

pub ruleset reply_rules = (
  read_rules, Keeps-prepare_resp, Keeps-reply, Keeps-resp_to_all, Keeps-resp_except_author,
  Keeps-not_registered,
)
