-- ===== src/Ann/Wf.antt =====
-- The invariant of the server's containers: pointers, operators, nicknames and channel names.
pub mod Prims
pub mod Register
pub mod Channel
pub mod Mode
pub mod Join
pub mod Dispatch
pub mod Sweep
use ft_irc.Prelude.{
  ℕ, ◌≡◌, ◌≢◌, refl, sym, ◌∙◌, ap, Bool, true, false, Option, none, some, List, [], arith,
  Bool-cases, Option-cases, ◌⊎◌, inl, inr,
}
use ft_irc.Text.{Text, text_eq, to_lower}
use ft_irc.Ann.State.{Cli, Ch, Server, contains, find_cli, find_ch}
use ft_irc.Ann.Replies.{get_ch, get_cli, find_name, find_nick}
use ft_irc.Ann.Tables.{
  NamesDiffer, ClisDiffer, find_ch-find_name, find_name-find_ch, find_cli-find_nick,
  find_nick-ne-none,
}

-- A client that is there and has a nickname.
abbrev pub IsLive : ℕ → List Cli → Type 0
IsLive p l = (c : Cli) × (find_cli p l ≡ some c) × (c.nick ≢ [])

-- The pointers of a channel are those of live clients, and its operators are on it.
pub record ChIsSound (l : List Cli) (ch : Ch) : Type 0 where
  pub members : (p : ℕ) → contains p ch.clis ≡ true → IsLive p l
  pub operators : (p : ℕ) → contains p ch.adms ≡ true → contains p ch.clis ≡ true

-- Two clients with one nickname, in upper or lower case, are one client.
abbrev pub NicksDiffer : List Cli → Type 0
NicksDiffer l =
    (p q : ℕ) (c d : Cli)
    → find_cli p l ≡ some c
    → find_cli q l ≡ some d
    → c.nick ≢ []
    → to_lower c.nick ≡ to_lower d.nick
    → p ≡ q

pub record IsWf (s : Server) : Type 0 where
  pub clis_differ : ClisDiffer s.clis
  pub names_differ : NamesDiffer s.chs
  pub nicks_differ : NicksDiffer s.clis
  pub chs_sound : (k : Text) (ch : Ch) → find_ch k s.chs ≡ some ch → ChIsSound s.clis ch

module _ {s : Server} (w : IsWf s) where
  pub get_ch-find_ch : (k : Text) (ch : Ch) → find_ch k s.chs ≡ some ch → get_ch k s ≡ some k
  unfolding get_ch
  get_ch-find_ch k ch h = find_name-find_ch k ch s.chs w.names_differ h

  -- `getCli` by the nickname of a client gives that client.
  pub get_cli-find_cli :
      (p : ℕ) (c : Cli) (nick : Text)
      → find_cli p s.clis ≡ some c
      → c.nick ≢ []
      → to_lower c.nick ≡ to_lower nick
      → get_cli nick s ≡ some p
  unfolding get_cli
  get_cli-find_cli p c nick h named low = elim (Option-cases (find_nick (to_lower nick) s.clis)) [
    | inl e ↦ absurd (find_nick-ne-none p c s.clis h (ap (λ n. find_nick n s.clis) low ∙ e))
    | inr (q, e) ↦
        let (d, found, same) = find_cli-find_nick (to_lower nick) q s.clis w.clis_differ e in
        e ∙ ap some (sym (w.nicks_differ p q c d h found named (low ∙ sym same)))
  ]
