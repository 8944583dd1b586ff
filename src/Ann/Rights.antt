-- ===== src/Ann/Rights.antt =====
-- KICK, MODE and TOPIC by a client that is no operator of the channel, step by step.
use ft_irc.Prelude.{
  ◌≡◌, refl, true, false, not, none, some, List, [], ◌∷◌, arith, is_none, length, ltb,
  if◌then◌else◌,
}
use ft_irc.Text.{Text}
use ft_irc.Ann.State.{Cli, Ch, Server, contains, find_cli, find_ch}
use ft_irc.Ann.Exec.{M, done, pure, gets, deref, ◌>>=◌}
use ft_irc.Ann.Replies.{
  author, cli_at, arg, get_ch, set_cli, prepare_resp, reply, ch_at, get_cli_on_ch, get_adm_on_ch,
  for_each,
}
use ft_irc.Ann.Commands.Common.{is_registered, not_registered}
use ft_irc.Ann.Commands.Leave.{kick_one, exec_kick}
use ft_irc.Ann.Commands.Channel.{topic_on, exec_topic}
use ft_irc.Ann.Commands.Mode.{mode_on, exec_mode_ch}
use ft_irc.Ann.Parse.{split_arg_to_subargs}
use ft_irc.Ann.Parse.Fields.{IsField, join, split-join}
use ft_irc.Ann.Total.{Total, Total-then, Total-if, Total-read}
use ft_irc.Ann.Wf.{IsWf, get_ch-find_ch}
use ft_irc.Ann.Lookups.{get_cli_on_ch-runs, get_adm_on_ch-none, ch_at-runs}

-- The author, as the state has it.
pub author-found : (s : Server) (c : Cli) → find_cli s.cli s.clis ≡ some c → author s ≡ some (c, s)
unfolding author cli_at deref
author-found s c e = rw (e, deref)

-- The channels are as they were.
abbrev pub SameChs : List (Text × Ch) → Server → Type 0
SameChs chs t = t.chs ≡ chs

pub reply-SameChs :
    (msg : Text) (c : Cli) (s : Server)
    → find_cli s.cli s.clis ≡ some c
    → Total (SameChs s.chs) (reply msg s)
unfolding reply prepare_resp set_cli gets ◌>>=◌
reply-SameChs msg c s e = rw (e, set_cli) refl

pub single : (name : Text) → IsField b',' name → split_arg_to_subargs name ≡ name ∷ []
unfolding join
single name f = split-join (name ∷ []) (f, tt)

module _ (c : Cli) (name : Text) (ch : Ch) (s : Server) (w : IsWf s)
    (me : find_cli s.cli s.clis ≡ some c) (there : find_ch name s.chs ≡ some ch) where
  abbrev Same : Server → Type 0
  Same = SameChs s.chs

  found_name : gets (get_ch name) s ≡ some (some name, s)
  unfolding gets
  found_name = rw (get_ch-find_ch w name ch there) refl

  refused : (msg : Text) → Total Same (reply msg s)
  refused msg = reply-SameChs msg c s me

  -- The command of a client that is not registered, or what follows.
  as_registered :
      (next : Cli → M (Unit {0}))
      → Total Same (next c s)
      → Total Same ((author >>= λ x. if not (is_registered x) then not_registered x else next x) s)
  unfolding not_registered
  as_registered next then' =
      Total-read Same author _ c s (author-found s c me)
        (Total-if Same (not (is_registered c)) _ _ s (λ _. refused _) (λ _. then'))

  -- What follows the look-up of the author on the channel.
  as_member :
      (no' : M (Unit {0})) (next : M (Unit {0}))
      → Total Same (no' s)
      → Total Same (next s)
      → Total Same ((get_cli_on_ch c.nick name >>= λ x. if is_none x then no' else next) s)
  as_member no' next absent then' =
      let (member, runs) = get_cli_on_ch-runs c.nick name ch s w there in
      Total-read Same (get_cli_on_ch c.nick name) _ member s runs
        (Total-if Same (is_none member) _ _ s (λ _. absent) (λ _. then'))

  module _ (plain : contains s.cli ch.adms ≡ false) where
    no_adm : get_adm_on_ch c.nick name s ≡ some (none, s)
    no_adm = get_adm_on_ch-none c.nick name ch s w there c me plain

    kick_one-SameChs : (ar targets : List Text) → Total Same (kick_one c ar targets name s)
    unfolding kick_one
    kick_one-SameChs ar targets = Total-read Same (gets (get_ch name)) _ (some name) s found_name (
        as_member _ _ (refused _)
          (Total-read Same (get_adm_on_ch c.nick name) _ none s no_adm (refused _)))

    topic_on-SameChs : (ar : List Text) → ch.opt_t ≡ true → Total Same (topic_on c ar name s)
    unfolding topic_on
    topic_on-SameChs ar locked = as_member _ _ (refused _) (
        Total-read Same (get_adm_on_ch c.nick name) _ none s no_adm (
          Total-read Same (ch_at name) _ ch s (ch_at-runs c.nick name ch s w there)
            (rw locked (refused _))))

    mode_on-SameChs : (ar : List Text) → Total Same (mode_on c ar name s)
    unfolding mode_on
    mode_on-SameChs ar =
        as_member _ _ (refused _)
          (Total-read Same (get_adm_on_ch c.nick name) _ none s no_adm (refused _))

    kick_list-SameChs :
        (verb : Text) (rest : List Text)
        → IsField b',' name
        → ltb (length (verb ∷ name ∷ rest)) 3 ≡ false
        → Total Same (
            (do
              names ← arg (verb ∷ name ∷ rest) 1
              targets ← arg (verb ∷ name ∷ rest) 2
              for_each
                  (kick_one c (verb ∷ name ∷ rest) (split_arg_to_subargs targets))
                  (split_arg_to_subargs names))
              s)
    unfolding arg deref for_each pure ◌>>=◌
    kick_list-SameChs verb [] field enough = absurd (ground arith)
    kick_list-SameChs verb (t ∷ rest) field enough = rw (single name field) (
        Total-then Same Same (kick_one c (verb ∷ name ∷ t ∷ rest) (split_arg_to_subargs t) name)
          done s (kick_one-SameChs (verb ∷ name ∷ t ∷ rest) (split_arg_to_subargs t)) (λ u h. h))

    pub kick-SameChs :
        (verb : Text) (rest : List Text)
        → IsField b',' name
        → Total Same (exec_kick (verb ∷ name ∷ rest) s)
    unfolding exec_kick
    kick-SameChs verb rest field = as_registered _ (
        Total-if Same (ltb (length (verb ∷ name ∷ rest)) 3) _ _ s (λ _. refused _)
          (kick_list-SameChs verb rest field))

    pub mode-SameChs :
        (verb : Text) (rest : List Text) → Total Same (exec_mode_ch (verb ∷ name ∷ rest) s)
    unfolding exec_mode_ch arg deref
    mode-SameChs verb rest = as_registered _ (
        Total-read Same (arg (verb ∷ name ∷ rest) 1) _ name s refl (
          Total-read Same (gets (get_ch name)) _ (some name) s found_name
            (mode_on-SameChs (verb ∷ name ∷ rest))))

    pub topic-SameChs :
        (verb : Text) (rest : List Text)
        → ch.opt_t ≡ true
        → Total Same (exec_topic (verb ∷ name ∷ rest) s)
    unfolding exec_topic arg deref
    topic-SameChs verb rest locked = as_registered _ (
        Total-if Same (ltb (length (verb ∷ name ∷ rest)) 2) _ _ s (λ _. refused _)
          λ _. Total-read Same (arg (verb ∷ name ∷ rest) 1) _ name s refl (
            Total-read Same (gets (get_ch name)) _ (some name) s found_name
              (topic_on-SameChs (verb ∷ name ∷ rest) locked)))
