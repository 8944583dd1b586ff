-- ===== src/Ann/Access.antt =====
-- Who may do what: registration, and the rights of operators.
use ft_irc.Prelude.{
  ℕ, ◌≡◌, refl, true, false, Option, some, List, [], ◌∷◌, arith, ◌==◌, ◌++◌, take, sym, subst,
}
use ft_irc.Text.{Text, txt}
use ft_irc.Ann.State.{Cli, Ch, Server, contains, find_ch, find_cli, update_cli}
use ft_irc.Ann.Exec.{pure, gets, ◌>>=◌}
use ft_irc.Ann.Replies.{set_cli, prepare_resp, append_resp, reply}
use ft_irc.Ann.Commands.Common.{is_registered, not_registered}
use ft_irc.Ann.Commands.Talk.{exec_privmsg, exec_notice}
use ft_irc.Ann.Commands.Leave.{exec_part, exec_kick}
use ft_irc.Ann.Commands.Join.{join_as, exec_join}
use ft_irc.Ann.Commands.Channel.{exec_invite, exec_topic}
use ft_irc.Ann.Commands.Mode.{exec_mode_ch}
use ft_irc.Ann.Tables.{find_cli-update_cli}
use ft_irc.Ann.Parse.Fields.{IsField}
use ft_irc.Ann.Wf.{IsWf}
use ft_irc.Ann.Total.{Total}
use ft_irc.Ann.Rights.{author-found, SameChs, kick-SameChs, mode-SameChs, topic-SameChs}

not_registered-runs :
    (ar : List Text) (c : Cli) (s : Server)
    → find_cli s.cli s.clis ≡ some c
    → is_registered c ≡ false
    → (exec_privmsg ar s ≡ not_registered c s)
      × (exec_join ar s ≡ not_registered c s)
      × (exec_part ar s ≡ not_registered c s)
      × (exec_kick ar s ≡ not_registered c s)
      × (exec_invite ar s ≡ not_registered c s)
      × (exec_topic ar s ≡ not_registered c s)
      × (exec_mode_ch ar s ≡ not_registered c s)
      × (exec_notice ar s ≡ some (tt, s))
unfolding exec_privmsg exec_join join_as exec_part exec_kick exec_invite exec_topic exec_mode_ch
    exec_notice ◌>>=◌ pure
not_registered-runs ar c s e r =
    let a = author-found s c e in
    (
      rw (a, ◌>>=◌, r),
      rw (a, ◌>>=◌, r),
      rw (a, ◌>>=◌, r),
      rw (a, ◌>>=◌, r),
      rw (a, ◌>>=◌, r),
      rw (a, ◌>>=◌, r),
      rw (a, ◌>>=◌, r),
      rw (a, ◌>>=◌, r),
    )

-- The command returns; one line of reply 451, of 510 bytes at most, waits for its author behind what
-- waited before, and neither another client nor another part of the server has changed.
abbrev pub HasOneReply : Cli → Server → Option (Unit {0} × Server) → Type 0
HasOneReply c s r =
    (t : Server) × (r ≡ some (tt, t))
    × (find_cli s.cli t.clis
        ≡ some (record c {
          buf_to_send =
              c.buf_to_send
              ++ take 510 (txt "451 " ++ c.nick ++ txt " :User not logged in")
              ++ 13 ∷ 10 ∷ [];
        }))
    × ((q : ℕ) → (s.cli == q) ≡ false → find_cli q t.clis ≡ find_cli q s.clis)
    × (record t { clis = s.clis } ≡ s)

not_registered-HasOneReply :
    (c : Cli) (s : Server) → find_cli s.cli s.clis ≡ some c → HasOneReply c s (not_registered c s)
unfolding not_registered reply prepare_resp set_cli gets ◌>>=◌
not_registered-HasOneReply c s e =
    let msg = txt "451 " ++ c.nick ++ txt " :User not logged in" in
    let law = λ (q : ℕ).
      find_cli-update_cli (append_resp msg) (record { addr = λ x. refl; fd = λ x. refl }) s.cli q
        s.clis in
    (
      record s { clis = update_cli s.cli (append_resp msg) s.clis },
      rw (e, set_cli),
      ground (arith, law s.cli),
      λ q apart. ground (arith, law q),
      refl,
    )

-- Each command on channels and messages of a client that is not registered, whatever its arguments,
-- returns and adds one line of reply 451 for that client, and does nothing else; NOTICE does nothing.
pub unregistered_refused :
    (ar : List Text) (c : Cli) (s : Server)
    → find_cli s.cli s.clis ≡ some c
    → is_registered c ≡ false
    → HasOneReply c s (exec_privmsg ar s)
      × HasOneReply c s (exec_join ar s)
      × HasOneReply c s (exec_part ar s)
      × HasOneReply c s (exec_kick ar s)
      × HasOneReply c s (exec_invite ar s)
      × HasOneReply c s (exec_topic ar s)
      × HasOneReply c s (exec_mode_ch ar s)
      × (exec_notice ar s ≡ some (tt, s))
unregistered_refused ar c s e r =
    let (privmsg, join', part, kick, invite, topic, mode, notice) =
      not_registered-runs ar c s e r in
    let refused = not_registered-HasOneReply c s e in
    let as' = λ (o : Option (Unit {0} × Server)) (same : o ≡ not_registered c s).
      subst (HasOneReply c s) (sym same) refused in
    (
      as' _ privmsg,
      as' _ join',
      as' _ part,
      as' _ kick,
      as' _ invite,
      as' _ topic,
      as' _ mode,
      notice,
    )

-- In a state with the invariant, a client that is no operator of a channel changes no channel by KICK
-- or MODE on it, whatever the other arguments: the commands return, and all channels are as they were.
pub no_operator_no_change :
    (c : Cli) (verb name : Text) (rest : List Text) (ch : Ch) (s : Server)
    → IsWf s
    → find_cli s.cli s.clis ≡ some c
    → find_ch name s.chs ≡ some ch
    → contains s.cli ch.adms ≡ false
    → IsField b',' name
    → Total (SameChs s.chs) (exec_kick (verb ∷ name ∷ rest) s)
      × Total (SameChs s.chs) (exec_mode_ch (verb ∷ name ∷ rest) s)
no_operator_no_change c verb name rest ch s w me there plain field = (
  kick-SameChs c name ch s w me there plain verb rest field,
  mode-SameChs c name ch s w me there plain verb rest,
)

-- In a state with the invariant, a client that is no operator of a channel whose topic is locked
-- changes no channel by TOPIC on it, whatever the other arguments: the command returns, and all
-- channels are as they were.
pub locked_topic_no_change :
    (c : Cli) (verb name : Text) (rest : List Text) (ch : Ch) (s : Server)
    → IsWf s
    → find_cli s.cli s.clis ≡ some c
    → find_ch name s.chs ≡ some ch
    → contains s.cli ch.adms ≡ false
    → ch.opt_t ≡ true
    → Total (SameChs s.chs) (exec_topic (verb ∷ name ∷ rest) s)
locked_topic_no_change c verb name rest ch s w me there plain locked =
    topic-SameChs c name ch s w me there plain verb rest locked
