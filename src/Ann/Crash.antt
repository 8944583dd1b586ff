-- ===== src/Ann/Crash.antt =====
-- Inputs on which the server dereferences a null pointer.
use ft_irc.Prelude.{ℕ, ◌≡◌, true, none, some, List, [], ◌∷◌, All}
use ft_irc.Text.{Text}
use ft_irc.Ann.State.{Cli, Server, find_cli, find_ch}
use ft_irc.Ann.Exec.{pure, gets, deref, ◌>>=◌, ◌>>◌}
use ft_irc.Ann.Parse.Fields.{IsField, join, split-join}
use ft_irc.Ann.Replies.{arg, get_ch, subscript, ch_at, get_cli_on_ch, resp_to_all, for_each}
use ft_irc.Ann.Commands.Common.{is_registered}
use ft_irc.Ann.Commands.Leave.{part_one, part_msg, exec_part}
use ft_irc.Ann.Commands.Channel.{topic_on, exec_topic}
use ft_irc.Ann.Rights.{author-found, single}

-- `getCh` ignores case and finds a channel, but the subscript of the map does not, and inserts a
-- null pointer.
get_cli_on_ch-fault :
    (nick name k : Text) (s : Server)
    → get_ch name s ≡ some k
    → find_ch name s.chs ≡ none
    → get_cli_on_ch nick name s ≡ none
unfolding get_cli_on_ch subscript gets deref ◌>>=◌
get_cli_on_ch-fault nick name k s e z = rw (e, z)

module _ (c : Cli) (verb name k : Text) (s : Server) (me : find_cli s.cli s.clis ≡ some c)
    (reg : is_registered c ≡ true) (key : get_ch name s ≡ some k)
    (missing : find_ch name s.chs ≡ none) where
  part-fault : IsField b',' name → exec_part (verb ∷ name ∷ []) s ≡ none
  unfolding exec_part part_one arg gets deref for_each ◌>>=◌ ◌>>◌
  part-fault field =
      let lost = get_cli_on_ch-fault c.nick name k s key missing in
      rw (author-found s c me, ◌>>=◌, reg, single name field, key, lost)

  topic-fault : exec_topic (verb ∷ name ∷ []) s ≡ none
  unfolding exec_topic topic_on arg gets deref ◌>>=◌
  topic-fault =
      let lost = get_cli_on_ch-fault c.nick name k s key missing in
      rw (author-found s c me, ◌>>=◌, reg, key, lost)

-- The name of a present channel, in other letters' case: PART and TOPIC by a registered client end
-- the process.
pub wrong_case_crash :
    (c : Cli) (verb name k : Text) (s : Server)
    → find_cli s.cli s.clis ≡ some c
    → is_registered c ≡ true
    → get_ch name s ≡ some k
    → find_ch name s.chs ≡ none
    → IsField b',' name
    → (exec_part (verb ∷ name ∷ []) s ≡ none) × (exec_topic (verb ∷ name ∷ []) s ≡ none)
wrong_case_crash c verb name k s me reg key missing field = (
  part-fault c verb name k s me reg key missing field,
  topic-fault c verb name k s me reg key missing,
)

-- PART of two or more channels, of the first of which the client is a member, ends the process: the
-- farewell goes to the channel that has the whole list for its name.
pub part_list_crash :
    (c : Cli) (verb first k second : Text) (others : List Text) (p : ℕ) (s : Server)
    → find_cli s.cli s.clis ≡ some c
    → is_registered c ≡ true
    → All (IsField b',') (first ∷ second ∷ others)
    → get_ch first s ≡ some k
    → get_cli_on_ch c.nick first s ≡ some (some p, s)
    → get_ch (join b',' (first ∷ second ∷ others)) s ≡ none
    → exec_part (verb ∷ join b',' (first ∷ second ∷ others) ∷ []) s ≡ none
unfolding exec_part part_one part_msg resp_to_all ch_at arg gets deref pure for_each ◌>>=◌ ◌>>◌
part_list_crash c verb first k second others p s me reg fields key member none' =
    let split = split-join (first ∷ second ∷ others) fields in
    rw (author-found s c me, ◌>>=◌, reg, split, key, member, none')
