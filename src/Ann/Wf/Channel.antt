-- ===== src/Ann/Wf/Channel.antt =====
-- The assignments of PART, KICK, QUIT, INVITE and TOPIC keep the invariant.
use ft_irc.Prelude.{ℕ, ◌≡◌, refl, true, Option, none, some, List, [], ◌∷◌, arith}
use ft_irc.Text.{Text}
use ft_irc.Ann.State.{Cli, Ch, contains, set_erase}
use ft_irc.Ann.Exec.{Keeps}
use ft_irc.Ann.Replies.{set_cli, set_ch}
use ft_irc.Ann.Commands.Leave.{leave_ch, first_as_adm, erase_cli_from_ch}
use ft_irc.Ann.Tables.{contains-set_erase}
use ft_irc.Ann.Keeps.{reply_rules}
use ft_irc.Ann.Keeps.Channel.{ChannelLaws}
use ft_irc.Ann.Wf.{IsWf, ChIsSound}
use ft_irc.Ann.Wf.Prims.{set_cli-IsWf, set_ch-IsWf}
use ft_irc.Ann.Wf.Register.{replies-IsWf, modify_fds-IsWf}

erase_both-ChIsSound :
    (p : ℕ) (l : List Cli) (ch : Ch)
    → ChIsSound l ch
    → ChIsSound l (record ch { clis = set_erase p ch.clis; adms = set_erase p ch.adms })
erase_both-ChIsSound p l ch h = record {
  members = λ q m. h.members q (ground (arith, contains-set_erase q p ch.clis));
  operators = λ q m.
      ground (arith, h.operators q, contains-set_erase q p ch.clis, contains-set_erase q p ch.adms);
}

first_as_adm-operators :
    (adms clis : List ℕ)
    → ((q : ℕ) → contains q adms ≡ true → contains q clis ≡ true)
    → (q : ℕ) → contains q (first_as_adm adms clis) ≡ true
    → contains q clis ≡ true
unfolding contains
first_as_adm-operators [] [] h q m = m
first_as_adm-operators [] (p ∷ ps) h q m = ground arith
first_as_adm-operators (a ∷ as') ps h q m = h q m

-- Leaving a channel leaves it sound, also when the first member is made its operator.
pub leave_ch-ChIsSound :
    (p : Option ℕ) (l : List Cli) (ch : Ch) → ChIsSound l ch → ChIsSound l (leave_ch p ch)
unfolding leave_ch
leave_ch-ChIsSound none l ch h = record {
  members = h.members;
  operators = first_as_adm-operators ch.adms ch.clis h.operators;
}
leave_ch-ChIsSound (some p) l ch h =
    let g = erase_both-ChIsSound p l ch h in
    record {
      members = g.members;
      operators = first_as_adm-operators (set_erase p ch.adms) (set_erase p ch.clis) g.operators;
    }

pub erase_cli_from_ch-IsWf : (nick name : Text) → Keeps IsWf (erase_cli_from_ch nick name)
unfolding erase_cli_from_ch
erase_cli_from_ch-IsWf nick name =
    search (reply_rules, λ (p : Option ℕ). set_ch-IsWf name (leave_ch p) (leave_ch-ChIsSound p))

pub set_invits-IsWf :
    (p : ℕ) (f : Cli → List Text) → Keeps IsWf (set_cli p (λ x. record x { invits = f x }))
set_invits-IsWf p f =
    set_cli-IsWf p _
      (record { keys = record { addr = λ c. refl; fd = λ c. refl }; nick = λ c. refl })

change_topic-IsWf : (name t : Text) → Keeps IsWf (set_ch name (λ ch. record ch { topic = t }))
change_topic-IsWf name t =
    set_ch-IsWf name _ λ l ch h. record { members = h.members; operators = h.operators }

pub channel_laws-IsWf : ChannelLaws IsWf
channel_laws-IsWf = record {
  replies = replies-IsWf;
  leave = erase_cli_from_ch-IsWf;
  topic = change_topic-IsWf;
  invits = set_invits-IsWf;
  fds = modify_fds-IsWf;
}
