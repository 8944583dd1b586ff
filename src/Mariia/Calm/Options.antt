-- ===== src/Mariia/Calm/Options.antt =====
-- What an option of MODE leaves alone in a channel.
use ft_irc.Prelude.{
  ℕ, ◌≡◌, refl, sym, ◌∙◌, ap, Bool, true, false, Option, none, some, List, arith, is_empty,
}
use ft_irc.Text.{Text, to_lower}
use ft_irc.Ann.State.{contains}
use ft_irc.Mariia.Channel.{
  Channel, is_mode_set, set_mode, unset_mode, add_operator, remove_operator,
}
use ft_irc.Mariia.Modes.{
  handle_mode_i, handle_mode_t, handle_mode_k, handle_mode_l, handle_mode_o, limit_to, read_int,
}
use ft_irc.Mariia.Sound.{IsSound}
use ft_irc.Mariia.Frame.{ChannelIsWf}

-- The handlers leave the members and the name alone.
pub record SameMembers (ch to : Channel) : Type 0 where
  pub members : to.member_fds ≡ ch.member_fds
  pub name : to.name ≡ ch.name

pub same-ChannelIsWf :
    {fds : List ℕ} (ch to : Channel)
    → ChannelIsWf fds ch
    → IsSound to
    → SameMembers ch to
    → ChannelIsWf fds to
same-ChannelIsWf {fds} ch to w sound same = record {
  sound = sound;
  members = λ p h. w.members p (ap (contains p) (sym same.members) ∙ h);
  inhabited = ap is_empty same.members ∙ w.inhabited;
  lower_name = ap to_lower same.name ∙ w.lower_name ∙ sym same.name;
}

pub mode_i-SameMembers : (set : Bool) (ch : Channel) → SameMembers ch (handle_mode_i set ch).1
unfolding handle_mode_i set_mode unset_mode
mode_i-SameMembers set ch = record { members = ground arith; name = ground arith }

pub mode_t-SameMembers : (set : Bool) (ch : Channel) → SameMembers ch (handle_mode_t set ch).1
unfolding handle_mode_t set_mode unset_mode
mode_t-SameMembers set ch = record { members = ground arith; name = ground arith }

pub mode_k-SameMembers :
    (set : Bool) (parameter : Text) (ch : Channel)
    → SameMembers ch (handle_mode_k set parameter ch).1
unfolding handle_mode_k set_mode unset_mode is_mode_set
mode_k-SameMembers set parameter ch = record { members = ground arith; name = ground arith }

limit_to-SameMembers : (n : Option (Bool × ℕ)) (ch : Channel) → SameMembers ch (limit_to n ch).1
unfolding limit_to set_mode is_mode_set
limit_to-SameMembers none ch = record { members = refl; name = refl }
limit_to-SameMembers (some (minus, n)) ch = record { members = ground arith; name = ground arith }

pub mode_l-SameMembers :
    (set : Bool) (parameter : Text) (ch : Channel)
    → SameMembers ch (handle_mode_l set parameter ch).1
unfolding handle_mode_l unset_mode is_mode_set
mode_l-SameMembers true parameter ch = limit_to-SameMembers (read_int parameter) ch
mode_l-SameMembers false parameter ch = record { members = ground arith; name = ground arith }

pub mode_o-SameMembers :
    (set : Bool) (parameter : Text) (found : Option ℕ) (ch : Channel)
    → SameMembers ch (handle_mode_o set parameter found ch).1.1
unfolding handle_mode_o add_operator remove_operator
mode_o-SameMembers set parameter none ch = record { members = ground arith; name = ground arith }
mode_o-SameMembers set parameter (some fd) ch = record {
  members = ground arith;
  name = ground arith;
}
