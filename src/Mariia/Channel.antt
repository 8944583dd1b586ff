-- ===== src/Mariia/Channel.antt =====
-- The class of project/mariia/sources/Channel.cpp. `_mode` is an unsigned int with a bit for each
-- option, `_limitMembers` the 32 bits of an int, and the sets of descriptors are lists in increasing
-- order. The constructor leaves `_limitMembers` as it finds it, so it is an argument here.
use ft_irc.Prelude.{
  ℕ, ◌-◌, ◌^◌, Bool, true, false, not, List, [], ◌++◌, ◌==◌, if◌then◌else◌, is_empty,
}
use ft_irc.Text.{Text, txt, text_eq, to_lower}
use ft_irc.Ann.State.{contains, set_insert, set_erase}
use Prim.Native.Nat.{bit_and, bit_or}

pub record Channel : Type 0 where
  pub name : Text
  pub topic : Text
  pub mode : ℕ
  pub password : Text
  pub member_fds : List ℕ
  pub operator_fds : List ℕ
  pub invited_fds : List ℕ
  pub limit_members : ℕ

abbrev pub topic_set : ℕ
topic_set = 1

abbrev pub invite_only : ℕ
invite_only = 2

abbrev pub key_set : ℕ
key_set = 4

abbrev pub limit_set : ℕ
limit_set = 8

-- `(_mode & mode) == mode`
unfoldable pub has_bits : ℕ → ℕ → Bool
has_bits m b = bit_and m b == b

-- `_mode &= ~mode`
unfoldable pub clear_bits : ℕ → ℕ → ℕ
clear_bits m b = bit_and m (2 ^ 32 - 1 - b)

unfoldable pub is_mode_set : ℕ → Channel → Bool
is_mode_set b ch = has_bits ch.mode b

unfoldable pub set_mode : ℕ → Channel → Bool × Channel
set_mode b ch =
    if is_mode_set b ch then (false, ch) else (true, record ch { mode = bit_or ch.mode b })

unfoldable pub unset_mode : ℕ → Channel → Bool × Channel
unset_mode b ch =
    if not (is_mode_set b ch)
    then (false, ch)
    else (true, record ch { mode = clear_bits ch.mode b })

unfoldable pub new_channel : ℕ → Text → Text → Channel
new_channel unset_limit name password =
    let fresh =
      (set_mode topic_set record {
        name = to_lower name;
        topic = [];
        mode = 0;
        password = password;
        member_fds = [];
        operator_fds = [];
        invited_fds = [];
        limit_members = unset_limit;
      }).1 in
    if not (is_empty password) then (set_mode key_set fresh).1 else fresh

unfoldable pub mode_letter : ℕ → Text → Channel → Text
mode_letter b letter ch = if is_mode_set b ch then letter else []

unfoldable pub get_mode_string : Channel → Text
get_mode_string ch =
    txt "+"
    ++ mode_letter invite_only (txt "i") ch
    ++ mode_letter topic_set (txt "t") ch
    ++ mode_letter key_set (txt "k") ch
    ++ mode_letter limit_set (txt "l") ch

unfoldable pub add_member : ℕ → Channel → Channel
add_member fd ch = record ch { member_fds = set_insert fd ch.member_fds }

unfoldable pub has_member : ℕ → Channel → Bool
has_member fd ch = contains fd ch.member_fds

-- true if the set did not hold it
unfoldable pub add_operator : ℕ → Channel → Bool × Channel
add_operator fd ch =
    (not (contains fd ch.operator_fds), record ch { operator_fds = set_insert fd ch.operator_fds })

unfoldable pub remove_operator : ℕ → Channel → Bool × Channel
remove_operator fd ch =
    (contains fd ch.operator_fds, record ch { operator_fds = set_erase fd ch.operator_fds })

unfoldable pub has_operator : ℕ → Channel → Bool
has_operator fd ch = contains fd ch.operator_fds

unfoldable pub add_invited : ℕ → Channel → Channel
add_invited fd ch = record ch { invited_fds = set_insert fd ch.invited_fds }

unfoldable pub remove_invited : ℕ → Channel → Channel
remove_invited fd ch = record ch { invited_fds = set_erase fd ch.invited_fds }

unfoldable pub has_invited : ℕ → Channel → Bool
has_invited fd ch = contains fd ch.invited_fds

unfoldable pub remove_member : ℕ → Channel → Channel
remove_member fd ch =
    let left = (remove_operator fd (remove_invited fd ch)).1 in
    record left { member_fds = set_erase fd left.member_fds }

unfoldable pub auth_member : ℕ → Text → Channel → Bool × Channel
auth_member fd password ch =
    if not (text_eq password ch.password)
    then (false, ch)
    else (true, add_member fd (remove_invited fd ch))
