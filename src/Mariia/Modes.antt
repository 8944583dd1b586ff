-- ===== src/Mariia/Modes.antt =====
-- The handlers of the channel options i, t, k, l and o in project/mariia/sources/cmd/processMode.cpp,
-- with `isValidName` of project/mariia/sources/utils.cpp. A handler answers whether it applied.
use ft_irc.Prelude.{
  ℕ, ◌+◌, ◌-◌, ◌*◌, ◌^◌, Bool, true, false, not, ◌&&◌, ◌||◌, Option, none, some, [], ◌∷◌, leb, ltb,
  ◌==◌, if◌then◌else◌, is_empty, length,
}
use ft_irc.Text.{Text, has_byte}
use ft_irc.Mariia.Channel.{
  Channel, has_member, add_operator, remove_operator, set_mode, unset_mode, topic_set, invite_only,
  key_set, limit_set,
}

-- no blank, NUL, BEL, CR or LF
unfoldable pub has_forbidden : Text → Bool
has_forbidden name =
    has_byte b' ' name || has_byte 0 name || has_byte 7 name || has_byte 13 name || has_byte 10 name

unfoldable pub is_valid_name : Text → Bool
is_valid_name name = not (is_empty name) && not (has_forbidden name)

-- `iss >> limit`: an optional sign and digits; no digit, or a number that is no int, is a failure
unfoldable pub read_digits : ℕ → Text → ℕ
read_digits n [] = n
read_digits n (c ∷ s) =
    let more = read_digits (n * 10 + (c - b'0')) s in if leb b'0' c && leb c b'9' then more else n

unfoldable pub starts_with_digit : Text → Bool
starts_with_digit [] = false
starts_with_digit (c ∷ s) = leb b'0' c && leb c b'9'

abbrev bounded : Bool → ℕ → Option (Bool × ℕ)
bounded minus n = if leb n (if minus then 2 ^ 31 else 2 ^ 31 - 1) then some (minus, n) else none

abbrev unsigned_part : Bool → Text → Option (Bool × ℕ)
unsigned_part minus s = if starts_with_digit s then bounded minus (read_digits 0 s) else none

unfoldable pub read_int : Text → Option (Bool × ℕ)
read_int [] = none
read_int (c ∷ s) =
    if c == b'-'
    then unsigned_part true s
    else if c == b'+'
    then unsigned_part false s
    else unsigned_part false (c ∷ s)

unfoldable pub handle_mode_i : Bool → Channel → Bool × Channel
handle_mode_i set ch = if set then set_mode invite_only ch else unset_mode invite_only ch

unfoldable pub handle_mode_t : Bool → Channel → Bool × Channel
handle_mode_t set ch = if set then set_mode topic_set ch else unset_mode topic_set ch

unfoldable pub handle_mode_k : Bool → Text → Channel → Bool × Channel
handle_mode_k set parameter ch =
    if set
    then if not (is_valid_name parameter)
      then (false, ch)
      else (true, (set_mode key_set (record ch { password = parameter })).1)
    else unset_mode key_set (record ch { password = [] })

-- a negative number is below the size of the set
abbrev pub below_size : Bool → ℕ → Channel → Bool
below_size minus n ch = (minus && not (n == 0)) || ltb n (length ch.member_fds)

unfoldable pub limit_to : Option (Bool × ℕ) → Channel → Bool × Channel
limit_to none ch = (false, ch)
limit_to (some (minus, n)) ch =
    if below_size minus n ch
    then (false, ch)
    else (true, (set_mode limit_set (record ch { limit_members = n })).1)

unfoldable pub handle_mode_l : Bool → Text → Channel → Bool × Channel
handle_mode_l set parameter ch =
    if set
    then limit_to (read_int parameter) ch
    else unset_mode limit_set (record ch { limit_members = 2 ^ 32 - 1 })

pub data ModeError : Type 0 where
  err_no_such_nick err_user_not_in_channel : ModeError

-- `handleModeO`, of which the client that `findClient` has found is an argument, as its descriptor;
-- the error it sends, if any, stands in front of its answer.
unfoldable pub handle_mode_o :
    Bool → Text → Option ℕ → Channel → Option ModeError × (Bool × Channel)
handle_mode_o set parameter none ch =
    if is_empty parameter then (none, (false, ch)) else (some err_no_such_nick, (false, ch))
handle_mode_o set parameter (some fd) ch =
    if is_empty parameter
    then (none, (false, ch))
    else if set
    then if not (has_member fd ch)
      then (some err_user_not_in_channel, (false, ch))
      else (none, add_operator fd ch)
    else (none, remove_operator fd ch)
