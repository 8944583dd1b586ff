-- ===== src/Mariia/Tests.antt =====
-- A channel in use, and the theorems on it.
mod Sample
mod Server
use ft_irc.Prelude.{
  ◌^◌, ◌≡◌, refl, true, false, not, some, List, [], ◌∷◌, ◌++◌, arith, ◌&&◌, ◌==◌, if◌then◌else◌,
}
use ft_irc.Mariia.Channel.{
  Channel, has_bits, clear_bits, is_mode_set, set_mode, unset_mode, new_channel, mode_letter,
  get_mode_string, add_member, has_member, add_operator, remove_operator, has_operator, add_invited,
  remove_invited, has_invited, remove_member, auth_member,
}
use ft_irc.Mariia.Modes.{
  has_forbidden, is_valid_name, read_digits, starts_with_digit, read_int, handle_mode_i,
  handle_mode_t, handle_mode_k, limit_to, handle_mode_l, handle_mode_o,
}
use ft_irc.Mariia.Join.{join_existing_channel, created_channel}
use ft_irc.Mariia.Life.{
  Act, joins, invites, mode_i, mode_k, mode_l, mode_o, leaves, channel-IsSound, set_mode-flags,
  join_existing_channel_lem, act, acts, may_join,
}
use ft_irc.Text.{txt, text_eq, lower, to_lower, has_byte}
use ft_irc.Ann.State.{contains, set_insert, set_erase}
use ft_irc.Mariia.Sound.{IsSound}

-- a new channel after a list of operations
unfoldable run_acts : List Act → Channel
unfolding has_bits clear_bits is_mode_set set_mode unset_mode new_channel mode_letter
    get_mode_string add_member has_member add_operator remove_operator has_operator add_invited
    remove_invited has_invited remove_member auth_member has_forbidden is_valid_name read_digits
    starts_with_digit read_int handle_mode_i handle_mode_t handle_mode_k limit_to handle_mode_l
    handle_mode_o join_existing_channel created_channel act acts may_join txt text_eq lower to_lower
    has_byte contains set_insert set_erase
run_acts l = acts l (created_channel 0 4 (txt "#Chan") (txt ""))

abbrev busy : List Act
busy =
    mode_l true (txt "2")
    ∷ joins 5 (txt "")
    ∷ joins 6 (txt "")
    ∷ mode_o true (txt "bo") (some 5)
    ∷ mode_k true (txt "key")
    ∷ mode_i true
    ∷ invites 7
    ∷ []

-- descriptor 6 is not let in, as the limit has been reached
members_test : (run_acts busy).member_fds ≡ 4 ∷ 5 ∷ []
unfolding run_acts
members_test = refl

modes_test : get_mode_string (run_acts busy) ≡ txt "+itkl"
unfolding run_acts
modes_test = refl

channel-IsSound_example : IsSound (acts busy (created_channel 0 4 (txt "#Chan") (txt "")))
channel-IsSound_example = channel-IsSound 0 4 (txt "#Chan") (txt "") busy

set_mode-flags_example :
    ((set_mode (2 ^ 1) (run_acts busy)).0 ≡ not (is_mode_set (2 ^ 1) (run_acts busy)))
    × ((unset_mode (2 ^ 1) (run_acts busy)).0 ≡ is_mode_set (2 ^ 1) (run_acts busy))
    × (is_mode_set (2 ^ 3) (set_mode (2 ^ 1) (run_acts busy)).1
        ≡ (if (2 ^ 1) == (2 ^ 3) then true else is_mode_set (2 ^ 3) (run_acts busy)))
    × (is_mode_set (2 ^ 3) (unset_mode (2 ^ 1) (run_acts busy)).1
        ≡ (if (2 ^ 1) == (2 ^ 3) then false else is_mode_set (2 ^ 3) (run_acts busy)))
unfolding run_acts
set_mode-flags_example =
    set_mode-flags 1 3 (run_acts busy) (omega arith) (omega arith) (omega arith)

-- descriptor 7 has the invitation and the key, but the channel is full until 5 leaves
abbrev with_room : Channel
with_room = run_acts (busy ++ leaves 5 ∷ [])

join_existing_channel_lem_example :
    (has_member 7 (join_existing_channel 7 (txt "key") with_room).1
      ≡ (if 7 == 7 && may_join 7 (txt "key") with_room then true else has_member 7 with_room))
    × (has_invited 7 (join_existing_channel 7 (txt "key") with_room).1
        ≡ (if 7 == 7 && may_join 7 (txt "key") with_room then false else has_invited 7 with_room))
    × ((join_existing_channel 7 (txt "key") with_room).1.operator_fds ≡ with_room.operator_fds)
unfolding run_acts
join_existing_channel_lem_example = join_existing_channel_lem 7 7 (txt "key") with_room refl

room_test : may_join 7 (txt "key") with_room ≡ true
unfolding run_acts
room_test = refl
