-- ===== src/Mariia/Join.antt =====
-- JOIN of one channel in project/mariia/sources/cmd/processJoin.cpp, as far as the channel goes: what
-- the method sends, and what it adds to the client, is its answer.
use ft_irc.Prelude.{ℕ, Bool, true, false, not, ◌&&◌, length, ◌==◌, if◌then◌else◌}
use ft_irc.Text.{Text}
use ft_irc.Mariia.Channel.{
  Channel, invite_only, limit_set, is_mode_set, has_member, has_invited, add_member, add_operator,
  auth_member, new_channel,
}

pub data Answer : Type 0 where
  -- nothing is sent
  silence : Answer
  err_invite_only_chan : Answer
  err_channel_is_full : Answer
  err_bad_channel_key : Answer
  -- the channel is added to the client, and its members are told
  joined : Answer

abbrev by_password : Bool × Channel → Answer × Channel
by_password (true, ch) = (joined, ch)
by_password (false, ch) = (err_bad_channel_key, ch)

-- The set of descriptors has less than 2 ^ 31 elements, so that its size is an int.
unfoldable pub join_existing_channel : ℕ → Text → Channel → Answer × Channel
join_existing_channel fd password ch =
    if has_member fd ch
    then (silence, ch)
    else if is_mode_set invite_only ch && not (has_invited fd ch)
    then (err_invite_only_chan, ch)
    else if is_mode_set limit_set ch && length ch.member_fds == ch.limit_members
    then (err_channel_is_full, ch)
    else by_password (auth_member fd password ch)

-- the channel of `createAndJoinNewChannel`, with its first member
unfoldable pub created_channel : ℕ → ℕ → Text → Text → Channel
created_channel unset_limit fd name password =
    (add_operator fd (add_member fd (new_channel unset_limit name password))).1
