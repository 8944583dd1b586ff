-- ===== src/Mariia/Life.antt =====
-- The life of a channel of project/mariia: the operations that the server applies to it, in any
-- order.
use ft_irc.Prelude.{
  ℕ, ◌^◌, ◌<◌, ◌≡◌, refl, Bool, true, false, not, ◌&&◌, Option, none, some, List, [], ◌∷◌, arith,
  ◌==◌, if◌then◌else◌, length, Bool-cases, inl, inr,
}
use ft_irc.Text.{Text, text_eq}
use ft_irc.Ann.Tables.{contains-set_insert, contains-set_erase}
use ft_irc.Ann.State.{set_insert}
use ft_irc.Mariia.Channel.{
  Channel, has_bits, is_mode_set, set_mode, unset_mode, has_member, add_member, add_operator,
  add_invited, remove_member, new_channel, has_invited, remove_invited, auth_member, invite_only,
  limit_set,
}
use ft_irc.Mariia.Modes.{handle_mode_i, handle_mode_t, handle_mode_k, handle_mode_l, handle_mode_o}
use ft_irc.Mariia.Join.{join_existing_channel, created_channel}
use ft_irc.Mariia.Flags.{set_mode-HasFlag, unset_mode-HasFlag}
use ft_irc.Mariia.Sound.{
  IsSound, mode_i-IsSound, mode_t-IsSound, mode_k-IsSound, mode_l-IsSound, add_operator-IsSound,
  remove_operator-IsSound, remove_member-IsSound, join-IsSound,
}

-- What the server does to a channel that is there: JOIN, INVITE, TOPIC, leaving (PART, KICK, QUIT
-- and lost connections), and MODE.
pub data Act : Type 0 where
  joins : ℕ → Text → Act
  invites : ℕ → Act
  sets_topic : Text → Act
  leaves : ℕ → Act
  mode_i mode_t : Bool → Act
  mode_k mode_l : Bool → Text → Act
  mode_o : Bool → Text → Option ℕ → Act

unfoldable pub act : Act → Channel → Channel
act (joins fd password) ch = (join_existing_channel fd password ch).1
act (invites fd) ch = add_invited fd ch
act (sets_topic topic) ch = record ch { topic = topic }
act (leaves fd) ch = remove_member fd ch
act (mode_i set) ch = (handle_mode_i set ch).1
act (mode_t set) ch = (handle_mode_t set ch).1
act (mode_k set parameter) ch = (handle_mode_k set parameter ch).1
act (mode_l set parameter) ch = (handle_mode_l set parameter ch).1
act (mode_o set parameter found) ch = (handle_mode_o set parameter found ch).1.1

unfoldable pub acts : List Act → Channel → Channel
acts [] ch = ch
acts (a ∷ as_they_come) ch = acts as_they_come (act a ch)

pub mode_o-IsSound :
    (set : Bool) (parameter : Text) (found : Option ℕ) (ch : Channel)
    → IsSound ch
    → IsSound (handle_mode_o set parameter found ch).1.1
unfolding handle_mode_o
mode_o-IsSound set [] none ch s = s
mode_o-IsSound set (c ∷ parameter) none ch s = s
mode_o-IsSound set [] (some fd) ch s = s
mode_o-IsSound true (c ∷ parameter) (some fd) ch s = elim (Bool-cases (has_member fd ch)) [
  | inl on ↦ rw on (add_operator-IsSound ch s fd on)
  | inr off ↦ rw off s
]
mode_o-IsSound false (c ∷ parameter) (some fd) ch s = remove_operator-IsSound ch s fd

act-IsSound : (a : Act) (ch : Channel) → IsSound ch → IsSound (act a ch)
unfolding act
act-IsSound (joins fd password) ch s = join-IsSound ch s fd password
act-IsSound (invites fd) ch s =
    unfold add_invited is_mode_set in
    record { bits = s.bits; operators = s.operators; key = s.key; limit = s.limit }
act-IsSound (sets_topic topic) ch s =
    unfold is_mode_set in
    record { bits = s.bits; operators = s.operators; key = s.key; limit = s.limit }
act-IsSound (leaves fd) ch s = remove_member-IsSound ch s fd
act-IsSound (mode_i set) ch s = mode_i-IsSound ch s set
act-IsSound (mode_t set) ch s = mode_t-IsSound ch s set
act-IsSound (mode_k set parameter) ch s = mode_k-IsSound ch s set parameter
act-IsSound (mode_l set parameter) ch s = mode_l-IsSound ch s set parameter
act-IsSound (mode_o set parameter found) ch s = mode_o-IsSound set parameter found ch s

pub created-IsSound :
    (unset_limit fd : ℕ) (name password : Text)
    → IsSound (created_channel unset_limit fd name password)
unfolding created_channel new_channel set_mode is_mode_set has_bits add_member add_operator
    set_insert
created-IsSound unset_limit fd name [] = record {
  bits = omega arith;
  operators = λ p h. h;
  key = refl;
  limit = λ on. cc;
}
created-IsSound unset_limit fd name (c ∷ password) = record {
  bits = omega arith;
  operators = λ p h. h;
  key = refl;
  limit = λ on. cc;
}

acts-IsSound : (l : List Act) (ch : Channel) → IsSound ch → IsSound (acts l ch)
unfolding acts
acts-IsSound [] ch s = s
acts-IsSound (a ∷ l) ch s = acts-IsSound l (act a ch) (act-IsSound a ch s)

-- Through every sequence of operations on a new channel: its operators are members; it has the key
-- option exactly if it has a password; with the limit option it has no more members than the limit;
-- and no bit of its mode but the four is set.
pub channel-IsSound :
    (unset_limit fd : ℕ) (name password : Text) (l : List Act)
    → IsSound (acts l (created_channel unset_limit fd name password))
channel-IsSound unset_limit fd name password l =
    acts-IsSound l _ (created-IsSound unset_limit fd name password)

-- Setting or clearing one of the four options of a mask below 16 answers whether that option has
-- changed, leaves it set or clear, and leaves the other three as they were.
pub set_mode-flags :
    (i j : ℕ) (ch : Channel)
    → i < 4
    → j < 4
    → ch.mode < 16
    → ((set_mode (2 ^ i) ch).0 ≡ not (is_mode_set (2 ^ i) ch))
      × ((unset_mode (2 ^ i) ch).0 ≡ is_mode_set (2 ^ i) ch)
      × (is_mode_set (2 ^ j) (set_mode (2 ^ i) ch).1
          ≡ (if (2 ^ i) == (2 ^ j) then true else is_mode_set (2 ^ j) ch))
      × (is_mode_set (2 ^ j) (unset_mode (2 ^ i) ch).1
          ≡ (if (2 ^ i) == (2 ^ j) then false else is_mode_set (2 ^ j) ch))
unfolding set_mode unset_mode
set_mode-flags i j ch hi hj small = (
  ground arith,
  ground arith,
  (set_mode-HasFlag i ch small hi).flags j hj,
  (unset_mode-HasFlag i ch small hi).flags j hj,
)

-- The tests of JOIN.
unfoldable pub may_join : ℕ → Text → Channel → Bool
may_join fd password ch =
    not (is_mode_set invite_only ch && not (has_invited fd ch))
    && not (is_mode_set limit_set ch && length ch.member_fds == ch.limit_members)
    && text_eq password ch.password

-- JOIN of a channel by a client that is not on it adds that client exactly if the invitation, the
-- limit and the password allow it, and then spends the invitation; nobody else comes or goes, and
-- the operators stay.
pub join_existing_channel_lem :
    (fd p : ℕ) (password : Text) (ch : Channel)
    → has_member fd ch ≡ false
    → (has_member p (join_existing_channel fd password ch).1
        ≡ (if fd == p && may_join fd password ch then true else has_member p ch))
      × (has_invited p (join_existing_channel fd password ch).1
          ≡ (if fd == p && may_join fd password ch then false else has_invited p ch))
      × ((join_existing_channel fd password ch).1.operator_fds ≡ ch.operator_fds)
unfolding join_existing_channel may_join auth_member has_member has_invited add_member
    remove_invited
join_existing_channel_lem fd p password ch new =
    elim (Bool-cases (is_mode_set invite_only ch && not (has_invited fd ch))) [
      | inl closed ↦ rw (new, closed) (ground arith, ground arith, refl)
      | inr asked ↦
          elim (Bool-cases (is_mode_set limit_set ch && length ch.member_fds == ch.limit_members)) [
            | inl full ↦ rw (new, asked, full) (ground arith, ground arith, refl)
            | inr space ↦ elim (Bool-cases (text_eq password ch.password)) [
              | inl right ↦
                  rw (new, asked, space, right)
                    (
                      ground (arith, contains-set_insert p fd ch.member_fds),
                      ground (arith, contains-set_erase p fd ch.invited_fds),
                      refl,
                    )
              | inr wrong ↦ rw (new, asked, space, wrong) (ground arith, ground arith, refl)
            ]
          ]
    ]
