-- ===== src/Mariia/Calm/Mode.antt =====
-- MODE.
use ft_irc.Prelude.{
  ℕ, zero, suc, ◌&&◌, ◌≡◌, refl, ap, Bool, true, false, Option, none, some, List, [], ◌∷◌, arith,
  ltb, get_elem?, length, if◌then◌else◌, is_none, Option-cases, inl, inr, ◌==◌,
}
use ft_irc.Text.{Text, to_lower}
use ft_irc.Ann.State.{PollFd, contains}
use ft_irc.Mariia.State.{Client, Server, add_mode, remove_mode, get_mode, find_channel}
use ft_irc.Mariia.Channel.{Channel, has_member}
use ft_irc.Mariia.Modes.{
  ModeError, handle_mode_i, handle_mode_t, handle_mode_k, handle_mode_l, handle_mode_o,
  err_no_such_nick, err_user_not_in_channel,
}
use ft_irc.Mariia.Exec.{M, token, deref, gets, ◌>>=◌}
use ft_irc.Mariia.Replies.{channel_named, err_nosuchchannel}
use ft_irc.Mariia.Commands.Mode.{
  ModeLoop, send_mode_error, apply_to, apply_mode_o, apply_mode, mode_letter_on, mode_letter_step,
  mode_step, mode_loop, tell_modes, change_modes, channel_mode, process_channel_mode,
  user_mode_loop, process_user_mode, process_mode,
}
use ft_irc.Mariia.Tables.{KeepsFd, find_channel-All}
use ft_irc.Mariia.Sound.{mode_i-IsSound, mode_t-IsSound, mode_k-IsSound, mode_l-IsSound}
use ft_irc.Mariia.Life.{mode_o-IsSound}
use ft_irc.Mariia.Safe.{IsSafe, IsSafe-if, IsSafe-token, IsSafe-bind, IsSafe-bind_read, Safe-weaken}
use ft_irc.Mariia.Frame.{
  Frame, ChannelIsWf, IsSafe-set_client, IsSafe-set_channel, IsSafe-bind_client,
  IsSafe-bind_channel,
}
use ft_irc.Mariia.Calm.Replies.{answer_rules, IsSafe-reply, IsSafe-error}
use ft_irc.Mariia.Calm.Options.{
  same-ChannelIsWf, mode_i-SameMembers, mode_t-SameMembers, mode_k-SameMembers, mode_l-SameMembers,
  mode_o-SameMembers,
}

pub add-KeepsFd : (mode : ℕ) → KeepsFd (add_mode mode)
unfolding add_mode
add-KeepsFd mode = record { fd_same = λ c. ground arith }

pub remove-KeepsFd : (mode : ℕ) → KeepsFd (remove_mode mode)
unfolding remove_mode
remove-KeepsFd mode = record { fd_same = λ c. ground arith }

if-KeepsFd :
    (b : Bool) (f g : Client → Client) → KeepsFd f → KeepsFd g → KeepsFd (if b then f else g)
if-KeepsFd true f g hf hg = hf
if-KeepsFd false f g hf hg = hg

get_elem?-lt :
    (tokens : List Text) (i : ℕ)
    → ltb i (length tokens) ≡ true
    → (t : Text) × (get_elem? tokens i ≡ some t)
get_elem?-lt [] i h = absurd (ground arith)
get_elem?-lt (t ∷ tokens) zero h = (t, refl)
get_elem?-lt (t ∷ tokens) (suc i) h = get_elem?-lt tokens i (ground arith)

-- the parameter that an option takes, where there is one more
IsSafe-parameter :
    {P : Server → Type 0} (tokens : List Text) (i : ℕ) (needed : Bool)
    → (needed && ltb i (length tokens)) ≡ true
    → IsSafe P (token tokens i)
IsSafe-parameter tokens i needed h =
    let (t, e) = get_elem?-lt tokens i (ground arith) in IsSafe-token tokens i e

without_presence :
    {polls : ℕ × List PollFd} {fds : List ℕ} {names : List Text} (s : Server)
    → Frame polls fds names s
    → Frame polls fds [] s
without_presence s p = record {
  same = p.same;
  polls_same = p.polls_same;
  names_differ = p.names_differ;
  channels = p.channels;
  present = tt;
}

module _ {polls : ℕ × List PollFd} {fds : List ℕ} {names : List Text} (fd : ℕ)
    (live : contains fd fds ≡ true) where
  apply_to-IsSafe :
      (r : Bool × Channel) → ChannelIsWf fds r.1 → IsSafe (Frame polls fds names) (apply_to r)
  unfolding apply_to
  apply_to-IsSafe (applied, ch) w = search (answer_rules, IsSafe-set_channel) depth 6

  mode_error-IsSafe :
      (parameter : Text) (e : Option ModeError)
      → IsSafe (Frame polls fds names) (send_mode_error fd parameter e)
  unfolding send_mode_error
  mode_error-IsSafe parameter none = search (answer_rules)
  mode_error-IsSafe parameter (some err_no_such_nick) = search (answer_rules)
  mode_error-IsSafe parameter (some err_user_not_in_channel) = search (answer_rules)

  apply_mode-IsSafe :
      (set : Bool) (mode : ℕ) (parameter : Text) (ch : Channel)
      → ChannelIsWf fds ch
      → IsSafe (Frame polls fds names) (apply_mode fd set mode parameter ch)
  unfolding apply_mode apply_mode_o
  apply_mode-IsSafe set mode parameter ch w =
      let i =
        apply_to-IsSafe (handle_mode_i set ch)
          (same-ChannelIsWf ch _ w (mode_i-IsSound ch w.sound set) (mode_i-SameMembers set ch)) in
      let t =
        apply_to-IsSafe (handle_mode_t set ch)
          (same-ChannelIsWf ch _ w (mode_t-IsSound ch w.sound set) (mode_t-SameMembers set ch)) in
      let k = apply_to-IsSafe (handle_mode_k set parameter ch) (
        same-ChannelIsWf ch _ w (mode_k-IsSound ch w.sound set parameter)
          (mode_k-SameMembers set parameter ch)) in
      let l = apply_to-IsSafe (handle_mode_l set parameter ch) (
        same-ChannelIsWf ch _ w (mode_l-IsSound ch w.sound set parameter)
          (mode_l-SameMembers set parameter ch)) in
      let o = λ (found : Option ℕ). apply_to-IsSafe (handle_mode_o set parameter found ch).1 (
        same-ChannelIsWf ch _ w (mode_o-IsSound set parameter found ch w.sound)
          (mode_o-SameMembers set parameter found ch)) in
      search (answer_rules, IsSafe-bind_client, mode_error-IsSafe, o) depth 12

  tell_modes-IsSafe :
      (name : Text) (l : ModeLoop) → IsSafe (Frame polls fds names) (tell_modes fd name l)
  unfolding tell_modes
  tell_modes-IsSafe name l = search (answer_rules, IsSafe-bind_channel) depth 12

  user_mode_loop-IsSafe :
      (flags : List Text) → IsSafe (Frame polls fds names) (user_mode_loop fd flags)
  unfolding user_mode_loop
  user_mode_loop-IsSafe [] = search (answer_rules)
  user_mode_loop-IsSafe (flag ∷ flags) =
      let rest = user_mode_loop-IsSafe flags in
      let change = λ (s : ℕ).
        if-KeepsFd (s == b'+') (add_mode (get_mode flag)) (remove_mode (get_mode flag))
          (add-KeepsFd (get_mode flag)) (remove-KeepsFd (get_mode flag)) in
      search (answer_rules, IsSafe-set_client, change) depth 14

-- While the channel is there, an option finds it.
module _ {polls : ℕ × List PollFd} {fds : List ℕ} (fd : ℕ) (live : contains fd fds ≡ true)
    (name : Text) where
  bind_present-IsSafe :
      {B : Type 0} (next : Option Channel → M B)
      → ((ch : Channel)
          → ChannelIsWf fds ch
          → IsSafe (Frame polls fds (to_lower name ∷ [])) (next (some ch)))
      → IsSafe (Frame polls fds (to_lower name ∷ [])) (channel_named name >>= next)
  unfolding channel_named
  bind_present-IsSafe next later = IsSafe-bind_read _ next λ s p.
      elim (Option-cases (find_channel (to_lower name) s.channels)) [
        | inl e ↦ absurd (ground (arith, p.present.0, e))
        | inr (ch, e) ↦ rw e (
            later ch
              (find_channel-All (ChannelIsWf fds) (to_lower name) s.channels ch p.channels e))
      ]

  mode_letter_step-IsSafe :
      (mode : ℕ) (parameter : Text) (l : ModeLoop)
      → IsSafe (Frame polls fds (to_lower name ∷ [])) (mode_letter_step fd name mode parameter l)
  unfolding mode_letter_step mode_letter_on
  mode_letter_step-IsSafe mode parameter l =
      search (answer_rules, bind_present-IsSafe, apply_mode-IsSafe) depth 12

  mode_step-IsSafe :
      (tokens : List Text) (mode : ℕ) (l : ModeLoop)
      → IsSafe (Frame polls fds (to_lower name ∷ [])) (mode_step fd name tokens mode l)
  unfolding mode_step
  mode_step-IsSafe tokens mode l =
      search (answer_rules, mode_letter_step-IsSafe, IsSafe-parameter) depth 14

  mode_loop-IsSafe :
      (tokens : List Text) (modes : Text) (l : ModeLoop)
      → IsSafe (Frame polls fds (to_lower name ∷ [])) (mode_loop fd name tokens modes l)
  unfolding mode_loop
  mode_loop-IsSafe tokens [] l = search (answer_rules)
  mode_loop-IsSafe tokens (mode ∷ modes) l =
      IsSafe-bind _ _ (mode_step-IsSafe tokens mode l) (mode_loop-IsSafe tokens modes)

  channel_mode-IsSafe :
      (command : Text) (params : List Text) (ch : Channel)
      → IsSafe
          (Frame polls fds (to_lower name ∷ []))
          (channel_mode fd name (command ∷ name ∷ params) (some ch))
  unfolding channel_mode change_modes token
  channel_mode-IsSafe command [] ch =
      IsSafe-if (has_member fd ch) _ _ (λ here. IsSafe-reply fd _ _ _)
        (λ out. IsSafe-reply fd _ _ _)
  channel_mode-IsSafe command (modes ∷ params) ch =
      search (answer_rules, mode_loop-IsSafe, tell_modes-IsSafe) depth 14

  process_channel_mode-IsSafe :
      (command : Text) (params : List Text)
      → IsSafe (Frame polls fds []) (process_channel_mode fd (command ∷ name ∷ params))
  unfolding process_channel_mode channel_mode token channel_named gets deref ◌>>=◌
  process_channel_mode-IsSafe command params = record {
    from = λ s p. elim (Option-cases (find_channel (to_lower name) s.channels)) [
      | inl e ↦ rw e ((IsSafe-error fd name err_nosuchchannel).from s p)
      | inr (ch, e) ↦
          let there : Frame polls fds (to_lower name ∷ []) s = record {
            same = p.same;
            polls_same = p.polls_same;
            names_differ = p.names_differ;
            channels = p.channels;
            present = (ap is_none e, tt);
          } in
          rw e
            (Safe-weaken _ without_presence ((channel_mode-IsSafe command params ch).from s there))
    ];
  }

module _ {polls : ℕ × List PollFd} {fds : List ℕ} (fd : ℕ) (live : contains fd fds ≡ true) where
  process_user_mode-IsSafe :
      (command nick : Text) (params : List Text)
      → IsSafe (Frame polls fds []) (process_user_mode fd (command ∷ nick ∷ params))
  unfolding process_user_mode token
  process_user_mode-IsSafe command nick params =
      search (answer_rules, user_mode_loop-IsSafe) depth 14

  pub process_mode-IsSafe :
      (tokens : List Text) → IsSafe (Frame polls fds []) (process_mode fd tokens)
  unfolding process_mode token
  process_mode-IsSafe [] = search (answer_rules) depth 8
  process_mode-IsSafe (command ∷ []) = search (answer_rules) depth 8
  process_mode-IsSafe (command ∷ target ∷ params) =
      search (answer_rules, process_channel_mode-IsSafe, process_user_mode-IsSafe) depth 12
