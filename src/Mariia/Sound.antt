-- ===== src/Mariia/Sound.antt =====
-- The invariant of a channel, through every operation that the server applies to it.
use ft_irc.Prelude.{
  ℕ, suc, ◌≤◌, ◌<◌, ◌≡◌, refl, sym, ap, ◌∙◌, ◌^◌, ◌-◌, Option, none, some, Bool, true, false, not,
  ◌&&◌, List, [], ◌∷◌, arith, ◌==◌, if◌then◌else◌, is_empty, length, Bool-cases, inl, inr,
}
use ft_irc.Text.{Text, text_eq}
use ft_irc.Ann.State.{contains, set_insert, set_erase}
use ft_irc.Ann.Tables.{contains-set_insert, contains-set_erase}
use ft_irc.Mariia.Channel.{
  Channel, invite_only, key_set, limit_set, is_mode_set, has_member, has_invited, add_member,
  add_operator, remove_operator, remove_invited, remove_member, auth_member,
}
use ft_irc.Mariia.Modes.{
  is_valid_name, below_size, handle_mode_i, handle_mode_t, handle_mode_k, handle_mode_l, limit_to,
  read_int,
}
use ft_irc.Mariia.Join.{join_existing_channel}
use ft_irc.Mariia.Flags.{HasFlag, set_mode-HasFlag, unset_mode-HasFlag}

-- No bit but the four is set; operators are members; the key option is set exactly if there is a
-- password; and with the limit option there are no more members than the limit.
pub record IsSound (ch : Channel) : Type 0 where
  pub bits : ch.mode < 16
  pub operators : (p : ℕ) → contains p ch.operator_fds ≡ true → contains p ch.member_fds ≡ true
  pub key : is_mode_set key_set ch ≡ not (is_empty ch.password)
  pub limit : is_mode_set limit_set ch ≡ true → length ch.member_fds ≤ ch.limit_members

length-set_insert :
    (a : ℕ) (l : List ℕ) → contains a l ≡ false → length (set_insert a l) ≡ suc (length l)
unfolding contains set_insert
length-set_insert a [] h = refl
length-set_insert a (x ∷ l) h = ground (arith, length-set_insert a l)

length-set_erase-le : (a : ℕ) (l : List ℕ) → length (set_erase a l) ≤ length l
unfolding set_erase
length-set_erase-le a [] = ground arith
length-set_erase-le a (x ∷ l) = ground (arith, length-set_erase-le a l)

-- Where one flag has changed, the key and the limit are to be checked with that flag as it is now.
flag-IsSound :
    (i : ℕ) (v : Bool) (ch to : Channel)
    → HasFlag i v ch to
    → ((p : ℕ) → contains p ch.operator_fds ≡ true → contains p ch.member_fds ≡ true)
    → (if (2 ^ i) == 4 then v else is_mode_set key_set ch) ≡ not (is_empty ch.password)
    → ((if (2 ^ i) == 8 then v else is_mode_set limit_set ch) ≡ true
        → length ch.member_fds ≤ ch.limit_members)
    → IsSound to
flag-IsSound i v ch to h ops key limit =
    let same_ops : to.operator_fds ≡ ch.operator_fds =
      ap (λ (c : Channel). c.operator_fds) h.rest in
    let same_fds : to.member_fds ≡ ch.member_fds = ap (λ (c : Channel). c.member_fds) h.rest in
    let same_pass : to.password ≡ ch.password = ap (λ (c : Channel). c.password) h.rest in
    let same_max : to.limit_members ≡ ch.limit_members =
      ap (λ (c : Channel). c.limit_members) h.rest in
    record {
      bits = h.below;
      operators = rw (same_ops, same_fds) ops;
      key = h.flags 2 (omega arith) ∙ rw same_pass key;
      limit = λ on. rw (same_fds, same_max) (limit (sym (h.flags 3 (omega arith)) ∙ on));
    }

module _ (ch : Channel) (s : IsSound ch) where
  pub mode_i-IsSound : (set : Bool) → IsSound (handle_mode_i set ch).1
  unfolding handle_mode_i
  mode_i-IsSound true =
      flag-IsSound 1 true ch _ (set_mode-HasFlag 1 ch s.bits (omega arith)) s.operators s.key
        s.limit
  mode_i-IsSound false =
      flag-IsSound 1 false ch _ (unset_mode-HasFlag 1 ch s.bits (omega arith)) s.operators s.key
        s.limit

  pub mode_t-IsSound : (set : Bool) → IsSound (handle_mode_t set ch).1
  unfolding handle_mode_t
  mode_t-IsSound true =
      flag-IsSound 0 true ch _ (set_mode-HasFlag 0 ch s.bits (omega arith)) s.operators s.key
        s.limit
  mode_t-IsSound false =
      flag-IsSound 0 false ch _ (unset_mode-HasFlag 0 ch s.bits (omega arith)) s.operators s.key
        s.limit

  pub mode_k-IsSound : (set : Bool) (parameter : Text) → IsSound (handle_mode_k set parameter ch).1
  unfolding handle_mode_k is_mode_set
  mode_k-IsSound true parameter = elim (Bool-cases (is_valid_name parameter)) [
    | inl valid ↦
        let with_key : Channel = record ch { password = parameter } in
        let named : true ≡ not (is_empty parameter) = unfold is_valid_name in ground arith in
        rw valid (
          flag-IsSound 2 true with_key _ (set_mode-HasFlag 2 with_key s.bits (omega arith))
            s.operators named s.limit)
    | inr bad ↦ rw bad s
  ]
  mode_k-IsSound false parameter =
      let open_to_all : Channel = record ch { password = [] } in
      flag-IsSound 2 false open_to_all _ (unset_mode-HasFlag 2 open_to_all s.bits (omega arith))
        s.operators refl s.limit

  limit_to-IsSound : (n : Option (Bool × ℕ)) → IsSound (limit_to n ch).1
  unfolding limit_to is_mode_set
  limit_to-IsSound none = s
  limit_to-IsSound (some (minus, n)) = elim (Bool-cases (below_size minus n ch)) [
    | inl low ↦ rw low s
    | inr fits ↦
        let with_limit : Channel = record ch { limit_members = n } in
        rw fits (
          flag-IsSound 3 true with_limit _ (set_mode-HasFlag 3 with_limit s.bits (omega arith))
            s.operators s.key (λ _. ground arith))
  ]

  pub mode_l-IsSound : (set : Bool) (parameter : Text) → IsSound (handle_mode_l set parameter ch).1
  unfolding handle_mode_l is_mode_set
  mode_l-IsSound true parameter = limit_to-IsSound (read_int parameter)
  mode_l-IsSound false parameter =
      let without : Channel = record ch { limit_members = 2 ^ 32 - 1 } in
      flag-IsSound 3 false without _ (unset_mode-HasFlag 3 without s.bits (omega arith)) s.operators
        s.key (λ e. cc)

  pub add_operator-IsSound : (fd : ℕ) → has_member fd ch ≡ true → IsSound (add_operator fd ch).1
  unfolding has_member add_operator is_mode_set
  add_operator-IsSound fd on = record {
    bits = s.bits;
    operators = λ p h. ground (arith, contains-set_insert p fd ch.operator_fds, s.operators p);
    key = s.key;
    limit = s.limit;
  }

  pub remove_operator-IsSound : (fd : ℕ) → IsSound (remove_operator fd ch).1
  unfolding remove_operator is_mode_set
  remove_operator-IsSound fd = record {
    bits = s.bits;
    operators = λ p h. ground (arith, contains-set_erase p fd ch.operator_fds, s.operators p);
    key = s.key;
    limit = s.limit;
  }

  pub remove_member-IsSound : (fd : ℕ) → IsSound (remove_member fd ch)
  unfolding remove_member remove_operator remove_invited is_mode_set
  remove_member-IsSound fd = record {
    bits = s.bits;
    operators = λ p h. ground (
      arith,
      contains-set_erase p fd ch.operator_fds,
      contains-set_erase p fd ch.member_fds,
      s.operators p,
    );
    key = s.key;
    limit = λ on. ground (arith, length-set_erase-le fd ch.member_fds, s.limit on);
  }

  -- the member that JOIN adds, past its tests
  enter-IsSound :
      (fd : ℕ)
      → has_member fd ch ≡ false
      → (is_mode_set limit_set ch && length ch.member_fds == ch.limit_members) ≡ false
      → IsSound (add_member fd (remove_invited fd ch))
  unfolding has_member add_member remove_invited is_mode_set
  enter-IsSound fd new space = record {
    bits = s.bits;
    operators = λ p h. ground (arith, contains-set_insert p fd ch.member_fds, s.operators p);
    key = s.key;
    limit = λ on. ground (arith, length-set_insert fd ch.member_fds new, s.limit on);
  }

  pub join-IsSound : (fd : ℕ) (password : Text) → IsSound (join_existing_channel fd password ch).1
  unfolding join_existing_channel auth_member
  join-IsSound fd password = elim (Bool-cases (has_member fd ch)) [
    | inl old ↦ rw old s
    | inr new ↦ elim (Bool-cases (is_mode_set invite_only ch && not (has_invited fd ch))) [
      | inl closed ↦ rw (new, closed) s
      | inr asked ↦
          elim (Bool-cases (is_mode_set limit_set ch && length ch.member_fds == ch.limit_members)) [
            | inl full ↦ rw (new, asked, full) s
            | inr space ↦ elim (Bool-cases (text_eq password ch.password)) [
              | inl right ↦ rw (new, asked, space, right) (enter-IsSound fd new space)
              | inr wrong ↦ rw (new, asked, space, wrong) s
            ]
          ]
    ]
  ]
