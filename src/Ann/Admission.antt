-- ===== src/Ann/Admission.antt =====
-- Who is let onto a channel by JOIN.
use ft_irc.Prelude.{
  ◌≡◌, refl, sym, ◌∙◌, subst, Bool, true, false, not, ◌&&◌, ◌||◌, ◌==◌, some, List, arith,
  Bool-cases, inl, inr, if◌then◌else◌, is_empty, length, ltb, leb,
}
use ft_irc.Text.{Text, text_eq, text_eq_iff, to_lower}
use ft_irc.Ann.State.{
  Cli, Ch, Server, contains, find_cli, find_ch, update_ch, names_contain, names_erase,
}
use ft_irc.Ann.Exec.{gets, deref, ◌>>=◌}
use ft_irc.Ann.Replies.{
  author, reply, find_name, get_ch, set_ch, set_key, set_cli, ch_at, subscript,
}
use ft_irc.Ann.Commands.Join.{admit, enter_ch, enter_as, announce, add_member}
use ft_irc.Ann.Tables.{contains-set_insert, find_cli-addr, find_ch-update_ch, find_name-update_ch}
use ft_irc.Ann.Total.{Total, Total-then, Total-if, Total-read, Total-map}
use ft_irc.Ann.Wf.{IsWf}
use ft_irc.Ann.Rights.{SameChs, reply-SameChs, author-found}
use ft_irc.Ann.Entry.{IsReady, set_cli-IsReady, announce-IsReady}

-- The rule of RFC 2812: the key is none or is given, there is room, and the channel is open or the
-- client is invited.
unfoldable pub may_enter : Text → Text → Cli → Ch → Bool
may_enter name pass c ch =
    (is_empty ch.pass || text_eq pass ch.pass)
    && ltb (length ch.clis) ch.limit
    && (not ch.opt_i || names_contain name c.invits)

-- the channels after the attempt
abbrev pub chs_after : Text → Text → Cli → Text → Ch → List (Text × Ch) → List (Text × Ch)
chs_after name pass c k ch chs =
    if may_enter name pass c ch then update_ch k (add_member c.addr) chs else chs

module _ (name : Text) (c : Cli) (k : Text) (ch : Ch) (s : Server) (w : IsWf s)
    (me : find_cli s.cli s.clis ≡ some c) (key : get_ch name s ≡ some k)
    (there : find_ch k s.chs ≡ some ch) where
  ch_at-found : ch_at name s ≡ some (ch, s)
  unfolding ch_at gets deref subscript ◌>>=◌
  ch_at-found = rw (key, deref, there)

  -- the channels with the new member
  abbrev entered : List (Text × Ch)
  entered = update_ch k (add_member c.addr) s.chs

  keyed : find_name (to_lower name) entered ≡ some k
  unfolding get_ch
  keyed = find_name-update_ch (add_member c.addr) k (to_lower name) s.chs ∙ key

  stored : find_ch k entered ≡ some (add_member c.addr ch)
  stored =
      let own : text_eq k k ≡ true = (text_eq_iff k k).1 refl in
      ground (arith, own, there, find_ch-update_ch (add_member c.addr) k k s.chs)

  abbrev Ready : Server → Type 0
  Ready = IsReady name k (add_member c.addr ch) entered keyed stored

  ready : Ready (record s { chs = entered })
  ready = record {
    chs_same = refl;
    author_here = ground (arith, me);
    members_here = λ p on. elim (Bool-cases (c.addr == p)) [
      | inl own ↦
          let mine : s.cli ≡ p = sym (find_cli-addr s.cli c s.clis me) ∙ ground arith in
          ground (arith, me, mine)
      | inr other ↦
          let member : contains p ch.clis ≡ true =
            ground (arith, on, contains-set_insert p c.addr ch.clis) in
          let (d, live, named) = (w.chs_sound k ch there).members p member in ground (arith, live)
    ];
  }

  added : Total Ready (set_ch name (add_member c.addr) s)
  unfolding set_ch gets deref set_key ◌>>=◌
  added = rw (key, deref) ready

  enter-chs : Total (SameChs entered) (enter_ch name s)
  unfolding enter_ch enter_as
  enter-chs = Total-read (SameChs entered) author (enter_as name) c s (author-found s c me) (
      Total-then Ready (SameChs entered) (set_ch name (add_member c.addr)) _ s added λ t r.
        Total-then Ready (SameChs entered) (set_cli c.addr uninvited) (announce name c) t
          (set_cli-IsReady name k (add_member c.addr ch) entered keyed stored c.addr uninvited t
            (record { addr = λ x. refl; fd = λ x. refl })
            (r.members_here c.addr (ground (arith, contains-set_insert c.addr c.addr ch.clis))) r)
          λ u q.
            Total-map {Q = SameChs entered} (λ v z. z.chs_same) _
              (announce-IsReady name k (add_member c.addr ch) entered keyed stored c u q))
    where
      uninvited : Cli → Cli
      uninvited x = record x { invits = names_erase name x.invits }

  -- JOIN's tests of one channel, in a state with the invariant, return. They add their author to that
  -- channel exactly if the key, the limit and the invitations allow it; all else of the channels stays
  -- as it is.
  pub admit-chs :
      (pass : Text) → Total (SameChs (chs_after name pass c k ch s.chs)) (admit name pass s)
  unfolding admit may_enter
  admit-chs pass = Total-read _ (ch_at name) _ ch s ch_at-found (
      Total-read _ author _ c s (author-found s c me) (
        Total-if _ (not (is_empty ch.pass) && not (text_eq pass ch.pass)) _ _ s
          (λ key. refused _ (ground arith))
          λ key.
            Total-if _ (leb ch.limit (length ch.clis)) _ _ s (λ full. refused _ (ground arith))
              λ room.
                Total-if _ (ch.opt_i && not (names_contain name c.invits)) _ _ s
                  (λ closed. refused _ (ground arith))
                  λ open'.
                    let yes' : may_enter name pass c ch ≡ true = ground arith in
                    subst (λ b. Total (SameChs (if b then entered else s.chs)) (enter_ch name s))
                      (sym yes') enter-chs))
    where
      refused :
          (msg : Text)
          → may_enter name pass c ch ≡ false
          → Total (SameChs (chs_after name pass c k ch s.chs)) (reply msg s)
      refused msg no' =
          subst (λ b. Total (SameChs (if b then entered else s.chs)) (reply msg s)) (sym no')
            (reply-SameChs msg c s me)
