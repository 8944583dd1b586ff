-- ===== src/Ann/Wf/Sweep.antt =====
-- `eraseUnusedClis`, `eraseUnusedChs` and `markPollsToSendMsgsTo` never fault, and keep the
-- invariant: a client that is deleted is on no channel any more.
use ft_irc.Prelude.{
  ℕ, ◌≡◌, ◌≢◌, refl, sym, ◌∙◌, ap, true, false, Option, none, some, List, [], ◌∷◌, arith,
  Bool-cases, Option-cases, inl, inr, ◌==◌, if◌then◌else◌, is_empty, All,
}
use ft_irc.Text.{Text, text_eq, text_eq_iff, text_eq_refl, to_lower}
use ft_irc.Ann.State.{
  Cli, Ch, Server, contains, find_cli, find_ch, update_ch, erase_ch, names_contain,
}
use ft_irc.Ann.Exec.{M, gets, modify, pure, deref, ◌>>=◌, ◌>>◌}
use ft_irc.Ann.Replies.{for_each, get_ch, get_cli, find_name, set_ch, set_key}
use ft_irc.Ann.Commands.Leave.{leave_ch, erase_cli_from_ch}
use ft_irc.Ann.Loop.{
  find_fd, erase_fd, delete_cli, forget_fd, erase_unused_cli, erase_unused_clis, empty_chs,
  erase_unused_ch, erase_unused_chs, mark_polls, sweep,
}
use ft_irc.Ann.Tables.{
  find_name-update_ch, find_ch-update_ch, contains-set_erase, find_cli-erase_fd,
  erase_fd-ClisDiffer, find_cli-find_fd, find_fd-fd, find_ch-erase_ch, erase_ch-NamesDiffer,
  NamesDiffer, find_name-find_ch,
}
use ft_irc.Ann.Total.{Total, Total-then, Total-for_each, Total-map}
use ft_irc.Ann.Wf.{IsWf, get_ch-find_ch, get_cli-find_cli}
use ft_irc.Ann.Wf.Prims.{update_ch-IsWf}
use ft_irc.Ann.Wf.Channel.{leave_ch-ChIsSound}

-- While client `c` leaves the channels: it is still on those alone that are left to do.
record IsLeaving (c : Cli) (left : List (Text × Ch)) (s : Server) : Type 0 where
  wf : IsWf s
  there : find_fd c.fd s.clis ≡ some c
  known : All (λ (e : Text × Ch). (k : Text) × (get_ch e.0 s ≡ some k)) left
  pending :
      (k : Text) (ch : Ch)
      → find_ch k s.chs ≡ some ch
      → contains c.addr ch.clis ≡ true
      → find_ch k left ≢ none

leave_ch-clis :
    (p : Option ℕ) (q : ℕ) (ch : Ch)
    → contains q (leave_ch p ch).clis ≡ true
    → contains q ch.clis ≡ true
unfolding leave_ch
leave_ch-clis none q ch h = h
leave_ch-clis (some p) q ch h = ground (arith, contains-set_erase q p ch.clis)

leave_ch_self : (p : ℕ) (ch : Ch) → contains p (leave_ch (some p) ch).clis ≡ false
unfolding leave_ch
leave_ch_self p ch = ground (arith, contains-set_erase p p ch.clis)

known-update_ch :
    (k : Text) (f : Ch → Ch) (left : List (Text × Ch)) (s : Server)
    → All (λ (e : Text × Ch). (j : Text) × (get_ch e.0 s ≡ some j)) left
    → All
        (λ (e : Text × Ch).
          (j : Text) × (get_ch e.0 (record s { chs = update_ch k f s.chs }) ≡ some j))
        left
unfolding get_ch
known-update_ch k f [] s h = tt
known-update_ch k f (e ∷ left) s h =
    ((h.0.0, find_name-update_ch f k (to_lower e.0) s.chs ∙ h.0.1), known-update_ch k f left s h.1)

module _ (c : Cli) (e : Text × Ch) (left : List (Text × Ch)) (s : Server)
    (i : IsLeaving c (e ∷ left) s) where
  -- `getCli` of the leaving client's nickname gives that client, as long as it is on a channel.
  get_cli-leaving :
      (k : Text) (ch : Ch)
      → find_ch k s.chs ≡ some ch
      → contains c.addr ch.clis ≡ true
      → get_cli c.nick s ≡ some c.addr
  get_cli-leaving k ch h on =
      let (d, live, named) = (i.wf.chs_sound k ch h).members c.addr on in
      let here = find_cli-find_fd c.fd c s.clis i.wf.clis_differ i.there in
      let same : d ≡ c = ground arith in
      get_cli-find_cli i.wf c.addr d c.nick live named (ap (λ (x : Cli). to_lower x.nick) same)

  not_head :
      (j k : Text) (old : Ch)
      → get_ch e.0 s ≡ some j
      → find_ch k s.chs ≡ some old
      → text_eq j k ≡ false
      → find_ch k (e ∷ left) ≢ none
      → find_ch k left ≢ none
  unfolding find_ch
  not_head j k old at h other there = elim (Bool-cases (text_eq e.0 k)) [
    | inl same ↦
        let here = get_ch-find_ch i.wf k old h in
        let key : e.0 ≡ k = (text_eq_iff e.0 k).0 same in
        absurd (ground (arith, here, key, text_eq_iff j k))
    | inr apart ↦ rw apart at there
  ]

  gone :
      (k : Text) (old ch : Ch)
      → find_ch k s.chs ≡ some old
      → leave_ch (get_cli c.nick s) old ≡ ch
      → contains c.addr ch.clis ≡ true
      → ⊥
  gone k old ch h after on =
      let was : contains c.addr old.clis ≡ true =
        leave_ch-clis (get_cli c.nick s) c.addr old
          (ap (λ (x : Ch). contains c.addr x.clis) after ∙ on) in
      let who = get_cli-leaving k old h was in
      let left_now : leave_ch (some c.addr) old ≡ ch = ap (λ p. leave_ch p old) (sym who) ∙ after in
      ground (arith, leave_ch_self c.addr old, ap (λ (x : Ch). contains c.addr x.clis) left_now)

  -- A channel that still holds the client is not the one that it has just left.
  still_pending :
      (j k : Text) (ch : Ch)
      → get_ch e.0 s ≡ some j
      → find_ch k (update_ch j (leave_ch (get_cli c.nick s)) s.chs) ≡ some ch
      → contains c.addr ch.clis ≡ true
      → find_ch k left ≢ none
  still_pending j k ch at h on =
      let law = find_ch-update_ch (leave_ch (get_cli c.nick s)) j k s.chs in
      elim (Option-cases (find_ch k s.chs)) [
        | inl z ↦ absurd (ground (arith, law, z))
        | inr (old, z) ↦ elim (Bool-cases (text_eq j k)) [
          | inr other ↦
              let same : old ≡ ch = ground (arith, law, z) in
              not_head j k old at z other
                (i.pending k old z (ap (λ (x : Ch). contains c.addr x.clis) same ∙ on))
          | inl this ↦ absurd (gone k old ch z (ground (arith, law, z)) on)
        ]
      ]

  -- One round of the loop over the channels.
  leave-IsLeaving : Total (IsLeaving c left) (erase_cli_from_ch c.nick e.0 s)
  unfolding erase_cli_from_ch set_ch gets deref set_key ◌>>=◌
  leave-IsLeaving =
      let (j, at) = i.known.0 in
      let p = get_cli c.nick s in
      rw (at, erase_cli_from_ch, set_ch)
        (record {
          wf =
              update_ch-IsWf j (leave_ch p) s i.wf
                (λ ch h. leave_ch-ChIsSound p s.clis ch (i.wf.chs_sound j ch h));
          there = i.there;
          known = known-update_ch j (leave_ch p) left s i.known.1;
          pending = λ k ch h on. still_pending j k ch at h on;
        })

All-known :
    (s : Server) (m : List (Text × Ch))
    → IsWf s
    → ((k : Text) (ch : Ch) → find_ch k m ≡ some ch → find_ch k s.chs ≢ none)
    → All (λ (e : Text × Ch). (k : Text) × (get_ch e.0 s ≡ some k)) m
unfolding find_ch
All-known s [] w sub = tt
All-known s ((k, ch) ∷ m) w sub = (
  elim (Option-cases (find_ch k s.chs)) [
    | inl e ↦ absurd (sub k ch (ground (arith, text_eq_refl k)) e)
    | inr (x, e) ↦ (k, get_ch-find_ch w k x e)
  ],
  All-known s m w λ j x h. elim (Bool-cases (text_eq k j)) [
    | inl e ↦ sub j ch (ground arith)
    | inr e ↦ sub j x (ground arith)
  ],
)

-- Removing a client that no channel points to keeps the invariant.
erase_fd-IsWf :
    (c : Cli) (s : Server) → IsLeaving c [] s → IsWf (record s { clis = erase_fd c.fd s.clis })
unfolding find_ch
erase_fd-IsWf c s i = record {
  clis_differ = erase_fd-ClisDiffer c.fd s.clis i.wf.clis_differ;
  names_differ = i.wf.names_differ;
  nicks_differ =
      λ p q a b ha hb. i.wf.nicks_differ p q a b (ground (arith, rest p)) (ground (arith, rest q));
  chs_sound = λ k ch h. record {
    members = λ p on.
        let (d, live, named) = (i.wf.chs_sound k ch h).members p on in
        let away : (c.addr == p) ≡ false = elim (Bool-cases (c.addr == p)) [
          | inr e ↦ e
          | inl e ↦
              absurd (i.pending k ch h (ap (λ x. contains x ch.clis) (ground arith) ∙ on) refl)
        ] in
        (d, ground (arith, rest p), named);
    operators = (i.wf.chs_sound k ch h).operators;
  };
}
  where
    rest :
        (p : ℕ)
        → find_cli p (erase_fd c.fd s.clis) ≡ (if c.addr == p then none else find_cli p s.clis)
    rest p = find_cli-erase_fd p c.fd c s.clis i.wf.clis_differ i.there

forget_fd-IsWf : (fd : ℕ) (s : Server) → IsWf s → Total IsWf (forget_fd fd s)
unfolding forget_fd modify
forget_fd-IsWf fd s w = record {
  clis_differ = w.clis_differ;
  names_differ = w.names_differ;
  nicks_differ = w.nicks_differ;
  chs_sound = w.chs_sound;
}

delete_cli-IsWf :
    (c : Cli) (s : Server) → IsWf s → find_fd c.fd s.clis ≡ some c → Total IsWf (delete_cli c s)
unfolding delete_cli gets modify ◌>>=◌
delete_cli-IsWf c s w there =
    Total-then (IsLeaving c []) IsWf (for_each leave s.chs) after s
      (Total-for_each (IsLeaving c) leave (λ e left t i. leave-IsLeaving c e left t i) s.chs s
        (record {
          wf = w;
          there = there;
          known = All-known s s.chs w (λ k ch h z. cc);
          pending = λ k ch h on z. cc;
        }))
      λ t i. Total-then IsWf IsWf _ (forget_fd c.fd) t (erase_fd-IsWf c t i) (forget_fd-IsWf c.fd)
  where
    leave : Text × Ch → M (Unit {0})
    leave e = erase_cli_from_ch c.nick e.0

    after : M (Unit {0})
    after = modify (λ t. record t { clis = erase_fd c.fd t.clis }) >> forget_fd c.fd

erase_unused_cli-IsWf : (fd : ℕ) (s : Server) → IsWf s → Total IsWf (erase_unused_cli fd s)
unfolding erase_unused_cli pure
erase_unused_cli-IsWf fd s w = elim (Option-cases (find_fd fd s.clis)) [
  | inl e ↦ rw (e, erase_unused_cli) (forget_fd-IsWf fd s w)
  | inr (c, e) ↦ elim (Bool-cases (is_empty c.buf_to_send)) [
    | inl empty ↦
        let at : c.fd ≡ fd = find_fd-fd fd c s.clis e in
        rw (e, erase_unused_cli, empty) (delete_cli-IsWf c s w (ap (λ x. find_fd x s.clis) at ∙ e))
    | inr full ↦ rw (e, erase_unused_cli, full) w
  ]
]

erase_unused_clis-IsWf : (s : Server) → IsWf s → Total IsWf (erase_unused_clis s)
unfolding erase_unused_clis gets ◌>>=◌
erase_unused_clis-IsWf s w =
    Total-for_each (λ _. IsWf) erase_unused_cli (λ fd _ t. erase_unused_cli-IsWf fd t)
      s.fds_to_erase s w

-- The names that are still to be erased: each once, and each that of a channel.
abbrev ArePending : List Text → Server → Type 0
ArePending [] s = Unit
ArePending (n ∷ ns) s =
    ((ch : Ch) × (find_ch n s.chs ≡ some ch)) × (names_contain n ns ≡ false) × ArePending ns s

erase_ch-ArePending :
    (k : Text) (ns : List Text) (s : Server)
    → names_contain k ns ≡ false
    → ArePending ns s
    → ArePending ns (record s { chs = erase_ch k s.chs })
unfolding names_contain
erase_ch-ArePending k [] s a h = tt
erase_ch-ArePending k (n ∷ ns) s a h = (
  (h.0.0, ground (arith, find_ch-erase_ch k n s.chs, text_eq_iff k n, text_eq_iff n k)),
  h.1,
  erase_ch-ArePending k ns s (ground arith) h.2,
)

erase_ch-IsWf : (k : Text) (s : Server) → IsWf s → IsWf (record s { chs = erase_ch k s.chs })
erase_ch-IsWf k s w = record {
  clis_differ = w.clis_differ;
  names_differ = erase_ch-NamesDiffer k s.chs w.names_differ;
  nicks_differ = w.nicks_differ;
  chs_sound = λ j ch h. w.chs_sound j ch (ground (arith, find_ch-erase_ch k j s.chs));
}

abbrev ErasingChs : List Text → Server → Type 0
ErasingChs ns s = IsWf s × ArePending ns s

erase_unused_ch-ErasingChs :
    (n : Text) (ns : List Text) (s : Server)
    → ErasingChs (n ∷ ns) s
    → Total (ErasingChs ns) (erase_unused_ch n s)
unfolding erase_unused_ch gets deref modify ◌>>=◌
erase_unused_ch-ErasingChs n ns s (w, ((ch, h), apart, rest)) =
    rw (get_ch-find_ch w n ch h, erase_unused_ch, text_eq_refl n)
      (erase_ch-IsWf n s w, erase_ch-ArePending n ns s apart rest)

empty_chs-fresh :
    (k n : Text) (m : List (Text × Ch))
    → find_name (to_lower k) m ≡ none
    → names_contain k (empty_chs m) ≡ false
unfolding find_name empty_chs names_contain
empty_chs-fresh k n [] h = refl
empty_chs-fresh k n ((j, ch) ∷ m) h = ground (
  arith,
  empty_chs-fresh k n m,
  text_eq_iff j k,
  text_eq_iff (to_lower j) (to_lower k),
  text_eq_refl (to_lower k),
)

empty_chs-ArePending :
    (s : Server) (m : List (Text × Ch))
    → NamesDiffer m
    → ((k : Text) (ch : Ch) → find_ch k m ≡ some ch → find_ch k s.chs ≡ some ch)
    → ArePending (empty_chs m) s
unfolding empty_chs find_ch
empty_chs-ArePending s [] d sub = tt
empty_chs-ArePending s ((j, ch) ∷ m) d sub =
    let rest = empty_chs-ArePending s m d.1 (λ k x h. below k x h) in
    elim (Bool-cases (is_empty ch.clis)) [
      | inl e ↦
          rw e ((ch, sub j ch (ground (arith, text_eq_refl j))), empty_chs-fresh j j m d.0, rest)
      | inr e ↦ rw e rest
    ]
  where
    below : (k : Text) (x : Ch) → find_ch k m ≡ some x → find_ch k s.chs ≡ some x
    below k x h =
        let low = find_name-find_ch k x m d.1 h in
        sub k x (elim (Bool-cases (text_eq j k)) [
          | inl e ↦
              let same : j ≡ k = (text_eq_iff j k).0 e in
              absurd (cc (sym d.0 ∙ ap (λ t. find_name (to_lower t) m) same ∙ low))
          | inr e ↦ rw e h
        ])

erase_unused_chs-IsWf : (s : Server) → IsWf s → Total IsWf (erase_unused_chs s)
unfolding erase_unused_chs gets ◌>>=◌
erase_unused_chs-IsWf s w =
    Total-map (λ t i. i.0) (for_each erase_unused_ch (empty_chs s.chs) s)
      (Total-for_each ErasingChs erase_unused_ch erase_unused_ch-ErasingChs (empty_chs s.chs) s
        (w, empty_chs-ArePending s s.chs w.names_differ (λ k ch h. h)))

mark_polls-IsWf : (s : Server) → IsWf s → Total IsWf (mark_polls s)
unfolding mark_polls modify
mark_polls-IsWf s w = record {
  clis_differ = w.clis_differ;
  names_differ = w.names_differ;
  nicks_differ = w.nicks_differ;
  chs_sound = w.chs_sound;
}

-- The sweep before each poll returns, and keeps the invariant.
pub sweep-IsWf : (s : Server) → IsWf s → Total IsWf (sweep s)
unfolding sweep
sweep-IsWf s w =
    Total-then IsWf IsWf erase_unused_clis (erase_unused_chs >> mark_polls) s
      (erase_unused_clis-IsWf s w)
      λ t x.
        Total-then IsWf IsWf erase_unused_chs mark_polls t (erase_unused_chs-IsWf t x)
          mark_polls-IsWf
