-- ===== src/Ann/Tables.antt =====
-- Laws of the containers of Ann/State.antt: sets of addresses, the clients, the channels.
use ft_irc.Prelude.{
  ℕ, ◌≡◌, ◌≢◌, refl, ◌∙◌, true, false, none, some, List, [], ◌∷◌, arith, ◌==◌, if◌then◌else◌, inl,
  inr, is_none, Bool-cases,
}
use ft_irc.Text.{Text, text_eq, text_eq_iff, text_eq_refl, to_lower}
use ft_irc.Ann.State.{
  Cli, Ch, contains, set_insert, set_erase, find_cli, update_cli, find_ch, update_ch, insert_ch,
  erase_ch,
}
use ft_irc.Ann.Replies.{find_name, find_nick}
use ft_irc.Ann.Loop.{find_fd, erase_fd, insert_cli}
use mathlib.Core.Option

pub contains-set_insert :
    (p a : ℕ) (l : List ℕ) → contains p (set_insert a l) ≡ (if a == p then true else contains p l)
unfolding contains set_insert
contains-set_insert p a [] = refl
contains-set_insert p a (x ∷ l) = ground (arith, contains-set_insert p a l)

pub contains-set_erase :
    (p a : ℕ) (l : List ℕ) → contains p (set_erase a l) ≡ (if a == p then false else contains p l)
unfolding contains set_erase
contains-set_erase p a [] = ground arith
contains-set_erase p a (x ∷ l) = ground (arith, contains-set_erase p a l)

-- What an assignment through a pointer leaves alone.
pub record KeepsKeys (f : Cli → Cli) : Type 0 where
  pub addr : (c : Cli) → (f c).addr ≡ c.addr
  pub fd : (c : Cli) → (f c).fd ≡ c.fd

module _ (f : Cli → Cli) (k : KeepsKeys f) where
  pub find_cli-update_cli :
      (p q : ℕ) (l : List Cli)
      → find_cli q (update_cli p f l)
        ≡ (if p == q then Option.map f (find_cli q l) else find_cli q l)
  unfolding find_cli update_cli
  find_cli-update_cli p q [] = ground arith
  find_cli-update_cli p q (c ∷ l) = ground (arith, k.addr c, find_cli-update_cli p q l)

  pub find_fd-update_cli :
      (p : ℕ) (fd : ℕ) (l : List Cli)
      → is_none (find_fd fd (update_cli p f l)) ≡ is_none (find_fd fd l)
  unfolding find_fd update_cli
  find_fd-update_cli p fd [] = refl
  find_fd-update_cli p fd (c ∷ l) = ground (arith, k.fd c, find_fd-update_cli p fd l)

module _ (f : Ch → Ch) where
  pub find_ch-update_ch :
      (j k : Text) (m : List (Text × Ch))
      → find_ch k (update_ch j f m)
        ≡ (if text_eq j k then Option.map f (find_ch k m) else find_ch k m)
  unfolding find_ch update_ch
  find_ch-update_ch j k [] = ground arith
  find_ch-update_ch j k ((i, ch) ∷ m) =
      ground (arith, text_eq_iff i j, text_eq_iff i k, text_eq_iff j k, find_ch-update_ch j k m)

  pub find_name-update_ch :
      (j n : Text) (m : List (Text × Ch)) → find_name n (update_ch j f m) ≡ find_name n m
  unfolding find_name update_ch
  find_name-update_ch j n [] = refl
  find_name-update_ch j n ((i, ch) ∷ m) = ground (arith, find_name-update_ch j n m)

pub find_ch-insert_ch :
    (j k : Text) (v : Ch) (m : List (Text × Ch))
    → find_ch k (insert_ch j v m) ≡ (if text_eq j k then some v else find_ch k m)
unfolding find_ch insert_ch
find_ch-insert_ch j k v [] = refl
find_ch-insert_ch j k v ((i, ch) ∷ m) =
    ground (arith, text_eq_iff i j, text_eq_iff i k, text_eq_iff j k, find_ch-insert_ch j k v m)

pub find_ch-erase_ch :
    (j k : Text) (m : List (Text × Ch))
    → find_ch k (erase_ch j m) ≡ (if text_eq j k then none else find_ch k m)
unfolding find_ch erase_ch
find_ch-erase_ch j k [] = ground arith
find_ch-erase_ch j k ((i, ch) ∷ m) =
    ground (arith, text_eq_iff i j, text_eq_iff i k, text_eq_iff j k, find_ch-erase_ch j k m)

-- The channel that `getCh` finds is in the map.
pub find_ch-find_name :
    (n k : Text) (m : List (Text × Ch))
    → find_name n m ≡ some k
    → (ch : Ch) × (find_ch k m ≡ some ch) × (to_lower k ≡ n)
unfolding find_name find_ch
find_ch-find_name n k [] h = cc
find_ch-find_name n k ((i, ch) ∷ m) h = elim (Bool-cases (text_eq (to_lower i) n)) [
  | inl e ↦ (
    ch,
    ground (arith, text_eq_iff i k, text_eq_iff (to_lower i) n),
    ground (arith, text_eq_iff (to_lower i) n),
  )
  | inr e ↦
      let (x, found, low) = find_ch-find_name n k m (ground arith) in
      (x, ground (arith, text_eq_iff i k, text_eq_iff (to_lower i) n), low)
]

-- Channel names differ, also where upper and lower case are one.
abbrev pub NamesDiffer : List (Text × Ch) → Type 0
NamesDiffer [] = Unit
NamesDiffer ((k, ch) ∷ m) = (find_name (to_lower k) m ≡ none) × NamesDiffer m

-- So `getCh` finds each channel by its own name.
pub find_name-find_ch :
    (k : Text) (ch : Ch) (m : List (Text × Ch))
    → NamesDiffer m
    → find_ch k m ≡ some ch
    → find_name (to_lower k) m ≡ some k
unfolding find_name find_ch
find_name-find_ch k ch [] d h = cc
find_name-find_ch k ch ((i, x) ∷ m) d h = elim (Bool-cases (text_eq i k)) [
  | inl e ↦
      let same : i ≡ k = (text_eq_iff i k).0 e in
      ground (arith, text_eq_iff (to_lower i) (to_lower k))
  | inr e ↦
      let rest = find_name-find_ch k ch m d.1 (ground arith) in
      ground (arith, text_eq_iff (to_lower i) (to_lower k))
]

pub update_ch-NamesDiffer :
    (j : Text) (f : Ch → Ch) (m : List (Text × Ch)) → NamesDiffer m → NamesDiffer (update_ch j f m)
unfolding update_ch
update_ch-NamesDiffer j f [] d = d
update_ch-NamesDiffer j f ((i, x) ∷ m) d = elim (Bool-cases (text_eq i j)) [
  | inl e ↦ rw e d
  | inr e ↦ rw e (find_name-update_ch f j (to_lower i) m ∙ d.0, update_ch-NamesDiffer j f m d.1)
]

find_name-erase_ch :
    (j n : Text) (m : List (Text × Ch)) → find_name n m ≡ none → find_name n (erase_ch j m) ≡ none
unfolding find_name erase_ch
find_name-erase_ch j n [] h = refl
find_name-erase_ch j n ((i, x) ∷ m) h = ground (arith, find_name-erase_ch j n m)

pub erase_ch-NamesDiffer :
    (j : Text) (m : List (Text × Ch)) → NamesDiffer m → NamesDiffer (erase_ch j m)
unfolding erase_ch
erase_ch-NamesDiffer j [] d = d
erase_ch-NamesDiffer j ((i, x) ∷ m) d =
    let rest = erase_ch-NamesDiffer j m d.1 in
    let fresh = find_name-erase_ch j (to_lower i) m d.0 in
    elim (Bool-cases (text_eq i j)) [ inl e ↦ rw e rest | inr e ↦ rw e (fresh, rest) ]

find_name-insert_ch :
    (j n : Text) (v : Ch) (m : List (Text × Ch))
    → find_name n m ≡ none
    → text_eq (to_lower j) n ≡ false
    → find_name n (insert_ch j v m) ≡ none
unfolding find_name insert_ch
find_name-insert_ch j n v [] h e = ground arith
find_name-insert_ch j n v ((i, x) ∷ m) h e = ground (arith, find_name-insert_ch j n v m)

pub insert_ch-NamesDiffer :
    (j : Text) (v : Ch) (m : List (Text × Ch))
    → NamesDiffer m
    → find_name (to_lower j) m ≡ none
    → NamesDiffer (insert_ch j v m)
unfolding insert_ch find_name
insert_ch-NamesDiffer j v [] d h = (refl, tt)
insert_ch-NamesDiffer j v ((i, x) ∷ m) d h =
    let rest = insert_ch-NamesDiffer j v m d.1 (ground arith) in
    let apart : text_eq (to_lower j) (to_lower i) ≡ false =
      ground
        (arith, text_eq_iff (to_lower j) (to_lower i), text_eq_iff (to_lower i) (to_lower j)) in
    let fresh = find_name-insert_ch j (to_lower i) v m d.0 apart in
    ground (arith, text_eq_iff i j, text_eq_refl (to_lower j))

-- Addresses differ, and so do descriptors.
abbrev pub ClisDiffer : List Cli → Type 0
ClisDiffer [] = Unit
ClisDiffer (c ∷ l) = (find_cli c.addr l ≡ none) × (find_fd c.fd l ≡ none) × ClisDiffer l

pub find_cli-addr : (p : ℕ) (c : Cli) (l : List Cli) → find_cli p l ≡ some c → c.addr ≡ p
unfolding find_cli
find_cli-addr p c [] h = cc
find_cli-addr p c (d ∷ l) h = ground (arith, find_cli-addr p c l)

pub find_fd-fd : (fd : ℕ) (c : Cli) (l : List Cli) → find_fd fd l ≡ some c → c.fd ≡ fd
unfolding find_fd
find_fd-fd fd c [] h = cc
find_fd-fd fd c (d ∷ l) h = ground (arith, find_fd-fd fd c l)

-- A client found by its descriptor is the one at its address.
pub find_cli-find_fd :
    (fd : ℕ) (c : Cli) (l : List Cli)
    → ClisDiffer l
    → find_fd fd l ≡ some c
    → find_cli c.addr l ≡ some c
unfolding find_fd find_cli
find_cli-find_fd fd c [] d h = cc
find_cli-find_fd fd c (x ∷ l) d h = ground (arith, find_cli-find_fd fd c l d.2)

-- `getCli` finds a live client.
pub find_cli-find_nick :
    (n : Text) (p : ℕ) (l : List Cli)
    → ClisDiffer l
    → find_nick n l ≡ some p
    → (c : Cli) × (find_cli p l ≡ some c) × (to_lower c.nick ≡ n)
unfolding find_nick find_cli
find_cli-find_nick n p [] d h = cc
find_cli-find_nick n p (x ∷ l) d h = elim (Bool-cases (text_eq (to_lower x.nick) n)) [
  | inl e ↦ (x, ground arith, (text_eq_iff (to_lower x.nick) n).0 e)
  | inr e ↦
      let (c, found, low) = find_cli-find_nick n p l d.2 (ground arith) in (c, ground arith, low)
]

-- Some client has the nickname, if the look-up by it is tried.
pub find_nick-ne-none :
    (p : ℕ) (c : Cli) (l : List Cli) → find_cli p l ≡ some c → find_nick (to_lower c.nick) l ≢ none
unfolding find_nick find_cli
find_nick-ne-none p c [] h = cc
find_nick-ne-none p c (x ∷ l) h = elim (Bool-cases (x.addr == p)) [
  | inl e ↦ ground (arith, text_eq_refl (to_lower c.nick))
  | inr e ↦
      let rest = find_nick-ne-none p c l (ground arith) in
      elim (Bool-cases (text_eq (to_lower x.nick) (to_lower c.nick))) [
        | inl same ↦ rw same (λ z. cc z)
        | inr other ↦ rw other rest
      ]
]

pub update_cli-ClisDiffer :
    (p : ℕ) (f : Cli → Cli) (l : List Cli)
    → KeepsKeys f
    → ClisDiffer l
    → ClisDiffer (update_cli p f l)
unfolding update_cli
update_cli-ClisDiffer p f [] k d = d
update_cli-ClisDiffer p f (c ∷ l) k d =
    let rest = update_cli-ClisDiffer p f l k d.2 in
    let a = find_cli-update_cli f k p c.addr l in
    let b = find_fd-update_cli f k p c.fd l in
    elim (Bool-cases (c.addr == p)) [
      | inl e ↦ rw (e, k.addr c, k.fd c) d
      | inr e ↦ rw e (ground (arith, d.0), ground (arith, d.1), rest)
    ]

pub find_cli-erase_fd :
    (q fd : ℕ) (c : Cli) (l : List Cli)
    → ClisDiffer l
    → find_fd fd l ≡ some c
    → find_cli q (erase_fd fd l) ≡ (if c.addr == q then none else find_cli q l)
unfolding find_cli find_fd erase_fd
find_cli-erase_fd q fd c [] d h = cc
find_cli-erase_fd q fd c (x ∷ l) d h =
    ground (arith, d.0, find_cli-erase_fd q fd c l d.2, find_cli-find_fd fd c l d.2)

find_fd-erase_fd : (fd g : ℕ) (l : List Cli) → find_fd g l ≡ none → find_fd g (erase_fd fd l) ≡ none
unfolding find_fd erase_fd
find_fd-erase_fd fd g [] h = refl
find_fd-erase_fd fd g (x ∷ l) h = ground (arith, find_fd-erase_fd fd g l)

find_cli-erase_fd-none :
    (fd q : ℕ) (l : List Cli) → find_cli q l ≡ none → find_cli q (erase_fd fd l) ≡ none
unfolding find_cli erase_fd
find_cli-erase_fd-none fd q [] h = refl
find_cli-erase_fd-none fd q (x ∷ l) h = ground (arith, find_cli-erase_fd-none fd q l)

pub erase_fd-ClisDiffer : (fd : ℕ) (l : List Cli) → ClisDiffer l → ClisDiffer (erase_fd fd l)
unfolding erase_fd
erase_fd-ClisDiffer fd [] d = d
erase_fd-ClisDiffer fd (x ∷ l) d =
    let rest = erase_fd-ClisDiffer fd l d.2 in
    let a = find_cli-erase_fd-none fd x.addr l d.0 in
    let b = find_fd-erase_fd fd x.fd l d.1 in
    elim (Bool-cases (x.fd == fd)) [ inl e ↦ rw e d.2 | inr e ↦ rw e (a, b, rest) ]

pub find_cli-insert_cli :
    (q : ℕ) (c : Cli) (l : List Cli)
    → find_fd c.fd l ≡ none
    → find_cli c.addr l ≡ none
    → find_cli q (insert_cli c l) ≡ (if c.addr == q then some c else find_cli q l)
unfolding find_cli find_fd insert_cli
find_cli-insert_cli q c [] h k = refl
find_cli-insert_cli q c (x ∷ l) h k = ground (arith, find_cli-insert_cli q c l)

find_fd-insert_cli :
    (g : ℕ) (c : Cli) (l : List Cli)
    → find_fd g l ≡ none
    → (c.fd == g) ≡ false
    → find_fd g (insert_cli c l) ≡ none
unfolding find_fd insert_cli
find_fd-insert_cli g c [] h e = ground arith
find_fd-insert_cli g c (x ∷ l) h e = ground (arith, find_fd-insert_cli g c l)

pub insert_cli-ClisDiffer :
    (c : Cli) (l : List Cli)
    → ClisDiffer l
    → find_fd c.fd l ≡ none
    → find_cli c.addr l ≡ none
    → ClisDiffer (insert_cli c l)
unfolding find_cli find_fd insert_cli
insert_cli-ClisDiffer c [] d h k = (refl, refl, tt)
insert_cli-ClisDiffer c (x ∷ l) d h k =
    let rest = insert_cli-ClisDiffer c l d.2 (ground arith) (ground arith) in
    let a = find_cli-insert_cli x.addr c l (ground arith) (ground arith) in
    let b = find_fd-insert_cli x.fd c l d.1 (ground arith) in ground (arith, d.0, d.1)
