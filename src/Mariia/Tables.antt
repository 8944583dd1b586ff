-- ===== src/Mariia/Tables.antt =====
-- Laws of the lists of clients and of channels.
use ft_irc.Prelude.{
  ℕ, ◌≡◌, ◌≢◌, refl, sym, ap, subst, ◌∙◌, true, none, some, List, [], ◌∷◌, ◌++◌, map, arith, ◌==◌,
  All, Bool-cases, inl, inr, is_none,
}
use ft_irc.Text.{Text, text_eq, text_eq_iff}
use ft_irc.Ann.State.{contains}
use ft_irc.Mariia.Channel.{Channel}
use ft_irc.Mariia.State.{
  Client, find_client, update_client, find_nick, find_channel, put_channel, erase_channel,
}

abbrev pub client_fds : List Client → List ℕ
client_fds = map (λ c. c.socket_fd)

-- no two channels of one name
abbrev pub NamesDiffer : List Channel → Type 0
NamesDiffer [] = Unit
NamesDiffer (ch ∷ chs) = (find_channel ch.name chs ≡ none) × NamesDiffer chs

pub record KeepsFd (f : Client → Client) : Type 0 where
  pub fd_same : (c : Client) → (f c).socket_fd ≡ c.socket_fd

pub client_fds-update_client :
    (fd : ℕ) (f : Client → Client) (l : List Client)
    → KeepsFd f
    → client_fds (update_client fd f l) ≡ client_fds l
unfolding update_client
client_fds-update_client fd f [] k = refl
client_fds-update_client fd f (c ∷ l) k =
    ground (arith, k.fd_same c, client_fds-update_client fd f l k)

pub find_client-live :
    (fd : ℕ) (l : List Client)
    → contains fd (client_fds l) ≡ true
    → (c : Client) × (find_client fd l ≡ some c)
unfolding contains find_client
find_client-live fd [] h = cc
find_client-live fd (c ∷ l) h = elim (Bool-cases (c.socket_fd == fd)) [
  | inl here ↦ (c, rw here)
  | inr there ↦ let (d, e) = find_client-live fd l (ground arith) in (d, rw there e)
]

pub find_nick-live :
    (nick : Text) (l : List Client) (c : Client)
    → find_nick nick l ≡ some c
    → contains c.socket_fd (client_fds l) ≡ true
unfolding contains find_nick
find_nick-live nick [] c h = cc
find_nick-live nick (d ∷ l) c h = elim (Bool-cases (text_eq d.nickname nick)) [
  | inl here ↦
      let same : d ≡ c = ground arith in
      let fd : d.socket_fd ≡ c.socket_fd = ap (λ (x : Client). x.socket_fd) same in ground arith
  | inr there ↦ ground (arith, find_nick-live nick l c)
]

pub find_channel-All :
    (Q : Channel → Type 0) (name : Text) (l : List Channel) (ch : Channel)
    → All Q l
    → find_channel name l ≡ some ch
    → Q ch
unfolding find_channel
find_channel-All Q name [] ch all h = cc
find_channel-All Q name (d ∷ l) ch all h = elim (Bool-cases (text_eq d.name name)) [
  | inl here ↦ let same : d ≡ ch = ground arith in subst Q same all.0
  | inr there ↦ find_channel-All Q name l ch all.1 (ground arith)
]

pub find_channel-name :
    (name : Text) (l : List Channel) (ch : Channel) → find_channel name l ≡ some ch → ch.name ≡ name
unfolding find_channel
find_channel-name name [] ch h = cc
find_channel-name name (d ∷ l) ch h = elim (Bool-cases (text_eq d.name name)) [
  | inl here ↦
      let same : d ≡ ch = ground arith in
      ap (λ (x : Channel). x.name) (sym same) ∙ (text_eq_iff d.name name).0 here
  | inr there ↦ find_channel-name name l ch (ground arith)
]

module _ (Q : Channel → Type 0) (new : Channel) (fine : Q new) where
  pub All-put_channel : (l : List Channel) → All Q l → All Q (put_channel new l)
  unfolding put_channel
  All-put_channel [] all = tt
  All-put_channel (ch ∷ l) all = elim (Bool-cases (text_eq ch.name new.name)) [
    | inl here ↦ rw here (fine, all.1)
    | inr there ↦ rw there (all.0, All-put_channel l all.1)
  ]

  pub All-push : (l : List Channel) → All Q l → All Q (l ++ new ∷ [])
  All-push [] all = (fine, tt)
  All-push (ch ∷ l) all = (all.0, All-push l all.1)

pub All-erase_channel :
    (Q : Channel → Type 0) (name : Text) (l : List Channel) → All Q l → All Q (erase_channel name l)
unfolding erase_channel
All-erase_channel Q name [] all = tt
All-erase_channel Q name (ch ∷ l) all = elim (Bool-cases (text_eq ch.name name)) [
  | inl here ↦ rw here all.1
  | inr there ↦ rw there (all.0, All-erase_channel Q name l all.1)
]

-- An operation on the list of channels that adds no name.
abbrev AddsNoName : (List Channel → List Channel) → Type 0
AddsNoName f = (n : Text) (l : List Channel) → find_channel n l ≡ none → find_channel n (f l) ≡ none

put_channel-AddsNoName : (new : Channel) → AddsNoName (put_channel new)
unfolding put_channel find_channel
put_channel-AddsNoName new n [] h = refl
put_channel-AddsNoName new n (ch ∷ l) h = ground (
  arith,
  text_eq_iff ch.name new.name,
  text_eq_iff ch.name n,
  text_eq_iff new.name n,
  put_channel-AddsNoName new n l,
)

erase_channel-AddsNoName : (name : Text) → AddsNoName (erase_channel name)
unfolding erase_channel find_channel
erase_channel-AddsNoName name n [] h = refl
erase_channel-AddsNoName name n (ch ∷ l) h = ground (arith, erase_channel-AddsNoName name n l)

pub NamesDiffer-put_channel :
    (new : Channel) (l : List Channel) → NamesDiffer l → NamesDiffer (put_channel new l)
unfolding put_channel
NamesDiffer-put_channel new [] d = tt
NamesDiffer-put_channel new (ch ∷ l) d = elim (Bool-cases (text_eq ch.name new.name)) [
  | inl here ↦
      rw here
        (subst (λ n. find_channel n l ≡ none) ((text_eq_iff ch.name new.name).0 here) d.0, d.1)
  | inr there ↦
      rw there (put_channel-AddsNoName new ch.name l d.0, NamesDiffer-put_channel new l d.1)
]

pub NamesDiffer-erase_channel :
    (name : Text) (l : List Channel) → NamesDiffer l → NamesDiffer (erase_channel name l)
unfolding erase_channel
NamesDiffer-erase_channel name [] d = tt
NamesDiffer-erase_channel name (ch ∷ l) d = elim (Bool-cases (text_eq ch.name name)) [
  | inl here ↦ rw here d.1
  | inr there ↦
      rw there (erase_channel-AddsNoName name ch.name l d.0, NamesDiffer-erase_channel name l d.1)
]

find_channel-push :
    (n : Text) (new : Channel) (l : List Channel)
    → find_channel n l ≡ none
    → n ≢ new.name
    → find_channel n (l ++ new ∷ []) ≡ none
unfolding find_channel
find_channel-push n new [] h other = ground (arith, text_eq_iff new.name n)
find_channel-push n new (ch ∷ l) h other = ground (arith, find_channel-push n new l)

pub NamesDiffer-push :
    (new : Channel) (l : List Channel)
    → NamesDiffer l
    → find_channel new.name l ≡ none
    → NamesDiffer (l ++ new ∷ [])
unfolding find_channel
NamesDiffer-push new [] d h = (refl, tt)
NamesDiffer-push new (ch ∷ l) d h = elim (Bool-cases (text_eq ch.name new.name)) [
  | inl here ↦ absurd (ground arith)
  | inr there ↦
      let other : ch.name ≢ new.name = λ e. ground (arith, text_eq_iff ch.name new.name, e) in
      (find_channel-push ch.name new l d.0 other, NamesDiffer-push new l d.1 (ground arith))
]

pub is_none-find_channel-put :
    (n : Text) (new : Channel) (l : List Channel)
    → is_none (find_channel n (put_channel new l)) ≡ is_none (find_channel n l)
unfolding put_channel find_channel
is_none-find_channel-put n new [] = refl
is_none-find_channel-put n new (ch ∷ l) = ground (
  arith,
  text_eq_iff ch.name new.name,
  text_eq_iff ch.name n,
  text_eq_iff new.name n,
  is_none-find_channel-put n new l,
)
