-- ===== src/Ann/State.antt =====
-- The records of ann/srcs/Server.hpp, and the containers they stand in.
--
-- A `Cli*` is the address of a heap object. The objects are owned by the map `clis` from
-- descriptors to clients, which is the list of its values in the order of their `fd`; a pointer is
-- live if its address is that of an element of the list. A `set<Cli*>` is the sorted list of its
-- addresses. The map `chs` owns the channels, so it holds them by value, sorted by name.
use ft_irc.Prelude.{
  ℕ, Bool, true, false, Option, none, some, List, [], ◌∷◌, ◌==◌, ltb, if◌then◌else◌,
}
use ft_irc.Text.{Text, text_eq, text_lt}

pub record Cli : Type 0 where
  pub addr : ℕ
  pub fd : ℕ
  pub host : Text
  pub pass_ok : Bool
  pub cap_in_progress : Bool
  pub nick : Text
  pub u_name : Text
  pub r_name : Text
  pub invits : List Text
  pub buf_to_send : Text
  pub buf_recv : Text

pub record Ch : Type 0 where
  pub topic : Text
  pub pass : Text
  pub opt_i : Bool
  pub opt_t : Bool
  pub limit : ℕ
  pub clis : List ℕ
  pub adms : List ℕ

pub data Events : Type 0 where
  pollin pollout : Events

pub record PollFd : Type 0 where
  pub fd : ℕ
  pub events : Events

pub record Server : Type 0 where
  pub pass : Text
  pub fd_for_new_clis : ℕ
  pub polls : List PollFd
  pub clis : List Cli
  pub chs : List (Text × Ch)
  -- the author of the current command
  pub cli : ℕ
  pub fds_to_erase : List ℕ

-- numeric_limits<unsigned int>::max()
abbrev pub uint_max : ℕ
uint_max = 4294967295

abbrev pub max_chs_per_user : ℕ
max_chs_per_user = 5

abbrev pub max_nb_targets : ℕ
max_nb_targets = 5

abbrev pub max_cmd_len : ℕ
max_cmd_len = 512

-- the constructor of `Cli`; the address is the allocator's choice
unfoldable pub new_cli : ℕ → ℕ → Text → Cli
new_cli addr fd host = record {
  addr = addr;
  fd = fd;
  host = host;
  pass_ok = false;
  cap_in_progress = false;
  nick = [];
  u_name = [];
  r_name = [];
  invits = [];
  buf_to_send = [];
  buf_recv = [];
}

-- the constructor of `Ch`
unfoldable pub new_ch : ℕ → Ch
new_ch adm = record {
  topic = [];
  pass = [];
  opt_i = false;
  opt_t = false;
  limit = uint_max;
  clis = adm ∷ [];
  adms = adm ∷ [];
}

-- `set<Cli*>` and `set<int>`: find, insert, erase
unfoldable pub contains : ℕ → List ℕ → Bool
contains a [] = false
contains a (x ∷ xs) = if x == a then true else contains a xs

unfoldable pub set_insert : ℕ → List ℕ → List ℕ
set_insert a [] = a ∷ []
set_insert a (x ∷ xs) =
    let rest = set_insert a xs in
    if x == a then x ∷ xs else if ltb a x then a ∷ x ∷ xs else x ∷ rest

unfoldable pub set_erase : ℕ → List ℕ → List ℕ
set_erase a [] = []
set_erase a (x ∷ xs) = let rest = set_erase a xs in if x == a then rest else x ∷ rest

-- `set<string>`
unfoldable pub names_contain : Text → List Text → Bool
names_contain a [] = false
names_contain a (x ∷ xs) = if text_eq x a then true else names_contain a xs

unfoldable pub names_insert : Text → List Text → List Text
names_insert a [] = a ∷ []
names_insert a (x ∷ xs) =
    let rest = names_insert a xs in
    if text_eq x a then x ∷ xs else if text_lt a x then a ∷ x ∷ xs else x ∷ rest

unfoldable pub names_erase : Text → List Text → List Text
names_erase a [] = []
names_erase a (x ∷ xs) = let rest = names_erase a xs in if text_eq x a then rest else x ∷ rest

-- dereference of a `Cli*`; `none` is a dangling pointer
unfoldable pub find_cli : ℕ → List Cli → Option Cli
find_cli p [] = none
find_cli p (c ∷ cs) = if c.addr == p then some c else find_cli p cs

-- assignment through a `Cli*`
unfoldable pub update_cli : ℕ → (Cli → Cli) → List Cli → List Cli
update_cli p f [] = []
update_cli p f (c ∷ cs) = let rest = update_cli p f cs in if c.addr == p then f c ∷ cs else c ∷ rest

-- `map<string, Ch*>`: exact look-up, assignment to a present key, insertion, removal
unfoldable pub find_ch : Text → List (Text × Ch) → Option Ch
find_ch k [] = none
find_ch k ((j, ch) ∷ m) = if text_eq j k then some ch else find_ch k m

unfoldable pub update_ch : Text → (Ch → Ch) → List (Text × Ch) → List (Text × Ch)
update_ch k f [] = []
update_ch k f ((j, ch) ∷ m) =
    let rest = update_ch k f m in if text_eq j k then (j, f ch) ∷ m else (j, ch) ∷ rest

unfoldable pub insert_ch : Text → Ch → List (Text × Ch) → List (Text × Ch)
insert_ch k v [] = (k, v) ∷ []
insert_ch k v ((j, ch) ∷ m) =
    let rest = insert_ch k v m in
    if text_eq j k then (k, v) ∷ m else if text_lt k j then (k, v) ∷ (j, ch) ∷ m else (j, ch) ∷ rest

unfoldable pub erase_ch : Text → List (Text × Ch) → List (Text × Ch)
erase_ch k [] = []
erase_ch k ((j, ch) ∷ m) = let rest = erase_ch k m in if text_eq j k then rest else (j, ch) ∷ rest
