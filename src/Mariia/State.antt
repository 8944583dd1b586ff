-- ===== src/Mariia/State.antt =====
-- The classes of project/mariia/headers/Client.hpp and project/mariia/headers/Server.hpp, with the
-- methods of project/mariia/sources/Client.cpp and the tables of the server. A `Client*` is the
-- descriptor of the client, which is its key in `clients`; a `Channel*` is the name of the channel,
-- which is in lower case and by which `findChannel` looks it up.
use ft_irc.Prelude.{
  ℕ, Bool, true, false, not, Option, none, some, List, [], ◌∷◌, ◌++◌, ltb, ◌==◌, if◌then◌else◌,
  is_empty,
}
use ft_irc.Text.{Text, txt, text_eq, text_lt, to_lower}
use ft_irc.Ann.State.{PollFd}
use ft_irc.Mariia.Channel.{Channel, has_bits, clear_bits}
use Prim.Native.Nat.{bit_or}

pub record Client : Type 0 where
  pub socket_fd : ℕ
  pub logged : Bool
  pub registered : Bool
  pub modes : ℕ
  pub nickname : Text
  pub username : Text
  pub real_name : Text
  pub password : Text
  pub hostname : Text
  pub recv_buffer : Text
  pub send_queue : List Text
  pub away_message : Text
  pub channels : List Text
  pub quit : Bool

unfoldable pub new_client : ℕ → Text → Client
new_client fd hostname = record {
  socket_fd = fd;
  logged = false;
  registered = false;
  modes = 0;
  nickname = [];
  username = [];
  real_name = [];
  password = [];
  hostname = hostname;
  recv_buffer = [];
  send_queue = [];
  away_message = [];
  channels = [];
  quit = false;
}

-- the bits of `Mode`
abbrev pub away : ℕ
away = 1

abbrev pub invisible : ℕ
invisible = 8

abbrev pub unknown_mode : ℕ
unknown_mode = 9

unfoldable pub set_nickname : Text → Client → Client
set_nickname nick c = record c { nickname = to_lower nick }

unfoldable pub active_mode : ℕ → Client → Bool
active_mode mode c = has_bits c.modes mode

unfoldable pub add_mode : ℕ → Client → Client
add_mode mode c = if active_mode mode c then c else record c { modes = bit_or c.modes mode }

unfoldable pub remove_mode : ℕ → Client → Client
remove_mode mode c =
    if not (active_mode mode c) then c else record c { modes = clear_bits c.modes mode }

unfoldable pub return_modes : Client → Text
return_modes c =
    let full =
      (if active_mode away c then txt "a" else [])
      ++ (if active_mode invisible c then txt "i" else []) in
    if not (is_empty full) then txt "+" ++ full else []

-- the letter behind the sign
abbrev mode_of_letter : ℕ → ℕ
mode_of_letter c = if c == b'a' then away else if c == b'i' then invisible else unknown_mode

unfoldable pub get_mode : Text → ℕ
get_mode (sign ∷ letter ∷ []) =
    if sign == b'+'
    then mode_of_letter letter
    else if sign == b'-'
    then mode_of_letter letter
    else unknown_mode
get_mode [] = unknown_mode
get_mode (sign ∷ []) = unknown_mode
get_mode (sign ∷ letter ∷ more ∷ rest) = unknown_mode

unfoldable pub push_send_queue : Text → Client → Client
push_send_queue msg c = record c { send_queue = c.send_queue ++ msg ∷ [] }

unfoldable pub joined_channel : Text → Client → Client
joined_channel name c = record c { channels = c.channels ++ name ∷ [] }

-- the first of that name
unfoldable pub erase_name : Text → List Text → List Text
erase_name name [] = []
erase_name name (x ∷ xs) = let rest = erase_name name xs in if text_eq x name then xs else x ∷ rest

unfoldable pub left_channel : Text → Client → Client
left_channel name c = record c { channels = erase_name name c.channels }

-- `start` is the text that `ctime` gives of the time of the start, and `unset_limit` the value that
-- the constructor of Channel leaves in `_limitMembers`, which it does not initialise
pub record Server : Type 0 where
  pub start : Text
  pub unset_limit : ℕ
  pub password : Text
  pub socket_fd : ℕ
  pub poll_fds : List PollFd
  pub clients : List Client
  pub channels : List Channel
  pub users : List (Text × Text)

-- `clients.find(fd)`
unfoldable pub find_client : ℕ → List Client → Option Client
find_client fd [] = none
find_client fd (c ∷ cs) = if c.socket_fd == fd then some c else find_client fd cs

unfoldable pub update_client : ℕ → (Client → Client) → List Client → List Client
update_client fd f [] = []
update_client fd f (c ∷ cs) = if c.socket_fd == fd then f c ∷ cs else c ∷ update_client fd f cs

-- `clients.insert`: a key that is there keeps its client
unfoldable pub insert_client : Client → List Client → List Client
insert_client c [] = c ∷ []
insert_client c (d ∷ ds) =
    let rest = insert_client c ds in
    if d.socket_fd == c.socket_fd
    then d ∷ ds
    else if ltb c.socket_fd d.socket_fd
    then c ∷ d ∷ ds
    else d ∷ rest

unfoldable pub erase_client : ℕ → List Client → List Client
erase_client fd [] = []
erase_client fd (c ∷ cs) = if c.socket_fd == fd then cs else c ∷ erase_client fd cs

-- `findClient` by a nickname in lower case
unfoldable pub find_nick : Text → List Client → Option Client
find_nick nick [] = none
find_nick nick (c ∷ cs) = if text_eq c.nickname nick then some c else find_nick nick cs

unfoldable pub find_channel : Text → List Channel → Option Channel
find_channel name [] = none
find_channel name (ch ∷ chs) = if text_eq ch.name name then some ch else find_channel name chs

-- an assignment through the pointer to a channel
unfoldable pub put_channel : Channel → List Channel → List Channel
put_channel new [] = []
put_channel new (ch ∷ chs) =
    if text_eq ch.name new.name then new ∷ chs else ch ∷ put_channel new chs

unfoldable pub erase_channel : Text → List Channel → List Channel
erase_channel name [] = []
erase_channel name (ch ∷ chs) = if text_eq ch.name name then chs else ch ∷ erase_channel name chs

-- `users`
unfoldable pub has_user : Text → List (Text × Text) → Bool
has_user nick [] = false
has_user nick ((n, p) ∷ us) = if text_eq n nick then true else has_user nick us

unfoldable pub insert_user : Text → Text → List (Text × Text) → List (Text × Text)
insert_user nick pass [] = (nick, pass) ∷ []
insert_user nick pass ((n, p) ∷ us) =
    let rest = insert_user nick pass us in
    if text_eq n nick
    then (n, p) ∷ us
    else if text_lt nick n
    then (nick, pass) ∷ (n, p) ∷ us
    else (n, p) ∷ rest

unfoldable pub erase_user : Text → List (Text × Text) → List (Text × Text)
erase_user nick [] = []
erase_user nick ((n, p) ∷ us) =
    let rest = erase_user nick us in if text_eq n nick then us else (n, p) ∷ rest
