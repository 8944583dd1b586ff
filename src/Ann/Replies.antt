-- ===== src/Ann/Replies.antt =====
-- Access through pointers, and the replies of ann/srcs/utils.cpp. A reply waits in `bufToSend`.
use ft_irc.Prelude.{
  ℕ, suc, ◌-◌, Option, none, some, List, [], ◌∷◌, ◌++◌, ◌==◌, if◌then◌else◌, length, take,
  get_elem?, is_empty, is_none,
}
use ft_irc.Text.{Text, txt, text_eq, to_lower}
use ft_irc.Ann.State.{
  Cli, Ch, Server, max_cmd_len, contains, find_cli, update_cli, find_ch, update_ch,
}
use ft_irc.Ann.Exec.{M, pure, done, gets, deref, ◌>>=◌, ◌>>◌}

-- `for` over a container that the body does not change
unfoldable pub for_each : {A : Type 0} → (A → M (Unit {0})) → List A → M (Unit {0})
for_each f [] = done
for_each f (x ∷ xs) = f x >> for_each f xs

-- `*p` for a `Cli*`
unfoldable pub cli_at : ℕ → M Cli
unfolding deref
cli_at p s = deref (find_cli p s.clis) s

-- `*cli`
unfoldable pub author : M Cli
unfolding cli_at
author s = cli_at s.cli s

unfoldable pub set_cli : ℕ → (Cli → Cli) → M (Unit {0})
set_cli p f s = elim (find_cli p s.clis) [
  | none ↦ none
  | some c ↦ some (tt, record s { clis = update_cli p f s.clis })
]

-- `ar[i]`
unfoldable pub arg : List Text → ℕ → M Text
arg ar i = deref (get_elem? ar i)

abbrev pub crlf : Text
crlf = 13 ∷ 10 ∷ []

abbrev pub append_resp : Text → Cli → Cli
append_resp msg c = record c { buf_to_send = c.buf_to_send ++ take (max_cmd_len - 2) msg ++ crlf }

unfoldable pub prepare_resp : ℕ → Text → M (Unit {0})
prepare_resp to msg = set_cli to (append_resp msg)

-- `return prepareResp(cli, msg)`
unfoldable pub reply : Text → M (Unit {0})
reply msg = do me ← gets (λ s. s.cli); prepare_resp me msg

-- `getCh`: the key of the channel that it points to
unfoldable pub find_name : Text → List (Text × Ch) → Option Text
find_name n [] = none
find_name n ((j, ch) ∷ m) = if text_eq (to_lower j) n then some j else find_name n m

unfoldable pub get_ch : Text → Server → Option Text
get_ch name s = find_name (to_lower name) s.chs

-- `getCli`: the address of the client
unfoldable pub find_nick : Text → List Cli → Option ℕ
find_nick n [] = none
find_nick n (c ∷ cs) = if text_eq (to_lower c.nick) n then some c.addr else find_nick n cs

unfoldable pub get_cli : Text → Server → Option ℕ
get_cli nick s = find_nick (to_lower nick) s.clis

-- `*chs[name]`; the subscript inserts a null pointer where there is no such key
unfoldable pub subscript : Text → M Ch
unfolding deref
subscript name s = deref (find_ch name s.chs) s

-- `*getCh(name)`
unfoldable pub ch_at : Text → M Ch
unfolding subscript
ch_at name = do key ← gets (get_ch name); found ← deref key; subscript found

unfoldable pub set_key : Text → (Ch → Ch) → M (Unit {0})
set_key k f s = some (tt, record s { chs = update_ch k f s.chs })

-- an assignment through `getCh(name)`
unfoldable pub set_ch : Text → (Ch → Ch) → M (Unit {0})
set_ch name f = do key ← gets (get_ch name); found ← deref key; set_key found f

-- the loops of `getCliOnCh` and `getAdmOnCh`; each pointer is followed
unfoldable pub search_nick : Text → List ℕ → M (Option ℕ)
search_nick n [] = pure none
search_nick n (p ∷ ps) = do
  c ← cli_at p
  if text_eq (to_lower c.nick) n then pure (some p) else search_nick n ps

unfoldable pub get_cli_on_ch : Text → Text → M (Option ℕ)
get_cli_on_ch nick name = do
  found ← gets (get_ch name)
  if is_none found then pure none else do ch ← subscript name; search_nick (to_lower nick) ch.clis

unfoldable pub get_adm_on_ch : Text → Text → M (Option ℕ)
get_adm_on_ch nick name = do
  found ← gets (get_ch name)
  if is_none found then pure none else do ch ← subscript name; search_nick (to_lower nick) ch.adms

unfoldable pub nb_channels : ℕ → List (Text × Ch) → ℕ
nb_channels p [] = 0
nb_channels p ((k, ch) ∷ m) =
    let rest = nb_channels p m in if contains p ch.clis then suc rest else rest

-- `prepareRespAuthorIncluding(getCh(name), msg)`
unfoldable pub resp_to_all : Text → Text → M (Unit {0})
resp_to_all name msg = do ch ← ch_at name; for_each (λ p. prepare_resp p msg) ch.clis

-- `prepareRespExceptAuthor(getCh(name), msg)`
unfoldable pub resp_except_author : Text → Text → M (Unit {0})
resp_except_author name msg = do
  ch ← ch_at name
  me ← author
  for_each (λ p. (do c ← cli_at p; if c.fd == me.fd then done else prepare_resp p msg)) ch.clis

-- `users`, before the last space is cut off
unfoldable pub user_list : List ℕ → List ℕ → M Text
user_list adms [] = pure []
user_list adms (p ∷ ps) = do
  c ← cli_at p
  rest ← user_list adms ps
  pure ((if contains p adms then txt "@" else []) ++ c.nick ++ txt " " ++ rest)

abbrev pub drop_last : Text → Text
drop_last s = take (length s - 1) s

unfoldable pub users : Ch → M Text
users ch =
    if is_empty ch.clis
    then pure (txt "no users")
    else do names ← user_list ch.adms ch.clis; pure (drop_last names)
