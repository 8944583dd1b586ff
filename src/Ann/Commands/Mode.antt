-- ===== src/Ann/Commands/Mode.antt =====
-- MODE of ann/srcs/Commands.cpp, with `mode` of ann/srcs/utils.cpp.
use ft_irc.Prelude.{
  ℕ, String, Bool, true, false, not, ◌&&◌, ◌||◌, Option, none, some, List, [], ◌∷◌, ◌++◌, leb, ltb,
  ◌==◌, if◌then◌else◌, length, drop, is_empty, is_none,
}
use ft_irc.Text.{Text, txt, text_eq}
use ft_irc.Ann.State.{Cli, Ch, uint_max, set_insert, set_erase, names_contain}
use ft_irc.Ann.Exec.{M, pure, done, gets, deref, ◌>>=◌, ◌>>◌}
use ft_irc.Ann.Parse.{split_arg_to_subargs}
use ft_irc.Ann.Number.{atoi, is_negative}
use ft_irc.Ann.Replies.{
  for_each, author, arg, reply, get_ch, get_cli, ch_at, set_ch, cli_at, get_cli_on_ch,
  get_adm_on_ch, resp_to_all, users,
}
use ft_irc.Ann.Commands.Common.{is_registered, not_registered, prefix}

-- the letters that `mode` shows
unfoldable pub mode_letters : Ch → Text
mode_letters ch =
    (if ch.opt_t then txt "t" else [])
    ++ (if ch.opt_i then txt "i" else [])
    ++ (if is_empty ch.pass then [] else txt "k")
    ++ (if ltb ch.limit uint_max then txt "l" else [])

unfoldable pub mode : Ch → M Text
mode ch = do
  who ← users ch
  pure ((if is_empty (mode_letters ch) then [] else txt "+" ++ mode_letters ch) ++ txt ", " ++ who)

-- the options that `execModeOneOoption` knows
unfoldable pub known_opts : List Text
known_opts =
    txt "+i"
    ∷ txt "-i"
    ∷ txt "+t"
    ∷ txt "-t"
    ∷ txt "+l"
    ∷ txt "-l"
    ∷ txt "+k"
    ∷ txt "-k"
    ∷ txt "+o"
    ∷ txt "-o"
    ∷ []

abbrev pub is_opt : Text → String → Bool
is_opt opt s = text_eq opt (txt s)

-- the options behind which an argument stands
unfoldable pub takes_value : Text → Bool
takes_value opt = is_opt opt "+k" || is_opt opt "+l" || is_opt opt "+o" || is_opt opt "-o"

-- a channel after an option that has passed its tests, but for +o and -o
unfoldable pub set_option : Text → Text → Ch → Ch
set_option opt val ch =
    if is_opt opt "+i"
    then record ch { opt_i = true }
    else if is_opt opt "-i"
    then record ch { opt_i = false }
    else if is_opt opt "+t"
    then record ch { opt_t = true }
    else if is_opt opt "-t"
    then record ch { opt_t = false }
    else if is_opt opt "-l"
    then record ch { limit = uint_max }
    else if is_opt opt "+k"
    then record ch { pass = val }
    else if is_opt opt "-k"
    then record ch { pass = [] }
    else if is_opt opt "+l" && not (is_negative (atoi val)) && leb (atoi val) uint_max
    then record ch { limit = atoi val }
    else ch

-- `+l` with a value that `atoi` makes negative, or too large
unfoldable pub bad_limit : Text → Text → Bool
bad_limit opt val = is_opt opt "+l" && (is_negative (atoi val) || ltb uint_max (atoi val))

abbrev pub add_adm : Option ℕ → Ch → Ch
add_adm none ch = ch
add_adm (some p) ch = record ch { adms = set_insert p ch.adms }

abbrev pub remove_adm : Option ℕ → Ch → Ch
remove_adm none ch = ch
remove_adm (some p) ch = record ch { adms = set_erase p ch.adms }

-- `-o` takes the client from the operators, if it is one
unfoldable pub drop_operator : Text → Text → M (Unit {0})
drop_operator name val = do
  adm ← get_adm_on_ch val name
  p ← gets (get_cli val)
  if is_none adm then done else set_ch name (remove_adm p)

-- the assignments; `name` is `ar[1]`
unfoldable pub apply_option : Text → Text → Text → M (Unit {0})
apply_option name opt val =
    if is_opt opt "+o"
    then (do p ← gets (get_cli val); set_ch name (add_adm p))
    else if is_opt opt "-o"
    then drop_operator name val
    else set_ch name (set_option opt val)

-- the options' membership test, for +o and -o only
unfoldable pub not_there : Text → Text → Text → M Bool
not_there name opt val =
    if is_opt opt "+o" || is_opt opt "-o"
    then (do member ← get_cli_on_ch val name; pure (is_none member))
    else pure false

-- from the membership test on
unfoldable pub change_if : Cli → Text → Text → Text → Bool → M (Unit {0})
change_if c name opt val absent =
    if absent
    then reply (txt "441 " ++ val ++ txt " " ++ name ++ txt " :They aren't on that channel!!!")
    else if bad_limit opt val
    then reply (txt "? " ++ opt ++ txt " " ++ val ++ txt " MODE :bad option value")
    else do
      apply_option name opt val
      resp_to_all name (prefix c ++ txt " MODE " ++ name ++ txt " " ++ opt)

unfoldable pub change_option : Text → Text → Text → M (Unit {0})
change_option name opt val = do
  c ← author
  absent ← not_there name opt val
  change_if c name opt val absent

unfoldable pub exec_mode_one_option : List Text → Text → Text → M (Unit {0})
exec_mode_one_option ar opt val =
    if not (names_contain opt known_opts)
    then reply (txt "472 " ++ opt ++ txt " :is unknown mode char to me for " ++ val)
    else if is_empty val && (is_opt opt "+l" || is_opt opt "+k")
    then reply (txt "461 MODE :Not enough parameters")
    else do
      name ← arg ar 1
      c ← author
      key ← (if is_opt opt "+k" then (do ch ← ch_at name; pure ch.pass) else pure [])
      limit ← (if is_opt opt "+l" then arg ar 3 else pure [])
      if not (is_empty key)
          then reply (txt "467 " ++ name ++ txt " :Channel key already set")
          else if bad_limit opt limit
          then reply (txt "472 " ++ c.nick ++ txt " " ++ opt ++ txt " :is unknown mode char to me")
          else change_option name opt val

-- one option with its value, which for +o and -o is a list of names
unfoldable pub mode_step : List Text → Text → Text → M (Unit {0})
mode_step ar opt val =
    if (is_opt opt "+o" || is_opt opt "-o") && not (is_empty val)
    then for_each (exec_mode_one_option ar opt) (split_arg_to_subargs val)
    else exec_mode_one_option ar opt val

-- the value of an option that another argument follows: always `ar[3]`
unfoldable pub mode_value : List Text → Text → M Text
mode_value ar opt = if takes_value opt then arg ar 3 else pure []

-- the loop from `i = 2`
unfoldable pub mode_loop : List Text → List Text → M (Unit {0})
mode_loop ar [] = done
mode_loop ar (opt ∷ []) = mode_step ar opt []
mode_loop ar (opt ∷ next ∷ rest) = do
  val ← mode_value ar opt
  mode_step ar opt val
  let skipped = mode_loop ar rest
  let kept = mode_loop ar (next ∷ rest)
  if takes_value opt then skipped else kept

-- from the membership test on
unfoldable pub mode_on : Cli → List Text → Text → M (Unit {0})
mode_on c ar name = do
  member ← get_cli_on_ch c.nick name
  if is_none member then reply (txt "442 " ++ name ++ txt " :You're not on that channel") else do
    adm ← get_adm_on_ch c.nick name
    if is_none adm
        then reply (txt "482 " ++ name ++ txt " :You're not channel operator")
        else if length ar == 2
        then (do ch ← ch_at name; shown ← mode ch; reply (txt "MODE " ++ name ++ txt " " ++ shown))
        else mode_loop ar (drop 2 ar)

unfoldable pub exec_mode_ch : List Text → M (Unit {0})
exec_mode_ch ar = do
  c ← author
  if not (is_registered c) then not_registered c else do
    name ← arg ar 1
    found ← gets (get_ch name)
    if is_none found
        then reply (txt "403 " ++ name ++ txt " :No such channel")
        else mode_on c ar name

unfoldable pub exec_mode_cli : List Text → M (Unit {0})
exec_mode_cli ar = do
  nick ← arg ar 1
  me ← author
  found ← gets (get_cli nick)
  if is_none found then reply (txt "401 :" ++ nick ++ txt " No such nick") else do
    p ← deref found
    c ← cli_at p
    if not (text_eq c.nick me.nick)
        then reply (txt "502 :" ++ nick ++ txt " :Can't change mode for other users")
        else if length ar == 2
        then reply (txt "221 :" ++ me.nick ++ txt " ")
        else if ltb 3 (length ar)
        then (do
          flag ← arg ar 2
          if text_eq flag (txt "+i")
              then reply (prefix me ++ txt " MODE " ++ nick ++ txt " +i ")
              else done)
        else done
