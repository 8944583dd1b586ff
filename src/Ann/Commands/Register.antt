-- ===== src/Ann/Commands/Register.antt =====
-- PASS, NICK, USER, CAP, PING and WHOIS of ann/srcs/Commands.cpp.
use ft_irc.Prelude.{
  Bool, true, false, not, ◌&&◌, ◌||◌, List, [], ◌∷◌, ◌++◌, ltb, if◌then◌else◌, length, is_empty,
  is_none,
}
use ft_irc.Text.{Text, txt, text_eq, to_lower, only_bytes}
use ft_irc.Ann.State.{Cli, set_insert}
use ft_irc.Ann.Exec.{M, done, gets, modify, deref, ◌>>=◌, ◌>>◌}
use ft_irc.Ann.Parse.{split_arg_to_subargs}
use ft_irc.Ann.Replies.{for_each, author, set_cli, arg, reply, get_cli, cli_at}
use ft_irc.Ann.Commands.Common.{is_registered, arg_is_empty}

-- RPL_WELCOME
unfoldable pub welcome : Cli → Text
welcome c =
    txt "001 :"
    ++ c.nick
    ++ txt ": Welcome to the Internet Relay Network "
    ++ c.nick
    ++ txt "!"
    ++ c.u_name
    ++ txt "@"
    ++ c.host

-- the welcome that ends PASS, NICK and USER
unfoldable pub welcome_if_complete : M (Unit {0})
welcome_if_complete = do
  c ← author
  if is_registered c && not c.cap_in_progress then reply (welcome c) else done

-- a wrong password: the descriptor is to be closed
unfoldable pub wrong_pass : Cli → M (Unit {0})
wrong_pass c = do
  modify (λ s. record s { fds_to_erase = set_insert c.fd s.fds_to_erase })
  reply (txt "464 :" ++ c.nick ++ txt " :Password incorrect")

-- what follows, after a wrong password too
unfoldable pub accept_pass : Cli → M (Unit {0})
accept_pass c = do set_cli c.addr (λ x. record x { pass_ok = true }); welcome_if_complete

unfoldable pub check_pass : Cli → Text → Text → M (Unit {0})
check_pass c given pass = do if text_eq given pass then done else wrong_pass c; accept_pass c

unfoldable pub exec_pass : List Text → M (Unit {0})
exec_pass ar = do
  c ← author
  if c.pass_ok
      then reply (txt "462 :Unauthorized command (already registered)")
      else if ltb (length ar) 2 || arg_is_empty ar 1
      then reply (txt "461 PASS :Not enough parameters")
      else do given ← arg ar 1; pass ← gets (λ s. s.pass); check_pass c given pass

unfoldable pub nick_bytes : Text
nick_bytes = txt "-[]^{}0123456789qwertyuiopasdfghjklzxcvbnmQWERTYUIOPASDFGHJKLZXCVBNM"

unfoldable pub nick_in_use : Text → List Cli → Bool
nick_in_use n [] = false
nick_in_use n (c ∷ cs) = if text_eq (to_lower n) (to_lower c.nick) then true else nick_in_use n cs

-- the tests of a given name, in their order, and the renaming
unfoldable pub take_nick : Text → Cli → Bool → M (Unit {0})
take_nick nick c in_use =
    if ltb 9 (length nick) || not (only_bytes nick_bytes nick)
    then reply (txt "432 " ++ nick ++ txt " :Erroneus nickname")
    else if in_use
    then reply (txt "433 " ++ c.nick ++ txt " " ++ nick ++ txt " :Nickname is already in use")
    else do set_cli c.addr (λ x. record x { nick = nick }); welcome_if_complete

unfoldable pub exec_nick : List Text → M (Unit {0})
exec_nick ar =
    if ltb (length ar) 2 || arg_is_empty ar 1 then reply (txt "431 :No nickname given") else do
      nick ← arg ar 1
      c ← author
      in_use ← gets (λ s. nick_in_use nick s.clis)
      take_nick nick c in_use

unfoldable pub exec_user : List Text → M (Unit {0})
exec_user ar = do
  c ← author
  if ltb (length ar) 5
      then reply (txt "461 USER :Not enough parameters")
      else if not (is_empty c.u_name)
      then reply (txt ":username can not be empty")
      else do
        u ← arg ar 1
        r ← arg ar 4
        set_cli c.addr (λ x. record x { u_name = u; r_name = r })
        d ← author
        if not (is_empty d.nick) && d.pass_ok && not d.cap_in_progress
            then reply (welcome d)
            else done

unfoldable pub exec_cap : List Text → M (Unit {0})
exec_cap ar = if ltb (length ar) 2 then done else do
  sub ← arg ar 1
  c ← author
  if text_eq sub (txt "LS")
      then (do set_cli c.addr (λ x. record x { cap_in_progress = true }); reply (txt "CAP * LS :"))
      else if text_eq sub (txt "END") && is_registered c
      then (do
        set_cli c.addr (λ x. record x { cap_in_progress = false })
        reply (txt "001 :" ++ c.nick))
      else done

unfoldable pub exec_ping : M (Unit {0})
exec_ping = reply (txt "PONG")

unfoldable pub whois_one : Text → M (Unit {0})
whois_one nick = do
  found ← gets (get_cli nick)
  if is_none found then reply (txt "401 :" ++ nick ++ txt " No such nick") else do
    p ← deref found
    c ← cli_at p
    reply (txt "311 " ++ nick ++ txt " " ++ c.u_name ++ txt " " ++ c.host ++ txt " * :" ++ c.r_name)
    reply (txt "318 " ++ nick ++ txt " :End of WHOIS list")

unfoldable pub exec_whois : List Text → M (Unit {0})
exec_whois ar =
    if ltb (length ar) 2
    then reply (txt "431 :No nickname given")
    else do a ← arg ar 1; for_each whois_one (split_arg_to_subargs a)
