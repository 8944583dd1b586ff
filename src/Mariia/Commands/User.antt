-- ===== src/Mariia/Commands/User.antt =====
-- NICK and AWAY of project/mariia/sources/cmd, with `verifyNickname` of
-- project/mariia/sources/parsingServer.cpp.
use ft_irc.Prelude.{
  ℕ, Bool, true, false, not, ◌&&◌, ◌||◌, List, [], ◌∷◌, ◌++◌, ltb, ◌==◌, if◌then◌else◌, length,
  drop,
}
use ft_irc.Text.{Text, txt, text_eq, has_byte, to_lower}
use ft_irc.Mariia.State.{Client, set_nickname, active_mode, add_mode, remove_mode, away}
use ft_irc.Mariia.Exec.{M, pure, done, gets, token, client_at, set_client, ◌>>=◌, ◌>>◌}
use ft_irc.Mariia.Words.{without_colon}
use ft_irc.Mariia.Replies.{
  rpl_welcome, rpl_nowaway, rpl_unaway, err_nonicknamegiven, err_nicknameinuse,
  err_erroneusnickname, err_needmoreparams, server_send_error, server_send_reply,
}

unfoldable pub has_any : Text → Text → Bool
has_any [] s = false
has_any (c ∷ cs) s = has_byte c s || has_any cs s

-- a colon or a dollar in front, or one of the eight bytes of the array, the NUL at its end included
unfoldable pub is_bad_nickname : Text → Bool
is_bad_nickname [] = false
is_bad_nickname (c ∷ s) = (c == b':' || c == b'$') || has_any (txt " ,*?!@." ++ 0 ∷ []) (c ∷ s)

-- true if the nickname is refused
unfoldable pub verify_nickname : ℕ → Text → M Bool
verify_nickname fd nick =
    if is_bad_nickname nick
    then (do server_send_error fd nick err_erroneusnickname; pure true)
    else pure false

-- another client has the nickname, which is in lower case
unfoldable pub nick_taken : ℕ → Text → List Client → Bool
nick_taken fd nick [] = false
nick_taken fd nick (c ∷ cs) =
    if not (c.socket_fd == fd) && text_eq c.nickname nick then true else nick_taken fd nick cs

unfoldable pub rename : ℕ → Text → M (Unit {0})
rename fd nick = do
  bad ← verify_nickname fd nick
  if bad then done else do
    set_client fd (set_nickname nick)
    c ← client_at fd
    server_send_reply fd [] rpl_welcome c.nickname

unfoldable pub process_nick : ℕ → List Text → M (Unit {0})
process_nick fd tokens = do
  c ← client_at fd
  if ltb (length tokens) 2 then server_send_error fd c.nickname err_nonicknamegiven else do
    nick ← token tokens 1
    taken ← gets (λ s. nick_taken fd (to_lower nick) s.clients)
    if taken then server_send_error fd c.nickname err_nicknameinuse else rename fd nick

-- each token without a colon in front, with a blank between two
unfoldable pub away_text : List Text → Text
away_text [] = []
away_text (t ∷ []) = without_colon t
away_text (t ∷ u ∷ ts) = without_colon t ++ 32 ∷ away_text (u ∷ ts)

unfoldable pub process_away : ℕ → List Text → M (Unit {0})
process_away fd tokens = do
  c ← client_at fd
  if not (active_mode away c) && ltb (length tokens) 2
      then server_send_error fd (txt "AWAY") err_needmoreparams
      else if not (active_mode away c)
      then (do
        set_client fd (λ x. add_mode away (record x { away_message = away_text (drop 1 tokens) }))
        server_send_reply fd c.nickname rpl_nowaway [])
      else do set_client fd (remove_mode away); server_send_reply fd c.nickname rpl_unaway []
