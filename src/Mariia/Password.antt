-- ===== src/Mariia/Password.antt =====
-- PASS of project/mariia.
use ft_irc.Prelude.{
  ℕ, ◌≡◌, refl, true, false, not, ◌||◌, some, List, ◌∷◌, is_empty, Bool-cases, inl, inr,
}
use ft_irc.Text.{Text, text_eq}
use ft_irc.Mariia.State.{Client, Server, find_client, push_send_queue}
use ft_irc.Mariia.Exec.{returned, pure, gets, modify, deref, client_at, set_client, ◌>>=◌, ◌>>◌}
use ft_irc.Mariia.Replies.{code, server_send_error, server_send_message}
use ft_irc.Mariia.Parse.{verify_password, handle_pass}
use ft_irc.Mariia.Crash.{find_client-updated}

-- PASS with a text ends, and answers that the client is to be closed exactly if the text is not the
-- password; the client has logged in afterwards exactly if it is, or if it had before.
pub handle_pass-logged :
    (fd : ℕ) (given : Text) (params : List Text) (c : Client) (s : Server)
    → find_client fd s.clients ≡ some c
    → is_empty given ≡ false
    → (t : Server) × (handle_pass fd (given ∷ params) s
        ≡ returned (not (text_eq given s.password)) t)
      × (d : Client) × (find_client fd t.clients ≡ some d)
      × (d.logged ≡ (text_eq given s.password || c.logged))
unfolding handle_pass verify_password server_send_error server_send_message client_at set_client
    push_send_queue code modify gets deref pure ◌>>=◌ ◌>>◌
handle_pass-logged fd given params c s found some_bytes =
    elim (Bool-cases (text_eq given s.password)) [
      | inl right ↦
          let first =
            find_client-updated fd (λ x. record x { logged = true }) s.clients c (λ c. refl)
              found in
          let second =
            find_client-updated fd (λ x. record x { password = given }) _ _ (λ c. refl) first in
          rw (some_bytes, right, found, first) (_, refl, _, second, refl)
      | inr wrong ↦
          rw (some_bytes, wrong)
            (
              _,
              refl,
              _,
              find_client-updated fd (push_send_queue _) s.clients c (λ c. refl) found,
              refl,
            )
    ]
