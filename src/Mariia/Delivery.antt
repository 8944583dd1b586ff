-- ===== src/Mariia/Delivery.antt =====
-- Who receives a message of project/mariia.
use ft_irc.Prelude.{
  ℕ, zero, suc, ◌+◌, ◌≡◌, refl, sym, ap, subst, ◌∙◌, true, false, some, List, [], ◌∷◌, ◌++◌,
  append_assoc, append-nil, arith, ◌==◌, if◌then◌else◌, Bool-cases, inl, inr,
}
use ft_irc.Text.{Text, txt}
use ft_irc.Ann.State.{set_erase}
use ft_irc.Mariia.Channel.{Channel, has_member}
use ft_irc.Mariia.State.{Client, Server, find_client, update_client, push_send_queue}
use ft_irc.Mariia.Exec.{returned, pure, modify, set_client, for_each, ◌>>=◌, ◌>>◌}
use ft_irc.Mariia.Replies.{notification, server_send_message, send_notification_to}
use ft_irc.Mariia.Commands.Talk.{pm_to_chan}
use ft_irc.Mariia.Crash.{find_client-updated}

-- how often a descriptor is in a list
abbrev pub count : ℕ → List ℕ → ℕ
count fd [] = 0
count fd (x ∷ xs) = (if x == fd then 1 else 0) + count fd xs

abbrev pub copies : ℕ → Text → List Text
copies zero msg = []
copies (suc n) msg = msg ∷ copies n msg

find_client-other :
    (x fd : ℕ) (f : Client → Client) (l : List Client)
    → (x == fd) ≡ false
    → ((c : Client) → (f c).socket_fd ≡ c.socket_fd)
    → find_client fd (update_client x f l) ≡ find_client fd l
unfolding find_client update_client
find_client-other x fd f [] other k = refl
find_client-other x fd f (d ∷ l) other k = ground (arith, k d, find_client-other x fd f l other k)

-- One message is pushed onto the queue of one client.
pushed :
    (x fd : ℕ) (msg : Text) (l : List Client) (c : Client)
    → find_client fd l ≡ some c
    → find_client fd (update_client x (push_send_queue msg) l)
      ≡ some (record c { send_queue = c.send_queue ++ copies (if x == fd then 1 else 0) msg })
unfolding push_send_queue
pushed x fd msg l c found = elim (Bool-cases (x == fd)) [
  | inl here ↦
      let e : x ≡ fd = ground arith in
      rw here (
        subst
          (λ y.
            find_client fd (update_client y (push_send_queue msg) l)
            ≡ some (record c { send_queue = c.send_queue ++ msg ∷ [] }))
          (sym e) (find_client-updated fd (push_send_queue msg) l c (λ c. refl) found))
  | inr there ↦ rw there (
      find_client-other x fd (push_send_queue msg) l there (λ c. refl)
      ∙ found
      ∙ ap (λ q. some (record c { send_queue = q })) (sym (append-nil c.send_queue)))
]

copies-add : (m n : ℕ) (msg : Text) → copies m msg ++ copies n msg ≡ copies (m + n) msg
copies-add zero n msg = let e : n ≡ 0 + n = omega arith in ap (λ k. copies k msg) e
copies-add (suc m) n msg =
    let e : suc (m + n) ≡ suc m + n = omega arith in
    ap (◌∷◌ msg) (copies-add m n msg) ∙ ap (λ k. copies k msg) e

-- A message to a list of descriptors ends, and puts as many copies of itself at the end of the queue
-- of a client as the client is in the list.
pub delivered :
    (fd : ℕ) (msg : Text) (targets : List ℕ) (s : Server) (c : Client)
    → find_client fd s.clients ≡ some c
    → (t : Server) × (for_each (λ x. server_send_message x msg) targets s ≡ returned tt t)
      × (find_client fd t.clients
          ≡ some (record c { send_queue = c.send_queue ++ copies (count fd targets) msg }))
unfolding for_each server_send_message set_client modify pure ◌>>=◌ ◌>>◌
delivered fd msg [] s c found =
    (s, refl, found ∙ ap (λ q. some (record c { send_queue = q })) (sym (append-nil c.send_queue)))
delivered fd msg (x ∷ xs) s c found =
    let (t, e, q) =
      delivered fd msg xs (record s { clients = update_client x (push_send_queue msg) s.clients })
        (record c { send_queue = c.send_queue ++ copies (if x == fd then 1 else 0) msg })
        (pushed x fd msg s.clients c found) in
    (
      t,
      e,
      q
          ∙ ap (λ l. some (record c { send_queue = l }))
              (append_assoc c.send_queue (copies (if x == fd then 1 else 0) msg)
                  (copies (count fd xs) msg)
                ∙ ap (λ l. c.send_queue ++ l)
                    (copies-add (if x == fd then 1 else 0) (count fd xs) msg)),
    )

count-set_erase :
    (fd a : ℕ) (l : List ℕ) → count fd (set_erase a l) ≡ (if a == fd then 0 else count fd l)
unfolding set_erase
count-set_erase fd a [] = ground arith
count-set_erase fd a (x ∷ l) = ground (arith, count-set_erase fd a l)

-- A message of a member to its channel ends, and puts one copy of itself at the end of the queue of
-- every client for each time that it is a member, but none in the queue of the author.
pub pm_to_chan-delivered :
    (author fd : ℕ) (message prefix target command : Text) (ch : Channel) (s : Server) (c : Client)
    → has_member author ch ≡ true
    → find_client fd s.clients ≡ some c
    → (t : Server) × (pm_to_chan author message prefix target command (some ch) s ≡ returned tt t)
      × (find_client fd t.clients
          ≡ some (record c {
            send_queue =
                c.send_queue
                ++ copies
                    (if author == fd then 0 else count fd ch.member_fds)
                    (notification prefix command (ch.name ++ txt " :" ++ message));
          }))
unfolding pm_to_chan send_notification_to
pm_to_chan-delivered author fd message prefix target command ch s c member found =
    let (t, e, q) =
      delivered fd (notification prefix command (ch.name ++ txt " :" ++ message))
        (set_erase author ch.member_fds) s c found in
    rw member (t, e, rw⁻¹ (count-set_erase fd author ch.member_fds) q)
