-- ===== src/Mariia/Exec.antt =====
-- Methods of the server of project/mariia: state passing with the ways not to return. A method throws
-- a C++ exception, which leaves the state as it is at that point and is caught in `main`. Or it
-- crashes: a null pointer, a read past the end of the tokens of a command, or a signal that ends the
-- process. Or its behaviour is undefined, and nothing is known of the state: an access to `pollFds`
-- past its end, which may stay inside the memory of the vector, so that the process goes on.
use ft_irc.Prelude.{Option, none, some, List, [], ◌∷◌, ℕ, get_elem?}
use ft_irc.Text.{Text}
use ft_irc.Mariia.State.{Server, Client, find_client, update_client}

pub data Outcome (A : Type 0) : Type 0 where
  returned : A → Server → Outcome A
  thrown : Server → Outcome A
  crashed : Outcome A
  undefined : Outcome A

abbrev pub M : Type 0 → Type 0
M A = Server → Outcome A

unfoldable pub pure : {A : Type 0} → A → M A
pure a s = returned a s

abbrev pub done : M (Unit {0})
done = pure tt

unfoldable pub throw : {A : Type 0} → M A
throw s = thrown s

unfoldable pub gets : {A : Type 0} → (Server → A) → M A
gets look s = returned (look s) s

unfoldable pub modify : (Server → Server) → M (Unit {0})
modify change s = returned tt (change s)

unfoldable pub deref : {A : Type 0} → Option A → M A
deref none s = crashed
deref (some a) s = returned a s

-- a signal that ends the process
unfoldable pub crash : {A : Type 0} → M A
crash s = crashed

abbrev pub and_then : {A B : Type 0} → Outcome A → (A → M B) → Outcome B
and_then (returned a s) next = next a s
and_then (thrown s) next = thrown s
and_then crashed next = crashed
and_then undefined next = undefined

infixl 5 ◌>>=◌ ◌>>◌
unfoldable pub ◌>>=◌ : {A B : Type 0} → M A → (A → M B) → M B
◌>>=◌ first next s = and_then (first s) next

unfoldable pub ◌>>◌ : {B : Type 0} → M (Unit {0}) → M B → M B
unfolding ◌>>=◌
first >> next = first >>= λ _. next

-- `try { ... } catch (std::exception &e)` with a message to the log
abbrev pub caught : Outcome (Unit {0}) → Outcome (Unit {0})
caught (returned a s) = returned a s
caught (thrown s) = returned tt s
caught crashed = crashed
caught undefined = undefined

unfoldable pub catching : M (Unit {0}) → M (Unit {0})
catching m s = caught (m s)

unfoldable pub for_each : {A : Type 0} → (A → M (Unit {0})) → List A → M (Unit {0})
for_each f [] = done
for_each f (x ∷ xs) = f x >> for_each f xs

-- `tokens[i]`
unfoldable pub token : List Text → ℕ → M Text
token tokens i = deref (get_elem? tokens i)

-- `s.at(0)`
unfoldable pub first_byte : Text → M ℕ
first_byte [] = throw
first_byte (c ∷ s) = pure c

-- `clients[fd]->`: a missing key gives a null pointer
unfoldable pub client_at : ℕ → M Client
client_at fd s = deref (find_client fd s.clients) s

-- an assignment to the client of a descriptor
unfoldable pub set_client : ℕ → (Client → Client) → M (Unit {0})
set_client fd f = modify (λ s. record s { clients = update_client fd f s.clients })
