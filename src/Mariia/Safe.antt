-- ===== src/Mariia/Safe.antt =====
-- Methods that do not crash and whose behaviour is defined: they return or throw, and keep a predicate
-- of the state either way.
use ft_irc.Prelude.{ℕ, some, Bool, true, false, ◌≡◌, refl, if◌then◌else◌, List, [], ◌∷◌, get_elem?}
use ft_irc.Text.{Text}
use ft_irc.Mariia.State.{Server}
use ft_irc.Mariia.Exec.{
  M, Outcome, returned, thrown, crashed, undefined, pure, throw, gets, modify, deref, and_then,
  ◌>>=◌, ◌>>◌, for_each, token, first_byte,
}

-- There is an outcome, and `P` holds of its state.
abbrev pub Safe : {A : Type 0} → (Server → Type 0) → Outcome A → Type 0
Safe P (returned a s) = P s
Safe P (thrown s) = P s
Safe P crashed = ⊥
Safe P undefined = ⊥

pub record IsSafe {A : Type 0} (P : Server → Type 0) (m : M A) : Type 0 where
  pub from : (s : Server) → P s → Safe P (m s)

module _ {P : Server → Type 0} where
  pub IsSafe-pure : {A : Type 0} (a : A) → IsSafe P (pure a)
  unfolding pure
  IsSafe-pure a = record { from = λ s p. p }

  pub IsSafe-throw : {A : Type 0} → IsSafe P (throw {A = A})
  unfolding throw
  IsSafe-throw = record { from = λ s p. p }

  pub IsSafe-gets : {A : Type 0} (look : Server → A) → IsSafe P (gets look)
  unfolding gets
  IsSafe-gets look = record { from = λ s p. p }

  pub IsSafe-modify :
      (change : Server → Server) → ((s : Server) → P s → P (change s)) → IsSafe P (modify change)
  unfolding modify
  IsSafe-modify change keeps = record { from = keeps }

  pub IsSafe-if :
      {A : Type 0} (test : Bool) (this that : M A)
      → (test ≡ true → IsSafe P this)
      → (test ≡ false → IsSafe P that)
      → IsSafe P (if test then this else that)
  IsSafe-if true this that on off = on refl
  IsSafe-if false this that on off = off refl

  pub Safe-and_then :
      {A B : Type 0} (o : Outcome A) (next : A → M B)
      → Safe P o
      → ((a : A) → IsSafe P (next a))
      → Safe P (and_then o next)
  Safe-and_then (returned a s) next now later = (later a).from s now
  Safe-and_then (thrown s) next now later = now
  Safe-and_then crashed next now later = now
  Safe-and_then undefined next now later = now

  pub IsSafe-bind :
      {A B : Type 0} (first : M A) (next : A → M B)
      → IsSafe P first
      → ((a : A) → IsSafe P (next a))
      → IsSafe P (first >>= next)
  unfolding ◌>>=◌
  IsSafe-bind first next now later = record {
    from = λ s p. Safe-and_then (first s) next (now.from s p) later;
  }

  pub IsSafe-then :
      {B : Type 0} (first : M (Unit {0})) (next : M B)
      → IsSafe P first
      → IsSafe P next
      → IsSafe P (first >> next)
  unfolding ◌>>◌
  IsSafe-then first next now later = IsSafe-bind first (λ _. next) now (λ _. later)

  -- What follows may use what is read, and the state it is read from.
  pub IsSafe-bind_read :
      {A B : Type 0} (look : Server → A) (next : A → M B)
      → ((s : Server) → P s → IsSafe P (next (look s)))
      → IsSafe P (gets look >>= next)
  unfolding gets ◌>>=◌
  IsSafe-bind_read look next later = record { from = λ s p. (later s p).from s p }

  pub IsSafe-for_each :
      {A : Type 0} (f : A → M (Unit {0})) (xs : List A)
      → ((x : A) → IsSafe P (f x))
      → IsSafe P (for_each f xs)
  unfolding for_each pure
  IsSafe-for_each f [] each = IsSafe-pure tt
  IsSafe-for_each f (x ∷ xs) each = IsSafe-then (f x) _ (each x) (IsSafe-for_each f xs each)

  pub IsSafe-deref : {A : Type 0} (a : A) → IsSafe P (deref (some a))
  unfolding deref
  IsSafe-deref a = record { from = λ s p. p }

  pub IsSafe-token :
      (tokens : List Text) (i : ℕ) {t : Text}
      → get_elem? tokens i ≡ some t
      → IsSafe P (token tokens i)
  unfolding token deref
  IsSafe-token tokens i e = record { from = λ s p. rw (e, deref) p }

  pub IsSafe-first_byte : (t : Text) → IsSafe P (first_byte t)
  unfolding first_byte
  IsSafe-first_byte [] = IsSafe-throw
  IsSafe-first_byte (c ∷ t) = IsSafe-pure c

pub Safe-weaken :
    {A : Type 0} {P Q : Server → Type 0} (o : Outcome A)
    → ((s : Server) → P s → Q s)
    → Safe P o
    → Safe Q o
Safe-weaken (returned a s) weaken h = weaken s h
Safe-weaken (thrown s) weaken h = weaken s h
Safe-weaken crashed weaken h = h
Safe-weaken undefined weaken h = h

pub ruleset safe_rules = (
  IsSafe-pure, IsSafe-throw, IsSafe-gets, IsSafe-if, IsSafe-bind, IsSafe-then, IsSafe-for_each,
  IsSafe-deref, IsSafe-first_byte,
)
