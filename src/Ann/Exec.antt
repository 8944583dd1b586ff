-- ===== src/Ann/Exec.antt =====
-- Methods of `Server` as state passing with a fault: `none` is a dereferenced null or dangling
-- pointer, or an access past the end of a vector, after which the process is gone.
use ft_irc.Prelude.{Option, none, some, Bool, true, false, ◌≡◌, refl, if◌then◌else◌}
use ft_irc.Ann.State.{Server}

abbrev pub M : Type 0 → Type 0
M A = Server → Option (A × Server)

unfoldable pub pure : {A : Type 0} → A → M A
pure a s = some (a, s)

-- the end of a method whose result is not used
abbrev pub done : M (Unit {0})
done = pure tt

unfoldable pub fault : {A : Type 0} → M A
fault s = none

unfoldable pub gets : {A : Type 0} → (Server → A) → M A
gets f s = some (f s, s)

unfoldable pub modify : (Server → Server) → M (Unit {0})
modify f s = some (tt, f s)

-- a dereference
unfoldable pub deref : {A : Type 0} → Option A → M A
deref none s = none
deref (some a) s = some (a, s)

abbrev continue : {A B : Type 0} → Option (A × Server) → (A → M B) → Option (B × Server)
continue none f = none
continue (some (a, s)) f = f a s

infixl 5 ◌>>=◌ ◌>>◌
unfoldable pub ◌>>=◌ : {A B : Type 0} → M A → (A → M B) → M B
◌>>=◌ m f s = continue (m s) f

unfoldable pub ◌>>◌ : {B : Type 0} → M (Unit {0}) → M B → M B
unfolding ◌>>=◌
m >> k = m >>= λ _. k

-- Inversion of a method that has returned.
pub >>=-eq-some :
    {A B : Type 0} (m : M A) (k : A → M B) (s : Server) {r : B × Server}
    → (m >>= k) s ≡ some r
    → (a : A) × (t : Server) × (m s ≡ some (a, t)) × (k a t ≡ some r)
unfolding ◌>>=◌
>>=-eq-some {A} {B} m k s {r} h = go (m s) refl h
  where
    go :
        (x : Option (A × Server))
        → m s ≡ x
        → continue x k ≡ some r
        → (a : A) × (t : Server) × (m s ≡ some (a, t)) × (k a t ≡ some r)
    go none e h = cc
    go (some (a, t)) e h = (a, t, e, h)

-- What holds of the result and the state that follows, if the method does not fault.
abbrev pub Post : {A : Type 0} → (Server → Type 0) → Option (A × Server) → Type 0
Post P none = Unit
Post P (some (a, s)) = P s

-- Whatever returns has kept `P`.
pub record Keeps {A : Type 0} (P : Server → Type 0) (m : M A) : Type 0 where
  pub kept : (s : Server) → P s → Post P (m s)

module _ {P : Server → Type 0} where
  pub Keeps-fault : {A : Type 0} → Keeps P (fault {A = A})
  unfolding fault
  Keeps-fault = record { kept = λ _ _. tt }

  -- What yields a value and leaves the state alone.
  pub Keeps-gets : {Read : Type 0} (look : Server → Read) → Keeps P (gets look)
  unfolding gets
  Keeps-gets look = record { kept = λ _ holds. holds }

  pub Keeps-pure : {Value : Type 0} (value : Value) → Keeps P (pure value)
  unfolding pure
  Keeps-pure value = record { kept = λ _ holds. holds }

  pub Keeps-deref : {A : Type 0} (o : Option A) → Keeps P (deref o)
  unfolding deref
  Keeps-deref none = record { kept = λ _ _. tt }
  Keeps-deref (some a) = record { kept = λ _ holds. holds }

  pub Keeps-if :
      {Value : Type 0} (test : Bool) (this that : M Value)
      → (test ≡ true → Keeps P this)
      → (test ≡ false → Keeps P that)
      → Keeps P (if test then this else that)
  Keeps-if true this that on off = on refl
  Keeps-if false this that on off = off refl

  Post-continue :
      {A B : Type 0} (r : Option (A × Server)) (next : A → M B)
      → Post P r
      → ((a : A) → Keeps P (next a))
      → Post P (continue r next)
  Post-continue none next holds later = tt
  Post-continue (some (a, t)) next holds later = (later a).kept t holds

  pub Keeps-bind :
      {A Next : Type 0} (first : M A) (next : A → M Next)
      → Keeps P first
      → ((value : A) → Keeps P (next value))
      → Keeps P (first >>= next)
  unfolding ◌>>=◌
  Keeps-bind first next now later = record {
    kept = λ t holds. Post-continue (first t) next (now.kept t holds) later;
  }

  pub Keeps-then :
      {Next : Type 0} (first : M (Unit {0})) (next : M Next)
      → Keeps P first
      → Keeps P next
      → Keeps P (first >> next)
  unfolding ◌>>◌
  Keeps-then first next now later = Keeps-bind first (λ _. next) now (λ _. later)

  -- The rest may use what was read.
  pub Keeps-bind-gets :
      {A B : Type 0} (f : Server → A) (k : A → M B)
      → ((s : Server) → P s → Post P (k (f s) s))
      → Keeps P (gets f >>= k)
  unfolding gets ◌>>=◌
  Keeps-bind-gets f k h = record { kept = h }

  pub Keeps-bind-deref :
      {A B : Type 0} (o : Option A) (k : A → M B)
      → ((a : A) → o ≡ some a → Keeps P (k a))
      → Keeps P (deref o >>= k)
  unfolding deref ◌>>=◌
  Keeps-bind-deref none k h = record { kept = λ s p. tt }
  Keeps-bind-deref (some a) k h = record { kept = λ s p. (h a refl).kept s p }

  pub Keeps-bind-run :
      {A B : Type 0} (m : M A) (k : A → M B)
      → ((s : Server) (a : A) (t : Server) → P s → m s ≡ some (a, t) → Post P (k a t))
      → Keeps P (m >>= k)
  unfolding ◌>>=◌
  Keeps-bind-run {A} m k h = record { kept = λ s p. run s p (m s) refl }
    where
      run : (s : Server) → P s → (r : Option (A × Server)) → m s ≡ r → Post P (continue r k)
      run s p none e = tt
      run s p (some (a, t)) e = h s a t p e

  pub Post-then :
      {B : Type 0} (m : M (Unit {0})) (k : M B) (s : Server)
      → Post P (m s)
      → Keeps P k
      → Post P ((m >> k) s)
  unfolding ◌>>◌ ◌>>=◌
  Post-then m k s h kk = Post-continue (m s) (λ _. k) h (λ _. kk)

  pub Post-bind :
      {A B : Type 0} (m : M A) (k : A → M B) (s : Server)
      → Post P (m s)
      → ((a : A) → Keeps P (k a))
      → Post P ((m >>= k) s)
  unfolding ◌>>=◌
  Post-bind m k s h kk = Post-continue (m s) k h kk

pub Post-map :
    {A : Type 0} {P Q : Server → Type 0} (f : (s : Server) → P s → Q s) (r : Option (A × Server))
    → Post P r
    → Post Q r
Post-map f none h = tt
Post-map f (some (a, s)) h = f s h

pub ruleset keeps_rules =
    (Keeps-pure, Keeps-fault, Keeps-gets, Keeps-deref, Keeps-if, Keeps-bind, Keeps-then)
