-- ===== src/Ann/Total.antt =====
-- Methods that cannot fault.
use ft_irc.Prelude.{Bool, true, false, if◌then◌else◌, Option, none, some, List, [], ◌∷◌, ◌≡◌, refl}
use ft_irc.Ann.State.{Server}
use ft_irc.Ann.Exec.{M, Post, pure, ◌>>=◌, ◌>>◌}
use ft_irc.Ann.Replies.{for_each}

-- The method has returned, and what follows holds of the state.
abbrev pub Total : {A : Type 0} → (Server → Type 0) → Option (A × Server) → Type 0
Total Q none = ⊥
Total Q (some (a, s)) = Q s

pub Total-map :
    {A : Type 0} {P Q : Server → Type 0} (f : (s : Server) → P s → Q s) (r : Option (A × Server))
    → Total P r
    → Total Q r
Total-map f none h = h
Total-map f (some (a, s)) h = f s h

pub Total-Post : {A : Type 0} (P : Server → Type 0) (r : Option (A × Server)) → Total P r → Post P r
Total-Post P none h = tt
Total-Post P (some (a, s)) h = h

pub Total-then :
    (P Q : Server → Type 0) {B : Type 0} (m : M (Unit {0})) (k : M B) (s : Server)
    → Total P (m s)
    → ((t : Server) → P t → Total Q (k t))
    → Total Q ((m >> k) s)
unfolding ◌>>◌ ◌>>=◌
Total-then P Q {B} m k s h next = go (m s) refl h
  where
    go : (r : Option (Unit {0} × Server)) → m s ≡ r → Total P r → Total Q ((m >> k) s)
    go none e z = absurd z
    go (some (a, t)) e z = rw (e, ◌>>◌, ◌>>=◌) (next t z)

pub Total-if :
    (Q : Server → Type 0) {A : Type 0} (b : Bool) (m n : M A) (s : Server)
    → (b ≡ true → Total Q (m s))
    → (b ≡ false → Total Q (n s))
    → Total Q ((if b then m else n) s)
Total-if Q true m n s h g = h refl
Total-if Q false m n s h g = g refl

-- What is read, from a state that stays.
pub Total-read :
    (Q : Server → Type 0) {A B : Type 0} (m : M A) (k : A → M B) (a : A) (s : Server)
    → m s ≡ some (a, s)
    → Total Q (k a s)
    → Total Q ((m >>= k) s)
unfolding ◌>>=◌
Total-read Q m k a s e h = rw (e, ◌>>=◌) h

-- A loop with an invariant over what is left to do.
pub Total-for_each :
    {A : Type 0} (I : List A → Server → Type 0) (f : A → M (Unit {0}))
    → ((x : A) (xs : List A) (s : Server) → I (x ∷ xs) s → Total (I xs) (f x s))
    → (xs : List A) (s : Server) → I xs s
    → Total (I []) (for_each f xs s)
unfolding for_each pure
Total-for_each I f step [] s h = h
Total-for_each I f step (x ∷ xs) s h =
    Total-then (I xs) (I []) (f x) (for_each f xs) s (step x xs s h)
      λ t i. Total-for_each I f step xs t i
