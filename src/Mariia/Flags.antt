-- ===== src/Mariia/Flags.antt =====
-- The bit mask of the options, as a set of four flags.
use ft_irc.Prelude.{
  ℕ, zero, suc, ◌^◌, ◌<◌, ◌≡◌, refl, Bool, true, false, not, ◌&&◌, arith, ltb, ◌==◌, if◌then◌else◌,
  Bool-cases, inl, inr,
}
use ft_irc.Mariia.Channel.{Channel, has_bits, clear_bits, is_mode_set, set_mode, unset_mode}
use Prim.Native.Nat.{bit_or}

-- every number below `n` passes
unfoldable passes_below : ℕ → (ℕ → Bool) → Bool
passes_below zero test = true
passes_below (suc n) test = test n && passes_below n test

passes_at : (n : ℕ) (test : ℕ → Bool) → passes_below n test ≡ true → (k : ℕ) → k < n → test k ≡ true
unfolding passes_below
passes_at zero test h k below = ground arith
passes_at (suc n) test h k below = elim (Bool-cases (k == n)) [
  | inl here ↦ let last : k ≡ n = ground arith in ground (arith, last)
  | inr there ↦
      let rest : passes_below n test ≡ true = ground arith in
      let less : k < n = ground arith in passes_at n test rest k less
]

same : Bool → Bool → Bool
same true b = b
same false b = not b

same_iff : (a b : Bool) → same a b ≡ true → a ≡ b
unfolding same
same_iff true true h = refl
same_iff true false h = cc
same_iff false true h = cc
same_iff false false h = refl

-- a test of every mask below 16 and every two of the four bits
abbrev law : (ℕ → ℕ → ℕ → Bool) → Bool
law test = passes_below 16 (λ m. passes_below 4 (λ i. passes_below 4 (λ j. test m (2 ^ i) (2 ^ j))))

law_at :
    (test : ℕ → ℕ → ℕ → Bool)
    → law test ≡ true
    → (m i j : ℕ) → m < 16
    → i < 4
    → j < 4
    → test m (2 ^ i) (2 ^ j) ≡ true
law_at test h m i j hm hi hj =
    passes_at 4 (λ j. test m (2 ^ i) (2 ^ j))
      (passes_at 4 (λ i. passes_below 4 (λ j. test m (2 ^ i) (2 ^ j)))
        (passes_at 16 (λ m. passes_below 4 (λ i. passes_below 4 (λ j. test m (2 ^ i) (2 ^ j)))) h m
          hm)
        i hi)
      j hj

module _ (m i j : ℕ) (small : m < 16) (hi : i < 4) (hj : j < 4) where
  -- setting or clearing a bit leaves the mask below 16
  pub bit_or-below : bit_or m (2 ^ i) < 16
  unfolding passes_below
  bit_or-below = ground (arith, law_at (λ m a b. ltb (bit_or m a) 16) refl m i j small hi hj)

  pub clear_bits-below : clear_bits m (2 ^ i) < 16
  unfolding passes_below clear_bits
  clear_bits-below =
      ground (arith, law_at (λ m a b. ltb (clear_bits m a) 16) refl m i j small hi hj)

  pub has_bits-bit_or :
      has_bits (bit_or m (2 ^ i)) (2 ^ j)
      ≡ (if (2 ^ i) == (2 ^ j) then true else has_bits m (2 ^ j))
  unfolding passes_below same has_bits
  has_bits-bit_or = same_iff _ _ (
      law_at (λ m a b. same (has_bits (bit_or m a) b) (if a == b then true else has_bits m b)) refl
        m i j small hi hj)

  pub has_bits-clear_bits :
      has_bits (clear_bits m (2 ^ i)) (2 ^ j)
      ≡ (if (2 ^ i) == (2 ^ j) then false else has_bits m (2 ^ j))
  unfolding passes_below same has_bits clear_bits
  has_bits-clear_bits = same_iff _ _ (
      law_at (λ m a b. same (has_bits (clear_bits m a) b) (if a == b then false else has_bits m b))
        refl m i j small hi hj)

-- `to` is `from` with one flag as given, and no other part changed.
pub record HasFlag (i : ℕ) (value : Bool) (from to : Channel) : Type 0 where
  pub below : to.mode < 16
  pub flags :
      (j : ℕ)
      → j < 4
      → is_mode_set (2 ^ j) to ≡ (if (2 ^ i) == (2 ^ j) then value else is_mode_set (2 ^ j) from)
  pub rest : to ≡ record from { mode = to.mode }

module _ (i : ℕ) (ch : Channel) (small : ch.mode < 16) (hi : i < 4) where
  pub set_mode-HasFlag : HasFlag i true ch (set_mode (2 ^ i) ch).1
  unfolding set_mode is_mode_set
  set_mode-HasFlag = elim (Bool-cases (has_bits ch.mode (2 ^ i))) [
    | inl on ↦ rw on record { below = small; flags = λ j hj. ground arith; rest = refl }
    | inr off ↦ rw off record {
      below = bit_or-below ch.mode i i small hi hi;
      flags = λ j hj. has_bits-bit_or ch.mode i j small hi hj;
      rest = refl;
    }
  ]

  pub unset_mode-HasFlag : HasFlag i false ch (unset_mode (2 ^ i) ch).1
  unfolding unset_mode is_mode_set
  unset_mode-HasFlag = elim (Bool-cases (has_bits ch.mode (2 ^ i))) [
    | inl on ↦ rw on record {
      below = clear_bits-below ch.mode i i small hi hi;
      flags = λ j hj. has_bits-clear_bits ch.mode i j small hi hj;
      rest = refl;
    }
    | inr off ↦ rw off record { below = small; flags = λ j hj. ground arith; rest = refl }
  ]
