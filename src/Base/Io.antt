-- ===== src/Base/Io.antt =====
-- Actions on a state that may end with an exception. What an action wrote before the exception stays
-- written.
use mathlib.Core.Path.{◌≡◌, refl}
use mathlib.Core.Bool.{Bool, true, false}
use ultimate_harness.Base.Tests.{if◌then◌else◌}
use ultimate_harness.Base.Result.{Result, ok, err}

abbrev pub Action : Type 0 → Type 0 → Type 0 → Type 0
Action E S A = S → Result E A × S

module _ {E S : Type 0} where
  abbrev pub pure : {A : Type 0} → A → Action E S A
  pure a s = (ok a, s)

  abbrev pub raise : {A : Type 0} → E → Action E S A
  raise e s = (err e, s)

  abbrev pub and_then : {A B : Type 0} → (A → Action E S B) → Result E A × S → Result E B × S
  and_then f (ok a, s) = f a s
  and_then f (err e, s) = (err e, s)

  infixl 5 ◌>>=◌ ◌>>◌
  abbrev pub ◌>>=◌ : {A B : Type 0} → Action E S A → (A → Action E S B) → Action E S B
  ◌>>=◌ m f s = and_then f (m s)

  abbrev pub ◌>>◌ : {B : Type 0} → Action E S (Unit {0}) → Action E S B → Action E S B
  m >> n = m >>= λ _. n

  -- The state of an action keeps a property.
  abbrev pub Keeps : {A : Type 0} → (S → Type 0) → Action E S A → Type 0
  Keeps Q m = (s : S) → Q s → Q (m s).1

  pub >>=-Keeps :
      {A B : Type 0} (Q : S → Type 0) (m : Action E S A) (f : A → Action E S B)
      → Keeps Q m
      → ((a : A) → Keeps Q (f a))
      → Keeps Q (m >>= f)
  >>=-Keeps {A} {B} Q m f hm hf s q = go (m s) (hm s q)
    where
      go : (r : Result E A × S) → Q r.1 → Q (and_then f r).1
      go (ok a, t) q = hf a t q
      go (err e, t) q = q

  -- From one property to another.
  pub >>=-Leads :
      {A B : Type 0} (Q R : S → Type 0) (m : Action E S A) (f : A → Action E S B)
      → Keeps Q m
      → ((s : S) → Q s → R s)
      → ((a : A) (s : S) → Q s → R (f a s).1)
      → (s : S) → Q s
      → R ((m >>= f) s).1
  >>=-Leads {A} {B} Q R m f hm weaken hf s q = go (m s) (hm s q)
    where
      go : (r : Result E A × S) → Q r.1 → R (and_then f r).1
      go (ok a, t) q = hf a t q
      go (err e, t) q = weaken t q

  pub if-Keeps :
      {A : Type 0} (Q : S → Type 0) (b : Bool) (m n : Action E S A)
      → Keeps Q m
      → (b ≡ false → Keeps Q n)
      → Keeps Q (if b then m else n)
  if-Keeps Q true m n hm hn = hm
  if-Keeps Q false m n hm hn = hn refl

  -- An action, and then an answer.
  pub answer-Keeps :
      {A : Type 0} (Q : S → Type 0) (m : Action E S (Unit {0})) (a : A)
      → Keeps Q m
      → Keeps Q (m >> pure a)
  answer-Keeps Q m a h = >>=-Keeps Q m (λ _. pure a) h (λ u s q. q)
