-- ===== src/Base/Result.antt =====
-- Fallible code: a value or the exception that ended the call.
use mathlib.Core.Path.{◌≡◌, refl, ap}
use mathlib.Core.Bool.{Bool, true, false}

pub data Result {ℓ κ} (E : Type ℓ) (A : Type κ) : Type (ℓ ⊔ κ) where
  ok : A → Result E A
  err : E → Result E A

-- An action in one database transaction: an exception rolls the transaction back, so no state comes
-- back beside it.
abbrev pub Tx : Type 0 → Type 0 → Type 0 → Type 0
Tx E S A = S → Result E (A × S)

module _ {E S : Type 0} where
  abbrev pub pure : {A : Type 0} → A → Tx E S A
  pure a s = ok (a, s)

  abbrev pub raise : {A : Type 0} → E → Tx E S A
  raise e s = err e

  -- `if not b: raise e`
  abbrev pub require : Bool → E → Tx E S (Unit {0})
  require true e s = ok (tt, s)
  require false e s = err e

  infixl 5 ◌>>=◌ ◌>>◌
  abbrev pub ◌>>=◌ : {A B : Type 0} → Tx E S A → (A → Tx E S B) → Tx E S B
  ◌>>=◌ m f s = elim (m s) [ ok (a, s') ↦ f a s' | err e ↦ err e ]

  abbrev pub ◌>>◌ : {B : Type 0} → Tx E S (Unit {0}) → Tx E S B → Tx E S B
  m >> n = m >>= λ _. n

  -- Inversion of a block that returned.
  pub >>=-eq-ok :
      {A B : Type 0} (m : Tx E S A) (f : A → Tx E S B) (s : S) {b : B} {u : S}
      → (m >>= f) s ≡ ok (b, u)
      → (a : A) × (t : S) × (m s ≡ ok (a, t)) × (f a t ≡ ok (b, u))
  >>=-eq-ok {A} {B} m f s {b} {u} h = go (m s) refl h
    where
      go :
          (r : Result E (A × S))
          → m s ≡ r
          → (elim r [ ok (a, s') ↦ f a s' | err e ↦ err e ]) ≡ ok (b, u)
          → (a : A) × (t : S) × (m s ≡ ok (a, t)) × (f a t ≡ ok (b, u))
      go (ok (a, t)) e k = (a, t, e, k)
      go (err x) e k = cc

  pub >>=-ok :
      {A B : Type 0} (m : Tx E S A) (f : A → Tx E S B) (s t : S) {a : A}
      → m s ≡ ok (a, t)
      → (m >>= f) s ≡ f a t
  >>=-ok {A} {B} m f s t h =
      ap (λ (x : Result E (A × S)). elim x [ ok (a, s') ↦ f a s' | err e ↦ err e ]) h

  -- Congruences of blocks, at one state.
  pub >>=-same-left :
      {A B : Type 0} (m n : Tx E S A) (f : A → Tx E S B) (s : S)
      → m s ≡ n s
      → (m >>= f) s ≡ (n >>= f) s
  >>=-same-left {A} {B} m n f s h =
      ap (λ (x : Result E (A × S)). elim x [ ok (a, s') ↦ f a s' | err e ↦ err e ]) h

  pub >>=-same-right :
      {A B : Type 0} (m : Tx E S A) (f g : A → Tx E S B) (s : S)
      → ((a : A) (t : S) → m s ≡ ok (a, t) → f a t ≡ g a t)
      → (m >>= f) s ≡ (m >>= g) s
  >>=-same-right {A} {B} m f g s h = go (m s) refl
    where
      go :
          (r : Result E (A × S))
          → m s ≡ r
          → (elim r [ ok (a, s') ↦ f a s' | err e ↦ err e ])
            ≡ (elim r [ ok (a, s') ↦ g a s' | err e ↦ err e ])
      go (ok (a, t)) e = h a t e
      go (err x) e = refl

  pub require-same :
      {A : Type 0} (b : Bool) (e : E) (k l : Tx E S A) (s : S)
      → k s ≡ l s
      → (require b e >> k) s ≡ (require b e >> l) s
  require-same true e k l s h = h
  require-same false e k l s h = refl
