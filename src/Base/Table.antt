-- ===== src/Base/Table.antt =====
-- A database table with a text primary key: a list of rows, read and written by key.
use Prim.Native.String.{String}
use mathlib.Core.Path.{◌≡◌, refl, ◌∙◌}
use mathlib.Core.Option
use mathlib.Core.Option.{Option, none, some}
use mathlib.Core.List.{List, [], ◌∷◌, ◌++◌}
use native.Mathlib.Omega.{arith}
use text.Mathlib.TextEquality.{eq_iff}
use ultimate_harness.Base.Tests.{◌=s◌, if◌then◌else◌}

module _ {R : Type 0} (key : R → String) where
  -- SELECT … WHERE key = k
  unfoldable pub find : String → List R → Option R
  find k [] = none
  find k (r ∷ rs) = if key r =s k then some r else find k rs

  -- UPDATE … WHERE key = k
  unfoldable pub update : String → (R → R) → List R → List R
  update k f [] = []
  update k f (r ∷ rs) = (if key r =s k then f r else r) ∷ update k f rs

  pub find-update :
      (k j : String) (f : R → R) (rows : List R)
      → ((r : R) → key (f r) ≡ key r)
      → find j (update k f rows) ≡ (if k =s j then Option.map f (find j rows) else find j rows)
  unfolding find update
  find-update k j f [] keeps = ground arith
  find-update k j f (r ∷ rows) keeps =
      ground (
        arith,
        keeps r,
        eq_iff k j,
        eq_iff (key r) k,
        eq_iff (key r) j,
        find-update k j f rows keeps,
      )

  -- INSERT of a row, at the end.
  pub find-append_one :
      (j : String) (r : R) (rows : List R)
      → find j (rows ++ r ∷ [])
        ≡ (elim (find j rows) [ some x ↦ some x | none ↦ if key r =s j then some r else none ])
  unfolding find
  find-append_one j r [] = refl
  find-append_one j r (x ∷ rows) = ground (arith, find-append_one j r rows)

  pub key-find : (j : String) (rows : List R) {r : R} → find j rows ≡ some r → key r ≡ j
  unfolding find
  key-find j [] h = cc
  key-find j (x ∷ rows) {r = r} h = ground (arith, eq_iff (key x) j, key-find j rows {r = r})

  -- An update of a row that is there.
  pub find-update_present :
      (k j : String) (f : R → R) (rows : List R) {r s : R}
      → ((r : R) → key (f r) ≡ key r)
      → find k rows ≡ some r
      → f r ≡ s
      → find j (update k f rows) ≡ (if k =s j then some s else find j rows)
  find-update_present k j f rows {r} {s} keeps there made =
      find-update k j f rows keeps ∙ ground (arith, eq_iff k j)

  -- An insert of a row whose key is new.
  pub find-append_new :
      (k j : String) (r : R) (rows : List R)
      → key r ≡ k
      → find k rows ≡ none
      → find j (rows ++ r ∷ []) ≡ (if k =s j then some r else find j rows)
  find-append_new k j r rows named absent =
      find-append_one j r rows ∙ ground (arith, eq_iff k j, eq_iff (key r) j)
