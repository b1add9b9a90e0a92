-- ===== src/Prelude/Maps.antt =====
-- Go maps with string keys, and tables indexed by numbers (goroutines, allocated objects).
-- A map is its lookup function: the program never ranges over these maps nor takes their length.
use Prim.Native.Nat.{ℕ}
use Prim.Native.String.{String}
use mathlib.Core.Path.{◌≡◌, subst}
use mathlib.Core.Logic.{inl, inr}
use mathlib.Core.Option.{Option, none, some, some-injective}
use text.Mathlib.Text.{◌==◌ as str_eq}
use text.Mathlib.TextEquality.{eq_iff}
use yamrp.Prelude.Tests.{◌==◌, if◌then◌else◌, Bool-cases}

abbrev pub Map {ℓ} : Type ℓ → Type ℓ
Map V = String → Option V

module _ {ℓ} {V : Type ℓ} where
  -- m[k] = v
  abbrev pub insert : Map V → String → V → Map V
  insert m k v j = if str_eq k j then some v else m j

  -- delete(m, k)
  abbrev pub erase : Map V → String → Map V
  erase m k j = if str_eq k j then none else m j

abbrev pub no_entries {ℓ} : {V : Type ℓ} → Map V
no_entries k = none

module _ {ℓ} {A : Type ℓ} where
  abbrev pub update : (ℕ → A) → ℕ → A → ℕ → A
  update f i a j = if i == j then a else f j

  -- A property of every entry survives an update by an entry that has it.
  pub update_all {κ} :
      (P : A → Type κ) (f : ℕ → A) (i : ℕ) (a : A)
      → ((j : ℕ) → P (f j))
      → P a
      → (j : ℕ) → P (update f i a j)
  update_all P f i a old new j = elim (Bool-cases (i == j)) [
    | inl e ↦ rw e new
    | inr e ↦ rw e (old j)
  ]

module _ {ℓ} {V : Type ℓ} where
  pub insert_all {κ} :
      (P : String → V → Type κ) (m : Map V) (k : String) (v : V)
      → ((j : String) (w : V) → m j ≡ some w → P j w)
      → P k v
      → (j : String) (w : V) → insert m k v j ≡ some w
      → P j w
  insert_all P m k v old new j w h = elim (Bool-cases (str_eq k j)) [
    | inl e ↦
        let at_key : P j v = subst (λ i. P i v) ((eq_iff k j).0 e) new in
        subst (P j) (some-injective v w (rw e at h)) at_key
    | inr e ↦ old j w (rw e at h)
  ]

  pub erase_all {κ} :
      (P : String → V → Type κ) (m : Map V) (k : String)
      → ((j : String) (w : V) → m j ≡ some w → P j w)
      → (j : String) (w : V) → erase m k j ≡ some w
      → P j w
  erase_all P m k old j w h = elim (Bool-cases (str_eq k j)) [
    | inl e ↦ cc (rw e at h)
    | inr e ↦ old j w (rw e at h)
  ]
