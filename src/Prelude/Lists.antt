-- ===== src/Prelude/Lists.antt =====
-- Lists measured by native numbers, Boolean quantifiers over lists, and association lists that
-- stand for the program's dictionaries.
use Prim.Native.Nat.{ℕ, zero, suc, ◌+◌}
use Prim.Native.String.{String}
use mathlib.Core.Path.{◌≡◌, refl, ap, subst}
use mathlib.Core.Bool.{Bool, true, false, ◌&&◌, ◌||◌}
use mathlib.Core.List.{List, [], ◌∷◌, ◌++◌}
use mathlib.Core.Option.{Option, none, some}
use native.Mathlib.Omega.{arith}
use text.Mathlib.Text.{◌==◌}
use text.Mathlib.TextEquality.{eq_iff}
use clausis.Prelude.Tests.{if◌then◌else◌, and_true}

module _ {ℓ} {A : Type ℓ} where
  abbrev pub length : List A → ℕ
  length [] = 0
  length (x ∷ xs) = suc (length xs)

  abbrev pub take : ℕ → List A → List A
  take zero xs = []
  take (suc n) [] = []
  take (suc n) (x ∷ xs) = x ∷ take n xs

  abbrev pub drop : ℕ → List A → List A
  drop zero xs = xs
  drop (suc n) [] = []
  drop (suc n) (x ∷ xs) = drop n xs

  abbrev pub all : (A → Bool) → List A → Bool
  all p [] = true
  all p (x ∷ xs) = p x && all p xs

  abbrev pub any : (A → Bool) → List A → Bool
  any p [] = false
  any p (x ∷ xs) = p x || any p xs

  abbrev pub filter : (A → Bool) → List A → List A
  filter p [] = []
  filter p (x ∷ xs) = let rest = filter p xs in if p x then x ∷ rest else rest

  abbrev pub is_empty : List A → Bool
  is_empty [] = true
  is_empty (_ ∷ _) = false

  pub length-append : (xs ys : List A) → length (xs ++ ys) ≡ length xs + length ys
  length-append [] ys = omega arith
  length-append (x ∷ xs) ys = omega (arith, length-append xs ys)

-- `name in {…}` over texts that are compared whole
abbrev pub elem : String → List String → Bool
elem k [] = false
elem k (j ∷ js) = j == k || elem k js

module _ {ℓ} {V : Type ℓ} where
  -- d.get(k)
  unfoldable pub lookup : String → List (String × V) → Option V
  lookup key [] = none
  lookup key ((name, value) ∷ rest) = if name == key then some value else lookup key rest

  -- d.pop(k, None)
  unfoldable pub without : String → List (String × V) → List (String × V)
  without key [] = []
  without key ((name, value) ∷ entries) =
      let others = without key entries in if name == key then others else (name, value) ∷ others

  -- d[k] = v
  unfoldable pub put : String → V → List (String × V) → List (String × V)
  put k v l = (k, v) ∷ without k l

  pub lookup-without :
      (gone key : String) (entries : List (String × V))
      → lookup key (without gone entries) ≡ (if gone == key then none else lookup key entries)
  unfolding lookup without
  lookup-without gone key [] = ground arith
  lookup-without gone key ((name, value) ∷ entries) =
      ground
        (eq_iff gone key, eq_iff name key, eq_iff name gone, lookup-without gone key entries, arith)

  pub lookup-put :
      (name key : String) (value : V) (entries : List (String × V))
      → lookup key (put name value entries)
        ≡ (if name == key then some value else lookup key entries)
  unfolding put lookup
  lookup-put name key value entries = ground (lookup-without name key entries, arith)

  -- What holds of all entries holds of the entry of a key.
  pub lookup-all :
      (q : String × V → Bool) (key : String) (l : List (String × V)) (v : V)
      → all q l ≡ true
      → lookup key l ≡ some v
      → q (key, v) ≡ true
  unfolding lookup
  lookup-all q key [] v e h = absurd (cc h)
  lookup-all q key ((name, value) ∷ l) v e h =
      let (first, rest) = and_true _ _ e in
      step (name == key) refl first h (lookup-all q key l v rest)
    where
      step :
          (b : Bool)
          → (name == key) ≡ b
          → q (name, value) ≡ true
          → (if b then some value else lookup key l) ≡ some v
          → (lookup key l ≡ some v → q (key, v) ≡ true)
          → q (key, v) ≡ true
      step false _ first h later = later h
      step true same first h later =
          subst (λ k. q (k, v) ≡ true) ((eq_iff name key).0 same)
            (subst (λ p. q (name, p) ≡ true) (ap (λ o. elim o [ none ↦ value | some p ↦ p ]) h)
              first)
