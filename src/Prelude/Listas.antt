-- ===== src/Prelude/Listas.antt =====
-- The lists of so-commons (commons/collections/list.h), which the program links and does not hold: a
-- `t_list` is read as the list of its elements, and its functions are an interface with the laws that
-- the library documents.
use Prim.Native.Nat.{ℕ, zero, suc}
use mathlib.Core.Path.{◌≡◌, refl}
use mathlib.Core.Bool.{Bool}
use mathlib.Core.Option.{Option, none, some}
use mathlib.Core.List.{List, [], ◌∷◌, ◌++◌}
use tp_sisop_1c_2017_david.Prelude.Tests.{if◌then◌else◌}
use tp_sisop_1c_2017_david.Prelude.Lists.{get_elem?}

module _ {ℓ} {A : Type ℓ} where
  abbrev pub primero : (A → Bool) → List A → Option A
  primero p [] = none
  primero p (x ∷ xs) = let resto = primero p xs in if p x then some x else resto

  abbrev pub sin_primero : (A → Bool) → List A → List A
  sin_primero p [] = []
  sin_primero p (x ∷ xs) = let resto = sin_primero p xs in if p x then xs else x ∷ resto

  abbrev pub sin_indice : List A → ℕ → List A
  sin_indice [] i = []
  sin_indice (x ∷ xs) zero = xs
  sin_indice (x ∷ xs) (suc i) = x ∷ sin_indice xs i

pub record Commons {ℓ} (A : Type ℓ) : Type ℓ where
  pub list_add : List A → A → List A
  pub list_get : List A → ℕ → Option A
  pub list_remove : List A → ℕ → List A
  pub list_find : List A → (A → Bool) → Option A
  pub list_remove_by_condition : List A → (A → Bool) → List A
  pub list_add_lem : (xs : List A) (x : A) → list_add xs x ≡ xs ++ (x ∷ [])
  pub list_get_lem : (xs : List A) (i : ℕ) → list_get xs i ≡ get_elem? xs i
  pub list_remove_lem : (xs : List A) (i : ℕ) → list_remove xs i ≡ sin_indice xs i
  pub list_find_lem : (xs : List A) (p : A → Bool) → list_find xs p ≡ primero p xs
  pub list_remove_by_condition_lem :
      (xs : List A) (p : A → Bool) → list_remove_by_condition xs p ≡ sin_primero p xs

-- A list library that meets the laws.
abbrev pub listas_puras {ℓ} : {A : Type ℓ} → Commons A
listas_puras = record {
  list_add = λ xs x. xs ++ (x ∷ []);
  list_get = λ xs i. get_elem? xs i;
  list_remove = λ xs i. sin_indice xs i;
  list_find = λ xs p. primero p xs;
  list_remove_by_condition = λ xs p. sin_primero p xs;
  list_add_lem = λ xs x. refl;
  list_get_lem = λ xs i. refl;
  list_remove_lem = λ xs i. refl;
  list_find_lem = λ xs p. refl;
  list_remove_by_condition_lem = λ xs p. refl;
}
