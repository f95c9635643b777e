-- ===== src/Prelude/Tokens.antt =====
-- `strtok`: the parts of a text between separators that are not empty.
use Prim.Native.Nat.{ℕ}
use mathlib.Core.Path.{◌≡◌, refl}
use mathlib.Core.Logic.{◌≢◌, inl, inr}
use mathlib.Core.Bool.{Bool, true, false}
use mathlib.Core.List.{List, [], ◌∷◌, ◌++◌}
use tp_sisop_1c_2017_david.Prelude.Tests.{if◌then◌else◌, Bool-cases}
use tp_sisop_1c_2017_david.Prelude.Lists.{All}

module _ (es_separador : ℕ → Bool) where
  -- What one character does to the tokens after it: a separator ends a token. The head is the token that
  -- the text starts in the middle of.
  abbrev pub cortar : ℕ → List (List ℕ) → List (List ℕ)
  cortar c [] = []
  cortar c (t ∷ ts) = if es_separador c then [] ∷ t ∷ ts else (c ∷ t) ∷ ts

  unfoldable pub partes : List ℕ → List (List ℕ)
  partes [] = [] ∷ []
  partes (c ∷ cs) = cortar c (partes cs)

abbrev pub es_vacia : List ℕ → Bool
es_vacia [] = true
es_vacia (c ∷ cs) = false

-- What the calls of `strtok` return one after the other: the parts that are not empty.
unfoldable pub no_vacias : List (List ℕ) → List (List ℕ)
no_vacias [] = []
no_vacias (t ∷ ts) = if es_vacia t then no_vacias ts else t ∷ no_vacias ts

module _ (es_separador : ℕ → Bool) where
  cortar-no_nil : (c : ℕ) (ts : List (List ℕ)) → ts ≢ [] → cortar es_separador c ts ≢ []
  cortar-no_nil c [] h = h
  cortar-no_nil c (t ∷ ts) h = elim (Bool-cases (es_separador c)) [
    | inl e ↦ rw (e) (λ x. cc)
    | inr e ↦ rw (e) (λ x. cc)
  ]

  pub partes-no_nil : (cs : List ℕ) → partes es_separador cs ≢ []
  unfolding partes
  partes-no_nil [] = λ x. cc
  partes-no_nil (c ∷ cs) = cortar-no_nil c (partes es_separador cs) (partes-no_nil cs)

  cortar-separador :
      (s : ℕ) (ts : List (List ℕ))
      → ts ≢ []
      → es_separador s ≡ true
      → cortar es_separador s ts ≡ [] ∷ ts
  cortar-separador s [] h e = absurd (h refl)
  cortar-separador s (t ∷ ts) h e = rw (e) refl

  -- The text up to the first separator is the first part.
  pub partes-separador :
      (k : List ℕ) (s : ℕ) (cs : List ℕ)
      → All (λ c. es_separador c ≡ false) k
      → es_separador s ≡ true
      → partes es_separador (k ++ (s ∷ cs)) ≡ k ∷ partes es_separador cs
  unfolding partes
  partes-separador [] s cs a e = cortar-separador s (partes es_separador cs) (partes-no_nil cs) e
  partes-separador (c ∷ k) s cs a e = rw (partes-separador k s cs a.1 e, a.0) refl
