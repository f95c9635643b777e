-- ===== src/Kernel/Minify/Nulo.antt =====
-- When `scriptToList` of src/kernel/minify.c reads the NULL that the first `strtok` may return.
use tp_sisop_1c_2017_david.Prelude.{
  cortar, partes, no_vacias, partes-no_nil, ℕ, ◌≡◌, ◌≢◌, ◌↔◌, refl, subst, true, Bool-cases, Option,
  none, some, List, [], ◌∷◌, inl, inr, All,
}
use tp_sisop_1c_2017_david.Kernel.Minify.{es_separador, comandos, script_to_list}

no_vacias-cortar :
    (c : ℕ) (ts : List (List ℕ))
    → es_separador c ≡ true
    → no_vacias (cortar es_separador c ts) ≡ no_vacias ts
unfolding no_vacias
no_vacias-cortar c [] e = refl
no_vacias-cortar c (t ∷ ts) e = rw (e) refl

cortar-separador :
    (c : ℕ) (ts : List (List ℕ))
    → ts ≢ []
    → no_vacias (cortar es_separador c ts) ≡ []
    → es_separador c ≡ true
unfolding no_vacias
cortar-separador c [] h e = absurd (h refl)
cortar-separador c (t ∷ ts) h e = elim (Bool-cases (es_separador c)) [
  | inl s ↦ s
  | inr s ↦
      let abre : cortar es_separador c (t ∷ ts) ≡ (c ∷ t) ∷ ts = rw (s) refl in
      let imposible : (c ∷ t) ∷ no_vacias ts ≡ [] = subst (λ l. no_vacias l ≡ []) abre e in cc
]

abbrev pub SoloSeparadores : List ℕ → Type 0
SoloSeparadores = All (λ c. es_separador c ≡ true)

no_vacias-partes : (cs : List ℕ) → no_vacias (partes es_separador cs) ≡ [] ↔ SoloSeparadores cs
unfolding partes no_vacias
no_vacias-partes [] = (λ e. tt, λ a. refl)
no_vacias-partes (c ∷ cs) = (
  λ e.
      let s = cortar-separador c (partes es_separador cs) (partes-no_nil es_separador cs) e in
      (
        s,
        (no_vacias-partes cs).0
            (subst (λ l. l ≡ []) (no_vacias-cortar c (partes es_separador cs) s) e),
      ),
  λ a. rw (no_vacias-cortar c (partes es_separador cs) a.0) ((no_vacias-partes cs).1 a.1),
)

-- `scriptToList` reads a NULL exactly for a script of nothing but tabs, returns and new lines; for any other
-- script it returns.
pub script_to_list-nulo :
    (script : List ℕ) → (script_to_list script ≡ none) ↔ SoloSeparadores script
unfolding script_to_list
script_to_list-nulo script = (
  λ e. (no_vacias-partes script).0 (sin_tokens (no_vacias (partes es_separador script)) e),
  λ a. rw (script_to_list, (no_vacias-partes script).1 a) refl,
)
  where
    sin_tokens :
        (ts : List (List ℕ))
        → ◌≡◌ {A = Option (List (List ℕ))}
            (elim ts [ [] ↦ none | t ∷ us ↦ some (comandos (t ∷ us)) ])
            none
        → ts ≡ []
    sin_tokens [] e = refl
    sin_tokens (t ∷ ts) e = cc
