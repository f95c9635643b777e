-- ===== src/Kernel/Minify/Lineas.antt =====
-- The lines that src/kernel/minify.c keeps of a script.
use tp_sisop_1c_2017_david.Prelude.{
  cortar, partes, no_vacias, es_vacia, ℕ, ◌≡◌, ◌≢◌, refl, sym, subst, Bool, true, false, ◌&&◌, ◌||◌,
  Bool-cases, none, some, List, [], ◌∷◌, inl, inr, All, arith,
}
use tp_sisop_1c_2017_david.Kernel.Minify.{
  espacio, tab, numeral, distinto, es_separador, es_comando, limpiar_desde,
  limpiar_blancos_iniciales, comandos, script_to_list,
}

-- A line of a script as it is kept: it starts with a character that is neither blank nor '#'.
abbrev pub Empieza : List ℕ → Type 0
Empieza [] = ⊥
Empieza (c ∷ cs) = (c ≢ espacio) × (c ≢ tab) × (c ≢ numeral)

abbrev pub SinSeparador : List ℕ → Type 0
SinSeparador = All (λ c. es_separador c ≡ false)

abbrev pub EsComando : List ℕ → Type 0
EsComando l = Empieza l × SinSeparador l

cortar-SinSeparador :
    (c : ℕ) (ts : List (List ℕ)) → All SinSeparador ts → All SinSeparador (cortar es_separador c ts)
cortar-SinSeparador c [] a = a
cortar-SinSeparador c (t ∷ ts) a = elim (Bool-cases (es_separador c)) [
  | inl e ↦ rw (e) (tt, a)
  | inr e ↦ rw (e) ((e, a.0), a.1)
]

partes-SinSeparador : (cs : List ℕ) → All SinSeparador (partes es_separador cs)
unfolding partes
partes-SinSeparador [] = (tt, tt)
partes-SinSeparador (c ∷ cs) =
    cortar-SinSeparador c (partes es_separador cs) (partes-SinSeparador cs)

no_vacias-SinSeparador :
    (ts : List (List ℕ)) → All SinSeparador ts → All SinSeparador (no_vacias ts)
unfolding no_vacias
no_vacias-SinSeparador [] a = a
no_vacias-SinSeparador (t ∷ ts) a = elim (Bool-cases (es_vacia t)) [
  | inl e ↦ rw (no_vacias, e) (no_vacias-SinSeparador ts a.1)
  | inr e ↦ rw (no_vacias, e) (a.0, no_vacias-SinSeparador ts a.1)
]

limpiar_desde-SinSeparador :
    (fin : Bool) (cs : List ℕ) → SinSeparador cs → SinSeparador (limpiar_desde fin cs)
unfolding limpiar_desde
limpiar_desde-SinSeparador fin [] a = a
limpiar_desde-SinSeparador fin (c ∷ cs) a =
    elim (Bool-cases ((distinto c espacio && distinto c tab) || fin)) [
      | inl e ↦ rw (limpiar_desde, e) (a.0, limpiar_desde-SinSeparador true cs a.1)
      | inr e ↦ rw (limpiar_desde, e) (limpiar_desde-SinSeparador false cs a.1)
    ]

distinto-ne : (c d : ℕ) → distinto c d ≡ true → c ≢ d
distinto-ne c d e = ground arith

and_or_false : (a b : Bool) → ((a && b) || false) ≡ true → (a ≡ true) × (b ≡ true)
and_or_false true true e = (refl, refl)
and_or_false true false e = cc
and_or_false false b e = cc

-- A cleaned line that the tests let through starts as it should.
limpiar-Empieza :
    (cs : List ℕ) → es_comando (limpiar_desde false cs) ≡ true → Empieza (limpiar_desde false cs)
unfolding limpiar_desde
limpiar-Empieza [] e = cc
limpiar-Empieza (c ∷ cs) e = elim (Bool-cases ((distinto c espacio && distinto c tab) || false)) [
  | inl h ↦
      let ec : limpiar_desde false (c ∷ cs) ≡ c ∷ limpiar_desde true cs =
        rw (limpiar_desde, h) refl in
      let no_blanco = and_or_false (distinto c espacio) (distinto c tab) h in
      let no_numeral : distinto c numeral ≡ true = subst (λ l. es_comando l ≡ true) ec e in
      subst Empieza (sym ec) (
        distinto-ne c espacio no_blanco.0,
        distinto-ne c tab no_blanco.1,
        distinto-ne c numeral no_numeral,
      )
  | inr h ↦
      let ec : limpiar_desde false (c ∷ cs) ≡ limpiar_desde false cs = rw (limpiar_desde, h) refl in
      subst Empieza (sym ec) (limpiar-Empieza cs (subst (λ l. es_comando l ≡ true) ec e))
]

comandos-EsComando : (ts : List (List ℕ)) → All SinSeparador ts → All EsComando (comandos ts)
unfolding comandos limpiar_blancos_iniciales
comandos-EsComando [] a = tt
comandos-EsComando (t ∷ ts) a = elim (Bool-cases (es_comando (limpiar_desde false t))) [
  | inl e ↦
      rw (comandos, e)
        ((limpiar-Empieza t e, limpiar_desde-SinSeparador false t a.0), comandos-EsComando ts a.1)
  | inr e ↦ rw (comandos, e) (comandos-EsComando ts a.1)
]

-- Every line that `scriptToList` keeps starts with a character that is neither a blank nor '#', and
-- contains no tab and no end of line.
pub script_to_list-EsComando :
    (script : List ℕ) {cs : List (List ℕ)} → script_to_list script ≡ some cs → All EsComando cs
unfolding script_to_list
script_to_list-EsComando script {cs} e =
    con_lineas (no_vacias (partes es_separador script))
      (no_vacias-SinSeparador (partes es_separador script) (partes-SinSeparador script)) e
  where
    con_lineas :
        (ts : List (List ℕ))
        → All SinSeparador ts
        → elim ts [ [] ↦ none | t ∷ us ↦ some (comandos (t ∷ us)) ] ≡ some cs
        → All EsComando cs
    con_lineas [] a h = cc
    con_lineas (t ∷ ts) a h =
        let iguales : comandos (t ∷ ts) ≡ cs = cc in
        subst (All EsComando) iguales (comandos-EsComando (t ∷ ts) a)
