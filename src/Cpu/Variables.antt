-- ===== src/Cpu/Variables.antt =====
-- Variables and arguments of the context of a call, definirVariable and obtenerPosicionVariable of
-- src/cpu/cpu.c. A name is the code of its character.
use tp_sisop_1c_2017_david.Prelude.{
  ℕ, zero, suc, ◌-◌, ◌^◌, ◌≤◌, ◌≡◌, ◌≢◌, inl, inr, refl, sym, ap, ◌∙◌, Bool, true, false,
  Bool-cases, ◌==◌, ==_iff, leb, ◌&&◌, Option, none, some, List, [], ◌∷◌, ◌++◌, length, get_elem?,
  Commons, primero, arith,
}
use tp_sisop_1c_2017_david.Contexto.{Nivel}
use tp_sisop_1c_2017_david.Cpu.Posiciones.{
  Posicion, posicion_convertir_a_puntero, posicion_convertir-size, actualizar_stack_pointer,
}

-- `t_vars_stack`
pub record Variable : Type 0 where
  pub id : ℕ
  pub posicion : Posicion

-- `t_stack`, the context of a call
abbrev pub Contexto : Type 0
Contexto = Nivel Variable

-- The test for '0' to '9'.
abbrev pub es_argumento : ℕ → Bool
es_argumento nombre = leb 48 nombre && leb nombre 57

-- The -1 of a `t_puntero`.
abbrev pub puntero_nulo : ℕ
puntero_nulo = 2 ^ 32 - 1

abbrev pub puntero_de : ℕ → Option Posicion → ℕ
puntero_de tam_pagina none = puntero_nulo
puntero_de tam_pagina (some p) = posicion_convertir_a_puntero tam_pagina p

abbrev pub posicion_de : Option Variable → Option Posicion
posicion_de none = none
posicion_de (some v) = some v.posicion

module _ ⦃argumentos : Commons Posicion⦄ ⦃variables : Commons Variable⦄ where
  -- `definirVariable`: the context, the stack position after it, and the pointer returned.
  unfoldable pub definir_variable : ℕ → Contexto → Posicion → ℕ → Contexto × Posicion × ℕ
  definir_variable tam_pagina item sp nombre = (
    elim (es_argumento nombre) [
      | true ↦ record item { argumento = argumentos.list_add item.argumento sp }
      | false ↦ record item {
        variable =
            variables.list_add item.variable
              (record { id = nombre; posicion = record sp { size = 4 } });
      }
    ],
    actualizar_stack_pointer tam_pagina sp,
    posicion_convertir_a_puntero tam_pagina sp,
  )

  -- `obtenerPosicionVariable`, which looks an argument up at the code of its digit.
  pub obtener_posicion_variable : ℕ → Contexto → ℕ → ℕ
  obtener_posicion_variable tam_pagina item nombre = elim (es_argumento nombre) [
    | true ↦ puntero_de tam_pagina (argumentos.list_get item.argumento nombre)
    | false ↦
        puntero_de tam_pagina
          (posicion_de (variables.list_find item.variable (λ v. v.id == nombre)))
  ]

primero-append_none :
    {A : Type 0} (p : A → Bool) (xs : List A) (x : A)
    → primero p xs ≡ none
    → p x ≡ true
    → primero p (xs ++ (x ∷ [])) ≡ some x
primero-append_none p [] x h e = rw (e) refl
primero-append_none p (y ∷ xs) x h e = elim (Bool-cases (p y)) [
  | inl s ↦ let hallado : primero p (y ∷ xs) ≡ some y = rw (s) refl in cc
  | inr s ↦
      let sigue : primero p (y ∷ xs) ≡ primero p xs = rw (s) refl in
      rw (s) (primero-append_none p xs x (sym sigue ∙ h) e)
]

primero-append_false :
    {A : Type 0} (p : A → Bool) (xs : List A) (x : A)
    → p x ≡ false
    → primero p (xs ++ (x ∷ [])) ≡ primero p xs
primero-append_false p [] x e = rw (e) refl
primero-append_false p (y ∷ xs) x e = rw (primero-append_false p xs x e) refl

ne→==_false : (a b : ℕ) → a ≢ b → (a == b) ≡ false
ne→==_false a b h = ground arith

argumento-le : (n : ℕ) → es_argumento n ≡ true → 48 ≤ n
argumento-le n h = ground arith

get_elem?-none : {A : Type 0} (xs : List A) (i : ℕ) → length xs ≤ i → get_elem? xs i ≡ none
get_elem?-none [] i h = refl
get_elem?-none (x ∷ xs) zero h = absurd (omega arith)
get_elem?-none (x ∷ xs) (suc i) h = get_elem?-none xs i (omega arith)

module _ ⦃argumentos : Commons Posicion⦄ ⦃variables : Commons Variable⦄ where
  variable_definida :
      (tam : ℕ) (item : Contexto) (sp : Posicion) (nombre : ℕ)
      → es_argumento nombre ≡ false
      → (definir_variable tam item sp nombre).0 ≡ record item {
        variable =
            item.variable ++ (record { id = nombre; posicion = record sp { size = 4 } } ∷ []);
      }
  unfolding definir_variable
  variable_definida tam item sp nombre d =
      rw (definir_variable, d)
        (ap (λ l. record item { variable = l })
          (variables.list_add_lem item.variable
            (record { id = nombre; posicion = record sp { size = 4 } })))

  obtener_variable :
      (tam : ℕ) (item : Contexto) (nombre : ℕ)
      → es_argumento nombre ≡ false
      → obtener_posicion_variable tam item nombre
        ≡ puntero_de tam (posicion_de (primero (λ v. v.id == nombre) item.variable))
  unfolding obtener_posicion_variable
  obtener_variable tam item nombre d =
      rw (obtener_posicion_variable, d)
        (ap (λ o. puntero_de tam (posicion_de o))
          (variables.list_find_lem item.variable (λ v. v.id == nombre)))

  obtener_argumento :
      (tam : ℕ) (item : Contexto) (nombre : ℕ)
      → es_argumento nombre ≡ true
      → obtener_posicion_variable tam item nombre ≡ puntero_de tam (get_elem? item.argumento nombre)
  unfolding obtener_posicion_variable
  obtener_argumento tam item nombre d =
      rw (obtener_posicion_variable, d)
        (ap (λ o. puntero_de tam o) (argumentos.list_get_lem item.argumento nombre))

  -- A variable that is not a digit and that the context does not have yet is found afterwards at the pointer
  -- that its definition returned, and every other name is found where it was.
  pub definir-obtener_posicion_variable :
      (tam : ℕ) (item : Contexto) (sp : Posicion) (nombre : ℕ)
      → es_argumento nombre ≡ false
      → primero (λ v. v.id == nombre) item.variable ≡ none
      → (obtener_posicion_variable tam (definir_variable tam item sp nombre).0 nombre
          ≡ (definir_variable tam item sp nombre).2)
        × ((otro : ℕ)
            → otro ≢ nombre
            → obtener_posicion_variable tam (definir_variable tam item sp nombre).0 otro
              ≡ obtener_posicion_variable tam item otro)
  unfolding definir_variable
  definir-obtener_posicion_variable tam item sp nombre d h =
      let nueva : Variable = record { id = nombre; posicion = record sp { size = 4 } } in
      let despues : Contexto = record item { variable = item.variable ++ (nueva ∷ []) } in
      let definida = variable_definida tam item sp nombre d in
      (
        ap (λ c. obtener_posicion_variable tam c nombre) definida
            ∙ obtener_variable tam despues nombre d
            ∙ ap (λ o. puntero_de tam (posicion_de o))
                (primero-append_none (λ v. v.id == nombre) item.variable nueva h
                  ((==_iff nombre nombre).1 refl))
            ∙ posicion_convertir-size tam 4 sp,
        λ otro n.
            ap (λ c. obtener_posicion_variable tam c otro) definida
            ∙ elim (Bool-cases (es_argumento otro)) [
              | inl a ↦
                  obtener_argumento tam despues otro a ∙ sym (obtener_argumento tam item otro a)
              | inr a ↦
                  obtener_variable tam despues otro a
                  ∙ ap (λ o. puntero_de tam (posicion_de o))
                      (primero-append_false (λ v. v.id == otro) item.variable nueva
                        (ne→==_false nombre otro (λ e. n (sym e))))
                  ∙ sym (obtener_variable tam item otro a)
            ],
      )

  -- No argument of a context with at most 48 of them is ever found.
  pub obtener_argumento_nulo :
      (tam : ℕ) (item : Contexto) (nombre : ℕ)
      → es_argumento nombre ≡ true
      → length item.argumento ≤ 48
      → obtener_posicion_variable tam item nombre ≡ puntero_nulo
  obtener_argumento_nulo tam item nombre d h =
      obtener_argumento tam item nombre d
      ∙ ap (λ o. puntero_de tam o)
          (get_elem?-none item.argumento nombre (omega (arith, argumento-le nombre d)))
