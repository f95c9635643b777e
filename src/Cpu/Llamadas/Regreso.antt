-- ===== src/Cpu/Llamadas/Regreso.antt =====
-- A call and its return, llamarConRetorno and finalizar of src/cpu/cpu.c, with what stands between them.
use tp_sisop_1c_2017_david.Prelude.{
  ℕ, zero, suc, ◌+◌, ◌-◌, ◌%◌, ◌^◌, ◌<◌, ◌≤◌, ◌≡◌, refl, sym, ap, ap₂, ◌∙◌, subst, Bool-cases, inl,
  inr, Option, some, ◌>>=◌, List, [], ◌∷◌, ◌++◌, length, set, get_elem?, sin_indice, Commons, arith,
  SiHay, le→ltb_false, lt→ltb,
}
use tp_sisop_1c_2017_david.Contexto.{Etiqueta, Nivel}
use tp_sisop_1c_2017_david.Cpu.Posiciones.{Posicion, actualizar_stack_pointer}
use tp_sisop_1c_2017_david.Cpu.Variables.{es_argumento, Variable, definir_variable}
use tp_sisop_1c_2017_david.Cpu.Contexto.{PcbActivo}
use tp_sisop_1c_2017_david.Cpu.Llamadas.{
  Ejecucion, Servicios, ir_a_funcion, nivel_nuevo, llamar_con_retorno, finalizar, definir,
}
use tp_sisop_1c_2017_david.Cpu.Llamadas.Saltos.{MismaPila, ir_a_funcion-MismaPila}

-- The body of a function as far as it defines variables, and the stack pointer after so many of them.
abbrev pub avanzar_sp : ℕ → ℕ → Posicion → Posicion
avanzar_sp zero tam sp = sp
avanzar_sp (suc n) tam sp = avanzar_sp n tam (actualizar_stack_pointer tam sp)

module _ {A : Type 0} where
  get_elem?-ultimo : (xs : List A) (x : A) → get_elem? (xs ++ (x ∷ [])) (length xs) ≡ some x
  get_elem?-ultimo [] x = refl
  get_elem?-ultimo (y ∷ xs) x = get_elem?-ultimo xs x

  set-ultimo : (xs : List A) (x y : A) → set (xs ++ (x ∷ [])) (length xs) y ≡ xs ++ (y ∷ [])
  set-ultimo [] x y = refl
  set-ultimo (z ∷ xs) x y = ap (λ l. z ∷ l) (set-ultimo xs x y)

  sin_indice-ultimo : (xs : List A) (x : A) → sin_indice (xs ++ (x ∷ [])) (length xs) ≡ xs
  sin_indice-ultimo [] x = refl
  sin_indice-ultimo (z ∷ xs) x = ap (λ l. z ∷ l) (sin_indice-ultimo xs x)

module _ ⦃niveles : Commons (Nivel Variable)⦄ ⦃argumentos : Commons Posicion⦄
    ⦃variables : Commons Variable⦄ where
  unfoldable pub definir_todas : List ℕ → PcbActivo → Option PcbActivo
  unfolding definir
  definir_todas [] p = some p
  definir_todas (n ∷ ns) p = definir n p >>= λ r. definir_todas ns r.0

  definir_variable-ret_pos :
      (tam : ℕ) (item : Nivel Variable) (sp : Posicion) (nombre : ℕ)
      → (definir_variable tam item sp nombre).0.ret_pos ≡ item.ret_pos
  unfolding definir_variable
  definir_variable-ret_pos tam item sp nombre = elim (Bool-cases (es_argumento nombre)) [
    | inl a ↦ rw (definir_variable, a) refl
    | inr a ↦ rw (definir_variable, a) refl
  ]

  definir_variable-sp :
      (tam : ℕ) (item : Nivel Variable) (sp : Posicion) (nombre : ℕ)
      → (definir_variable tam item sp nombre).1 ≡ actualizar_stack_pointer tam sp
  unfolding definir_variable
  definir_variable-sp tam item sp nombre = refl

  en_tope :
      (base : List (Nivel Variable)) (n : Nivel Variable) (p : PcbActivo)
      → p.indice_stack ≡ base ++ (n ∷ [])
      → p.stack_level ≡ length base
      → niveles.list_get p.indice_stack p.stack_level ≡ some n
  en_tope base n p e l =
      niveles.list_get_lem p.indice_stack p.stack_level
      ∙ ap₂ get_elem? e l
      ∙ get_elem?-ultimo base n

  -- The end of the level on top, with the variables that it defined.
  cuerpo-finalizar :
      (nombres : List ℕ) (base : List (Nivel Variable)) (n : Nivel Variable) (p : PcbActivo)
      → p.indice_stack ≡ base ++ (n ∷ [])
      → p.stack_level ≡ length base
      → 0 < length base
      → (definir_todas nombres p >>= finalizar)
        ≡ some (record p {
          indice_stack = base;
          stack_level = p.stack_level - 1;
          program_counter = n.ret_pos;
          stack_pointer = avanzar_sp (length nombres) p.tam_pagina p.stack_pointer;
        })
  unfolding definir_todas finalizar definir
  cuerpo-finalizar [] base n p e l h =
      rw
        (
          finalizar,
          lt→ltb 0 p.stack_level (omega (arith, l)),
          en_tope base n p e l,
          ◌>>=◌,
          niveles.list_remove_lem p.indice_stack p.stack_level
              ∙ ap₂ sin_indice e l
              ∙ sin_indice-ultimo base n,
        )
        refl
  cuerpo-finalizar (x ∷ xs) base n p e l h =
      let r = definir_variable p.tam_pagina n p.stack_pointer x in
      let q = record p {
        indice_stack = set p.indice_stack p.stack_level r.0;
        stack_pointer = r.1;
      } in
      let puesto : q.indice_stack ≡ base ++ (r.0 ∷ []) =
        ap₂ (λ st k. set st k r.0) e l ∙ set-ultimo base n r.0 in
      let resto = cuerpo-finalizar xs base r.0 q puesto l h in
      rw (definir_todas, definir, en_tope base n p e l, ◌>>=◌)
        (resto
          ∙ ap₂
              (λ k sp. some (record p {
                indice_stack = base;
                stack_level = p.stack_level - 1;
                program_counter = k;
                stack_pointer = avanzar_sp (length xs) p.tam_pagina sp;
              }))
              (definir_variable-ret_pos p.tam_pagina n p.stack_pointer x)
              (definir_variable-sp p.tam_pagina n p.stack_pointer x))

  module _ ⦃etiquetas : Commons Etiqueta⦄ (servicios : Servicios) where
    -- After a call without a fault, from the level at the top of the stack and below a maximum that fits in 32 bits, the
    -- definition of any number of variables and then the end of the function have no fault: the stack, its level
    -- and the program counter are those before the call, and the stack pointer is one position further for each variable.
    pub llamar-finalizar :
        (etiqueta : List ℕ) (donde : ℕ) (nombres : List ℕ) (e : Ejecucion) {e' : Ejecucion}
        → e.pcb.stack_level + 1 ≡ length e.pcb.indice_stack
        → e.pcb.stack_level + 1 ≤ e.pcb.stack_max_size
        → e.pcb.stack_max_size < 2 ^ 32
        → llamar_con_retorno servicios etiqueta donde e ≡ some e'
        → (definir_todas nombres e'.pcb >>= finalizar)
          ≡ some (record e'.pcb {
            indice_stack = e.pcb.indice_stack;
            stack_level = e.pcb.stack_level;
            program_counter = e.pcb.program_counter;
            stack_pointer = avanzar_sp (length nombres) e.pcb.tam_pagina e.pcb.stack_pointer;
          })
    unfolding llamar_con_retorno
    llamar-finalizar etiqueta donde nombres e {e'} top max entra llamado =
        let p = record e.pcb { stack_level = (e.pcb.stack_level + 1) % 2 ^ 32 } in
        let n = nivel_nuevo servicios donde p in
        let q = record p { indice_stack = niveles.list_add p.indice_stack n } in
        let chico : (e.pcb.stack_level + 1) % 2 ^ 32 ≤ e.pcb.stack_max_size =
          omega (arith, max, entra) in
        let salta : llamar_con_retorno servicios etiqueta donde e
            ≡ ir_a_funcion servicios etiqueta (record e { pcb = q }) =
          rw (llamar_con_retorno, le→ltb_false p.stack_max_size p.stack_level chico) refl in
        let misma : MismaPila q e'.pcb =
          subst (SiHay (λ r. MismaPila q r.pcb)) (sym salta ∙ llamado)
            (ir_a_funcion-MismaPila servicios etiqueta (record e { pcb = q })) in
        let pila = misma.0 ∙ niveles.list_add_lem e.pcb.indice_stack n in
        let nivel : e'.pcb.stack_level ≡ length e.pcb.indice_stack =
          omega (arith, misma.1, top, max, entra) in
        let baja : e'.pcb.stack_level - 1 ≡ e.pcb.stack_level = omega (arith, nivel, top) in
        cuerpo-finalizar nombres e.pcb.indice_stack n e'.pcb pila nivel (omega (arith, top))
        ∙ ap₂
            (λ k sp. some (record e'.pcb {
              indice_stack = e.pcb.indice_stack;
              stack_level = k;
              program_counter = e.pcb.program_counter;
              stack_pointer = sp;
            }))
            baja (ap₂ (avanzar_sp (length nombres)) misma.3 misma.2)
