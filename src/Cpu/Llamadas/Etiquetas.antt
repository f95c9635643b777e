-- ===== src/Cpu/Llamadas/Etiquetas.antt =====
-- Where irAFuncion of src/cpu/cpu.c jumps to.
use tp_sisop_1c_2017_david.Prelude.{
  ℕ, zero, suc, ◌+◌, ◌^◌, ◌<◌, ◌≤◌, ◌==◌, ltb, lt→ltb, ◌≡◌, refl, sym, ap, ◌∙◌, subst, pos, true,
  false, inl, inr, Option-cases, none, some, ◌>>=◌, List, [], ◌∷◌, ◌++◌, length, codes, take,
  get_elem?, Commons, arith, All,
}
use tp_sisop_1c_2017_david.Contexto.{Etiqueta, Codigo}
use tp_sisop_1c_2017_david.Cpu.Llamadas.{
  Ejecucion, Servicios, pedir_a_memoria_string, buscar_sentencia, buscar_etiqueta, buscar_nombre,
  villereada, ir_a_funcion, ejecutando,
}

get_elem?-menor :
    {A : Type 0} (xs : List A) (i : ℕ) {x : A} → get_elem? xs i ≡ some x → i < length xs
get_elem?-menor [] i e = cc
get_elem?-menor (y ∷ xs) zero e = omega arith
get_elem?-menor (y ∷ xs) (suc i) e = omega (arith, get_elem?-menor xs i e)

All-get_elem? :
    {A : Type 0} (P : A → Type 0) (xs : List A) (i : ℕ) {x : A}
    → All P xs
    → get_elem? xs i ≡ some x
    → P x
All-get_elem? P [] i a e = cc
All-get_elem? P (y ∷ xs) zero {x} a e = let mismo : y ≡ x = cc in subst P mismo a.0
All-get_elem? P (y ∷ xs) (suc i) a e = All-get_elem? P xs i a.1 e

module _ (servicios : Servicios) ⦃etiquetas : Commons Etiqueta⦄ (nombre : List ℕ) where
  -- No label has the name.
  abbrev pub Ausente : List Etiqueta → Type 0
  Ausente = All (λ t. servicios.string_equals_ignore_case t.etiquetas nombre ≡ false)

  buscar_etiqueta-se_pasa :
      (es : List Etiqueta) (vueltas contador : ℕ)
      → Ausente es
      → contador ≤ length es
      → length es < contador + vueltas
      → buscar_etiqueta servicios nombre es vueltas contador ≡ none
  unfolding buscar_etiqueta
  buscar_etiqueta-se_pasa es zero contador a h l = absurd (omega arith)
  buscar_etiqueta-se_pasa es (suc v) contador a h l =
      elim (Option-cases (etiquetas.list_get es contador)) [
        | inl n ↦ rw (buscar_etiqueta, n) refl
        | inr (t, n) ↦
            let hay = sym (etiquetas.list_get_lem es contador) ∙ n in
            let otro =
              All-get_elem? (λ t. servicios.string_equals_ignore_case t.etiquetas nombre ≡ false) es
                contador a hay in
            rw (buscar_etiqueta, n, otro)
              (buscar_etiqueta-se_pasa es v (suc contador) a (get_elem?-menor es contador hay)
                (omega arith))
      ]

  module _ (e : Ejecucion) (corre : (e.pcb.estado_en_cpu == ejecutando) ≡ true)
      (no_nueva : servicios.string_equals_ignore_case (take 1 nombre) (codes ":") ≡ false) where
    -- In a process that runs, a jump to a name that does not start with ':' and is no label reads a NULL, where there are
    -- labels and fewer of them than instructions: the loop over the labels runs as often as there are instructions.
    pub ir_a_funcion-falla :
        Ausente e.pcb.indice_etiquetas
        → 0 < length e.pcb.indice_etiquetas
        → length e.pcb.indice_etiquetas < length e.pcb.indice_codigo
        → ir_a_funcion servicios nombre e ≡ none
    unfolding ir_a_funcion villereada buscar_nombre
    ir_a_funcion-falla a h l =
        rw
          (
            ir_a_funcion,
            villereada,
            corre,
            no_nueva,
            buscar_nombre,
            lt→ltb 0 (length e.pcb.indice_etiquetas) h,
            ◌>>=◌,
            buscar_etiqueta-se_pasa e.pcb.indice_etiquetas (length e.pcb.indice_codigo) 0 a
                (omega arith) (omega (arith, l)),
          )
          refl

    module _ (texto : Codigo → List ℕ) where
      -- The memory server answers with the text of the instruction, and nothing else changes.
      abbrev pub Dice : Codigo → Type 0
      Dice c = pedir_a_memoria_string servicios c e ≡ some (e, some (texto c))

      abbrev pub Otra : Codigo → Type 0
      Otra c = servicios.string_equals_ignore_case (texto c) (codes "function " ++ nombre) ≡ false

      buscar_sentencia-primera :
          (cs : List Codigo) (k i : ℕ) {c : Codigo}
          → All Dice cs
          → get_elem? cs i ≡ some c
          → All Otra (take i cs)
          → servicios.string_equals_ignore_case (texto c) (codes "function " ++ nombre) ≡ true
          → buscar_sentencia servicios false (codes "function " ++ nombre) cs k e
            ≡ some (e, pos (k + i))
      unfolding buscar_sentencia
      buscar_sentencia-primera [] k i a h o s = cc
      buscar_sentencia-primera (d ∷ cs) k zero {c} a h o s =
          let mismo : d ≡ c = cc in
          let igual : servicios.string_equals_ignore_case (texto d) (codes "function " ++ nombre)
              ≡ true =
            ap (λ x. servicios.string_equals_ignore_case (texto x) (codes "function " ++ nombre))
              mismo
            ∙ s in
          rw (buscar_sentencia, a.0, ◌>>=◌, igual) (ap (λ n. some (e, pos n)) (omega arith))
      buscar_sentencia-primera (d ∷ cs) k (suc i) a h o s =
          rw (buscar_sentencia, a.0, ◌>>=◌, o.0)
            (buscar_sentencia-primera cs (suc k) i a.1 h o.1 s
              ∙ ap (λ n. some (e, pos n)) (omega arith))

      -- In a process that runs and has no labels, and for whose instructions the memory server answers with their
      -- texts, a jump to a name that does not start with ':' sets the program counter to the first instruction
      -- that is "function" and the name, at an index below 2 ^ 32, and changes nothing else.
      pub ir_a_funcion_lem :
          (i : ℕ) {c : Codigo}
          → e.pcb.indice_etiquetas ≡ []
          → All Dice e.pcb.indice_codigo
          → get_elem? e.pcb.indice_codigo i ≡ some c
          → All Otra (take i e.pcb.indice_codigo)
          → servicios.string_equals_ignore_case (texto c) (codes "function " ++ nombre) ≡ true
          → i < 2 ^ 32
          → ir_a_funcion servicios nombre e
            ≡ some (record e { pcb = record e.pcb { program_counter = i } })
      unfolding ir_a_funcion villereada buscar_nombre
      ir_a_funcion_lem i {c} z a h o s l =
          let sin : ltb 0 (length e.pcb.indice_etiquetas) ≡ false =
            ap (λ es. ltb 0 (length es)) z in
          rw
            (
              ir_a_funcion,
              villereada,
              corre,
              no_nueva,
              buscar_nombre,
              sin,
              ◌>>=◌,
              buscar_sentencia-primera e.pcb.indice_codigo 0 i a h o s,
            )
            (ap (λ n. some (record e { pcb = record e.pcb { program_counter = n } }))
              (omega (arith, l)))
