-- ===== src/Cpu/Llamadas.antt =====
-- Labels, calls and returns of src/cpu/cpu.c: villereada, irAFuncion, llamarConRetorno, finalizar, and
-- definirVariable in the level of the stack that runs. `none` is a fault, a NULL that is read.
pub mod Saltos
pub mod Regreso
pub mod Etiquetas
use tp_sisop_1c_2017_david.Prelude.{
  ℕ, zero, suc, ◌+◌, ◌-◌, ◌%◌, ◌&&◌, take, drop, ◌^◌, ◌==◌, ltb, ℤ, pos, minus_one, eqb_ℤ, palabra,
  entero, Bool, true, false, if◌then◌else◌, Option, none, some, ◌>>=◌, List, [], ◌∷◌, ◌++◌, length,
  codes, set, Commons,
}
use tp_sisop_1c_2017_david.Comunicacion.{Mensaje, com_leer_int, com_leer_string}
use tp_sisop_1c_2017_david.Comunicacion.Campos.{Campo, numero}
use tp_sisop_1c_2017_david.Comunicacion.Secuencias.{sin_signo}
use tp_sisop_1c_2017_david.Contexto.{Etiqueta, Nivel, Codigo}
use tp_sisop_1c_2017_david.Cpu.Posiciones.{Posicion, puntero_convertir_a_posicion}
use tp_sisop_1c_2017_david.Cpu.Variables.{Variable, definir_variable}
use tp_sisop_1c_2017_david.Cpu.Contexto.{PcbActivo, respuesta_al_kernel}

-- `CK_FINALIZO_EJECUCION`, `CK_FINALIZO_CON_ERROR`, `CK_FINALIZO_STACKOVERFLOW`, `MC_DATO_RESPUESTA` and
-- `EJECUTANDO`
abbrev pub ck_finalizo_ejecucion : ℕ
ck_finalizo_ejecucion = 101

abbrev pub ck_finalizo_con_error : ℕ
ck_finalizo_con_error = 109

abbrev pub ck_finalizo_stackoverflow : ℕ
ck_finalizo_stackoverflow = 123

abbrev pub mc_dato_respuesta : ℕ
mc_dato_respuesta = 201

abbrev pub ejecutando : ℕ
ejecutando = 1200

-- The globals of the CPU, and the messages to the kernel, the last one first.
pub record Ejecucion : Type 0 where
  pub pcb : PcbActivo
  pub continuar_ejecutando : ℕ
  pub abortar : Bool
  pub voy_a_entrada_salida : Bool
  pub construccion : ℕ
  pub enviados : List (ℕ × List (List ℕ × Campo))

-- What a CPU asks of others: the answer of the memory server to `CM_PEDIR_DATO_MEMORIA`, and
-- `string_equals_ignore_case` of so-commons.
pub record Servicios : Type 0 where
  pub dato : List (List ℕ × Campo) → Mensaje
  pub string_equals_ignore_case : List ℕ → List ℕ → Bool

-- `respoderAlKernel`
abbrev pub responder_al_kernel : ℕ → Ejecucion → Ejecucion
responder_al_kernel valor e = record e {
  enviados = (valor, respuesta_al_kernel e.pcb) ∷ e.enviados;
}

abbrev pub con_estado : ℕ → Ejecucion → Ejecucion
con_estado estado e = record e { pcb = record e.pcb { estado_en_cpu = estado } }

-- The message of `pedirAMemoriaString`.
abbrev pub pedido_de_texto : PcbActivo → Codigo → List (List ℕ × Campo)
pedido_de_texto p donde =
    (codes "pid", sin_signo p.pid)
    ∷ (codes "pagina", sin_signo donde.pagina)
    ∷ (codes "offset", sin_signo donde.offset)
    ∷ (codes "size", sin_signo donde.size)
    ∷ (codes "esNum", numero (pos 0))
    ∷ []

module _ (servicios : Servicios) where
  -- The answer once its type and its length are as they should be.
  unfoldable pub texto_recibido : Mensaje → Ejecucion → Option (Ejecucion × Option (List ℕ))
  texto_recibido m e = com_leer_int m (codes "resultadoLectura") >>= λ leido.
      if eqb_ℤ leido (pos 1)
      then (com_leer_string m (codes "buffer") >>= λ t. some (e, t))
      else some
          (responder_al_kernel ck_finalizo_con_error (con_estado ck_finalizo_con_error e), some [])

  -- `pedirAMemoriaString`, whose NULL is the inner `none`. The text is compared with "rompi" as a pointer, which
  -- it never equals.
  unfoldable pub pedir_a_memoria_string : Codigo → Ejecucion → Option (Ejecucion × Option (List ℕ))
  unfolding texto_recibido
  pedir_a_memoria_string c e =
      let m = servicios.dato (pedido_de_texto e.pcb c) in
      let recibido = texto_recibido m e in
      if m.tipo == mc_dato_respuesta
      then (if m.len == 0 then some (record e { abortar = true }, none) else recibido)
      else some (responder_al_kernel ck_finalizo_con_error (record e { abortar = true }), none)

  -- The loops of `villereada` over the instructions, for the first one with the text. The one for "begin" gives up
  -- at an empty text.
  unfoldable pub buscar_sentencia :
      Bool → List ℕ → List Codigo → ℕ → Ejecucion → Option (Ejecucion × ℤ)
  unfolding pedir_a_memoria_string
  buscar_sentencia begin nombre [] contador e = some (e, minus_one)
  buscar_sentencia begin nombre (c ∷ cs) contador e = pedir_a_memoria_string c e >>= λ r.
      elim (r.1) [
        | none ↦ none
        | some t ↦ elim (begin && length t == 0) [
          | true ↦ some (r.0, minus_one)
          | false ↦ elim (servicios.string_equals_ignore_case t nombre) [
            | true ↦ some (r.0, pos contador)
            | false ↦ buscar_sentencia begin nombre cs (suc contador) r.0
          ]
        ]
      ]

  module _ ⦃etiquetas : Commons Etiqueta⦄ where
    -- The loop of `villereada` over the labels, which runs as often as there are instructions.
    unfoldable pub buscar_etiqueta : List ℕ → List Etiqueta → ℕ → ℕ → Option (Option ℕ)
    buscar_etiqueta nombre es zero contador = some none
    buscar_etiqueta nombre es (suc vueltas) contador = elim (etiquetas.list_get es contador) [
      | none ↦ none
      | some etiqueta ↦ elim (servicios.string_equals_ignore_case etiqueta.etiquetas nombre) [
        | true ↦ some (some etiqueta.ubicacion)
        | false ↦ buscar_etiqueta nombre es vueltas (suc contador)
      ]
    ]

    -- A name that starts with ':' is a new label at the program counter.
    abbrev pub agregar_etiqueta : List ℕ → Ejecucion → Ejecucion × ℤ
    agregar_etiqueta nombre e = (
      record e {
        pcb = record e.pcb {
          indice_etiquetas =
              etiquetas.list_add e.pcb.indice_etiquetas
                (record { etiquetas = drop 1 nombre; ubicacion = e.pcb.program_counter });
          program_counter = (e.pcb.program_counter + 1) % 2 ^ 32;
        };
      },
      entero e.pcb.program_counter,
    )

    -- Any other name is looked up among the labels, where there are any, and then as a function.
    unfoldable pub buscar_nombre : List ℕ → Ejecucion → Option (Ejecucion × ℤ)
    unfolding buscar_etiqueta buscar_sentencia
    buscar_nombre nombre e =
        (if ltb 0 (length e.pcb.indice_etiquetas)
          then buscar_etiqueta nombre e.pcb.indice_etiquetas (length e.pcb.indice_codigo) 0
          else some none)
        >>= λ o. elim (o) [
          | some ubicacion ↦ some (e, entero ubicacion)
          | none ↦ buscar_sentencia false (codes "function " ++ nombre) e.pcb.indice_codigo 0 e
        ]

    -- `villereada`, whose flag is 0 for the search of "begin".
    unfoldable pub villereada : List ℕ → Bool → Ejecucion → Option (Ejecucion × ℤ)
    unfolding buscar_nombre
    villereada nombre begin e = elim (e.pcb.estado_en_cpu == ejecutando) [
      | false ↦ some (e, minus_one)
      | true ↦ elim (begin) [
        | true ↦ buscar_sentencia true nombre e.pcb.indice_codigo 0 e
        | false ↦ elim (servicios.string_equals_ignore_case (take 1 nombre) (codes ":")) [
          | true ↦ some (agregar_etiqueta nombre e)
          | false ↦ buscar_nombre nombre e
        ]
      ]
    ]

    abbrev pub ir_a : Ejecucion × ℤ → Ejecucion
    ir_a (e, ubicacion) =
        if eqb_ℤ ubicacion minus_one
        then e
        else record e { pcb = record e.pcb { program_counter = palabra ubicacion } }

    -- `irAFuncion`, and `irAlLabel` and `llamarSinRetorno`, which only call it.
    unfoldable pub ir_a_funcion : List ℕ → Ejecucion → Option Ejecucion
    unfolding villereada
    ir_a_funcion nombre e = villereada nombre false e >>= λ r. some (ir_a r)

    module _ ⦃niveles : Commons (Nivel Variable)⦄ where
      -- The level that a call adds to the stack.
      abbrev pub nivel_nuevo : ℕ → PcbActivo → Nivel Variable
      nivel_nuevo donde_retornar p = record {
        id = length p.indice_stack;
        argumento = [];
        variable = [];
        ret_pos = p.program_counter;
        ret_var = puntero_convertir_a_posicion p.tam_pagina donde_retornar;
      }

      -- `llamarConRetorno`
      unfoldable pub llamar_con_retorno : List ℕ → ℕ → Ejecucion → Option Ejecucion
      unfolding ir_a_funcion
      llamar_con_retorno etiqueta donde_retornar e =
          let p = record e.pcb { stack_level = (e.pcb.stack_level + 1) % 2 ^ 32 } in
          elim (ltb p.stack_max_size p.stack_level) [
            | true ↦ some (con_estado ck_finalizo_stackoverflow (record e { pcb = p }))
            | false ↦ ir_a_funcion etiqueta (record e {
              pcb = record p {
                indice_stack = niveles.list_add p.indice_stack (nivel_nuevo donde_retornar p);
              };
            })
          ]

module _ ⦃niveles : Commons (Nivel Variable)⦄ where
  -- `finalizar`
  unfoldable pub finalizar : PcbActivo → Option PcbActivo
  finalizar p = elim (ltb 0 p.stack_level) [
    | true ↦ niveles.list_get p.indice_stack p.stack_level >>= λ nivel. some (record p {
      program_counter = nivel.ret_pos;
      indice_stack = niveles.list_remove p.indice_stack p.stack_level;
      stack_level = p.stack_level - 1;
    })
    | false ↦ some (record p { estado_en_cpu = ck_finalizo_ejecucion })
  ]

  module _ ⦃argumentos : Commons Posicion⦄ ⦃variables : Commons Variable⦄ where
    -- `definirVariable` in the level that runs, which the list holds by a pointer; and the pointer returned.
    unfoldable pub definir : ℕ → PcbActivo → Option (PcbActivo × ℕ)
    definir nombre p = niveles.list_get p.indice_stack p.stack_level >>= λ item.
        let r = definir_variable p.tam_pagina item p.stack_pointer nombre in
        some (
          record p { indice_stack = set p.indice_stack p.stack_level r.0; stack_pointer = r.1 },
          r.2,
        )
