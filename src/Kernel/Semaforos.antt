-- ===== src/Kernel/Semaforos.antt =====
-- The shared semaphores and variables of src/kernel/kernel.c: the cases of atenderES and of the main loop
-- that wait for, signal, read and write them. An outer `none` is a fault.
pub mod Espera
use tp_sisop_1c_2017_david.Prelude.{
  ℕ, zero, suc, ◌+◌, ℤ, pos, negsuc, suc_ℤ, pred_ℤ, eqb_ℤ, Bool, true, false, ltb, ◌==◌,
  if◌then◌else◌, Option, none, some, List, [], ◌∷◌, Commons, codes, length,
}
use tp_sisop_1c_2017_david.Comunicacion.{iguales}
use tp_sisop_1c_2017_david.Comunicacion.Campos.{Campo, numero}
use tp_sisop_1c_2017_david.Kernel.Planificacion.{
  Kernel, Pcb, VarComp, Envio, buscar, escribir_pcb, enviar, exit_code_correcto, esperando_semaforo,
  termino_espera,
}

-- `KC_SIGNAL_RESPUESTA`, `KC_VARIABLE_LECTURA_RESPUESTA` and `KC_VARIABLE_ESCRITURA_RESPUESTA`
abbrev pub kc_signal_respuesta : ℕ
kc_signal_respuesta = 118

abbrev pub kc_variable_lectura_respuesta : ℕ
kc_variable_lectura_respuesta = 120

abbrev pub kc_variable_escritura_respuesta : ℕ
kc_variable_escritura_respuesta = 122

-- A test `valor > 0`
abbrev pub es_positivo : ℤ → Bool
es_positivo (pos zero) = false
es_positivo (pos (suc n)) = true
es_positivo (negsuc n) = false

-- A write through the pointer that `list_find` returned: to the first entry with the name.
unfoldable pub con_var : (VarComp → VarComp) → List ℕ → List VarComp → List VarComp
con_var f nombre [] = []
con_var f nombre (v ∷ vs) =
    let resto = con_var f nombre vs in if iguales v.nombre nombre then f v ∷ vs else v ∷ resto

module _ ⦃commons : Commons ℤ⦄ where
  -- `queue_push` and `queue_pop`, which the library has as the list functions at its two ends.
  abbrev pub queue_push : List ℤ → ℤ → List ℤ
  queue_push pila pid = commons.list_add pila pid

  abbrev pub queue_pop : List ℤ → Option ℤ × List ℤ
  queue_pop pila = (commons.list_get pila 0, commons.list_remove pila 0)

  -- What the wait of a process does to a semaphore: the process that goes on, if any, and the semaphore.
  unfoldable pub wait_en : ℤ → VarComp → Option ℤ × VarComp
  wait_en pid sem =
      let pila = queue_push sem.pila_espera pid in
      elim (es_positivo sem.valor) [
        | true ↦ (
          (queue_pop pila).0,
          record sem { valor = pred_ℤ sem.valor; pila_espera = (queue_pop pila).1 },
        )
        | false ↦ (none, record sem { pila_espera = pila })
      ]

  -- The same for a signal.
  unfoldable pub signal_en : VarComp → Option ℤ × VarComp
  signal_en sem = elim (ltb 0 (length sem.pila_espera)) [
    | true ↦ (
      (queue_pop sem.pila_espera).0,
      record sem { valor = pred_ℤ (suc_ℤ sem.valor); pila_espera = (queue_pop sem.pila_espera).1 },
    )
    | false ↦ (none, record sem { valor = suc_ℤ sem.valor })
  ]

module _ {σ φ : Type 0} where
  -- The process that a queue gave is told how it goes on.
  abbrev pub despertar : Option ℤ → ℤ → Kernel σ φ → Kernel σ φ
  despertar none codigo s = s
  despertar (some pid) codigo s = escribir_pcb (λ p. record p { exit_code = codigo }) pid s

  abbrev pub responder : ℤ → ℕ → ℤ → Kernel σ φ → Kernel σ φ
  responder sock tipo resultado s =
      enviar sock tipo ((codes "resultado_respuesta", numero resultado) ∷ []) s

module _ ⦃commons : Commons ℤ⦄ ⦃vars : Commons VarComp⦄ {σ φ : Type 0} where
  -- The case `OPERACION_WAIT_SEMAFORO` of `atenderES`, for what the search for the semaphore found
  abbrev pub esperar_en : ℤ → List ℕ → Option VarComp → Kernel σ φ → Kernel σ φ
  esperar_en pid nombre none s = s
  esperar_en pid nombre (some sem) s =
      despertar (wait_en pid sem).0 exit_code_correcto
        (record s { semaforos_comp = con_var (λ _. (wait_en pid sem).1) nombre s.semaforos_comp })

  unfoldable pub wait_semaforo : ℤ → Kernel σ φ → Kernel σ φ
  unfolding wait_en
  wait_semaforo pid s =
      let nombre = (buscar s pid).nombre_semaforo in
      esperar_en pid nombre (vars.list_find s.semaforos_comp (λ v. iguales v.nombre nombre))
        (escribir_pcb (λ p. record p { exit_code = esperando_semaforo }) pid s)

  -- The case `CK_SIGNAL` of the main loop, for what the search for the semaphore found. For one that is not
  -- there it answers to the socket of a CPU that it never looked up.
  abbrev pub avisar_en : ℤ → List ℕ → Option VarComp → Kernel σ φ → Option (Kernel σ φ)
  avisar_en sock nombre none s = none
  avisar_en sock nombre (some sem) s = some (
      despertar (signal_en sem).0 termino_espera (
        responder sock kc_signal_respuesta (pos 1)
          (record s { semaforos_comp = con_var (λ _. (signal_en sem).1) nombre s.semaforos_comp })))

  unfoldable pub signal_semaforo : ℤ → ℤ → List ℕ → Kernel σ φ → Option (Kernel σ φ)
  unfolding signal_en
  signal_semaforo pid sock nombre s =
      avisar_en sock nombre (vars.list_find s.semaforos_comp (λ v. iguales v.nombre nombre))
        (escribir_pcb (λ p. record p { nombre_semaforo = nombre }) pid s)

  -- The case `CK_VARIABLE_LECTURA`, for what the search for the variable found
  abbrev pub lectura_de : ℤ → Option VarComp → Kernel σ φ → Kernel σ φ
  lectura_de sock none s =
      enviar sock kc_variable_lectura_respuesta
        ((codes "resultado_respuesta", numero (pos 0)) ∷ (codes "valor", numero (pos 0)) ∷ []) s
  lectura_de sock (some v) s =
      enviar sock kc_variable_lectura_respuesta
        ((codes "resultado_respuesta", numero (pos 1)) ∷ (codes "valor", numero v.valor) ∷ []) s

  abbrev pub leer_variable : ℤ → List ℕ → Kernel σ φ → Kernel σ φ
  leer_variable sock nombre s =
      lectura_de sock (vars.list_find s.variables_comp (λ v. iguales v.nombre nombre)) s

  -- The case `CK_VARIABLE_ESCRITURA`, in the same way
  abbrev pub escritura_de : ℤ → List ℕ → ℤ → Option VarComp → Kernel σ φ → Kernel σ φ
  escritura_de sock nombre valor none s = responder sock kc_variable_escritura_respuesta (pos 0) s
  escritura_de sock nombre valor (some v) s =
      responder sock kc_variable_escritura_respuesta (pos 1) (record s {
        variables_comp = con_var (λ w. record w { valor = valor }) nombre s.variables_comp;
      })

  abbrev pub escribir_variable : ℤ → List ℕ → ℤ → Kernel σ φ → Kernel σ φ
  escribir_variable sock nombre valor s =
      escritura_de sock nombre valor
        (vars.list_find s.variables_comp (λ v. iguales v.nombre nombre)) s
