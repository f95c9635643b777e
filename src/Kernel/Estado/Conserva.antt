-- ===== src/Kernel/Estado/Conserva.antt =====
-- No process is lost or doubled by a transition of src/kernel/kernel.c.
use tp_sisop_1c_2017_david.Prelude.{
  ℕ, zero, suc, ◌+◌, ℤ, pos, eqb_ℤ, ltb, ◌==◌, ◌≡◌, refl, sym, ap, ◌∙◌, Option, Option-cases,
  Bool-cases, none, some, List, [], ◌∷◌, inl, inr, get_elem?, Commons, length,
}
use tp_sisop_1c_2017_david.Comunicacion.{iguales}
use tp_sisop_1c_2017_david.Kernel.Contexto.{campos_contexto, enviado}
use tp_sisop_1c_2017_david.Kernel.Planificacion.{
  Kernel, Cpu, VarComp, Entorno, Cola, nuevos, listos, ejecutando, bloqueados, terminados, con_cola,
  buscar, mover, escribir_pcb, enviar, finalizar_programa_con_error, exit_code_correcto,
  esperando_semaforo, termino_espera,
}
use tp_sisop_1c_2017_david.Kernel.Planificacion.Colas.{cuenta, cuenta_total}
use tp_sisop_1c_2017_david.Kernel.Planificacion.Mover.{mover-Movido, pasar}
use tp_sisop_1c_2017_david.Kernel.Semaforos.{wait_semaforo, wait_en, esperar_en, despertar, con_var}
use tp_sisop_1c_2017_david.Kernel.Estado.{
  ck_enviar_contexto, es_de_archivo, operacion_wait_semaforo, atender_operacion, atender_es,
  revisar_bloqueado, revisar_bloqueados, admitir, admitir_nuevos, despachar,
  actualizar_estado_sistema,
}

-- The five lists together hold every process as often as before.
abbrev pub Reparte : {σ φ : Type 0} → Kernel σ φ → Kernel σ φ → Type 0
Reparte s s' = (q : ℤ) → cuenta_total q s' ≡ cuenta_total q s

-- The five lists and the two numbers that planning compares.
pub record Plan : Type 0 where
  pub new : List ℤ
  pub ready : List ℤ
  pub exec : List ℤ
  pub blocked : List ℤ
  pub exit : List ℤ
  pub procesos : ℕ
  pub grado : ℕ

module _ {σ φ : Type 0} where
  abbrev pub plan : Kernel σ φ → Plan
  plan s = record {
    new = s.new;
    ready = s.ready;
    exec = s.exec;
    blocked = s.blocked;
    exit = s.exit;
    procesos = s.procesos_en_sistema;
    grado = s.grado_multiprogramacion;
  }

  abbrev pub MismasColas : Kernel σ φ → Kernel σ φ → Type 0
  MismasColas s s' = plan s' ≡ plan s

  pub MismasColas-Reparte : (s s' : Kernel σ φ) → MismasColas s s' → Reparte s s'
  MismasColas-Reparte s s' m q =
      ap
        (λ p.
          cuenta q p.new
          + cuenta q p.ready
          + cuenta q p.exec
          + cuenta q p.blocked
          + cuenta q p.exit)
        m

  pub despertar-MismasColas :
      (o : Option ℤ) (codigo : ℤ) (s : Kernel σ φ) → MismasColas s (despertar o codigo s)
  despertar-MismasColas none codigo s = refl
  despertar-MismasColas (some pid) codigo s = refl

module _ ⦃commons : Commons ℤ⦄ ⦃vars : Commons VarComp⦄ {σ φ : Type 0} (entorno : Entorno σ φ) where
  esperar_en-MismasColas :
      (pid : ℤ) (nombre : List ℕ) (o : Option VarComp) (s : Kernel σ φ)
      → MismasColas s (esperar_en pid nombre o s)
  esperar_en-MismasColas pid nombre none s = refl
  esperar_en-MismasColas pid nombre (some sem) s =
      despertar-MismasColas (wait_en pid sem).0 exit_code_correcto
        (record s { semaforos_comp = con_var (λ _. (wait_en pid sem).1) nombre s.semaforos_comp })

  wait_semaforo-MismasColas : (pid : ℤ) (s : Kernel σ φ) → MismasColas s (wait_semaforo pid s)
  unfolding wait_semaforo
  wait_semaforo-MismasColas pid s =
      esperar_en-MismasColas pid (buscar s pid).nombre_semaforo
        (vars.list_find s.semaforos_comp (λ v. iguales v.nombre (buscar s pid).nombre_semaforo))
        (escribir_pcb (λ p. record p { exit_code = esperando_semaforo }) pid s)

  atender_operacion-MismasColas :
      (op : ℕ) (pid : ℤ) (s : Kernel σ φ) → MismasColas s (atender_operacion entorno op pid s)
  unfolding atender_operacion
  atender_operacion-MismasColas op pid s = elim (Bool-cases (es_de_archivo op)) [
    | inl e ↦ rw (atender_operacion, e) refl
    | inr e ↦ elim (Bool-cases (op == operacion_wait_semaforo)) [
      | inl f ↦ rw (atender_operacion, e, f) (wait_semaforo-MismasColas pid s)
      | inr f ↦ rw (atender_operacion, e, f) refl
    ]
  ]

  pub atender_es-MismasColas : (pid : ℤ) (s : Kernel σ φ) → MismasColas s (atender_es entorno pid s)
  unfolding atender_es
  atender_es-MismasColas pid s₀ =
      let s =
        escribir_pcb (λ p. record p { fui_a_entrada_salida = 1; exit_code = exit_code_correcto })
          pid s₀ in
      atender_operacion-MismasColas (buscar s pid).operacion_es pid s

  pub finalizar_programa_con_error-Reparte :
      (c : Cola) (pid : ℤ) (s : Kernel σ φ)
      → Reparte s (finalizar_programa_con_error entorno c pid s)
  unfolding finalizar_programa_con_error
  finalizar_programa_con_error-Reparte c pid s = elim (Option-cases (mover c terminados pid s)) [
    | inl e ↦ λ q. rw (finalizar_programa_con_error, e) refl
    | inr (s', e) ↦
        λ q. rw (finalizar_programa_con_error, e) ((mover-Movido c terminados pid s e).total q)
  ]

  pub revisar_bloqueado-Reparte :
      (pid : ℤ) (i : ℕ) (s : Kernel σ φ)
      → get_elem? s.blocked i ≡ some pid
      → Reparte s (revisar_bloqueado entorno pid i s)
  unfolding revisar_bloqueado
  revisar_bloqueado-Reparte pid i s h q =
      let s' = atender_es entorno pid s in
      let m = atender_es-MismasColas pid s in
      let a = MismasColas-Reparte s s' m q in
      elim (Bool-cases (eqb_ℤ (buscar s pid).exit_code termino_espera)) [
        | inl e ↦ rw (revisar_bloqueado, e) refl
        | inr e ↦ elim (Bool-cases (eqb_ℤ (buscar s pid).exit_code esperando_semaforo)) [
          | inl f ↦ rw (revisar_bloqueado, e, f) refl
          | inr f ↦ elim (Bool-cases (eqb_ℤ (buscar s' pid).exit_code exit_code_correcto)) [
            | inl g ↦
                rw (revisar_bloqueado, e, f, g)
                  ((pasar bloqueados listos pid i s' (ap (λ p. get_elem? p.blocked i) m ∙ h)).total
                      q
                    ∙ a)
            | inr g ↦ elim (Bool-cases (eqb_ℤ (buscar s' pid).exit_code esperando_semaforo)) [
              | inl k ↦ rw (revisar_bloqueado, e, f, g, k) a
              | inr k ↦
                  rw (revisar_bloqueado, e, f, g, k)
                    (finalizar_programa_con_error-Reparte bloqueados pid s' q ∙ a)
            ]
          ]
        ]
      ]

  revisar_bloqueados-Reparte :
      (fuel i : ℕ) (s : Kernel σ φ) → Reparte s (revisar_bloqueados entorno fuel i s)
  unfolding revisar_bloqueados
  revisar_bloqueados-Reparte zero i s q = refl
  revisar_bloqueados-Reparte (suc fuel) i s q = elim (Option-cases (commons.list_get s.blocked i)) [
    | inl e ↦ rw (revisar_bloqueados, e) refl
    | inr (pid, e) ↦
        rw (revisar_bloqueados, e)
          (revisar_bloqueados-Reparte fuel (suc i) (revisar_bloqueado entorno pid i s) q
            ∙ revisar_bloqueado-Reparte pid i s (sym (commons.list_get_lem s.blocked i) ∙ e) q)
  ]

  pub admitir-Reparte :
      (pid : ℤ) (i : ℕ) (s : Kernel σ φ)
      → get_elem? s.new i ≡ some pid
      → Reparte s (admitir entorno pid i s)
  unfolding admitir
  admitir-Reparte pid i s h q =
      let r = entorno.cargar s.memoria (buscar s pid) in
      let s' = escribir_pcb (λ _. r.1) pid (record s { memoria = r.0 }) in
      (pasar nuevos listos pid i s' h).total q

  admitir_nuevos-Reparte :
      (fuel i : ℕ) (s : Kernel σ φ) → Reparte s (admitir_nuevos entorno fuel i s)
  unfolding admitir_nuevos
  admitir_nuevos-Reparte zero i s q = refl
  admitir_nuevos-Reparte (suc fuel) i s q = elim (Option-cases (commons.list_get s.new i)) [
    | inl e ↦ rw (admitir_nuevos, e) refl
    | inr (pid, e) ↦ elim (Bool-cases (ltb s.procesos_en_sistema s.grado_multiprogramacion)) [
      | inl f ↦
          rw (admitir_nuevos, e, f)
            (admitir_nuevos-Reparte fuel (suc i) (admitir entorno pid i s) q
              ∙ admitir-Reparte pid i s (sym (commons.list_get_lem s.new i) ∙ e) q)
      | inr f ↦ rw (admitir_nuevos, e, f) (admitir_nuevos-Reparte fuel (suc i) s q)
    ]
  ]

  -- One CPU of the loop gets the process at the head of the ready list.
  unfoldable pub despachado : ℤ → Cpu → Kernel σ φ → Kernel σ φ
  despachado pid cpu s =
      let t = con_cola ejecutando (commons.list_add s.exec pid) s in
      let campos = campos_contexto entorno.algoritmo entorno.stack_max_size (buscar s pid) in
      let u = escribir_pcb enviado pid (enviar cpu.sock ck_enviar_contexto campos t) in
      con_cola listos (commons.list_remove u.ready 0) u

  despachar-Reparte : (cpus : List Cpu) (s : Kernel σ φ) → Reparte s (despachar entorno cpus s).1
  unfolding despachar despachado
  despachar-Reparte [] s q = refl
  despachar-Reparte (cpu ∷ cpus) s q = elim (Bool-cases cpu.libre) [
    | inr e ↦ rw (despachar, e) (despachar-Reparte cpus s q)
    | inl e ↦ elim (Bool-cases (eqb_ℤ cpu.activo (pos 0))) [
      | inl f ↦ rw (despachar, e, f) (despachar-Reparte cpus s q)
      | inr f ↦ elim (Option-cases (commons.list_get s.ready 0)) [
        | inl g ↦ rw (despachar, e, f, g) (despachar-Reparte cpus s q)
        | inr (pid, g) ↦
            rw (despachar, e, f, g)
              (despachar-Reparte cpus (despachado pid cpu s) q
                ∙ (pasar listos ejecutando pid 0 s (sym (commons.list_get_lem s.ready 0) ∙ g)).total
                    q)
      ]
    ]
  ]

  -- `actualizarEstadoSistema` loses no process and doubles none: each one stands in the five lists as often
  -- as before.
  pub actualizar_estado_sistema-Reparte :
      (s : Kernel σ φ) → Reparte s (actualizar_estado_sistema entorno s)
  unfolding actualizar_estado_sistema
  actualizar_estado_sistema-Reparte s q =
      let t = revisar_bloqueados entorno (length s.blocked) 0 s in
      let u = admitir_nuevos entorno (length t.new) 0 t in
      despachar-Reparte u.cpus u q
      ∙ admitir_nuevos-Reparte (length t.new) 0 t q
      ∙ revisar_bloqueados-Reparte (length s.blocked) 0 s q
