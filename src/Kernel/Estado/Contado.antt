-- ===== src/Kernel/Estado/Contado.antt =====
-- The number of admitted processes, procesosEnSistema of src/kernel/kernel.c, against the lists.
use tp_sisop_1c_2017_david.Prelude.{
  ℕ, zero, suc, ◌+◌, ◌^◌, ◌≤◌, ◌<◌, ℤ, pos, eqb_ℤ, Bool-cases, ltb, ltb→lt, ◌≡◌, refl, sym, ap,
  subst, ◌∙◌, Option-cases, some, List, [], ◌∷◌, inl, inr, get_elem?, Commons, arith, length,
}
use tp_sisop_1c_2017_david.Kernel.Planificacion.{
  Kernel, Cpu, VarComp, Entorno, Cola, nuevos, listos, ejecutando, bloqueados, terminados, buscar,
  mover, escribir_pcb, restar_uno, finalizar_programa_con_error, exit_code_correcto,
  esperando_semaforo, termino_espera,
}
use tp_sisop_1c_2017_david.Kernel.Planificacion.Colas.{peso}
use tp_sisop_1c_2017_david.Kernel.Planificacion.Mover.{Movido, mover-Movido, pasar}
use tp_sisop_1c_2017_david.Kernel.Estado.{
  atender_es, revisar_bloqueado, revisar_bloqueados, admitir, admitir_nuevos, despachar,
  actualizar_estado_sistema,
}
use tp_sisop_1c_2017_david.Kernel.Estado.Conserva.{Plan, plan, atender_es-MismasColas, despachado}

-- The counter is the number of processes in the ready, running and blocked lists, and neither it nor the degree
-- of multiprogramming is above a bound.
abbrev pub EnCupoPlan : ℕ → Plan → Type 0
EnCupoPlan n p =
    (p.procesos ≡ length p.ready + length p.exec + length p.blocked)
    × (p.procesos ≤ n)
    × (p.grado ≤ n)

module _ {σ φ : Type 0} where
  abbrev pub EnCupo : ℕ → Kernel σ φ → Type 0
  EnCupo n s = EnCupoPlan n (plan s)

restar_uno_lem : (n : ℕ) → 0 < n → n < 2 ^ 32 → suc (restar_uno n) ≡ n
restar_uno_lem n h k = omega arith

module _ ⦃commons : Commons ℤ⦄ ⦃vars : Commons VarComp⦄ {σ φ : Type 0} (entorno : Entorno σ φ)
    (n : ℕ) (cabe : n < 2 ^ 32) where
  -- The end of a process of an admitted list.
  terminado-EnCupo :
      (c : Cola) {s s' : Kernel σ φ}
      → peso c ≡ 1
      → Movido c terminados s s'
      → EnCupo n s
      → EnCupo n (record s' { procesos_en_sistema = restar_uno s'.procesos_en_sistema })
  terminado-EnCupo c {s} {s'} uno m h =
      let a = m.admision in
      let b = m.datos.procesos in
      let g = m.datos.grado in
      let r = restar_uno_lem s'.procesos_en_sistema (omega arith) (omega arith) in
      (omega (arith, r), omega (arith, r), omega arith)

  -- A move between two admitted lists.
  Movido-EnCupo :
      (o d : Cola) {s s' : Kernel σ φ}
      → peso o ≡ peso d
      → Movido o d s s'
      → EnCupo n s
      → EnCupo n s'
  Movido-EnCupo o d mismo m h =
      let a = m.admision in
      let b = m.datos.procesos in let g = m.datos.grado in (omega arith, omega arith, omega arith)

  finalizar_programa_con_error-EnCupo :
      (c : Cola) (pid : ℤ) (s : Kernel σ φ)
      → peso c ≡ 1
      → EnCupo n s
      → EnCupo n (finalizar_programa_con_error entorno c pid s)
  unfolding finalizar_programa_con_error
  finalizar_programa_con_error-EnCupo c pid s uno h =
      elim (Option-cases (mover c terminados pid s)) [
        | inl e ↦ rw (finalizar_programa_con_error, e) h
        | inr (s', e) ↦
            rw (finalizar_programa_con_error, e)
              (terminado-EnCupo c uno (mover-Movido c terminados pid s e) h)
      ]

  revisar_bloqueado-EnCupo :
      (pid : ℤ) (i : ℕ) (s : Kernel σ φ)
      → get_elem? s.blocked i ≡ some pid
      → EnCupo n s
      → EnCupo n (revisar_bloqueado entorno pid i s)
  unfolding revisar_bloqueado
  revisar_bloqueado-EnCupo pid i s k h =
      let s' = atender_es entorno pid s in
      let m = atender_es-MismasColas entorno pid s in
      let h' : EnCupo n s' = subst (EnCupoPlan n) (sym m) h in
      elim (Bool-cases (eqb_ℤ (buscar s pid).exit_code termino_espera)) [
        | inl e ↦ rw (revisar_bloqueado, e) h
        | inr e ↦ elim (Bool-cases (eqb_ℤ (buscar s pid).exit_code esperando_semaforo)) [
          | inl f ↦ rw (revisar_bloqueado, e, f) h
          | inr f ↦ elim (Bool-cases (eqb_ℤ (buscar s' pid).exit_code exit_code_correcto)) [
            | inl g ↦
                let v = pasar bloqueados listos pid i s' (ap (λ p. get_elem? p.blocked i) m ∙ k) in
                rw (revisar_bloqueado, e, f, g) (Movido-EnCupo bloqueados listos refl v h')
            | inr g ↦ elim (Bool-cases (eqb_ℤ (buscar s' pid).exit_code esperando_semaforo)) [
              | inl j ↦ rw (revisar_bloqueado, e, f, g, j) h'
              | inr j ↦
                  rw (revisar_bloqueado, e, f, g, j)
                    (finalizar_programa_con_error-EnCupo bloqueados pid s' refl h')
            ]
          ]
        ]
      ]

  revisar_bloqueados-EnCupo :
      (fuel i : ℕ) (s : Kernel σ φ) → EnCupo n s → EnCupo n (revisar_bloqueados entorno fuel i s)
  unfolding revisar_bloqueados
  revisar_bloqueados-EnCupo zero i s h = h
  revisar_bloqueados-EnCupo (suc fuel) i s h = elim (Option-cases (commons.list_get s.blocked i)) [
    | inl e ↦ rw (revisar_bloqueados, e) h
    | inr (pid, e) ↦
        rw (revisar_bloqueados, e)
          (revisar_bloqueados-EnCupo fuel (suc i) (revisar_bloqueado entorno pid i s)
            (revisar_bloqueado-EnCupo pid i s (sym (commons.list_get_lem s.blocked i) ∙ e) h))
  ]

  admitir-EnCupo :
      (pid : ℤ) (i : ℕ) (s : Kernel σ φ)
      → get_elem? s.new i ≡ some pid
      → s.procesos_en_sistema < s.grado_multiprogramacion
      → EnCupo n s
      → EnCupo n (admitir entorno pid i s)
  unfolding admitir
  admitir-EnCupo pid i s k menos h =
      let r = entorno.cargar s.memoria (buscar s pid) in
      let s' = escribir_pcb (λ _. r.1) pid (record s { memoria = r.0 }) in
      let m = pasar nuevos listos pid i s' k in
      let a = m.admision in
      let b = m.datos.procesos in let g = m.datos.grado in (omega arith, omega arith, omega arith)

  admitir_nuevos-EnCupo :
      (fuel i : ℕ) (s : Kernel σ φ) → EnCupo n s → EnCupo n (admitir_nuevos entorno fuel i s)
  unfolding admitir_nuevos
  admitir_nuevos-EnCupo zero i s h = h
  admitir_nuevos-EnCupo (suc fuel) i s h = elim (Option-cases (commons.list_get s.new i)) [
    | inl e ↦ rw (admitir_nuevos, e) h
    | inr (pid, e) ↦ elim (Bool-cases (ltb s.procesos_en_sistema s.grado_multiprogramacion)) [
      | inl f ↦
          rw (admitir_nuevos, e, f)
            (admitir_nuevos-EnCupo fuel (suc i) (admitir entorno pid i s) (
              admitir-EnCupo pid i s (sym (commons.list_get_lem s.new i) ∙ e)
                (ltb→lt s.procesos_en_sistema s.grado_multiprogramacion f) h))
      | inr f ↦ rw (admitir_nuevos, e, f) (admitir_nuevos-EnCupo fuel (suc i) s h)
    ]
  ]

  despachar-EnCupo :
      (cpus : List Cpu) (s : Kernel σ φ) → EnCupo n s → EnCupo n (despachar entorno cpus s).1
  unfolding despachar despachado
  despachar-EnCupo [] s h = h
  despachar-EnCupo (cpu ∷ cpus) s h = elim (Bool-cases cpu.libre) [
    | inr e ↦ rw (despachar, e) (despachar-EnCupo cpus s h)
    | inl e ↦ elim (Bool-cases (eqb_ℤ cpu.activo (pos 0))) [
      | inl f ↦ rw (despachar, e, f) (despachar-EnCupo cpus s h)
      | inr f ↦ elim (Option-cases (commons.list_get s.ready 0)) [
        | inl g ↦ rw (despachar, e, f, g) (despachar-EnCupo cpus s h)
        | inr (pid, g) ↦
            let m = pasar listos ejecutando pid 0 s (sym (commons.list_get_lem s.ready 0) ∙ g) in
            let h' : EnCupo n (despachado entorno pid cpu s) =
              Movido-EnCupo listos ejecutando refl m h in
            rw (despachar, e, f, g) (despachar-EnCupo cpus (despachado entorno pid cpu s) h')
      ]
    ]
  ]

  -- If procesosEnSistema is the number of processes in the ready, running and blocked lists, and neither it nor
  -- the degree of multiprogramming is above a bound below 2 ^ 32, then both hold again after
  -- `actualizarEstadoSistema`.
  pub actualizar_estado_sistema-EnCupo :
      (s : Kernel σ φ) → EnCupo n s → EnCupo n (actualizar_estado_sistema entorno s)
  unfolding actualizar_estado_sistema
  actualizar_estado_sistema-EnCupo s h =
      let t = revisar_bloqueados entorno (length s.blocked) 0 s in
      let u = admitir_nuevos entorno (length t.new) 0 t in
      despachar-EnCupo u.cpus u (
        admitir_nuevos-EnCupo (length t.new) 0 t
          (revisar_bloqueados-EnCupo (length s.blocked) 0 s h))
