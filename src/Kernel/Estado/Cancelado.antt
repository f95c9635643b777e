-- ===== src/Kernel/Estado/Cancelado.antt =====
-- The end of a program that was not admitted yet, by finalizarPrograma of src/kernel/kernel.c.
use tp_sisop_1c_2017_david.Prelude.{
  ℕ, zero, suc, ◌^◌, ◌≤◌, ◌<◌, ℤ, eqb_ℤ, minus_one, true, false, Bool-cases, ltb, le→ltb_false, ◌≡◌,
  ◌≢◌, refl, sym, ap, ◌∙◌, Option-cases, none, some, List, [], ◌∷◌, inl, inr, primero, Commons,
  arith,
}
use tp_sisop_1c_2017_david.Kernel.Planificacion.{
  Kernel, VarComp, Entorno, con_cola, nuevos, terminados, indice, siguiente, mover, esta,
  restar_uno, mensaje_a_consola_finalizo, finalizar_donde_este, finalizar_programa,
  finalizar_programa_con_error,
}
use tp_sisop_1c_2017_david.Kernel.Planificacion.Mover.{mover-Movido}
use tp_sisop_1c_2017_david.Kernel.Estado.{admitir_nuevos}
use tp_sisop_1c_2017_david.Kernel.Eventos.{con_error}

-- The search by `list_find` and the one by index agree on whether the process is there.
hay_indice :
    (pid : ℤ) (xs : List ℤ) {x : ℤ} → primero (λ q. eqb_ℤ q pid) xs ≡ some x → indice pid xs ≢ none
unfolding indice
hay_indice pid [] e n = cc
hay_indice pid (x ∷ xs) e n = elim (Bool-cases (eqb_ℤ x pid)) [
  | inl h ↦ let algo : indice pid (x ∷ xs) ≡ some 0 = rw (indice, h) refl in cc
  | inr h ↦
      let abre : indice pid (x ∷ xs) ≡ siguiente (indice pid xs) = rw (indice, h) refl in
      let resto : primero (λ q. eqb_ℤ q pid) (x ∷ xs) ≡ primero (λ q. eqb_ℤ q pid) xs =
        rw (h) refl in
      elim (Option-cases (indice pid xs)) [
        | inl m ↦ hay_indice pid xs (sym resto ∙ e) m
        | inr (j, m) ↦ let algo : indice pid (x ∷ xs) ≡ some (suc j) = abre ∙ ap siguiente m in cc
      ]
]

module _ ⦃commons : Commons ℤ⦄ {σ φ : Type 0} where
  hay_movida :
      (pid : ℤ) (s : Kernel σ φ) → esta pid s.new ≡ true → mover nuevos terminados pid s ≢ none
  unfolding mover
  hay_movida pid s e n = elim (Option-cases (commons.list_find s.new (λ q. eqb_ℤ q pid))) [
    | inl f ↦ let falso : esta pid s.new ≡ false = rw (esta, f) refl in cc
    | inr (x, f) ↦ elim (Option-cases (indice pid s.new)) [
      | inl m ↦ hay_indice pid s.new (sym (commons.list_find_lem s.new (λ q. eqb_ℤ q pid)) ∙ f) m
      | inr (i, m) ↦
          let t = con_cola nuevos (commons.list_remove s.new i) s in
          let algo : mover nuevos terminados pid s
              ≡ some (con_cola terminados (commons.list_add t.exit pid) t) =
            rw (mover, m) refl in
          cc
    ]
  ]

module _ {σ φ : Type 0} where
  -- The lists of the processes that were admitted and go on are the same.
  abbrev pub Admitidas : Kernel σ φ → Kernel σ φ → Type 0
  Admitidas s s' = (s'.ready ≡ s.ready) × (s'.exec ≡ s.exec) × (s'.blocked ≡ s.blocked)

module _ ⦃commons : Commons ℤ⦄ {σ φ : Type 0} where
  mover-Admitidas :
      (pid : ℤ) (s : Kernel σ φ) {s' : Kernel σ φ}
      → mover nuevos terminados pid s ≡ some s'
      → Admitidas s s'
  unfolding mover
  mover-Admitidas pid s {s'} e = elim (Option-cases (indice pid s.new)) [
    | inl m ↦ let nada : mover nuevos terminados pid s ≡ none = rw (mover, m) refl in cc
    | inr (i, m) ↦
        let t = con_cola nuevos (commons.list_remove s.new i) s in
        let u = con_cola terminados (commons.list_add t.exit pid) t in
        let algo : mover nuevos terminados pid s ≡ some u = rw (mover, m) refl in
        let son : s' ≡ u = cc in
        (ap (λ k. k.ready) son, ap (λ k. k.exec) son, ap (λ k. k.blocked) son)
  ]

module _ ⦃commons : Commons ℤ⦄ ⦃vars : Commons VarComp⦄ {σ φ : Type 0} (entorno : Entorno σ φ) where
  -- A program that ends before it was admitted takes one from the counter and nothing from the admitted lists.
  finalizar_en_new :
      (pid codigo : ℤ) (s : Kernel σ φ)
      → esta pid s.new ≡ true
      → let s' = finalizar_donde_este entorno pid codigo s in
        (s'.procesos_en_sistema ≡ restar_uno s.procesos_en_sistema)
        × Admitidas s s'
        × (s'.grado_multiprogramacion ≡ s.grado_multiprogramacion)
  unfolding finalizar_donde_este finalizar_programa_con_error
  finalizar_en_new pid codigo s h =
      let t = con_error codigo pid s in
      elim (Option-cases (mover nuevos terminados pid t)) [
        | inl e ↦ absurd (hay_movida pid t h e)
        | inr (s', e) ↦
            let m = mover-Movido nuevos terminados pid t e in
            let a = mover-Admitidas pid t e in
            rw (finalizar_donde_este, h, finalizar_programa_con_error, e)
              (ap restar_uno m.datos.procesos, (a.0, a.1, a.2), m.datos.grado)
      ]

  admitir_nuevos-lleno :
      (fuel i : ℕ) (s : Kernel σ φ)
      → s.grado_multiprogramacion ≤ s.procesos_en_sistema
      → admitir_nuevos entorno fuel i s ≡ s
  unfolding admitir_nuevos
  admitir_nuevos-lleno zero i s h = refl
  admitir_nuevos-lleno (suc fuel) i s h = elim (Option-cases (commons.list_get s.new i)) [
    | inl e ↦ rw (admitir_nuevos, e) refl
    | inr (pid, e) ↦
        let no : ltb s.procesos_en_sistema s.grado_multiprogramacion ≡ false =
          le→ltb_false s.procesos_en_sistema s.grado_multiprogramacion h in
        rw (admitir_nuevos, e, no) (admitir_nuevos-lleno fuel (suc i) s h)
  ]

  donde_este-traba :
      (pid codigo : ℤ) (s : Kernel σ φ) (fuel i : ℕ)
      → esta pid s.new ≡ true
      → s.procesos_en_sistema ≡ 0
      → s.grado_multiprogramacion < 2 ^ 32
      → let s' = finalizar_donde_este entorno pid codigo s in
        (admitir_nuevos entorno fuel i s' ≡ s') × Admitidas s s'
  donde_este-traba pid codigo s fuel i h cero menos =
      let r = finalizar_en_new pid codigo s h in
      let tope : restar_uno s.procesos_en_sistema ≡ 4294967295 = rw (cero) refl in
      (
        admitir_nuevos-lleno fuel i (finalizar_donde_este entorno pid codigo s)
            (omega (arith, r.0, r.2, tope)),
        r.1,
      )

  -- If no process is counted and a program that waits to be admitted is cancelled, the loop that admits programs
  -- changes nothing on the state that this leaves, whatever number of 32 bits the degree of multiprogramming is,
  -- and the lists of the admitted processes, those ready, in execution and blocked, are the same as before.
  pub cancelar_nuevo-traba :
      (sock pid codigo : ℤ) (s : Kernel σ φ) (fuel i : ℕ)
      → esta pid s.new ≡ true
      → s.procesos_en_sistema ≡ 0
      → s.grado_multiprogramacion < 2 ^ 32
      → let s' = finalizar_programa entorno sock pid codigo s in
        (admitir_nuevos entorno fuel i s' ≡ s') × Admitidas s s'
  cancelar_nuevo-traba sock pid codigo s fuel i h cero menos =
      elim (Bool-cases (eqb_ℤ sock minus_one)) [
        | inl e ↦ rw (e) (
            donde_este-traba pid codigo (mensaje_a_consola_finalizo codigo sock s) fuel i h cero
              menos)
        | inr e ↦ rw (e) (donde_este-traba pid codigo s fuel i h cero menos)
      ]
