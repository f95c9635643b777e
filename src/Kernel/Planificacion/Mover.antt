-- ===== src/Kernel/Planificacion/Mover.antt =====
-- What a move between two lists of src/kernel/kernel.c does.
use tp_sisop_1c_2017_david.Prelude.{
  ℕ, ◌+◌, ℤ, ◌≡◌, refl, subst, ◌∙◌, Option-cases, none, some, List, [], ◌∷◌, ◌++◌, length-append,
  sin_indice, get_elem?, inl, inr, Commons, arith,
}
use tp_sisop_1c_2017_david.Kernel.Planificacion.{
  Kernel, Cola, nuevos, listos, ejecutando, bloqueados, terminados, cola, con_cola, indice, mover,
}
use tp_sisop_1c_2017_david.Kernel.Planificacion.Colas.{
  uno, cuenta_total, admitidos, peso, cuenta_total-con_cola, admitidos-con_cola, cuenta-append,
  cuenta-sin_indice, indice-get,
}

-- The state but for the five lists.
pub record MismosDatos {σ φ : Type 0} (s s' : Kernel σ φ) : Type 0 where
  pub procesos : s'.procesos_en_sistema ≡ s.procesos_en_sistema
  pub grado : s'.grado_multiprogramacion ≡ s.grado_multiprogramacion
  pub programas : s'.programas ≡ s.programas
  pub cpus : s'.cpus ≡ s.cpus
  pub semaforos : s'.semaforos_comp ≡ s.semaforos_comp

-- A process went from one list to another.
pub record Movido {σ φ : Type 0} (o d : Cola) (s s' : Kernel σ φ) : Type 0 where
  pub total : (q : ℤ) → cuenta_total q s' ≡ cuenta_total q s
  pub admision : admitidos s' + peso o ≡ admitidos s + peso d
  pub datos : MismosDatos s s'

con_cola-MismosDatos :
    {σ φ : Type 0} (c : Cola) (l : List ℤ) (s : Kernel σ φ) → MismosDatos s (con_cola c l s)
con_cola-MismosDatos nuevos l s = record {
  procesos = refl;
  grado = refl;
  programas = refl;
  cpus = refl;
  semaforos = refl;
}
con_cola-MismosDatos listos l s = record {
  procesos = refl;
  grado = refl;
  programas = refl;
  cpus = refl;
  semaforos = refl;
}
con_cola-MismosDatos ejecutando l s = record {
  procesos = refl;
  grado = refl;
  programas = refl;
  cpus = refl;
  semaforos = refl;
}
con_cola-MismosDatos bloqueados l s = record {
  procesos = refl;
  grado = refl;
  programas = refl;
  cpus = refl;
  semaforos = refl;
}
con_cola-MismosDatos terminados l s = record {
  procesos = refl;
  grado = refl;
  programas = refl;
  cpus = refl;
  semaforos = refl;
}

MismosDatos-trans :
    {σ φ : Type 0} {s t u : Kernel σ φ} → MismosDatos s t → MismosDatos t u → MismosDatos s u
MismosDatos-trans a b = record {
  procesos = b.procesos ∙ a.procesos;
  grado = b.grado ∙ a.grado;
  programas = b.programas ∙ a.programas;
  cpus = b.cpus ∙ a.cpus;
  semaforos = b.semaforos ∙ a.semaforos;
}

module _ ⦃commons : Commons ℤ⦄ {σ φ : Type 0} where
  -- The removal of the element at an index, and the adding of one.
  sacar :
      (c : Cola) (s : Kernel σ φ) (pid : ℤ) (i : ℕ)
      → get_elem? (cola c s) i ≡ some pid
      → ((q : ℤ)
          → cuenta_total q (con_cola c (commons.list_remove (cola c s) i) s) + uno q pid
            ≡ cuenta_total q s)
        × (admitidos (con_cola c (commons.list_remove (cola c s) i) s) + peso c ≡ admitidos s)
  sacar c s pid i e = rw (commons.list_remove_lem) (
    λ q. omega (
      arith,
      cuenta_total-con_cola q c (sin_indice (cola c s) i) s,
      cuenta-sin_indice q (cola c s) i pid e,
    ),
    largo,
  )
    where
      largo : admitidos (con_cola c (sin_indice (cola c s) i) s) + peso c ≡ admitidos s
      largo = grind (
        arith,
        admitidos-con_cola c (sin_indice (cola c s) i) s,
        (cuenta-sin_indice pid (cola c s) i pid e).1,
      )

  pub poner :
      (c : Cola) (s : Kernel σ φ) (pid : ℤ)
      → ((q : ℤ)
          → cuenta_total q (con_cola c (commons.list_add (cola c s) pid) s)
            ≡ cuenta_total q s + uno q pid)
        × (admitidos (con_cola c (commons.list_add (cola c s) pid) s) ≡ admitidos s + peso c)
  poner c s pid = rw (commons.list_add_lem) (
    λ q. omega (
      arith,
      cuenta_total-con_cola q c (cola c s ++ (pid ∷ [])) s,
      cuenta-append q (cola c s) (pid ∷ []),
    ),
    largo,
  )
    where
      largo : admitidos (con_cola c (cola c s ++ (pid ∷ [])) s) ≡ admitidos s + peso c
      largo = grind (
        arith,
        admitidos-con_cola c (cola c s ++ (pid ∷ [])) s,
        length-append (cola c s) (pid ∷ []),
      )

  -- The element at an index leaves one list for another.
  pub pasar :
      (o d : Cola) (pid : ℤ) (i : ℕ) (s : Kernel σ φ)
      → get_elem? (cola o s) i ≡ some pid
      → let t = con_cola o (commons.list_remove (cola o s) i) s in
        Movido o d s (con_cola d (commons.list_add (cola d t) pid) t)
  pasar o d pid i s h =
      let t = con_cola o (commons.list_remove (cola o s) i) s in
      let a = sacar o s pid i h in
      let b = poner d t pid in
      record {
        total = λ q. omega (arith, a.0 q, b.0 q);
        admision = omega (arith, a.1, b.1);
        datos =
            MismosDatos-trans (con_cola-MismosDatos o (commons.list_remove (cola o s) i) s)
              (con_cola-MismosDatos d (commons.list_add (cola d t) pid) t);
      }

  pub mover-Movido :
      (o d : Cola) (pid : ℤ) (s : Kernel σ φ) {s' : Kernel σ φ}
      → mover o d pid s ≡ some s'
      → Movido o d s s'
  unfolding mover
  mover-Movido o d pid s {s'} e = elim (Option-cases (indice pid (cola o s))) [
    | inl n ↦ let nada : mover o d pid s ≡ none = rw (mover, n) refl in cc
    | inr (i, h) ↦
        let t = con_cola o (commons.list_remove (cola o s) i) s in
        let u = con_cola d (commons.list_add (cola d t) pid) t in
        let algo : mover o d pid s ≡ some u = rw (mover, h) refl in
        let mismo : u ≡ s' = cc in
        subst (λ x. Movido o d s x) mismo (pasar o d pid i s (indice-get pid i (cola o s) h))
  ]
