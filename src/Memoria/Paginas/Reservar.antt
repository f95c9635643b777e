-- ===== src/Memoria/Paginas/Reservar.antt =====
-- `reservarPagina` of src/memoria/memoria.c.
use tp_sisop_1c_2017_david.Prelude.{
  ℕ, ◌-◌, ℤ, minus_one, suc_ℤ, ◌≡◌, refl, sym, ap, ◌∙◌, ◌≢◌, ◌⊎◌, inl, inr, true, Option-cases,
  none, some, get_or, length-drop, get_or-drop, arith, Commons,
}
use tp_sisop_1c_2017_david.Memoria.Marco.{marco_libre, es_pagina, es_libre, contar, buscar_desde}
use tp_sisop_1c_2017_david.Memoria.Marco.Igualdad.{
  Otra, es_pagina_iff, es_pagina_self, es_pagina-Otra,
}
use tp_sisop_1c_2017_david.Memoria.Marco.Busqueda.{
  buscar-set_other, buscar-set_new, contar_of_buscar-none,
}
use tp_sisop_1c_2017_david.Memoria.Estado.{Memoria}
use tp_sisop_1c_2017_david.Memoria.Paginas.{
  buscar_pagina_libre, reservar_pagina, ocupar, exit_success, exit_failure,
  actualizar_lista_de_procesos,
}
use tp_sisop_1c_2017_david.Memoria.Paginas.Invariante.{
  IsValid, ubicar, de_procesos, ocupado, en_procesos, buscar_libre-de_procesos, de_procesos-ocupar,
  contar-ocupar, ocupar-IsValid, nueva,
}

-- What a reservation that succeeds does: the frame was free, and now holds the page; every other page
-- stays where it was.
pub record Reservada (s : Memoria) (pid pag : ℤ) (s' : Memoria) : Type 0 where
  pub marco : ℕ
  pub era_libre : es_libre (get_or s.tabla marco (marco_libre 0)) ≡ true
  pub ubicada : ubicar s' pid pag ≡ some marco
  pub otras : (q g : ℤ) → q ≢ minus_one → Otra pid pag q g → ubicar s' q g ≡ ubicar s q g
  pub contada : s'.frames_ocupados ≡ suc_ℤ s.frames_ocupados
  pub datos : (s'.bytes ≡ s.bytes) × (s'.cache ≡ s.cache) × (s'.entradas_x_proc ≡ s.entradas_x_proc)

module _ ⦃commons : Commons ℤ⦄ where
  -- The state with frame `k` given to the page.
  abbrev pub reservada : Memoria → ℤ → ℤ → ℕ → Memoria
  reservada s pid pag k = record s {
    tabla = ocupar s.tabla k pid pag;
    frames_ocupados = suc_ℤ s.frames_ocupados;
    proc_activos = actualizar_lista_de_procesos s.proc_activos pid;
  }

  reservar-none :
      (s : Memoria) (pid pag : ℤ)
      → buscar_pagina_libre s ≡ none
      → reservar_pagina s pid pag ≡ (s, exit_failure)
  unfolding reservar_pagina
  reservar-none s pid pag e = rw (e, reservar_pagina)

  pub reservar-some :
      (s : Memoria) (pid pag : ℤ) {k : ℕ}
      → buscar_pagina_libre s ≡ some k
      → reservar_pagina s pid pag ≡ (reservada s pid pag k, exit_success)
  unfolding reservar_pagina
  reservar-some s pid pag e = rw (e, reservar_pagina)

  module _ {s : Memoria} (pid pag : ℤ) (v : IsValid s) (np : pid ≢ minus_one) {k : ℕ}
      (e : buscar_desde es_libre s.bloques_adm (de_procesos s) ≡ some k) where
    pub reservada-IsValid : ubicar s pid pag ≡ none → IsValid (reservada s pid pag k)
    reservada-IsValid vacia =
        let (lo, hi, libre) = en_procesos v es_libre e in
        let m = nueva v pid pag k lo hi in
        ocupar-IsValid v pid pag k lo hi _ (suc_ℤ s.frames_ocupados)
          (ground (
            arith,
            v.ocupados,
            contar-ocupar v pid pag k lo hi ocupado,
            es_pagina-Otra pid pag minus_one minus_one m (es_pagina_self pid pag m.frame) (inl np),
          ))
          λ q g nq p.
            let (a, b) = (es_pagina_iff q g m).0 p in
            rw (← a, ← b)
              (contar_of_buscar-none (es_pagina pid pag) s.bloques_adm (de_procesos s) vacia)

    pub reservada-ubicar : ubicar s pid pag ≡ none → ubicar (reservada s pid pag k) pid pag ≡ some k
    reservada-ubicar vacia =
        let (lo, hi, libre) = en_procesos v es_libre e in
        let m = nueva v pid pag k lo hi in
        ap (buscar_desde (es_pagina pid pag) s.bloques_adm) (de_procesos-ocupar v pid pag k lo hi)
        ∙ buscar-set_new (es_pagina pid pag) m s.bloques_adm (k - s.bloques_adm) (de_procesos s)
            vacia (es_pagina_self pid pag m.frame)
            (omega (arith, v.size, length-drop s.bloques_adm s.tabla))
        ∙ ap some (omega arith)

    pub reservada-Reservada : ubicar s pid pag ≡ none → Reservada s pid pag (reservada s pid pag k)
    reservada-Reservada vacia =
        let (lo, hi, libre) = en_procesos v es_libre e in
        let j : ℕ = k - s.bloques_adm in
        let m = nueva v pid pag k lo hi in
        let igual = get_or-drop s.bloques_adm j k s.tabla (marco_libre 0) (omega arith) in
        record {
          marco = k;
          era_libre = libre;
          ubicada = reservada-ubicar vacia;
          otras = λ q g nq o.
              ap (buscar_desde (es_pagina q g) s.bloques_adm) (de_procesos-ocupar v pid pag k lo hi)
              ∙ buscar-set_other (es_pagina q g) (marco_libre 0) m s.bloques_adm j (de_procesos s)
                  (rw igual (
                    es_pagina-Otra minus_one minus_one q g (get_or s.tabla k (marco_libre 0)) libre
                      (inl (λ x. nq (sym x)))))
                  (es_pagina-Otra pid pag q g m (es_pagina_self pid pag m.frame) o);
          contada = refl;
          datos = (refl, refl, refl);
        }

  -- `reservarPagina` fails exactly when the processes' frames are all taken, and then changes nothing;
  -- else it gives the page a free frame and keeps the invariant, for a process number that is not -1 and
  -- a page that the process does not hold yet.
  pub reservar_pagina_lem :
      {s : Memoria} (pid pag : ℤ)
      → IsValid s
      → pid ≢ minus_one
      → ubicar s pid pag ≡ none
      → ((contar es_libre (de_procesos s) ≡ 0) × (reservar_pagina s pid pag ≡ (s, exit_failure)))
        ⊎ (Reservada s pid pag (reservar_pagina s pid pag).0
            × IsValid (reservar_pagina s pid pag).0
            × ((reservar_pagina s pid pag).1 ≡ exit_success))
  reservar_pagina_lem {s} pid pag v np vacia = elim (Option-cases (buscar_pagina_libre s)) [
    | inl e ↦ inl (
      contar_of_buscar-none es_libre s.bloques_adm (de_procesos s)
          (sym (buscar_libre-de_procesos v) ∙ e),
      reservar-none s pid pag e,
    )
    | inr (k, e) ↦
        let e' = sym (buscar_libre-de_procesos v) ∙ e in
        inr (
          rw (reservar-some s pid pag e) (reservada-Reservada pid pag v np e' vacia),
          rw (reservar-some s pid pag e) (reservada-IsValid pid pag v np e' vacia),
          ap (λ r. r.1) (reservar-some s pid pag e),
        )
  ]
