-- ===== src/Memoria/Paginas/Liberar.antt =====
-- `liberarPagina` of src/memoria/memoria.c.
use tp_sisop_1c_2017_david.Prelude.{
  ℕ, ◌+◌, ◌-◌, ℤ, minus_one, pred_ℤ, eqb_ℤ_iff, ◌≡◌, refl, sym, ap, ◌∙◌, ◌≢◌, ◌⊎◌, inl, inr,
  Option-cases, none, some, get_or, get_or-drop, eqb_ne, arith,
}
use tp_sisop_1c_2017_david.Memoria.Marco.{marco_libre, es_pagina, es_del_pid, buscar_desde}
use tp_sisop_1c_2017_david.Memoria.Marco.Igualdad.{
  Otra, es_pagina_iff, es_pagina_self, es_pagina-Otra,
}
use tp_sisop_1c_2017_david.Memoria.Marco.Busqueda.{buscar-set_other, buscar-none_of_contar}
use tp_sisop_1c_2017_david.Memoria.Estado.{Memoria}
use tp_sisop_1c_2017_david.Memoria.Paginas.{
  liberar_pagina, ocupar, calcular_size_pid, exit_success, exit_failure,
}
use tp_sisop_1c_2017_david.Memoria.Paginas.Invariante.{
  IsValid, ubicar, de_procesos, ocupado, en_procesos, verificar_pos_hash-ubicar, de_procesos-ocupar,
  contar-ocupar, contar-de_procesos-ocupar, ocupar-IsValid, nueva,
}

-- What a release that succeeds does: the page is nowhere, every other page stays where it was, and the
-- process holds one frame fewer.
pub record Liberada (s : Memoria) (pid pag : ℤ) (s' : Memoria) : Type 0 where
  pub perdida : ubicar s' pid pag ≡ none
  pub otras : (q g : ℤ) → q ≢ minus_one → Otra pid pag q g → ubicar s' q g ≡ ubicar s q g
  pub contada : s'.frames_ocupados ≡ pred_ℤ s.frames_ocupados
  pub del_pid : calcular_size_pid s' pid + 1 ≡ calcular_size_pid s pid
  pub de_otro : (q : ℤ) → q ≢ minus_one → q ≢ pid → calcular_size_pid s' q ≡ calcular_size_pid s q
  pub datos :
      (s'.bytes ≡ s.bytes)
      × (s'.cache ≡ s.cache)
      × (s'.entradas_x_proc ≡ s.entradas_x_proc)
      × (s'.proc_activos ≡ s.proc_activos)

-- The state with frame `k` set free.
abbrev pub liberada : Memoria → ℕ → Memoria
liberada s k = record s {
  tabla = ocupar s.tabla k minus_one minus_one;
  frames_ocupados = pred_ℤ s.frames_ocupados;
}

module _ {s : Memoria} (pid pag : ℤ) (v : IsValid s) where
  liberar-none : ubicar s pid pag ≡ none → liberar_pagina s pid pag ≡ some (s, exit_failure)
  unfolding liberar_pagina
  liberar-none e = rw (verificar_pos_hash-ubicar v pid pag, e)

  liberar-some :
      {k : ℕ}
      → ubicar s pid pag ≡ some k
      → liberar_pagina s pid pag ≡ some (liberada s k, exit_success)
  unfolding liberar_pagina
  liberar-some e = rw (verificar_pos_hash-ubicar v pid pag, e)

  module _ (np : pid ≢ minus_one) {k : ℕ} (e : ubicar s pid pag ≡ some k) where
    liberada-IsValid : IsValid (liberada s k)
    liberada-IsValid =
        let (lo, hi, es) = en_procesos v (es_pagina pid pag) e in
        ocupar-IsValid v minus_one minus_one k lo hi s.proc_activos (pred_ℤ s.frames_ocupados)
          (ground (
            arith,
            v.ocupados,
            contar-ocupar v minus_one minus_one k lo hi ocupado,
            es_pagina-Otra pid pag minus_one minus_one (get_or s.tabla k (marco_libre 0)) es
                (inl np),
          ))
          λ q g nq p.
            let (a, b) = (es_pagina_iff q g (nueva v minus_one minus_one k lo hi)).0 p in
            absurd (nq (sym a))

    liberada-Liberada : Liberada s pid pag (liberada s k)
    unfolding calcular_size_pid
    liberada-Liberada =
        let (lo, hi, es) = en_procesos v (es_pagina pid pag) e in
        let j : ℕ = k - s.bloques_adm in
        let m = nueva v minus_one minus_one k lo hi in
        let vieja = get_or s.tabla k (marco_libre 0) in
        let (epid, epag) = (es_pagina_iff pid pag vieja).0 es in
        let igual = get_or-drop s.bloques_adm j k s.tabla (marco_libre 0) (omega arith) in
        record {
          perdida = buscar-none_of_contar (es_pagina pid pag) s.bloques_adm _ (
              ground (
                arith,
                contar-de_procesos-ocupar v minus_one minus_one k lo hi (es_pagina pid pag),
                v.unicas pid pag np,
                es_pagina-Otra minus_one minus_one pid pag m
                    (es_pagina_self minus_one minus_one m.frame) (inl (λ x. np (sym x))),
              ));
          otras = λ q g nq o.
              ap (buscar_desde (es_pagina q g) s.bloques_adm)
                (de_procesos-ocupar v minus_one minus_one k lo hi)
              ∙ buscar-set_other (es_pagina q g) (marco_libre 0) m s.bloques_adm j (de_procesos s)
                  (rw igual (es_pagina-Otra pid pag q g vieja es o))
                  (es_pagina-Otra minus_one minus_one q g m
                    (es_pagina_self minus_one minus_one m.frame) (inl (λ x. nq (sym x))));
          contada = refl;
          del_pid = ground (
            arith,
            contar-de_procesos-ocupar v minus_one minus_one k lo hi (es_del_pid pid),
            (eqb_ℤ_iff vieja.pid pid).1 epid,
            eqb_ne minus_one pid (λ x. np (sym x)),
          );
          de_otro = λ q nq o. ground (
            arith,
            contar-de_procesos-ocupar v minus_one minus_one k lo hi (es_del_pid q),
            eqb_ne vieja.pid q (λ x. o (sym x ∙ epid)),
            eqb_ne minus_one q (λ x. nq (sym x)),
          );
          datos = (refl, refl, refl, refl);
        }

-- On a valid state `liberarPagina` does not fault. For a page that no frame holds it fails and changes
-- nothing; else it sets that page's frame free, moves no other page, and keeps the invariant.
pub liberar_pagina_lem :
    {s : Memoria} (pid pag : ℤ)
    → IsValid s
    → pid ≢ minus_one
    → ((ubicar s pid pag ≡ none) × (liberar_pagina s pid pag ≡ some (s, exit_failure)))
      ⊎ ((ubicar s pid pag ≢ none)
          × ((s' : Memoria) × (liberar_pagina s pid pag ≡ some (s', exit_success))
              × Liberada s pid pag s'
              × IsValid s'))
liberar_pagina_lem {s} pid pag v np = elim (Option-cases (ubicar s pid pag)) [
  | inl e ↦ inl (e, liberar-none pid pag v e)
  | inr (k, e) ↦ inr (
    λ n. cc,
    (
      liberada s k,
      liberar-some pid pag v e,
      liberada-Liberada pid pag v np e,
      liberada-IsValid pid pag v np e,
    ),
  )
]
