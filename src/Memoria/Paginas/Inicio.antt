-- ===== src/Memoria/Paginas/Inicio.antt =====
-- The state that `inicializarEstructuras` of src/memoria/memoria.c builds.
use tp_sisop_1c_2017_david.Prelude.{
  ℕ, zero, suc, ◌+◌, ◌-◌, ◌*◌, ◌<◌, ℤ, pos, minus_one, inl, ◌≡◌, refl, sym, ap, ◌∙◌, ◌≢◌, lt→ltb,
  none, some, ◌++◌, length, drop, length-append, length-replicate, take-append_self,
  drop-append_right, arith,
}
use tp_sisop_1c_2017_david.Memoria.Marco.{marco_libre, marcos_adm, marcos_libres, es_pagina, contar}
use tp_sisop_1c_2017_david.Memoria.Marco.Igualdad.{es_pagina-Otra, es_pagina_self}
use tp_sisop_1c_2017_david.Memoria.Marco.Busqueda.{
  contar-append, contar_adm_todos, contar_libres, buscar-none_of_contar,
}
use tp_sisop_1c_2017_david.Memoria.Estado.{
  Memoria, Config, estado_inicial, bloques_del_espacio_adm, inicializar_estructuras,
}
use tp_sisop_1c_2017_david.Memoria.Paginas.Invariante.{IsValid, Numerados, ocupado, ubicar}

length-marcos_adm : (i n : ℕ) → length (marcos_adm i n) ≡ n
length-marcos_adm i zero = refl
length-marcos_adm i (suc n) = ap suc (length-marcos_adm (i + 1) n)

length-marcos_libres : (i n : ℕ) → length (marcos_libres i n) ≡ n
length-marcos_libres i zero = refl
length-marcos_libres i (suc n) = ap suc (length-marcos_libres (i + 1) n)

Numerados-libres : (i n : ℕ) → Numerados i (marcos_libres i n)
Numerados-libres i zero = tt
Numerados-libres i (suc n) = (refl, Numerados-libres (i + 1) n)

Numerados-inicio : (i a j n : ℕ) → j ≡ i + a → Numerados i (marcos_adm i a ++ marcos_libres j n)
Numerados-inicio i zero j n e = let e' : j ≡ i = omega arith in rw e' (Numerados-libres i n)
Numerados-inicio i (suc a) j n e = (refl, Numerados-inicio (i + 1) a j n (omega arith))

module _ (c : Config) (h : 0 < c.marco_size) (lugar : bloques_del_espacio_adm c < c.marcos) where
  abbrev adm : ℕ
  adm = bloques_del_espacio_adm c

  abbrev resto : ℕ
  resto = c.marcos - adm

  todos : contar ocupado (marcos_adm 0 adm ++ marcos_libres adm resto) ≡ adm
  todos =
      contar-append ocupado (marcos_adm 0 adm) (marcos_libres adm resto)
      ∙ omega (
        arith,
        contar_adm_todos ocupado 0 adm (λ j. refl),
        contar_libres ocupado adm resto (λ j. refl),
      )

  vacia :
      (pid pag : ℤ)
      → pid ≢ minus_one
      → contar (es_pagina pid pag) (drop adm (marcos_adm 0 adm ++ marcos_libres adm resto)) ≡ 0
  vacia pid pag np =
      rw
        (drop-append_right adm 0 (marcos_adm 0 adm) (marcos_libres adm resto)
          (omega (arith, length-marcos_adm 0 adm)))
        (contar_libres (es_pagina pid pag) adm resto λ j.
          es_pagina-Otra minus_one minus_one pid pag (marco_libre j)
            (es_pagina_self minus_one minus_one j) (inl (λ e. np (sym e))))

  pub estado_inicial-IsValid : IsValid (estado_inicial c)
  estado_inicial-IsValid = record {
    size =
        length-append (marcos_adm 0 adm) (marcos_libres adm resto)
        ∙ omega (arith, length-marcos_adm 0 adm, length-marcos_libres adm resto);
    lugar = lugar;
    area = length-replicate (resto * c.marco_size) 0;
    adm =
        take-append_self (marcos_adm 0 adm) (marcos_libres adm resto) adm
          (sym (length-marcos_adm 0 adm));
    ocupados = ap pos (sym todos);
    numerados = Numerados-inicio 0 adm adm resto (omega arith);
    unicas = λ pid pag np. omega (arith, vacia pid pag np);
  }

-- No process has a page at the start.
pub estado_inicial-ubicar :
    (c : Config)
    → 0 < c.marco_size
    → bloques_del_espacio_adm c < c.marcos
    → (pid pag : ℤ) → pid ≢ minus_one
    → ubicar (estado_inicial c) pid pag ≡ none
estado_inicial-ubicar c h lugar pid pag np =
    buscar-none_of_contar (es_pagina pid pag) (bloques_del_espacio_adm c) _
      (vacia c h lugar pid pag np)

-- Given frames of some size and fewer administrative blocks than frames, the start succeeds: the
-- invariant holds, no process has a page, and the frames of the table are all that is taken.
pub inicializar_estructuras_lem :
    (c : Config)
    → 0 < c.marco_size
    → bloques_del_espacio_adm c < c.marcos
    → (s : Memoria) × (inicializar_estructuras c ≡ some s)
      × IsValid s
      × ((pid pag : ℤ) → pid ≢ minus_one → ubicar s pid pag ≡ none)
      × (s.frames_ocupados ≡ pos (bloques_del_espacio_adm c))
unfolding inicializar_estructuras
inicializar_estructuras_lem c h lugar = (
  estado_inicial c,
  rw (lt→ltb 0 c.marco_size h, lt→ltb (bloques_del_espacio_adm c) (c.marcos + 1) (omega arith)),
  estado_inicial-IsValid c h lugar,
  λ pid pag np. estado_inicial-ubicar c h lugar pid pag np,
  refl,
)
