-- ===== src/Memoria/Paginas/Invariante.antt =====
-- The invariant of the frame table of src/memoria/memoria.c.
use tp_sisop_1c_2017_david.Prelude.{
  ℕ, zero, suc, ◌+◌, ◌-◌, ◌*◌, ◌≤◌, ◌<◌, ℤ, pos, minus_one, ◌≡◌, refl, sym, ap, ◌∙◌, ◌≢◌, inl, inr,
  Bool, true, false, lt→ltb, if◌then◌else◌, Bool-cases, Option, some, List, [], ◌∷◌, length, set,
  drop, take, get_or, length-set, length-drop, length-take, get_or-drop, take-append-drop, arith,
}
use tp_sisop_1c_2017_david.Memoria.Marco.{
  Marco, marco_libre, marcos_adm, es_pagina, es_libre, es_del_pid, buscar_desde, contar,
}
use tp_sisop_1c_2017_david.Memoria.Marco.Busqueda.{
  bit, buscar-some, buscar-append, contar-set, drop-set, take-set, contar_adm, contar-le-length,
}
use tp_sisop_1c_2017_david.Memoria.Marco.Igualdad.{es_pagina_iff}
use tp_sisop_1c_2017_david.Memoria.Estado.{Memoria}
use tp_sisop_1c_2017_david.Memoria.Paginas.{
  verificar_pos_hash, funcion_hash, buscar_pagina_libre, ocupar, calcular_size_pid,
}

-- A frame that a process or the table itself holds.
abbrev pub ocupado : Marco → Bool
ocupado m = if es_libre m then false else true

-- The entries carry their own indices.
abbrev pub Numerados : ℕ → List Marco → Type 0
Numerados i [] = Unit {0}
Numerados i (m ∷ ms) = (m.frame ≡ i) × Numerados (i + 1) ms

pub record IsValid (s : Memoria) : Type 0 where
  pub size : length s.tabla ≡ s.marcos
  pub lugar : s.bloques_adm < s.marcos
  pub area : length s.bytes ≡ (s.marcos - s.bloques_adm) * s.marco_size
  pub adm : take s.bloques_adm s.tabla ≡ marcos_adm 0 s.bloques_adm
  pub ocupados : s.frames_ocupados ≡ pos (contar ocupado s.tabla)
  pub numerados : Numerados 0 s.tabla
  pub unicas :
      (pid pag : ℤ) → pid ≢ minus_one → contar (es_pagina pid pag) (drop s.bloques_adm s.tabla) ≤ 1

pub Numerados-set :
    (pid pag : ℤ) (i k : ℕ) (ms : List Marco) → Numerados i ms → Numerados i (ocupar ms k pid pag)
Numerados-set pid pag i k [] n = tt
Numerados-set pid pag i zero (m ∷ ms) n = n
Numerados-set pid pag i (suc k) (m ∷ ms) n = (n.0, Numerados-set pid pag (i + 1) k ms n.1)

-- The table of the processes' frames, and where a page of a process lies.
abbrev pub de_procesos : Memoria → List Marco
de_procesos s = drop s.bloques_adm s.tabla

abbrev pub ubicar : Memoria → ℤ → ℤ → Option ℕ
ubicar s pid pag = buscar_desde (es_pagina pid pag) s.bloques_adm (de_procesos s)

module _ {s : Memoria} (v : IsValid s) where
  pub verificar_pos_hash-ubicar :
      (pid pag : ℤ)
      → verificar_pos_hash s pid pag (funcion_hash s pid pag) ≡ some (ubicar s pid pag)
  unfolding verificar_pos_hash
  verificar_pos_hash-ubicar pid pag =
      rw (lt→ltb s.bloques_adm (length s.tabla) (omega (arith, v.size, v.lugar)))

  -- The search for a free frame, which starts at frame 0, passes over the administrative ones.
  pub buscar_libre-de_procesos :
      buscar_pagina_libre s ≡ buscar_desde es_libre s.bloques_adm (de_procesos s)
  unfolding buscar_pagina_libre
  buscar_libre-de_procesos =
      ap (buscar_desde es_libre 0) (sym (take-append-drop s.bloques_adm s.tabla))
      ∙ buscar-append es_libre 0 s.bloques_adm (take s.bloques_adm s.tabla) (de_procesos s)
          (rw v.adm (contar_adm es_libre 0 s.bloques_adm (λ j. refl)))
          (omega (arith, length-take s.bloques_adm s.tabla, v.size, v.lugar))

  -- A frame found lies among the processes' ones, and passes the test.
  pub en_procesos :
      (test : Marco → Bool) {k : ℕ}
      → buscar_desde test s.bloques_adm (de_procesos s) ≡ some k
      → (s.bloques_adm ≤ k) × (k < s.marcos) × (test (get_or s.tabla k (marco_libre 0)) ≡ true)
  en_procesos test {k} e =
      let (j, ek, l, t) = buscar-some test (marco_libre 0) s.bloques_adm k (de_procesos s) e in
      (
        omega arith,
        omega (arith, v.size, length-drop s.bloques_adm s.tabla),
        rw (get_or-drop s.bloques_adm j k s.tabla (marco_libre 0) ek) at t,
      )

  -- A frame holds one page.
  pub ubicar_inj :
      (pid pag q g : ℤ) {k : ℕ}
      → ubicar s pid pag ≡ some k
      → ubicar s q g ≡ some k
      → (pid ≡ q) × (pag ≡ g)
  ubicar_inj pid pag q g {k} e e' =
      let (a, b, t) = en_procesos (es_pagina pid pag) e in
      let (a', b', t') = en_procesos (es_pagina q g) e' in
      let (x, y) = (es_pagina_iff pid pag (get_or s.tabla k (marco_libre 0))).0 t in
      let (x', y') = (es_pagina_iff q g (get_or s.tabla k (marco_libre 0))).0 t' in
      (sym x ∙ x', sym y ∙ y')

  -- Where a change of entry `k` to a page that no frame holds, or to free, leaves the table.
  module _ (pid pag : ℤ) (k : ℕ) (lo : s.bloques_adm ≤ k) (hi : k < s.marcos) where
    abbrev pub nueva : Marco
    nueva = record { pid = pid; pag = pag; frame = (get_or s.tabla k (marco_libre 0)).frame }

    pub de_procesos-ocupar :
        drop s.bloques_adm (ocupar s.tabla k pid pag)
        ≡ set (de_procesos s) (k - s.bloques_adm) nueva
    de_procesos-ocupar = drop-set s.bloques_adm (k - s.bloques_adm) k nueva s.tabla (omega arith)

    pub contar-ocupar :
        (test : Marco → Bool)
        → contar test (ocupar s.tabla k pid pag) + bit (test (get_or s.tabla k (marco_libre 0)))
          ≡ contar test s.tabla + bit (test nueva)
    contar-ocupar test = contar-set test (marco_libre 0) nueva k s.tabla (omega (arith, v.size))

    pub contar-de_procesos-ocupar :
        (test : Marco → Bool)
        → contar test (drop s.bloques_adm (ocupar s.tabla k pid pag))
            + bit (test (get_or s.tabla k (marco_libre 0)))
          ≡ contar test (de_procesos s) + bit (test nueva)
    contar-de_procesos-ocupar test =
        let j : ℕ = k - s.bloques_adm in
        rw de_procesos-ocupar (
          rw (get_or-drop s.bloques_adm j k s.tabla (marco_libre 0) (omega arith)) at (
            contar-set test (marco_libre 0) nueva j (de_procesos s)
              (omega (arith, v.size, length-drop s.bloques_adm s.tabla))))

    pub ocupar-IsValid :
        (activos : List ℤ) (frames : ℤ)
        → frames ≡ pos (contar ocupado (ocupar s.tabla k pid pag))
        → ((q g : ℤ)
            → q ≢ minus_one
            → es_pagina q g nueva ≡ true
            → contar (es_pagina q g) (de_procesos s) ≡ 0)
        → IsValid (record s {
          tabla = ocupar s.tabla k pid pag;
          frames_ocupados = frames;
          proc_activos = activos;
        })
    ocupar-IsValid activos frames ef nuevas = record {
      size = length-set s.tabla k nueva ∙ v.size;
      lugar = v.lugar;
      area = v.area;
      adm = take-set s.bloques_adm k nueva s.tabla lo ∙ v.adm;
      ocupados = ef;
      numerados = Numerados-set pid pag 0 k s.tabla v.numerados;
      unicas = λ q g h. elim (Bool-cases (es_pagina q g nueva)) [
        | inl e ↦ ground (arith, contar-de_procesos-ocupar (es_pagina q g), nuevas q g h e)
        | inr e ↦ ground (arith, contar-de_procesos-ocupar (es_pagina q g), v.unicas q g h)
      ];
    }

-- A process holds fewer frames than there are entries, and one.
pub calcular_size_pid-lt : (s : Memoria) (pid : ℤ) → calcular_size_pid s pid < length s.tabla + 1
unfolding calcular_size_pid
calcular_size_pid-lt s pid = omega (
  arith,
  contar-le-length (es_del_pid pid) (drop s.bloques_adm s.tabla),
  length-drop s.bloques_adm s.tabla,
)
