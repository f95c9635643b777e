-- ===== src/Memoria/Paginas/Guardar.antt =====
-- `guardarPagina` and `consultarPagina` of src/memoria/memoria.c, and where the frames lie.
use tp_sisop_1c_2017_david.Prelude.{
  ℕ, ◌+◌, ◌-◌, ◌*◌, ◌≤◌, ◌<◌, ℤ, ◌≡◌, refl, sym, ◌∙◌, ◌≢◌, ◌⊎◌, inl, inr, dec_lt, le→leb,
  Option-cases, Option, none, some, List, length, take, length-take, leer_bytes,
  escribir_bytes-total, escribir_bytes-none, length-escribir_bytes, leer-escribir_self,
  leer-escribir_disjoint, bloque_dentro, bloque_fuera, bloques_disjuntos, arith,
}
use tp_sisop_1c_2017_david.Memoria.Estado.{Memoria}
use tp_sisop_1c_2017_david.Memoria.Paginas.{
  guardar_pagina, escribir_en_bloque, consultar_pagina, bloque, exit_success, exit_failure,
}
use tp_sisop_1c_2017_david.Memoria.Paginas.Invariante.{IsValid, ubicar, verificar_pos_hash-ubicar}

-- The bytes of the block of frame `k`, where it lies inside the allocation.
abbrev pub contenido : Memoria → ℕ → Option (List ℕ)
contenido s k = leer_bytes (k * s.marco_size) s.marco_size s.bytes

-- What a write of a page into block `k` leaves.
pub record Guardada (s : Memoria) (k : ℕ) (pagina : List ℕ) (s' : Memoria) : Type 0 where
  pub escrita : contenido s' k ≡ some (take s.marco_size pagina)
  pub otros : (j : ℕ) → j ≢ k → contenido s' j ≡ contenido s j
  pub tabla : s'.tabla ≡ s.tabla
  pub resto : s' ≡ record s { bytes = s'.bytes }
  pub valida : IsValid s'

module _ {s : Memoria} (v : IsValid s) (k : ℕ) (pagina : List ℕ)
    (h : s.marco_size ≤ length pagina) where
  escribir-dentro :
      k + s.bloques_adm < s.marcos
      → (s' : Memoria) × (escribir_en_bloque s k pagina ≡ some s') × Guardada s k pagina s'
  unfolding escribir_en_bloque
  escribir-dentro l =
      let largo : length (take s.marco_size pagina) ≡ s.marco_size =
        omega (arith, length-take s.marco_size pagina) in
      let (mem, e) = escribir_bytes-total (k * s.marco_size) (take s.marco_size pagina) s.bytes (
        omega (
          arith,
          largo,
          v.area,
          bloque_dentro k (s.marcos - s.bloques_adm) s.marco_size (omega arith),
        )) in
      let (dentro, mismo) = length-escribir_bytes (k * s.marco_size) _ s.bytes e in
      (
        record s { bytes = mem },
        rw (le→leb s.marco_size (length pagina) h, e),
        record {
          escrita = leer-escribir_self (k * s.marco_size) s.marco_size _ s.bytes (sym largo) e;
          otros = λ j n.
              leer-escribir_disjoint (k * s.marco_size) (j * s.marco_size) s.marco_size _ s.bytes
                (elim (bloques_disjuntos j k s.marco_size n) [
                  | inl x ↦ inr (omega (arith, largo))
                  | inr x ↦ inl x
                ])
                e;
          tabla = refl;
          resto = refl;
          valida = record {
            size = v.size;
            lugar = v.lugar;
            area = mismo ∙ v.area;
            adm = v.adm;
            ocupados = v.ocupados;
            numerados = v.numerados;
            unicas = v.unicas;
          };
        },
      )

  escribir-fuera :
      0 < s.marco_size → s.marcos ≤ k + s.bloques_adm → escribir_en_bloque s k pagina ≡ none
  unfolding escribir_en_bloque
  escribir-fuera p l = rw (
    le→leb s.marco_size (length pagina) h,
    escribir_bytes-none (k * s.marco_size) (take s.marco_size pagina) s.bytes (
        omega (
          arith,
          v.area,
          length-take s.marco_size pagina,
          bloque_fuera k (s.marcos - s.bloques_adm) s.marco_size (omega arith) p,
        )),
  )

-- `guardarPagina` of a page as long as a frame. A page that no frame holds: it fails and writes nothing.
-- A page in a frame whose block lies inside the allocation: the block holds the page afterwards, and no
-- other block changes. A page in one of the last `bloques_adm` frames: the write leaves the allocation,
-- since blocks are counted from `inicioMemoriaProcesos`, which itself lies `bloques_adm` blocks in.
pub guardar_pagina_lem :
    {s : Memoria} (pid pag : ℤ) (pagina : List ℕ)
    → IsValid s
    → 0 < s.marco_size
    → s.marco_size ≤ length pagina
    → ((ubicar s pid pag ≡ none) × (guardar_pagina s pid pag pagina ≡ some (s, exit_failure)))
      ⊎ ((k : ℕ) × (ubicar s pid pag ≡ some k)
          × (((k + s.bloques_adm < s.marcos)
                × ((s' : Memoria) × (guardar_pagina s pid pag pagina ≡ some (s', exit_success))
                    × Guardada s k pagina s'))
              ⊎ ((s.marcos ≤ k + s.bloques_adm) × (guardar_pagina s pid pag pagina ≡ none))))
unfolding guardar_pagina
guardar_pagina_lem {s} pid pag pagina v p h = elim (Option-cases (ubicar s pid pag)) [
  | inl e ↦ inl (e, rw (verificar_pos_hash-ubicar v pid pag, e))
  | inr (k, e) ↦ inr (
    k,
    e,
    elim (dec_lt (k + s.bloques_adm) s.marcos) [
      | yes l ↦
          let (s', es, g) = escribir-dentro v k pagina h l in
          inl (l, (s', rw (verificar_pos_hash-ubicar v pid pag, e, es), g))
      | no l ↦
          let afuera : s.marcos ≤ k + s.bloques_adm = omega arith in
          inr (
            afuera,
            rw (verificar_pos_hash-ubicar v pid pag, e, escribir-fuera v k pagina h p afuera),
          )
    ],
  )
]

-- `consultarPagina` of a page that no frame holds still returns a block: the last of the table's own, just
-- below the processes' area.
pub consultar_pagina_lem :
    {s : Memoria} (pid pag : ℤ)
    → IsValid s
    → consultar_pagina s pid pag ≡ some (bloque (ubicar s pid pag))
unfolding consultar_pagina
consultar_pagina_lem pid pag v = rw (verificar_pos_hash-ubicar v pid pag)
