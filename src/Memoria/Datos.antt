-- ===== src/Memoria/Datos.antt =====
-- Reads and writes of data for the CPUs, in src/memoria/memoria.c. A fault is an outer `none`. `basura` is
-- what a local variable that the code leaves uninitialised holds. Offsets and sizes are those of a
-- `t_posicion`, which are unsigned.
pub mod Coherencia
pub mod Escritura
pub mod Conserva
pub mod Enteros
pub mod Cadenas
use tp_sisop_1c_2017_david.Prelude.{
  ℕ, zero, suc, ◌+◌, ◌-◌, ◌*◌, ◌≤◌, ◌<◌, ℤ, pos, negsuc, minus_one, suc_ℤ, Bool, true, false, ltb,
  leb, if◌then◌else◌, Option, none, some, ◌>>=◌, ◌>>◌, guard, List, [], ◌∷◌, ◌++◌, length, take,
  drop, get_or, leer_bytes, escribir_bytes, palabra, entero, bytes_de_palabra, palabra_de_bytes,
}
use tp_sisop_1c_2017_david.Memoria.Cache.{
  Entrada, entrada_libre, cache_activada, esta_la_pag_en_cache, sumar_veces_usada, agregar_a_cache,
}
use tp_sisop_1c_2017_david.Memoria.Estado.{Memoria}
use tp_sisop_1c_2017_david.Memoria.Paginas.{verificar_pos_hash, funcion_hash}

-- The head that the four operations share: the page's block, from the cache or else from the table, and
-- the cache brought up to date.
pub buscar_bloque : Memoria → ℤ → ℤ → Option (Option ℕ × Memoria)
buscar_bloque s pid num_pag = elim (esta_la_pag_en_cache s.cache pid num_pag) [
  | some i ↦ some (
    some (get_or s.cache i entrada_libre).num_bloque,
    record s { cache = sumar_veces_usada i s.cache },
  )
  | none ↦ verificar_pos_hash s pid num_pag (funcion_hash s pid num_pag) >>= λ o. elim o [
    | none ↦ some (none, s)
    | some k ↦ some (
      some k,
      if cache_activada s.cache
          then record s { cache = agregar_a_cache s.entradas_x_proc s.cache pid num_pag k }
          else s,
    )
  ]
]

-- `memcpy(&valor, ...)` into an `int` that held `basura`: a copy of fewer than four bytes leaves the rest.
pub copiar_a_int : ℤ → List ℕ → Option ℤ
copiar_a_int basura bs =
    guard (leb (length bs) 4)
    >> some (entero (palabra_de_bytes (bs ++ drop (length bs) (bytes_de_palabra (palabra basura)))))

-- `leerDatoInt`
pub leer_dato_int : ℤ → Memoria → ℤ → ℤ → ℕ → ℕ → Option (ℤ × Memoria)
unfolding copiar_a_int
leer_dato_int basura s pid num_pag offset size =
    if ltb s.marco_size size
    then some (minus_one, s)
    else (buscar_bloque s pid num_pag >>= λ r. elim r.0 [
      | none ↦ some (minus_one, r.1)
      | some k ↦
          if ltb (offset + size) s.marco_size
          then (leer_bytes (k * s.marco_size + offset) size s.bytes >>= λ bs.
              copiar_a_int basura bs >>= λ n. some (n, r.1))
          else some (basura, r.1)
    ])

-- `leerDatoString`: the buffer, of `size` bytes and a final 0, or `none` for NULL.
pub leer_dato_string : Memoria → ℤ → ℤ → ℕ → ℕ → Option (Option (List ℕ) × Memoria)
leer_dato_string s pid num_pag offset size =
    if ltb s.marco_size size
    then some (none, s)
    else (buscar_bloque s pid num_pag >>= λ r. elim r.0 [
      | none ↦ some (none, r.1)
      | some k ↦
          if ltb (offset + size) s.marco_size
          then (leer_bytes (k * s.marco_size + offset) size s.bytes >>= λ bs.
              some (some (bs ++ (0 ∷ [])), r.1))
          else let primera = s.marco_size - offset in
            let segunda = size - primera in
            (guard (leb offset s.marco_size)
              >> leer_bytes (k * s.marco_size + offset) primera s.bytes
              >>= λ bs.
                  verificar_pos_hash s pid (suc_ℤ num_pag) (funcion_hash s pid (suc_ℤ num_pag))
                  >>= λ o. elim o [
                    | none ↦ some (none, r.1)
                    | some k₂ ↦ leer_bytes (k₂ * s.marco_size) segunda s.bytes >>= λ cs.
                        some (some (bs ++ (cs ++ (0 ∷ []))), r.1)
                  ])
    ])

-- `memcpy` into the block of a frame.
pub escribir_en : Memoria → ℕ → ℕ → List ℕ → Option Memoria
escribir_en s k offset xs =
    escribir_bytes (k * s.marco_size + offset) xs s.bytes >>= λ mem. some (record s { bytes = mem })

-- `guardarDatoInt`, which does not compare the offset with the frame's end.
pub guardar_dato_int : Memoria → ℤ → ℤ → ℕ → ℕ → ℤ → Option (ℤ × Memoria)
unfolding escribir_en
guardar_dato_int s pid num_pag offset size valor =
    if ltb s.marco_size size
    then some (pos 1, s)
    else (buscar_bloque s pid num_pag >>= λ r. elim r.0 [
      | none ↦ some (pos 1, r.1)
      | some k ↦
          guard (leb size 4)
          >> escribir_en r.1 k offset (take size (bytes_de_palabra (palabra valor)))
          >>= λ s'. some (pos 0, s')
    ])

-- `guardarDatoString`. Across two frames the first part goes to the start of the first block, and a
-- success leaves the result uninitialised.
pub guardar_dato_string : ℤ → Memoria → ℤ → ℤ → ℕ → ℕ → List ℕ → Option (ℤ × Memoria)
unfolding escribir_en
guardar_dato_string basura s pid num_pag offset size buffer =
    if ltb s.marco_size size
    then some (pos 1, s)
    else (buscar_bloque s pid num_pag >>= λ r. elim r.0 [
      | none ↦ some (pos 1, r.1)
      | some k ↦
          guard (leb size (length buffer))
          >> (if ltb (offset + size) s.marco_size
              then (escribir_en r.1 k offset (take size buffer) >>= λ s'. some (pos 0, s'))
              else let primera = s.marco_size - offset in
                let segunda = size - primera in
                (guard (leb offset s.marco_size)
                  >> escribir_en r.1 k 0 (take primera buffer)
                  >>= λ s₁.
                      verificar_pos_hash s₁ pid (suc_ℤ num_pag)
                        (funcion_hash s₁ pid (suc_ℤ num_pag))
                      >>= λ o. elim o [
                        | none ↦ some (pos 1, s₁)
                        | some k₂ ↦
                            escribir_en s₁ k₂ 0 (take segunda (drop primera buffer)) >>= λ s₂.
                            some (basura, s₂)
                      ]))
    ])
