-- ===== src/Memoria/Datos/Enteros.antt =====
-- `leerDatoInt` and `guardarDatoInt` of src/memoria/memoria.c.
use tp_sisop_1c_2017_david.Prelude.{
  ℕ, ◌+◌, ◌-◌, ◌*◌, ◌≤◌, ◌<◌, ℤ, pos, ◌≡◌, sym, ap, ◌∙◌, ◌≢◌, lt→ltb, le→ltb_false, some, length,
  drop, leer_bytes, leer_bytes-drop, palabra, bytes_de_palabra, EsInt32, int_roundtrip,
  length-bytes_de_palabra, arith,
}
use tp_sisop_1c_2017_david.Memoria.Estado.{Memoria}
use tp_sisop_1c_2017_david.Memoria.Paginas.Invariante.{ubicar}
use tp_sisop_1c_2017_david.Memoria.Paginas.Guardar.{contenido}
use tp_sisop_1c_2017_david.Memoria.Datos.{leer_dato_int, guardar_dato_int, copiar_a_int}
use tp_sisop_1c_2017_david.Memoria.Datos.Coherencia.{
  Coherente, EsProceso, SoloCache, buscar_bloque_lem,
}
use tp_sisop_1c_2017_david.Memoria.Datos.Escritura.{
  Escrita, escribir_en-Escrita, dentro_del_bloque, Escrita-contenido, SoloCache-ubicar,
}

-- The four bytes of an `int` fill the variable that they are copied to.
copiar_a_int-bytes_de_palabra :
    (basura v : ℤ) → EsInt32 v → copiar_a_int basura (bytes_de_palabra (palabra v)) ≡ some v
unfolding copiar_a_int bytes_de_palabra
copiar_a_int-bytes_de_palabra basura v h = ap some (int_roundtrip v h)

module _ {s : Memoria} (pid pag : ℤ) (c : Coherente s) (np : EsProceso pid) {k : ℕ}
    (e : ubicar s pid pag ≡ some k) where
  leer-valor :
      (basura : ℤ) (offset : ℕ) (valor : ℤ)
      → EsInt32 valor
      → offset + 4 < s.marco_size
      → leer_bytes (k * s.marco_size + offset) 4 s.bytes ≡ some (bytes_de_palabra (palabra valor))
      → (s' : Memoria) × (leer_dato_int basura s pid pag offset 4 ≡ some (valor, s')) × Coherente s'
  unfolding leer_dato_int
  leer-valor basura offset valor hv h lectura =
      let (s₁, eb, solo, c₁) = buscar_bloque_lem pid pag c np in
      (
        s₁,
        rw (
          le→ltb_false s.marco_size 4 (omega arith),
          eb,
          e,
          lt→ltb (offset + 4) s.marco_size h,
          lectura,
          copiar_a_int-bytes_de_palabra basura valor hv,
        ),
        c₁,
      )

  guardar-Escrita :
      (offset : ℕ) (valor : ℤ)
      → 4 ≤ s.marco_size
      → k * s.marco_size + offset + 4 ≤ length s.bytes
      → (s₁ : Memoria) × (s' : Memoria) × (guardar_dato_int s pid pag offset 4 valor
          ≡ some (pos 0, s'))
        × SoloCache s s₁
        × Escrita s₁ k offset (bytes_de_palabra (palabra valor)) s'
  unfolding guardar_dato_int bytes_de_palabra
  guardar-Escrita offset valor hm h =
      let (s₁, eb, solo, c₁) = buscar_bloque_lem pid pag c np in
      let (s', ew, w) =
        escribir_en-Escrita k offset (bytes_de_palabra (palabra valor)) c₁
          (rw (solo.medidas.1, solo.bytes) h) in
      (s₁, s', rw (le→ltb_false s.marco_size 4 hm, eb, e, ew), solo, w)

-- An `int` that is written where it ends before the last byte of a frame inside the allocation is read back
-- by the next read at that place, no other frame's block changes, no page moves, and the state stays
-- coherent.
pub guardar-leer_dato_int :
    {s : Memoria} (pid pag : ℤ) {k : ℕ} (offset : ℕ) (valor basura : ℤ)
    → Coherente s
    → EsProceso pid
    → ubicar s pid pag ≡ some k
    → k + s.bloques_adm < s.marcos
    → offset + 4 < s.marco_size
    → EsInt32 valor
    → (s' : Memoria) × (guardar_dato_int s pid pag offset 4 valor ≡ some (pos 0, s'))
      × Coherente s'
      × ((q g : ℤ) → ubicar s' q g ≡ ubicar s q g)
      × ((j : ℕ) → j ≢ k → contenido s' j ≡ contenido s j)
      × ((s'' : Memoria) × (leer_dato_int basura s' pid pag offset 4 ≡ some (valor, s'')))
guardar-leer_dato_int {s} pid pag {k} offset valor basura c np e dentro h hv =
    let (s₁, s', eg, solo, w) =
      guardar-Escrita pid pag c np e offset valor (omega arith)
        (omega (arith, dentro_del_bloque k (offset + 4) c.valida dentro (omega arith))) in
    let medida : s'.marco_size ≡ s.marco_size = w.medidas.1 ∙ solo.medidas.1 in
    let donde : ubicar s' pid pag ≡ some k =
      w.ubicadas pid pag ∙ SoloCache-ubicar pid pag solo ∙ e in
    let (s'', el, c'') =
      leer-valor pid pag w.coherente np donde basura offset valor hv (omega (arith, medida))
        (w.lectura 4 (sym (length-bytes_de_palabra (palabra valor)))) in
    (
      s',
      eg,
      w.coherente,
      λ q g. w.ubicadas q g ∙ SoloCache-ubicar q g solo,
      λ j n.
          Escrita-contenido k offset (bytes_de_palabra (palabra valor)) w
            (omega (arith, solo.medidas.1, length-bytes_de_palabra (palabra valor))) j n
          ∙ (rw (solo.medidas.1, solo.bytes)),
      (s'', el),
    )

-- A read of up to a frame's size that ends at the frame's end or beyond it returns what the uninitialised
-- result held, whatever the frame holds: also for an `int` in the last four bytes.
pub leer_dato_int-fin_de_pagina :
    {s : Memoria} (pid pag : ℤ) {k : ℕ} (offset size : ℕ) (basura : ℤ)
    → Coherente s
    → EsProceso pid
    → ubicar s pid pag ≡ some k
    → size ≤ s.marco_size
    → s.marco_size ≤ offset + size
    → (s' : Memoria) × (leer_dato_int basura s pid pag offset size ≡ some (basura, s'))
      × SoloCache s s'
unfolding leer_dato_int
leer_dato_int-fin_de_pagina {s} pid pag offset size basura c np e h hf =
    let (s₁, eb, solo, c₁) = buscar_bloque_lem pid pag c np in
    (
      s₁,
      rw (le→ltb_false s.marco_size size h, eb, e, le→ltb_false (offset + size) s.marco_size hf),
      solo,
    )

-- `guardarDatoInt` does not look at the frame's end: an `int` written over it goes on into the next
-- frame's block, whose first bytes are then the `int`'s last ones.
pub guardar_dato_int_desborda :
    {s : Memoria} (pid pag : ℤ) {k : ℕ} (offset : ℕ) (valor : ℤ)
    → Coherente s
    → EsProceso pid
    → ubicar s pid pag ≡ some k
    → k + 1 + s.bloques_adm < s.marcos
    → 4 ≤ s.marco_size
    → offset < s.marco_size
    → s.marco_size < offset + 4
    → (s' : Memoria) × (guardar_dato_int s pid pag offset 4 valor ≡ some (pos 0, s'))
      × (leer_bytes ((k + 1) * s.marco_size) (offset + 4 - s.marco_size) s'.bytes
          ≡ some (drop (s.marco_size - offset) (bytes_de_palabra (palabra valor))))
guardar_dato_int_desborda {s} pid pag {k} offset valor c np e dentro hm ho hf =
    let (s₁, s', eg, solo, w) = guardar-Escrita pid pag c np e offset valor hm (
      omega (
        arith,
        dentro_del_bloque (k + 1) s.marco_size c.valida dentro (omega arith),
        dentro_del_bloque k s.marco_size c.valida (omega arith) (omega arith),
      )) in
    let medida : s'.marco_size ≡ s.marco_size = w.medidas.1 ∙ solo.medidas.1 in
    let lectura = w.lectura 4 (sym (length-bytes_de_palabra (palabra valor))) in
    (
      s',
      eg,
      leer_bytes-drop (k * s'.marco_size + offset) ((k + 1) * s.marco_size) (s.marco_size - offset)
          (offset + 4 - s.marco_size) 4 s'.bytes lectura (rw medida (grind arith)) (omega arith),
    )
