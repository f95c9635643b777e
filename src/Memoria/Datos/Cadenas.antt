-- ===== src/Memoria/Datos/Cadenas.antt =====
-- `leerDatoString` and `guardarDatoString` of src/memoria/memoria.c.
use tp_sisop_1c_2017_david.Prelude.{
  ℕ, ◌+◌, ◌-◌, ◌*◌, ◌≤◌, ◌<◌, ℤ, pos, suc_ℤ, suc_ℤ-ne, ◌≡◌, sym, ap, ◌∙◌, ◌≢◌, inl, inr, some,
  le→leb, lt→ltb, le→ltb_false, List, [], ◌∷◌, ◌++◌, length, take, drop, length-take, length-drop,
  leer_bytes, bloques_disjuntos, arith,
}
use tp_sisop_1c_2017_david.Memoria.Estado.{Memoria}
use tp_sisop_1c_2017_david.Memoria.Paginas.Invariante.{
  ubicar, ubicar_inj, verificar_pos_hash-ubicar,
}
use tp_sisop_1c_2017_david.Memoria.Paginas.Guardar.{contenido}
use tp_sisop_1c_2017_david.Memoria.Datos.{leer_dato_string, guardar_dato_string}
use tp_sisop_1c_2017_david.Memoria.Datos.Coherencia.{Coherente, EsProceso, buscar_bloque_lem}
use tp_sisop_1c_2017_david.Memoria.Datos.Escritura.{
  escribir_en-Escrita, dentro_del_bloque, Escrita-contenido, SoloCache-ubicar,
}

-- A text that is written where it ends before the last byte of a frame inside the allocation is read back,
-- with a final 0, by the next read at that place; no other frame's block changes, no page moves, and the
-- state stays coherent.
pub guardar-leer_dato_string :
    {s : Memoria} (pid pag : ℤ) {k : ℕ} (offset size : ℕ) (buffer : List ℕ) (basura : ℤ)
    → Coherente s
    → EsProceso pid
    → ubicar s pid pag ≡ some k
    → k + s.bloques_adm < s.marcos
    → offset + size < s.marco_size
    → size ≤ length buffer
    → (s' : Memoria) × (guardar_dato_string basura s pid pag offset size buffer ≡ some (pos 0, s'))
      × Coherente s'
      × ((q g : ℤ) → ubicar s' q g ≡ ubicar s q g)
      × ((j : ℕ) → j ≢ k → contenido s' j ≡ contenido s j)
      × ((s'' : Memoria) × (leer_dato_string s' pid pag offset size
            ≡ some (some (take size buffer ++ (0 ∷ [])), s'')))
unfolding guardar_dato_string leer_dato_string
guardar-leer_dato_string {s} pid pag {k} offset size buffer basura c np e dentro h hb =
    let largo : length (take size buffer) ≡ size = omega (arith, length-take size buffer) in
    let (s₁, eb, solo, c₁) = buscar_bloque_lem pid pag c np in
    let (s', ew, w) = escribir_en-Escrita k offset (take size buffer) c₁ (
      rw (solo.medidas.1, solo.bytes)
        (omega
          (arith, largo, dentro_del_bloque k (offset + size) c.valida dentro (omega arith)))) in
    let medida : s'.marco_size ≡ s.marco_size = w.medidas.1 ∙ solo.medidas.1 in
    let (s'', eb', solo', c'') = buscar_bloque_lem pid pag w.coherente np in
    (
      s',
      rw (
        le→ltb_false s.marco_size size (omega arith),
        eb,
        e,
        le→leb size (length buffer) hb,
        lt→ltb (offset + size) s.marco_size h,
        ew,
      ),
      w.coherente,
      λ q g. w.ubicadas q g ∙ SoloCache-ubicar q g solo,
      λ j n.
          Escrita-contenido k offset (take size buffer) w (omega (arith, solo.medidas.1, largo)) j n
          ∙ (rw (solo.medidas.1, solo.bytes)),
      (
        s'',
        rw (
          le→ltb_false s'.marco_size size (omega (arith, medida)),
          eb',
          w.ubicadas pid pag,
          SoloCache-ubicar pid pag solo,
          e,
          lt→ltb (offset + size) s'.marco_size (omega (arith, medida)),
          w.lectura size (sym largo),
        ),
      ),
    )

-- A text that reaches the end of its frame goes wrong where the next page is there too: its first part is
-- written from the start of the first block on, whatever the offset, its rest at the start of the second,
-- and the answer is what the uninitialised result held.
pub guardar_dato_string_cruza :
    {s : Memoria} (pid pag : ℤ) {k k₂ : ℕ} (offset size : ℕ) (buffer : List ℕ) (basura : ℤ)
    → Coherente s
    → EsProceso pid
    → ubicar s pid pag ≡ some k
    → ubicar s pid (suc_ℤ pag) ≡ some k₂
    → k + s.bloques_adm < s.marcos
    → k₂ + s.bloques_adm < s.marcos
    → offset ≤ s.marco_size
    → size ≤ s.marco_size
    → s.marco_size ≤ offset + size
    → size ≤ length buffer
    → (s' : Memoria) × (guardar_dato_string basura s pid pag offset size buffer ≡ some (basura, s'))
      × (leer_bytes (k * s.marco_size) (s.marco_size - offset) s'.bytes
          ≡ some (take (s.marco_size - offset) buffer))
      × (leer_bytes (k₂ * s.marco_size) (size - (s.marco_size - offset)) s'.bytes
          ≡ some (take (size - (s.marco_size - offset)) (drop (s.marco_size - offset) buffer)))
unfolding guardar_dato_string
guardar_dato_string_cruza {s} pid pag {k} {k₂} offset size buffer basura c np e e₂ dentro dentro₂ ho
      hs hf hb =
    let primera : ℕ = s.marco_size - offset in
    let segunda : ℕ = size - primera in
    let l₁ : length (take primera buffer) ≡ primera = omega (arith, length-take primera buffer) in
    let l₂ : length (take segunda (drop primera buffer)) ≡ segunda =
      omega (arith, length-take segunda (drop primera buffer), length-drop primera buffer) in
    let (s₀, eb, solo, c₀) = buscar_bloque_lem pid pag c np in
    let (s₁, e₁, w₁) = escribir_en-Escrita k 0 (take primera buffer) c₀ (
      rw (solo.medidas.1, solo.bytes)
        (omega (arith, l₁, dentro_del_bloque k primera c.valida dentro (omega arith)))) in
    let medida : s₁.marco_size ≡ s.marco_size = w₁.medidas.1 ∙ solo.medidas.1 in
    let siguiente : ubicar s₁ pid (suc_ℤ pag) ≡ some k₂ =
      w₁.ubicadas pid (suc_ℤ pag) ∙ SoloCache-ubicar pid (suc_ℤ pag) solo ∙ e₂ in
    let v₁ = w₁.coherente.valida in
    let (s₂, e₃, w₂) = escribir_en-Escrita k₂ 0 (take segunda (drop primera buffer)) w₁.coherente (
      omega (
        arith,
        l₂,
        dentro_del_bloque k₂ segunda v₁ (omega (arith, w₁.medidas, solo.medidas, dentro₂))
            (omega (arith, medida)),
      )) in
    let lugar : (j : ℕ) → j * s.marco_size ≡ j * s₁.marco_size + 0 = λ j. rw medida (omega arith) in
    let lugar' : k₂ * s.marco_size ≡ k₂ * s₂.marco_size + 0 =
      rw (w₂.medidas.1, medida) (omega arith) in
    let distintos : k ≢ k₂ =
      λ h. suc_ℤ-ne pag (sym (ubicar_inj c.valida pid pag pid (suc_ℤ pag) e (rw h e₂)).1) in
    (
      s₂,
      rw (
        le→ltb_false s.marco_size size hs,
        eb,
        e,
        le→leb size (length buffer) hb,
        le→ltb_false (offset + size) s.marco_size hf,
        le→leb offset s.marco_size ho,
        e₁,
        verificar_pos_hash-ubicar v₁ pid (suc_ℤ pag),
        siguiente,
        e₃,
      ),
      w₂.fuera (k * s.marco_size) primera (elim (bloques_disjuntos k k₂ s.marco_size distintos) [
        | inl x ↦ inr (omega (arith, l₂, lugar k₂))
        | inr x ↦ inl (omega (arith, lugar k₂))
      ])
          ∙ ap (λ a. leer_bytes a primera s₁.bytes) (lugar k)
          ∙ w₁.lectura primera (sym l₁),
      ap (λ a. leer_bytes a segunda s₂.bytes) lugar' ∙ w₂.lectura segunda (sym l₂),
    )
