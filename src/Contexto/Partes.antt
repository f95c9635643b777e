-- ===== src/Contexto/Partes.antt =====
-- The messages of src/kernel/kernel.c and src/cpu/cpu.c with a process: fields with names of their own, the
-- labels and the levels of the stack, and what else follows.
use tp_sisop_1c_2017_david.Prelude.{
  ℕ, ◌<◌, ◌≢◌, ◌⊎◌, inl, inr, ◌≡◌, refl, sym, ◌∙◌, ◌++◌, some, List, [], ◌∷◌, pos, length, codes,
  All, arith, if◌then◌else◌, subst,
}
use tp_sisop_1c_2017_david.Comunicacion.{Mensaje, com_leer_int}
use tp_sisop_1c_2017_david.Comunicacion.Campos.{Campo, numero, valor_de}
use tp_sisop_1c_2017_david.Comunicacion.Secuencias.{Incluye, leer_lista, numerados}
use tp_sisop_1c_2017_david.Comunicacion.Seleccion.{
  Todas, Ninguna, numero_en, numero_en-uno, empieza, valor_de-All, valor_de-Ninguna,
  valor_de-delante, All-mapear, All-numerados, leer_lista-numerados,
}
use tp_sisop_1c_2017_david.Contexto.{
  Etiqueta, Nivel, Formato, campos_etiqueta, campos_nivel, leer_etiqueta, leer_nivel,
}
use tp_sisop_1c_2017_david.Contexto.Validos.{EsEtiqueta, EsNivelValido, All-nivel}
use tp_sisop_1c_2017_david.Contexto.Lectura.{leer_etiqueta-Incluye}
use tp_sisop_1c_2017_david.Contexto.Niveles.{numero_en-nivel, leer_nivel-Incluye}

-- The part of a message that a key belongs to, by its name: labels, `contStack`, levels, `cantInst`,
-- instructions, or fields with names of their own.
unfoldable pub clase : List ℕ → ℕ
unfolding empieza
clase clave =
    if empieza (codes "claveE" ∷ codes "claveU" ∷ []) clave
    then 1
    else if empieza (codes "contS" ∷ []) clave
    then 2
    else if empieza
        (codes "claveI"
          ∷ codes "ret"
          ∷ codes "contA"
          ∷ codes "contV"
          ∷ codes "arg"
          ∷ codes "var"
          ∷ [])
        clave
    then 3
    else if empieza (codes "cantI" ∷ []) clave
    then 4
    else if empieza (codes "pagina" ∷ codes "offset" ∷ codes "size" ∷ []) clave
    then 5
    else 0

module _ (q : ℕ) where
  -- A key of the part that is found among `bs` has the same value in the whole.
  abbrev pub Llega : List (List ℕ × Campo) → List (List ℕ × Campo) → Type 0
  Llega todo bs =
      (clave : List ℕ) (c : Campo)
      → clase clave ≡ q
      → valor_de clave bs ≡ some c
      → valor_de clave todo ≡ some c

  pub Llega-delante : (bs cs : List (List ℕ × Campo)) → Llega (bs ++ cs) bs
  Llega-delante bs cs clave c h e = valor_de-delante clave bs cs e

  pub Llega-tras :
      (ds todo bs : List (List ℕ × Campo))
      → Ninguna clase q ds
      → Llega todo bs
      → Llega (ds ++ todo) bs
  Llega-tras ds todo bs n l clave c h e =
      valor_de-Ninguna clase clave ds todo (subst (λ x. Ninguna clase x ds) (sym h) n)
      ∙ l clave c h e

  pub Llega-tras_otra :
      (r : ℕ) (ds todo bs : List (List ℕ × Campo))
      → r ≢ q
      → Todas clase r ds
      → Llega todo bs
      → Llega (ds ++ todo) bs
  Llega-tras_otra r ds todo bs d t l =
      Llega-tras ds todo bs
        (All-mapear (λ x. clase x.0 ≡ r) (λ x. clase x.0 ≢ q) (λ x a b. d (sym a ∙ b)) ds t) l

  pub Llega-Incluye :
      (m : Mensaje) (todo bs : List (List ℕ × Campo))
      → Todas clase q bs
      → Llega todo bs
      → Incluye m todo
      → Incluye m bs
  Llega-Incluye m todo bs t l inc clave c e =
      inc clave c (l clave c (valor_de-All (λ k. clase k ≡ q) clave bs t e) e)

module _ {ν : Type 0} (formato : Formato ν) where
  -- The fields of labels and of levels, with what stands before and behind.
  abbrev pub campos_proceso :
      List (List ℕ × Campo)
      → List Etiqueta
      → List (Nivel ν)
      → List (List ℕ × Campo)
      → List (List ℕ × Campo)
  campos_proceso fijos etiquetas niveles cola =
      fijos
      ++ (numerados campos_etiqueta 0 etiquetas
          ++ (((codes "contStack", numero (pos (length niveles))) ∷ [])
              ++ (numerados (campos_nivel formato) 0 niveles ++ cola)))

  module _ (fijos : List (List ℕ × Campo)) (etiquetas : List Etiqueta) (niveles : List (Nivel ν))
      (cola : List (List ℕ × Campo)) (propios : All (λ c. (clase c.0 ≡ 0) ⊎ (clase c.0 ≡ 5)) fijos)
      (es : All EsEtiqueta etiquetas) (ns : All (EsNivelValido formato) niveles) where
    ajenos : (q : ℕ) → 0 < q → q < 5 → Ninguna clase q fijos
    ajenos q l m =
        All-mapear (λ c. (clase c.0 ≡ 0) ⊎ (clase c.0 ≡ 5)) (λ c. clase c.0 ≢ q)
          (λ c a e. elim a [
            | inl z ↦ absurd (omega (arith, z, e))
            | inr z ↦ absurd (omega (arith, z, e))
          ])
          fijos propios

    clase-etiquetas : Todas clase 1 (numerados campos_etiqueta 0 etiquetas)
    unfolding clase
    clase-etiquetas =
        All-numerados campos_etiqueta (λ c. clase c.0 ≡ 1) EsEtiqueta (λ i e h. (refl, (refl, tt)))
          0 etiquetas es

    clase-niveles : Todas clase 3 (numerados (campos_nivel formato) 0 niveles)
    unfolding clase
    clase-niveles =
        All-numerados (campos_nivel formato) (λ c. clase c.0 ≡ 3) (EsNivelValido formato)
          (λ i n h.
            All-nivel formato (λ c. clase c.0 ≡ 3) i n h.0
              (refl, (refl, (refl, (refl, (refl, (refl, tt))))))
              (λ a p e. (refl, (refl, (refl, tt)))) refl
              (λ v x e. (refl, (refl, (refl, (refl, tt))))))
          0 niveles ns

    -- What follows the levels is reached by its own keys.
    pub Llega-cola :
        (q : ℕ)
        → 3 < q
        → Ninguna clase q fijos
        → Llega q (campos_proceso fijos etiquetas niveles cola) cola
    unfolding clase
    Llega-cola q h n =
        let nv = numerados (campos_nivel formato) 0 niveles in
        let contado : List (List ℕ × Campo) =
          (codes "contStack", numero (pos (length niveles))) ∷ [] in
        let et = numerados campos_etiqueta 0 etiquetas in
        Llega-tras q fijos (et ++ (contado ++ (nv ++ cola))) cola n (
          Llega-tras_otra q 1 et (contado ++ (nv ++ cola)) cola (λ e. absurd (omega (arith, e)))
            clase-etiquetas
            (Llega-tras_otra q 2 contado (nv ++ cola) cola (λ e. absurd (omega (arith, e)))
              (refl, tt)
              (Llega-tras_otra q 3 nv cola cola (λ e. absurd (omega (arith, e))) clase-niveles
                (λ clave c k e. e))))

    module _ (m : Mensaje) (inc : Incluye m (campos_proceso fijos etiquetas niveles cola)) where
      pub leer_etiquetas-proceso :
          leer_lista (leer_etiqueta m) 0 (length etiquetas) ≡ some etiquetas
      unfolding numero_en
      leer_etiquetas-proceso =
          let et = numerados campos_etiqueta 0 etiquetas in
          let resto =
            ((codes "contStack", numero (pos (length niveles))) ∷ [])
            ++ (numerados (campos_nivel formato) 0 niveles ++ cola) in
          leer_lista-numerados campos_etiqueta numero_en EsEtiqueta
            (λ i e h. (numero_en-uno i, (numero_en-uno i, tt))) (leer_etiqueta m) m
            (λ i e h. leer_etiqueta-Incluye m i e h.1) 0 etiquetas es
            (Llega-Incluye 1 m (campos_proceso fijos etiquetas niveles cola) et clase-etiquetas
              (Llega-tras 1 fijos (et ++ resto) et (ajenos 1 (omega arith) (omega arith))
                (Llega-delante 1 et resto))
              inc)

      pub leer_cantidad-proceso : com_leer_int m (codes "contStack") ≡ some (pos (length niveles))
      unfolding clase valor_de
      leer_cantidad-proceso =
          let nv = numerados (campos_nivel formato) 0 niveles in
          let contado : List (List ℕ × Campo) =
            (codes "contStack", numero (pos (length niveles))) ∷ [] in
          let et = numerados campos_etiqueta 0 etiquetas in
          (inc (codes "contStack") (numero (pos (length niveles))) (
            Llega-tras 2 fijos (et ++ (contado ++ (nv ++ cola))) contado
              (ajenos 2 (omega arith) (omega arith))
              (Llega-tras_otra 2 1 et (contado ++ (nv ++ cola)) contado
                (λ e. absurd (omega (arith, e))) clase-etiquetas
                (Llega-delante 2 contado (nv ++ cola)))
              (codes "contStack") (numero (pos (length niveles))) refl refl)).0

      pub leer_niveles-proceso : leer_lista (leer_nivel formato m) 0 (length niveles) ≡ some niveles
      unfolding numero_en clase
      leer_niveles-proceso =
          let nv = numerados (campos_nivel formato) 0 niveles in
          let contado : List (List ℕ × Campo) =
            (codes "contStack", numero (pos (length niveles))) ∷ [] in
          let et = numerados campos_etiqueta 0 etiquetas in
          leer_lista-numerados (campos_nivel formato) numero_en (EsNivelValido formato)
            (λ i n h. numero_en-nivel formato i n h.0) (leer_nivel formato m) m
            (λ i n h. leer_nivel-Incluye formato m i n h.0) 0 niveles ns
            (Llega-Incluye 3 m (campos_proceso fijos etiquetas niveles cola) nv clase-niveles
              (Llega-tras 3 fijos (et ++ (contado ++ (nv ++ cola))) nv
                (ajenos 3 (omega arith) (omega arith))
                (Llega-tras_otra 3 1 et (contado ++ (nv ++ cola)) nv
                  (λ e. absurd (omega (arith, e))) clase-etiquetas
                  (Llega-tras_otra 3 2 contado (nv ++ cola) nv (λ e. absurd (omega (arith, e)))
                    (refl, tt) (Llega-delante 3 nv cola))))
              inc)
