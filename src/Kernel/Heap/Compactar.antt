-- ===== src/Kernel/Heap/Compactar.antt =====
-- `_compactar` of src/kernel/heapmemo.c.
use tp_sisop_1c_2017_david.Prelude.{
  ℕ, zero, suc, ◌+◌, ◌-◌, ◌%◌, ◌^◌, ◌≤◌, ◌<◌, ◌≡◌, refl, ap, subst, ◌∙◌, Option, none, some, ◌>>=◌,
  List, [], ◌∷◌, inl, inr, length, leer_bytes, lt→ltb, le→ltb_false, arith,
}
use tp_sisop_1c_2017_david.Kernel.Heap.{
  get_heap_block, set_heap_block, copiar_size, compactar_desde, compactar,
}
use tp_sisop_1c_2017_david.Kernel.Heap.Bloques.{Bloque, libre, usado, tamanio, fundir_con, Asignado}
use tp_sisop_1c_2017_david.Kernel.Heap.Cadena.{
  EsHeap, EnPagina, Cadena, set_heap_block-Escrito, Cadena-ocupan, Cadena-iguales,
  get_heap_block-EnPagina, avanzar-some,
}
use tp_sisop_1c_2017_david.Kernel.Heap.Asignado.{Asignado-desde, libre-usado}

-- `malloc` gave zeroed bytes: those of a size above the lowest, which is copied over.
abbrev pub Limpia : (ℕ → ℕ) → Type 0
Limpia basura = (p : ℕ) → basura p < 256

copiar_size-Limpia : (b size : ℕ) → b < 256 → size < 256 → copiar_size b size ≡ size
copiar_size-Limpia b size h l = omega arith

-- The state of the loop before the block at `i`: a free block read before it, if any, is in the page.
pub Pendiente : List ℕ → Option (ℕ × ℕ) → ℕ → Type 0
Pendiente pagina none i = Unit
Pendiente pagina (some (j, s)) i = (i ≡ j + 5 + s) × EnPagina pagina j (libre s)

-- Where the blocks of the result start, and the size of the free block read.
abbrev pub principio : Option (ℕ × ℕ) → ℕ → ℕ
principio none i = i
principio (some (j, s)) i = j

abbrev pub leido : Option (ℕ × ℕ) → Option ℕ
leido none = none
leido (some (j, s)) = some s

-- What the loop leaves: the blocks melted, nothing before them touched, and the bytes of blocks in use.
pub record Fundida (pagina : List ℕ) (j i : ℕ) (o : Option ℕ) (bs : List Bloque) (q : List ℕ)
    : Type 0 where
  pub cadena : Cadena q j (fundir_con o bs)
  pub largo : length q ≡ length pagina
  pub antes : (a m : ℕ) → a + m ≤ j → leer_bytes a m q ≡ leer_bytes a m pagina
  pub datos : (a m : ℕ) → Asignado a m i bs → leer_bytes a m q ≡ leer_bytes a m pagina

module _ (basura : ℕ → ℕ) (fuel tam : ℕ) (pagina : List ℕ) (i k : ℕ) (l : length pagina ≡ tam)
    (m : i + 5 + k < 2 ^ 31) where
  paso_usado :
      (aux : Option (ℕ × ℕ))
      → EnPagina pagina i (usado k)
      → compactar_desde basura (suc fuel) tam pagina aux i
        ≡ compactar_desde basura fuel tam pagina none (i + 5 + k)
  unfolding compactar_desde
  paso_usado aux e =
      rw
        (
          compactar_desde,
          lt→ltb (i + 5) tam (omega (arith, l, e.alcanza)),
          get_heap_block-EnPagina pagina i (usado k) (omega arith) e,
          avanzar-some i k m,
        )
        refl

  paso_libre :
      EnPagina pagina i (libre k)
      → compactar_desde basura (suc fuel) tam pagina none i
        ≡ compactar_desde basura fuel tam pagina (some (i, k)) (i + 5 + k)
  unfolding compactar_desde
  paso_libre e =
      rw
        (
          compactar_desde,
          lt→ltb (i + 5) tam (omega (arith, l, e.alcanza)),
          get_heap_block-EnPagina pagina i (libre k) (omega arith) e,
          avanzar-some i k m,
        )
        refl

  paso_fundir :
      (j s : ℕ) (q : List ℕ)
      → EnPagina pagina i (libre k)
      → s + k + 5 < 2 ^ 32
      → set_heap_block pagina
          (record { is_used = 0; size = copiar_size (basura i) (s + k + 5); puntero = 0 })
          j
        ≡ some q
      → compactar_desde basura (suc fuel) tam pagina (some (j, s)) i
        ≡ compactar_desde basura fuel tam q (some (j, s + k + 5)) (i + 5 + k)
  unfolding compactar_desde
  paso_fundir j s q e t w =
      let total : (s + k + 5) % 2 ^ 32 ≡ s + k + 5 = omega arith in
      rw
        (
          compactar_desde,
          lt→ltb (i + 5) tam (omega (arith, l, e.alcanza)),
          get_heap_block-EnPagina pagina i (libre k) (omega arith) e,
          avanzar-some i k m,
          ◌>>=◌,
          total,
          w,
        )
        refl

fin_de_pagina :
    (basura : ℕ → ℕ) (fuel tam : ℕ) (pagina : List ℕ) (aux : Option (ℕ × ℕ)) (i : ℕ)
    → 0 < fuel
    → tam ≤ i + 5
    → compactar_desde basura fuel tam pagina aux i ≡ some pagina
unfolding compactar_desde
fin_de_pagina basura zero tam pagina aux i f h = absurd (omega arith)
fin_de_pagina basura (suc fuel) tam pagina aux i f h =
    rw (compactar_desde, le→ltb_false (i + 5) tam h) refl

usado-datos :
    {pagina q : List ℕ} (i k : ℕ) {bs : List Bloque}
    → Fundida pagina (i + 5 + k) (i + 5 + k) none bs q
    → (a m : ℕ) → Asignado a m i (usado k ∷ bs)
    → leer_bytes a m q ≡ leer_bytes a m pagina
usado-datos i k x a m (inl y) = x.antes a m (omega (arith, y.0, ap tamanio y.1))
usado-datos i k x a m (inr y) = x.datos a m y

-- A used block that follows the run stays.
usado-Fundida :
    {pagina q : List ℕ} {i k : ℕ} {bs : List Bloque}
    → (aux : Option (ℕ × ℕ)) → EnPagina pagina i (usado k)
    → Pendiente pagina aux i
    → Fundida pagina (i + 5 + k) (i + 5 + k) none bs q
    → Fundida pagina (principio aux i) i (leido aux) (usado k ∷ bs) q
unfolding Pendiente fundir_con
usado-Fundida {pagina} {q} {i} {k} {bs} none e p x = record {
  cadena = (
    record {
      leida = x.antes i 5 (omega arith) ∙ e.leida;
      alcanza = omega (arith, x.largo, e.alcanza);
    },
    x.cadena,
  );
  largo = x.largo;
  antes = λ a n h. x.antes a n (omega arith);
  datos = usado-datos i k x;
}
usado-Fundida {pagina} {q} {i} {k} {bs} (some (j, s)) e p x = record {
  cadena = (
    record {
      leida = x.antes j 5 (omega (arith, p.0)) ∙ p.1.leida;
      alcanza = omega (arith, x.largo, p.1.alcanza);
    },
    subst (λ t. EnPagina q t (usado k) × Cadena q (t + 5 + k) (fundir_con none bs)) p.0
        (
          record {
            leida = x.antes i 5 (omega arith) ∙ e.leida;
            alcanza = omega (arith, x.largo, e.alcanza);
          },
          x.cadena,
        ),
  );
  largo = x.largo;
  antes = λ a n h. x.antes a n (omega (arith, p.0));
  datos = usado-datos i k x;
}

module _ (basura : ℕ → ℕ) (limpia : Limpia basura) where
  pub compactar_desde-Fundida :
      (fuel tam : ℕ) (pagina : List ℕ) (aux : Option (ℕ × ℕ)) (i : ℕ) (bs : List Bloque)
      → length pagina ≡ tam
      → tam < 261
      → tam < i + fuel
      → Cadena pagina i bs
      → Pendiente pagina aux i
      → (q : List ℕ) × (compactar_desde basura fuel tam pagina aux i ≡ some q)
        × Fundida pagina (principio aux i) i (leido aux) bs q
  unfolding compactar_desde Pendiente fundir_con
  compactar_desde-Fundida zero tam pagina aux i bs l m f c p =
      absurd (omega (arith, Cadena-ocupan pagina i bs c))
  compactar_desde-Fundida (suc fuel) tam pagina none i [] l m f c p = (
    pagina,
    rw (compactar_desde, le→ltb_false (i + 5) tam (omega (arith, c))) refl,
    record { cadena = c; largo = refl; antes = λ a m h. refl; datos = λ a m h. absurd h },
  )
  compactar_desde-Fundida (suc fuel) tam pagina (some (j, s)) i [] l m f c p = (
    pagina,
    rw (compactar_desde, le→ltb_false (i + 5) tam (omega (arith, c))) refl,
    record {
      cadena = (p.1, omega (arith, p.0, c));
      largo = refl;
      antes = λ a m h. refl;
      datos = λ a m h. absurd h;
    },
  )
  compactar_desde-Fundida (suc fuel) tam pagina aux i (usado k ∷ bs) l m f c p =
      let o = Cadena-ocupan pagina i (usado k ∷ bs) c in
      let (q, e, x) =
        compactar_desde-Fundida fuel tam pagina none (i + 5 + k) bs l m (omega arith) c.1 tt in
      (
        q,
        paso_usado basura fuel tam pagina i k l (omega arith) aux c.0 ∙ e,
        usado-Fundida aux c.0 p x,
      )
  compactar_desde-Fundida (suc fuel) tam pagina none i (libre k ∷ bs) l m f c p =
      let o = Cadena-ocupan pagina i (libre k ∷ bs) c in
      let (q, e, x) =
        compactar_desde-Fundida fuel tam pagina (some (i, k)) (i + 5 + k) bs l m (omega arith) c.1
          (refl, c.0) in
      (
        q,
        paso_libre basura fuel tam pagina i k l (omega arith) c.0 ∙ e,
        record {
          cadena = x.cadena;
          largo = x.largo;
          antes = x.antes;
          datos = λ a w h. elim h [ inl y ↦ absurd (libre-usado k w y.1) | inr y ↦ x.datos a w y ];
        },
      )
  compactar_desde-Fundida (suc fuel) tam pagina (some (j, s)) i (libre k ∷ bs) l m f c p =
      let o = Cadena-ocupan pagina i (libre k ∷ bs) c in
      let (q₁, e₁, w) =
        set_heap_block-Escrito pagina j (libre (s + k + 5)) 0 (omega (arith, p.0, c.0.alcanza)) in
      let (q, e, x) =
        compactar_desde-Fundida fuel tam q₁ (some (j, s + k + 5)) (i + 5 + k) bs (w.largo ∙ l) m
          (omega arith)
          (Cadena-iguales pagina q₁ (i + 5 + k) bs w.largo
            (λ a n h. w.otros a n (inr (omega (arith, p.0)))) c.1)
          (omega (arith, p.0), w.escrito) in
      (
        q,
        paso_fundir basura fuel tam pagina i k l (omega arith) j s q₁ c.0 (omega (arith, p.0))
              (rw (copiar_size-Limpia (basura i) (s + k + 5) (limpia i) (omega (arith, p.0))) e₁)
            ∙ e,
        record {
          cadena = x.cadena;
          largo = x.largo ∙ w.largo;
          antes = λ a n h. x.antes a n h ∙ w.otros a n (inl h);
          datos = λ a n h. elim h [
            | inl y ↦ absurd (libre-usado k n y.1)
            | inr y ↦
                x.datos a n y
                ∙ w.otros a n (inr (omega (arith, p.0, Asignado-desde a n (i + 5 + k) bs y)))
          ];
        },
      )

  -- `_compactar` on a whole page.
  pub compactar-Fundida :
      (tam : ℕ) (pagina : List ℕ) (bs : List Bloque)
      → EsHeap tam pagina bs
      → tam < 261
      → (q : List ℕ) × (compactar basura tam pagina ≡ some q) × Fundida pagina 0 0 none bs q
  unfolding compactar Pendiente
  compactar-Fundida tam pagina bs v m =
      compactar_desde-Fundida (suc tam) tam pagina none 0 bs v.largo m (omega arith) v.cadena tt

  -- Where malloc gives zeroed bytes, the compaction of a page that is two free blocks leaves a first block
  -- whose size is that of the two joined modulo 256.
  pub compactar_pierde_size :
      (tam a b : ℕ) (pagina : List ℕ)
      → EsHeap tam pagina (libre a ∷ libre b ∷ [])
      → (q : List ℕ) × (compactar basura tam pagina ≡ some q)
        × (get_heap_block q 0
            ≡ some (record { is_used = 0; size = (a + b + 5) % 256; puntero = 5 }))
  unfolding compactar
  compactar_pierde_size tam a b pagina v =
      let c = v.cadena in
      let o : 5 + a + 5 + b ≡ tam =
        omega (arith, Cadena-ocupan pagina 0 (libre a ∷ libre b ∷ []) c, v.largo) in
      let un_paso : tam ≡ suc (tam - 1) = omega arith in
      let t : copiar_size (basura (5 + a)) (a + b + 5) ≡ (a + b + 5) % 256 =
        omega (arith, limpia (5 + a)) in
      let (q, e, w) =
        set_heap_block-Escrito pagina 0 (libre ((a + b + 5) % 256)) 0
          (omega (arith, c.0.alcanza)) in
      (
        q,
        paso_libre basura tam tam pagina 0 a v.largo (omega (arith, v.cabe)) c.0
            ∙ ap (λ g. compactar_desde basura g tam pagina (some (0, a)) (5 + a)) un_paso
            ∙ paso_fundir basura (tam - 1) tam pagina (5 + a) b v.largo (omega (arith, v.cabe)) 0 a
                q c.1.0 (omega (arith, v.cabe)) (rw (t) e)
            ∙ fin_de_pagina basura (tam - 1) tam q (some (0, a + b + 5)) (5 + a + 5 + b)
                (omega arith) (omega arith),
        get_heap_block-EnPagina q 0 (libre ((a + b + 5) % 256)) (omega arith) w.escrito,
      )
