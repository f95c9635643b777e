-- ===== src/Kernel/Heap/Liberar.antt =====
-- `_liberarEspacio` of src/kernel/heapmemo.c.
use tp_sisop_1c_2017_david.Prelude.{
  ℕ, ◌+◌, ◌-◌, ◌≤◌, ◌<◌, ℤ, pos, ◌≡◌, ◌≢◌, refl, sym, ap, subst, ◌∙◌, le→leb, Option, none, some,
  ◌>>=◌, List, [], ◌∷◌, ◌⊎◌, inl, inr, length, leer_bytes, arith,
}
use tp_sisop_1c_2017_david.Kernel.Heap.{liberar_espacio, reservar_espacio_pagina}
use tp_sisop_1c_2017_david.Kernel.Heap.Bloques.{
  Bloque, libre, usado, tamanio, soltar, fundir_con, fundir_con-Fundidos, Fundidos, Asignado,
  asignar, asignar-Asignacion,
}
use tp_sisop_1c_2017_david.Kernel.Heap.Cadena.{
  EsHeap, EnPagina, Cadena, Escrito, set_heap_block-Escrito, Cadena-ocupan, Cadena-iguales,
  get_heap_block-EnPagina,
}
use tp_sisop_1c_2017_david.Kernel.Heap.Asignado.{
  Asignado-desde, soltar_aqui, soltar_despues, soltar-Asignado, fundir_con-Asignado,
  Asignacion-Vuelve, Vuelve,
}
use tp_sisop_1c_2017_david.Kernel.Heap.Compactar.{Limpia, compactar-Fundida}
use tp_sisop_1c_2017_david.Kernel.Heap.Reservar.{reservar_espacio_pagina_lem, Reserva, reservada}

-- A block in use has its header where `_liberarEspacio` looks for it, and the page with that header made
-- free holds the blocks with this one released.
pub record Suelto (p n i : ℕ) (pagina : List ℕ) (bs : List Bloque) : Type 0 where
  pub desde : i + 5 ≤ p
  pub cabecera_leida : EnPagina pagina (p - 5) (usado n)
  pub hasta : p + n ≤ length pagina
  pub soltado : {q : List ℕ} → Escrito pagina (p - 5) (libre n) q → Cadena q i (soltar p i bs)
  pub ajenos : (a m : ℕ) → a ≢ p → Asignado a m i bs → (a + m ≤ p - 5) ⊎ (p ≤ a)

Asignado-Suelto :
    (p n i : ℕ) (pagina : List ℕ) (bs : List Bloque)
    → Cadena pagina i bs
    → Asignado p n i bs
    → Suelto p n i pagina bs
Asignado-Suelto p n i pagina [] c a = absurd a
Asignado-Suelto p n i pagina (b ∷ bs) c (inl a) =
    let o = Cadena-ocupan pagina i (b ∷ bs) c in
    let k : tamanio b ≡ n = ap tamanio a.1 in
    let ip : p - 5 ≡ i = omega (arith, a.0) in
    record {
      desde = omega (arith, a.0);
      cabecera_leida =
          subst (λ x. EnPagina pagina x (usado n)) (sym ip) (subst (EnPagina pagina i) a.1 c.0);
      hasta = omega (arith, a.0, k);
      soltado = λ {q} w. rw (soltar_aqui p i b bs a.0) (
        subst (λ x. EnPagina q x (libre (tamanio b))) ip
            (subst (λ x. EnPagina q (p - 5) (libre x)) (sym k) w.escrito),
        Cadena-iguales pagina q (i + 5 + tamanio b) bs w.largo
            (λ a₁ m h. w.otros a₁ m (inr (omega (arith, a.0)))) c.1,
      );
      ajenos = λ a' m d x. elim x [
        | inl y ↦ absurd (d (omega (arith, y.0, a.0)))
        | inr y ↦ inr (omega (arith, a.0, Asignado-desde a' m (i + 5 + tamanio b) bs y))
      ];
    }
Asignado-Suelto p n i pagina (b ∷ bs) c (inr a) =
    let x = Asignado-Suelto p n (i + 5 + tamanio b) pagina bs c.1 a in
    record {
      desde = omega (arith, x.desde);
      cabecera_leida = x.cabecera_leida;
      hasta = x.hasta;
      soltado = λ {q} w. rw (soltar_despues p i b bs (omega (arith, x.desde))) (
        record {
          leida = w.otros i 5 (inl (omega (arith, x.desde))) ∙ c.0.leida;
          alcanza = omega (arith, w.largo, c.0.alcanza);
        },
        x.soltado w,
      );
      ajenos = λ a' m d y. elim y [
        | inl z ↦ inl (omega (arith, z.0, ap tamanio z.1, x.desde))
        | inr z ↦ x.ajenos a' m d z
      ];
    }

-- A page after the release of the block at `p`: the blocks melted, every other block in use still there
-- with its bytes.
pub record Liberada (tam p : ℕ) (pagina : List ℕ) (bs : List Bloque) (q : List ℕ) : Type 0 where
  pub heap : EsHeap tam q (fundir_con none (soltar p 0 bs))
  pub fundidos : Fundidos (fundir_con none (soltar p 0 bs))
  pub ajenos :
      (a m : ℕ)
      → a ≢ p
      → Asignado a m 0 bs
      → Asignado a m 0 (fundir_con none (soltar p 0 bs))
        × (leer_bytes a m q ≡ leer_bytes a m pagina)

-- On a page of at most 260 bytes that holds blocks, where malloc gives zeroed bytes, the release of a block
-- in use returns a page that holds the blocks with that one free and free neighbours joined, where every
-- other block in use is still there with its bytes.
pub liberar_espacio_lem :
    (basura : ℕ → ℕ) (tam p n : ℕ) (pagina : List ℕ) (bs : List Bloque)
    → Limpia basura
    → tam < 261
    → EsHeap tam pagina bs
    → Asignado p n 0 bs
    → (q : List ℕ) × (liberar_espacio basura tam pagina p ≡ some q) × Liberada tam p pagina bs q
unfolding liberar_espacio
liberar_espacio_lem basura tam p n pagina bs limpia m v a =
    let s = Asignado-Suelto p n 0 pagina bs v.cadena a in
    let (q₁, e₁, w) =
      set_heap_block-Escrito pagina (p - 5) (libre n) (p - 5 + 5) s.cabecera_leida.alcanza in
    let v₁ : EsHeap tam q₁ (soltar p 0 bs) = record {
      cadena = s.soltado w;
      largo = w.largo ∙ v.largo;
      cabe = v.cabe;
    } in
    let (q, e, x) = compactar-Fundida basura limpia tam q₁ (soltar p 0 bs) v₁ m in
    (
      q,
      rw
          (
            le→leb 5 p s.desde,
            get_heap_block-EnPagina pagina (p - 5) (usado n) (omega (arith, s.hasta, v.largo, m))
                s.cabecera_leida,
            ◌>>=◌,
            e₁,
            ◌>>=◌,
            e,
          )
          refl,
      record {
        heap = record { cadena = x.cadena; largo = x.largo ∙ w.largo ∙ v.largo; cabe = v.cabe };
        fundidos = fundir_con-Fundidos none (soltar p 0 bs);
        ajenos = λ a₁ m₁ d y.
            let z = soltar-Asignado p a₁ m₁ 0 bs (λ t. d (sym t)) y in
            (
              fundir_con-Asignado none a₁ m₁ 0 0 (soltar p 0 bs) refl z,
              x.datos a₁ m₁ z
                  ∙ w.otros a₁ m₁ (elim (s.ajenos a₁ m₁ d y) [
                    | inl t ↦ inl t
                    | inr t ↦ inr (omega (arith, s.desde))
                  ]),
            );
      },
    )

-- The blocks that first fit left, after the release, are those before.
soltar-reservada :
    (n : ℕ) {p : ℕ} (bs bs' : List Bloque)
    → Fundidos bs
    → asignar n 0 bs ≡ some (bs', p)
    → fundir_con none (soltar p 0 bs') ≡ bs
soltar-reservada n {p} bs bs' f e =
    (subst (Vuelve 0 bs) e (Asignacion-Vuelve f (asignar-Asignacion n 0 bs))).1

reservada-liberar :
    {basura : ℕ → ℕ} {tam n p : ℕ} {pagina q : List ℕ} {bs : List Bloque}
    → Limpia basura
    → tam < 261
    → Fundidos bs
    → Reserva tam n pagina bs q (pos p)
    → (q' : List ℕ) × (liberar_espacio basura tam q p ≡ some q') × EsHeap tam q' bs
reservada-liberar {basura} {tam} {n} {p} {pagina} {q} {bs} limpia m f (reservada {bs'} e v a h) =
    let (q', e', x) = liberar_espacio_lem basura tam p n q bs' limpia m v a in
    (q', e', subst (EsHeap tam q') (soltar-reservada n bs bs' f e) x.heap)

-- On a page of at most 260 bytes without free neighbours, with zeroed memory: the release of what a
-- reservation granted gives a page with the same blocks as before.
pub reservar-liberar :
    (basura : ℕ → ℕ) (tam n p : ℕ) (pagina q : List ℕ) (bs : List Bloque)
    → Limpia basura
    → tam < 261
    → EsHeap tam pagina bs
    → Fundidos bs
    → reservar_espacio_pagina tam pagina n ≡ some (q, pos p)
    → (q' : List ℕ) × (liberar_espacio basura tam q p ≡ some q') × EsHeap tam q' bs
reservar-liberar basura tam n p pagina q bs limpia m v f e =
    let (q₁, r, e₁, x) = reservar_espacio_pagina_lem tam n pagina bs v in
    let iguales : some (q₁, r) ≡ some (q, pos p) = sym e₁ ∙ e in
    reservada-liberar limpia m f (subst (λ o. Resultado o) iguales x)
  where
    Resultado : Option (List ℕ × ℤ) → Type 0
    Resultado none = Unit
    Resultado (some (q₁, r)) = Reserva tam n pagina bs q₁ r
