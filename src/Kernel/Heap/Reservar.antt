-- ===== src/Kernel/Heap/Reservar.antt =====
-- `_crearPagina` and `_reservarEspacioPagina` of src/kernel/heapmemo.c.
use tp_sisop_1c_2017_david.Prelude.{
  ℕ, suc, ◌+◌, ◌-◌, ◌%◌, ◌^◌, ◌≤◌, ◌<◌, ℤ, pos, minus_one, ◌≡◌, refl, ap, ap₂, subst, ◌∙◌, Option,
  none, some, ◌>>=◌, List, [], ◌∷◌, inl, inr, length, leer_bytes, replicate, length-replicate,
  dec_lt, lt→ltb, le→ltb_false, arith,
}
use tp_sisop_1c_2017_david.Kernel.Heap.{
  BloqueHeap, set_heap_block, obtener_bloque_libre, obtener_desde, crear_pagina,
  reservar_espacio_pagina, minus_two,
}
use tp_sisop_1c_2017_david.Kernel.Heap.Bloques.{
  Bloque, libre, usado, asignar, asignar-Asignacion, Asignado,
}
use tp_sisop_1c_2017_david.Kernel.Heap.Cadena.{EsHeap, set_heap_block-Escrito}
use tp_sisop_1c_2017_david.Kernel.Heap.Asignado.{Concedido, concedido, Asignacion-Concedido}
use tp_sisop_1c_2017_david.Kernel.Heap.Buscar.{Partido, Hallado, no_hay, hay, obtener_desde-Hallado}

-- A new page, of more than five and fewer than 2 ^ 31 bytes, is one free block.
pub crear_pagina_lem :
    (tam : ℕ)
    → 5 < tam
    → tam < 2 ^ 31
    → (q : List ℕ) × (crear_pagina tam ≡ some q) × EsHeap tam q (libre (tam - 5) ∷ [])
unfolding crear_pagina
crear_pagina_lem tam h m =
    let cero : List ℕ = replicate tam 0 in
    let n : length cero ≡ tam = length-replicate tam 0 in
    let (q, e, w) = set_heap_block-Escrito cero 0 (libre (tam - 5)) 0 (omega (arith, n)) in
    let size : (tam + 2 ^ 32 - 5) % 2 ^ 32 ≡ tam - 5 = omega arith in
    (
      q,
      (ap (λ k. set_heap_block cero (record { is_used = 0; size = k; puntero = 0 }) 0) size ∙ e),
      record { cadena = (w.escrito, omega (arith, w.largo, n)); largo = w.largo ∙ n; cabe = m },
    )

resto : (n k : ℕ) → n + 5 < k → k < 2 ^ 32 → (k + 2 ^ 32 - (5 + n)) % 2 ^ 32 ≡ k - (n + 5)
resto n k h m = omega arith

-- The two headers that a reservation writes.
partir_bloque :
    (n : ℕ) (pagina : List ℕ) (p j k : ℕ)
    → p ≡ j + 5
    → n + 5 < k
    → k < 2 ^ 32
    → j + 5 + k ≤ length pagina
    → (q₁ q : List ℕ) × (set_heap_block pagina
          (record { is_used = 1; size = n; puntero = p })
          (p - 5)
        ≡ some q₁)
      × (set_heap_block q₁
            (record { is_used = 0; size = (k + 2 ^ 32 - (5 + n)) % 2 ^ 32; puntero = 0 })
            (p - 5 + 5 + n)
          ≡ some q)
      × Partido n pagina j k q
partir_bloque n pagina p j k ep h hk d =
    let (q₁, e₁, w₁) = set_heap_block-Escrito pagina j (usado n) p (omega arith) in
    let (q, e, w) =
      set_heap_block-Escrito q₁ (j + 5 + n) (libre (k - (n + 5))) 0 (omega (arith, w₁.largo)) in
    (
      q₁,
      q,
      ap (set_heap_block pagina (record { is_used = 1; size = n; puntero = p })) (omega arith) ∙ e₁,
      ap₂ (λ t x. set_heap_block q₁ (record { is_used = 0; size = t; puntero = 0 }) x)
            (resto n k h hk) (omega arith)
          ∙ e,
      record {
        primero = record {
          leida = w.otros j 5 (inl (omega arith)) ∙ w₁.escrito.leida;
          alcanza = omega (arith, w.largo, w₁.largo);
        };
        segundo = w.escrito;
        largo = w.largo ∙ w₁.largo;
        otros = λ a m o. elim o [
          | inl x ↦ w.otros a m (inl (omega arith)) ∙ w₁.otros a m (inl x)
          | inr x ↦ w.otros a m (inr (omega arith)) ∙ w₁.otros a m (inr (omega arith))
        ];
      },
    )

-- What a reservation of `n` bytes does to a page that holds the blocks `bs`.
pub data Reserva (tam n : ℕ) (pagina : List ℕ) (bs : List Bloque) : List ℕ → ℤ → Type 0 where
  excede : tam < n + 10 → Reserva tam n pagina bs pagina minus_one
  sin_lugar : n + 10 ≤ tam → asignar n 0 bs ≡ none → Reserva tam n pagina bs pagina minus_two
  reservada :
      {bs' : List Bloque} {p : ℕ} {q : List ℕ}
      → asignar n 0 bs ≡ some (bs', p)
      → EsHeap tam q bs'
      → Asignado p n 0 bs'
      → ((a m : ℕ)
          → Asignado a m 0 bs
          → Asignado a m 0 bs' × (leer_bytes a m q ≡ leer_bytes a m pagina))
      → Reserva tam n pagina bs q (pos p)

-- The body of `_reservarEspacioPagina` after the search.
reservar_en :
    (tam n : ℕ) (pagina : List ℕ) (bs : List Bloque)
    → EsHeap tam pagina bs
    → n + 10 ≤ tam
    → {o : Option (List Bloque × ℕ)} {r : Option BloqueHeap}
    → obtener_desde (suc tam) tam pagina n 0 ≡ some r
    → Hallado n pagina 0 bs o r
    → Concedido n 0 bs o
    → asignar n 0 bs ≡ o
    → (q : List ℕ) × (z : ℤ) × (reservar_espacio_pagina tam pagina n ≡ some (q, z))
      × Reserva tam n pagina bs q z
unfolding reservar_espacio_pagina obtener_bloque_libre
reservar_en tam n pagina bs v l e no_hay c s =
    (pagina, minus_two, rw (e, le→ltb_false tam (n + 10) l) refl, sin_lugar l s)
reservar_en tam n pagina bs v l e (hay {j = j} {k} lugar) (concedido {bs'} {p} nuevo viejos) s =
    let (q₁, q, e₁, e₂, w) =
      partir_bloque n pagina p j k lugar.datos lugar.entra
        (omega (arith, lugar.hasta, v.largo, v.cabe)) lugar.hasta in
    let grande : n ≤ (k + 2 ^ 32 - 5) % 2 ^ 32 =
      omega (arith, lugar.entra, lugar.hasta, v.largo, v.cabe) in
    (
      q,
      pos p,
      rw
          (
            e,
            le→ltb_false tam (n + 10) l,
            ◌>>=◌,
            le→ltb_false ((k + 2 ^ 32 - 5) % 2 ^ 32) n grande,
            e₁,
            ◌>>=◌,
            e₂,
          )
          (ap (λ x. some (q, pos x)) (omega (arith, lugar.datos))),
      reservada s (record { cadena = lugar.partir w; largo = w.largo ∙ v.largo; cabe = v.cabe })
          nuevo (λ a m x. (viejos a m x, w.otros a m (lugar.ajenos a m x))),
    )

-- On a page that holds blocks, a reservation always returns: -1 exactly for more than `_getTamanioMaximo`
-- bytes; otherwise what first fit on the blocks says, -2 where no block serves, and else the position of a
-- block now in use, on a page that holds first fit's blocks, where every block that was in use is still
-- there with its bytes.
pub reservar_espacio_pagina_lem :
    (tam n : ℕ) (pagina : List ℕ) (bs : List Bloque)
    → EsHeap tam pagina bs
    → (q : List ℕ) × (r : ℤ) × (reservar_espacio_pagina tam pagina n ≡ some (q, r))
      × Reserva tam n pagina bs q r
unfolding reservar_espacio_pagina obtener_bloque_libre
reservar_espacio_pagina_lem tam n pagina bs v =
    let a = asignar-Asignacion n 0 bs in
    let (r, e, x) =
      obtener_desde-Hallado (suc tam) pagina (omega (arith, v.largo, v.cabe))
        (omega (arith, v.largo)) v.cadena a in
    let e' : obtener_desde (suc tam) tam pagina n 0 ≡ some r =
      subst (λ t. obtener_desde (suc tam) t pagina n 0 ≡ some r) v.largo e in
    elim (dec_lt tam (n + 10)) [
      | yes l ↦ (pagina, minus_one, rw (e', lt→ltb tam (n + 10) l) refl, excede l)
      | no l ↦ reservar_en tam n pagina bs v (omega arith) e' x (Asignacion-Concedido a) refl
    ]
