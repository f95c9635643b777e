-- ===== src/Kernel/Heap/Buscar.antt =====
-- `_obtenerBloqueLibre` of src/kernel/heapmemo.c is first fit.
use tp_sisop_1c_2017_david.Prelude.{
  ℕ, zero, suc, ◌+◌, ◌-◌, ◌^◌, ◌≤◌, ◌<◌, ◌≡◌, refl, sym, ap, subst, ◌∙◌, ltb, true, false, Option,
  none, some, ◌>>=◌, List, ◌∷◌, ◌⊎◌, inl, inr, length, leer_bytes, dec_lt, lt→ltb, le→ltb_false,
  arith,
}
use tp_sisop_1c_2017_david.Kernel.Heap.{BloqueHeap, obtener_desde, is_bloque_free_and_available}
use tp_sisop_1c_2017_david.Kernel.Heap.Bloques.{
  Bloque, libre, usado, tamanio, Asignado, Asignacion, anteponer, NoEntra, nada, aqui, despues,
}
use tp_sisop_1c_2017_david.Kernel.Heap.Cadena.{
  Cadena, EnPagina, Cadena-ocupan, Cadena-iguales, get_heap_block-EnPagina, avanzar-some, marca,
}
use tp_sisop_1c_2017_david.Kernel.Heap.Asignado.{Asignado-desde, libre-usado}

-- A page `q` in which the free block of size `k` at `j` became a used one of size `n` and a free one.
pub record Partido (n : ℕ) (pagina : List ℕ) (j k : ℕ) (q : List ℕ) : Type 0 where
  pub primero : EnPagina q j (usado n)
  pub segundo : EnPagina q (j + 5 + n) (libre (k - (n + 5)))
  pub largo : length q ≡ length pagina
  pub otros : (a m : ℕ) → (a + m ≤ j) ⊎ (j + 5 + k ≤ a) → leer_bytes a m q ≡ leer_bytes a m pagina

-- A place for a request: what the search returns, and what splitting the block there leaves.
pub record Lugar (n : ℕ) (pagina : List ℕ) (i : ℕ) (antes bs : List Bloque) (p j k : ℕ)
    : Type 0 where
  pub datos : p ≡ j + 5
  pub desde : i ≤ j
  pub entra : n + 5 < k
  pub hasta : j + 5 + k ≤ length pagina
  pub ajenos : (a m : ℕ) → Asignado a m i antes → (a + m ≤ j) ⊎ (j + 5 + k ≤ a)
  pub partir : {q : List ℕ} → Partido n pagina j k q → Cadena q i bs

pub data Hallado (n : ℕ) (pagina : List ℕ) (i : ℕ) (antes : List Bloque)
    : Option (List Bloque × ℕ) → Option BloqueHeap → Type 0 where
  no_hay : Hallado n pagina i antes none none
  hay :
      {bs : List Bloque} {p j k : ℕ}
      → Lugar n pagina i antes bs p j k
      → Hallado n pagina i antes
          (some (bs, p))
          (some (record { is_used = 0; size = k; puntero = p }))

-- Where fewer bytes are left than the request has, no block serves.
sin_lugar :
    {n i : ℕ} (pagina : List ℕ) {bs : List Bloque} {o : Option (List Bloque × ℕ)}
    → length pagina < i + n
    → Cadena pagina i bs
    → Asignacion n i bs o
    → o ≡ none
sin_lugar pagina l c nada = refl
sin_lugar pagina l c (aqui {puntero} {k} {bs} h) =
    absurd (omega (arith, Cadena-ocupan pagina puntero (libre k ∷ bs) c))
sin_lugar pagina l c (despues b h a) = ap (anteponer b) (sin_lugar pagina (omega arith) c.1 a)

-- The block before stays as it was.
anteponer-Hallado :
    {n i : ℕ} (pagina : List ℕ) (b : Bloque) {antes : List Bloque} {o : Option (List Bloque × ℕ)}
    {r : Option BloqueHeap}
    → EnPagina pagina i b
    → Hallado n pagina (i + 5 + tamanio b) antes o r
    → Hallado n pagina i (b ∷ antes) (anteponer b o) r
anteponer-Hallado pagina b e no_hay = no_hay
anteponer-Hallado pagina b e (hay lugar) = hay (record {
  datos = lugar.datos;
  desde = omega (arith, lugar.desde);
  entra = lugar.entra;
  hasta = lugar.hasta;
  ajenos = λ a m x. elim x [
    | inl y ↦ inl (omega (arith, ap tamanio y.1, y.0, lugar.desde))
    | inr y ↦ lugar.ajenos a m y
  ];
  partir = λ {q} x. (
    record {
      leida = x.otros _ 5 (inl (omega (arith, lugar.desde))) ∙ e.leida;
      alcanza = omega (arith, x.largo, e.alcanza);
    },
    lugar.partir x,
  );
})

no_entra :
    (n p : ℕ) (b : Bloque)
    → NoEntra n b
    → is_bloque_free_and_available (record { is_used = marca b; size = tamanio b; puntero = p }) n
      ≡ false
no_entra n p (libre k) h = ground arith
no_entra n p (usado k) h = refl

si_entra :
    (n p k : ℕ)
    → n + 5 < k
    → is_bloque_free_and_available (record { is_used = 0; size = k; puntero = p }) n ≡ true
si_entra n p k h = ground arith

pub obtener_desde-Hallado :
    {n : ℕ} (fuel : ℕ) (pagina : List ℕ) {i : ℕ} {bs : List Bloque} {o : Option (List Bloque × ℕ)}
    → length pagina < 2 ^ 31
    → length pagina < i + fuel
    → Cadena pagina i bs
    → Asignacion n i bs o
    → (r : Option BloqueHeap) × (obtener_desde fuel (length pagina) pagina n i ≡ some r)
      × Hallado n pagina i bs o r
unfolding obtener_desde
obtener_desde-Hallado {n} zero pagina {i} {bs} m f c a =
    absurd (omega (arith, Cadena-ocupan pagina i bs c))
obtener_desde-Hallado {n} (suc fuel) pagina {i} m f c nada =
    (none, rw (obtener_desde, le→ltb_false (i + 5) (length pagina) (omega (arith, c))) refl, no_hay)
obtener_desde-Hallado {n} (suc fuel) pagina {i} m f c (aqui {k = k} {bs = bs} h) =
    let ocupado = Cadena-ocupan pagina i (libre k ∷ bs) c in
    (
      some (record { is_used = 0; size = k; puntero = i + 5 }),
      rw
          (
            obtener_desde,
            lt→ltb (i + 5) (length pagina) c.0.alcanza,
            get_heap_block-EnPagina pagina i (libre k) (omega arith) c.0,
            ◌>>=◌,
            si_entra n (i + 5) k h,
          )
          refl,
      hay (record {
        datos = refl;
        desde = omega arith;
        entra = h;
        hasta = omega arith;
        ajenos = λ a m x. elim x [
          | inl y ↦ absurd (libre-usado k m y.1)
          | inr y ↦ inr (omega (arith, Asignado-desde a m (i + 5 + k) bs y))
        ];
        partir = λ {q} x. (
          x.primero,
          (
            x.segundo,
            Cadena-iguales pagina q (i + 5 + n + 5 + (k - (n + 5))) bs x.largo
                (λ a w m. x.otros a w (inr (omega arith)))
                (subst (λ j. Cadena pagina j bs) (omega arith) c.1),
          ),
        );
      }),
    )
obtener_desde-Hallado {n} (suc fuel) pagina {i} m f c (despues b {bs = bs} {o = o₁} h a) =
    let ocupado = Cadena-ocupan pagina i (b ∷ bs) c in
    let p : ℕ = i + 5 + tamanio b in
    let abre : obtener_desde (suc fuel) (length pagina) pagina n i
        ≡ (elim (ltb (length pagina) (p + n)) [
          | true ↦ some none
          | false ↦ obtener_desde fuel (length pagina) pagina n p
        ]) =
      rw
        (
          obtener_desde,
          lt→ltb (i + 5) (length pagina) c.0.alcanza,
          get_heap_block-EnPagina pagina i b (omega arith) c.0,
          ◌>>=◌,
          no_entra n (i + 5) b h,
          avanzar-some i (tamanio b) (omega arith),
        )
        refl in
    elim (dec_lt (length pagina) (p + n)) [
      | yes l ↦ (
        none,
        rw (abre, lt→ltb (length pagina) (p + n) l) refl,
        subst (λ x. Hallado n pagina i (b ∷ bs) (anteponer b x) none)
            (sym (sin_lugar pagina l c.1 a)) no_hay,
      )
      | no l ↦
          let (r, e, x) = obtener_desde-Hallado fuel pagina m (omega arith) c.1 a in
          (
            r,
            rw (abre, le→ltb_false (length pagina) (p + n) (omega arith)) e,
            anteponer-Hallado pagina b c.0 x,
          )
    ]
