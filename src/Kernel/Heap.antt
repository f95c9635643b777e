-- ===== src/Kernel/Heap.antt =====
-- The pages of the heap, src/kernel/heapmemo.c. A page is the array of its bytes and `tam` is the global
-- `tamPage`. An outer `none` is a fault: an access outside the page, or a loop that does not end.
pub mod Bloques
pub mod Cadena
pub mod Asignado
pub mod Buscar
pub mod Reservar
pub mod Maximo
pub mod Compactar
pub mod Liberar
use tp_sisop_1c_2017_david.Prelude.{
  ℕ, zero, suc, ◌+◌, ◌-◌, ◌*◌, ◌/◌, ◌%◌, ◌^◌, ℤ, pos, negsuc, minus_one, Bool, true, false, ltb,
  leb, ◌==◌, ◌&&◌, if◌then◌else◌, Option, none, some, ◌>>=◌, ◌>>◌, guard, List, [], ◌∷◌, ◌++◌, drop,
  get_or, replicate, leer_bytes, escribir_bytes, bytes_de_palabra, palabra_de_bytes,
}

-- `t_bloque_heap`. The byte of `isUsed` is kept as it was read.
pub record BloqueHeap : Type 0 where
  pub is_used : ℕ
  pub size : ℕ
  pub puntero : ℕ

-- `_getTamanioBloque`
abbrev pub tamanio_bloque : ℕ
tamanio_bloque = 5

-- `_getHeapBlock`, which is also `_siguienteBloque`
unfoldable pub get_heap_block : List ℕ → ℕ → Option BloqueHeap
get_heap_block pagina inicio = leer_bytes inicio tamanio_bloque pagina >>= λ bs. some (record {
  is_used = get_or bs 0 0;
  size = palabra_de_bytes (drop 1 bs);
  puntero = inicio + tamanio_bloque;
})

-- `_setHeapBlock`
unfoldable pub set_heap_block : List ℕ → BloqueHeap → ℕ → Option (List ℕ)
set_heap_block pagina bloque inicio =
    escribir_bytes inicio (bloque.is_used ∷ bytes_de_palabra bloque.size) pagina

-- `_crearPagina`
unfoldable pub crear_pagina : ℕ → Option (List ℕ)
unfolding set_heap_block
crear_pagina tam =
    set_heap_block (replicate tam 0)
      (record { is_used = 0; size = (tam + 2 ^ 32 - tamanio_bloque) % 2 ^ 32; puntero = 0 }) 0

-- `_isBloqueFreeAndAvailable`
abbrev pub is_bloque_free_and_available : BloqueHeap → ℕ → Bool
is_bloque_free_and_available bloque espacio =
    bloque.is_used == 0 && ltb (espacio + tamanio_bloque) bloque.size

-- `puntero + _getTamanioBloque() + bloque->size`, an unsigned sum put into an `int`. Where it comes out
-- negative, the next block is read before the page.
unfoldable pub avanzar : ℕ → ℕ → Option ℕ
avanzar puntero size =
    let w = (puntero + tamanio_bloque + size) % 2 ^ 32 in guard (ltb w (2 ^ 31)) >> some w

-- The loop of `_obtenerBloqueLibre`, on fuel.
unfoldable pub obtener_desde : ℕ → ℕ → List ℕ → ℕ → ℕ → Option (Option BloqueHeap)
unfolding get_heap_block avanzar
obtener_desde zero tam pagina espacio puntero = none
obtener_desde (suc fuel) tam pagina espacio puntero = elim (ltb (puntero + tamanio_bloque) tam) [
  | false ↦ some none
  | true ↦ get_heap_block pagina puntero >>= λ b. elim (is_bloque_free_and_available b espacio) [
    | true ↦ some (some b)
    | false ↦ avanzar puntero b.size >>= λ p. elim (ltb tam (p + espacio)) [
      | true ↦ some none
      | false ↦ obtener_desde fuel tam pagina espacio p
    ]
  ]
]

-- `_obtenerBloqueLibre`
unfoldable pub obtener_bloque_libre : ℕ → List ℕ → ℕ → Option (Option BloqueHeap)
unfolding obtener_desde
obtener_bloque_libre tam pagina espacio = obtener_desde (suc tam) tam pagina espacio 0

abbrev pub minus_two : ℤ
minus_two = negsuc 1

-- `_reservarEspacioPagina`, for a quantity that is not negative: the page and the result, the position of
-- the bytes or -1 or -2.
unfoldable pub reservar_espacio_pagina : ℕ → List ℕ → ℕ → Option (List ℕ × ℤ)
unfolding obtener_bloque_libre set_heap_block
reservar_espacio_pagina tam pagina cantidad = obtener_bloque_libre tam pagina cantidad >>= λ o.
    if ltb tam (cantidad + 2 * tamanio_bloque) then some (pagina, minus_one) else elim o [
      | none ↦ some (pagina, minus_two)
      | some b ↦
          if ltb ((b.size + 2 ^ 32 - tamanio_bloque) % 2 ^ 32) cantidad
          then some (pagina, minus_two)
          else (let inicio = b.puntero - tamanio_bloque in
              let segundo = inicio + tamanio_bloque + cantidad in
              set_heap_block pagina (record b { is_used = 1; size = cantidad }) inicio >>= λ p.
              set_heap_block p
                (record {
                  is_used = 0;
                  size = (b.size + 2 ^ 32 - (tamanio_bloque + cantidad)) % 2 ^ 32;
                  puntero = 0;
                })
                segundo
              >>= λ p'. some (p', pos (segundo - cantidad)))
    ]

-- The size that `memcpy(blockToSave, bloqueAux, _getTamanioBloque())` leaves: the five bytes end after the
-- lowest byte of `size`, which the compiler aligns to four; the others stay as `malloc` gave them.
abbrev pub copiar_size : ℕ → ℕ → ℕ
copiar_size basura size = size % 256 + 256 * (basura / 256)

-- The loop of `_compactar`, on fuel. `aux` is `bloqueAux` with `punteroAux`, of which only the size
-- changes, and `basura` what the block saved at a position held before.
unfoldable pub compactar_desde : (ℕ → ℕ) → ℕ → ℕ → List ℕ → Option (ℕ × ℕ) → ℕ → Option (List ℕ)
unfolding get_heap_block set_heap_block avanzar
compactar_desde basura zero tam pagina aux puntero = none
compactar_desde basura (suc fuel) tam pagina aux puntero =
    elim (ltb (puntero + tamanio_bloque) tam) [
      | false ↦ some pagina
      | true ↦ get_heap_block pagina puntero >>= λ b. avanzar puntero b.size >>= λ p.
          elim (b.is_used == 0) [
            | false ↦ compactar_desde basura fuel tam pagina none p
            | true ↦ elim aux [
              | none ↦ compactar_desde basura fuel tam pagina (some (puntero, b.size)) p
              | some (inicio, size) ↦
                  let total = (size + b.size + tamanio_bloque) % 2 ^ 32 in
                  set_heap_block pagina
                    (record { is_used = 0; size = copiar_size (basura puntero) total; puntero = 0 })
                    inicio
                  >>= λ q. compactar_desde basura fuel tam q (some (inicio, total)) p
            ]
          ]
    ]

-- `_compactar`
unfoldable pub compactar : (ℕ → ℕ) → ℕ → List ℕ → Option (List ℕ)
unfolding compactar_desde
compactar basura tam pagina = compactar_desde basura (suc tam) tam pagina none 0

-- `_liberarEspacio`
pub liberar_espacio : (ℕ → ℕ) → ℕ → List ℕ → ℕ → Option (List ℕ)
unfolding get_heap_block set_heap_block compactar
liberar_espacio basura tam pagina puntero = do
  guard (leb tamanio_bloque puntero)
  let offset = puntero - tamanio_bloque
  b ← get_heap_block pagina offset
  p ← set_heap_block pagina (record b { is_used = 0 }) offset
  compactar basura tam p

-- `_isPaginaValida`, as the test for `EXIT_SUCCESS`
unfoldable pub is_pagina_valida : ℕ → List ℕ → Option Bool
unfolding get_heap_block
is_pagina_valida tam pagina =
    get_heap_block pagina 0 >>= λ b. some (ltb b.is_used 2 && ltb b.size tam)
