-- ===== src/Kernel/Heap/Cadena.antt =====
-- A page's bytes hold a list of blocks: src/kernel/heapmemo.c.
use tp_sisop_1c_2017_david.Prelude.{
  ℕ, suc, ◌+◌, ◌^◌, ◌≤◌, ◌<◌, ◌≡◌, refl, sym, ap, ◌∙◌, some, List, [], ◌∷◌, ◌⊎◌, inl, inr, length,
  leer_bytes, leer-escribir_self, leer-escribir_disjoint, bytes_de_palabra, length-bytes_de_palabra,
  palabra_de_bytes-bytes_de_palabra, length-escribir_bytes, escribir_bytes-total, arith,
}
use tp_sisop_1c_2017_david.Kernel.Heap.{get_heap_block, set_heap_block, avanzar}
use tp_sisop_1c_2017_david.Kernel.Heap.Bloques.{Bloque, libre, usado, tamanio, ocupan}

abbrev pub marca : Bloque → ℕ
marca (libre n) = 0
marca (usado n) = 1

-- The five bytes of a block's header.
abbrev pub cabecera : Bloque → List ℕ
cabecera b = marca b ∷ bytes_de_palabra (tamanio b)

-- The header of `b` stands at `i`, which the loops over the page reach.
pub record EnPagina (pagina : List ℕ) (i : ℕ) (b : Bloque) : Type 0 where
  pub leida : leer_bytes i 5 pagina ≡ some (cabecera b)
  pub alcanza : i + 5 < length pagina

-- The blocks, one behind the other from `i` to the end of the page.
abbrev pub Cadena : List ℕ → ℕ → List Bloque → Type 0
Cadena pagina i [] = i ≡ length pagina
Cadena pagina i (b ∷ bs) = EnPagina pagina i b × Cadena pagina (i + 5 + tamanio b) bs

-- A page that the loops can walk: it holds the blocks, and its size is an `int`.
pub record EsHeap (tam : ℕ) (pagina : List ℕ) (bs : List Bloque) : Type 0 where
  pub cadena : Cadena pagina 0 bs
  pub largo : length pagina ≡ tam
  pub cabe : tam < 2 ^ 31

pub Cadena-ocupan :
    (pagina : List ℕ) (i : ℕ) (bs : List Bloque)
    → Cadena pagina i bs
    → i + ocupan bs ≡ length pagina
Cadena-ocupan pagina i [] c = omega (arith, c)
Cadena-ocupan pagina i (b ∷ bs) c = omega (arith, Cadena-ocupan pagina (i + 5 + tamanio b) bs c.1)

-- Two pages with the same bytes from `i` on hold the same blocks from there on.
pub Cadena-iguales :
    (p q : List ℕ) (i : ℕ) (bs : List Bloque)
    → length q ≡ length p
    → ((a n : ℕ) → i ≤ a → leer_bytes a n q ≡ leer_bytes a n p)
    → Cadena p i bs
    → Cadena q i bs
Cadena-iguales p q i [] l h c = c ∙ sym l
Cadena-iguales p q i (b ∷ bs) l h c = (
  record { leida = h i 5 (omega arith) ∙ c.0.leida; alcanza = omega (arith, l, c.0.alcanza) },
  Cadena-iguales p q (i + 5 + tamanio b) bs l (λ a n m. h a n (omega arith)) c.1,
)

pub get_heap_block-EnPagina :
    (pagina : List ℕ) (i : ℕ) (b : Bloque)
    → tamanio b < 2 ^ 32
    → EnPagina pagina i b
    → get_heap_block pagina i
      ≡ some (record { is_used = marca b; size = tamanio b; puntero = i + 5 })
unfolding get_heap_block
get_heap_block-EnPagina pagina i b h e =
    rw (e.leida, palabra_de_bytes-bytes_de_palabra (tamanio b) h) refl

pub avanzar-some : (i k : ℕ) → i + 5 + k < 2 ^ 31 → avanzar i k ≡ some (i + 5 + k)
unfolding avanzar
avanzar-some i k h = ground arith

-- What the writing of a header leaves.
pub record Escrito (pagina : List ℕ) (i : ℕ) (b : Bloque) (p : List ℕ) : Type 0 where
  pub escrito : EnPagina p i b
  pub largo : length p ≡ length pagina
  pub otros : (a n : ℕ) → (a + n ≤ i) ⊎ (i + 5 ≤ a) → leer_bytes a n p ≡ leer_bytes a n pagina

pub set_heap_block-Escrito :
    (pagina : List ℕ) (i : ℕ) (b : Bloque) (p : ℕ)
    → i + 5 < length pagina
    → (q : List ℕ) × (set_heap_block pagina
          (record { is_used = marca b; size = tamanio b; puntero = p })
          i
        ≡ some q)
      × Escrito pagina i b q
unfolding set_heap_block
set_heap_block-Escrito pagina i b p h =
    let cinco = ap suc (length-bytes_de_palabra (tamanio b)) in
    let (q, e) = escribir_bytes-total i (cabecera b) pagina (omega (arith, cinco)) in
    let (d, l) = length-escribir_bytes i (cabecera b) pagina e in
    (
      q,
      e,
      record {
        escrito = record {
          leida = leer-escribir_self i 5 (cabecera b) pagina (sym cinco) e;
          alcanza = omega (arith, l);
        };
        largo = l;
        otros = λ a n o.
            leer-escribir_disjoint i a n (cabecera b) pagina
              (elim o [ inl x ↦ inl x | inr x ↦ inr (omega (arith, cinco)) ]) e;
      },
    )
