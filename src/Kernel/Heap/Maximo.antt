-- ===== src/Kernel/Heap/Maximo.antt =====
-- The largest request, `_getTamanioMaximo` of src/kernel/heapmemo.c.
use tp_sisop_1c_2017_david.Prelude.{
  ℕ, ◌+◌, ◌<◌, ◌≡◌, refl, subst, ◌∙◌, Option, none, some, List, ◌∷◌, arith, ℤ,
}
use tp_sisop_1c_2017_david.Kernel.Heap.{reservar_espacio_pagina, minus_two}
use tp_sisop_1c_2017_david.Kernel.Heap.Bloques.{
  Bloque, ocupan, asignar-Asignacion, Asignacion, anteponer, nada, aqui, despues,
}
use tp_sisop_1c_2017_david.Kernel.Heap.Cadena.{EsHeap, Cadena-ocupan}
use tp_sisop_1c_2017_david.Kernel.Heap.Reservar.{
  Reserva, excede, sin_lugar, reservada, reservar_espacio_pagina_lem,
}

-- What first fit splits takes more than the request and two headers.
abbrev Sobra : ℕ → List Bloque → Option (List Bloque × ℕ) → Type 0
Sobra n bs none = Unit
Sobra n bs (some r) = n + 10 < ocupan bs

anteponer-Sobra :
    (n : ℕ) (b : Bloque) (bs : List Bloque) (o : Option (List Bloque × ℕ))
    → Sobra n bs o
    → Sobra n (b ∷ bs) (anteponer b o)
anteponer-Sobra n b bs none s = tt
anteponer-Sobra n b bs (some r) s = omega (arith, s)

Asignacion-Sobra :
    {n i : ℕ} {bs : List Bloque} {o : Option (List Bloque × ℕ)} → Asignacion n i bs o → Sobra n bs o
Asignacion-Sobra nada = tt
Asignacion-Sobra (aqui h) = omega arith
Asignacion-Sobra {n} (despues b {bs = bs} {o = o} h a) =
    anteponer-Sobra n b bs o (Asignacion-Sobra a)

-- A request of exactly `_getTamanioMaximo` bytes is refused with -2, for want of space, by every page that
-- holds blocks, a new one included, and the page stays as it was.
pub reservar_espacio_maximo :
    (tam n : ℕ) (pagina : List ℕ) (bs : List Bloque)
    → n + 10 ≡ tam
    → EsHeap tam pagina bs
    → reservar_espacio_pagina tam pagina n ≡ some (pagina, minus_two)
reservar_espacio_maximo tam n pagina bs m v =
    let (q, r, e, x) = reservar_espacio_pagina_lem tam n pagina bs v in e ∙ rechazada x
  where
    rechazada :
        {q : List ℕ} {r : ℤ}
        → Reserva tam n pagina bs q r
        → ◌≡◌ {A = Option (List ℕ × ℤ)} (some (q, r)) (some (pagina, minus_two))
    rechazada (excede h) = absurd (omega arith)
    rechazada (sin_lugar h e) = refl
    rechazada (reservada e w a h) = absurd (
        omega (
          arith,
          m,
          v.largo,
          Cadena-ocupan pagina 0 bs v.cadena,
          subst (Sobra n bs) e (Asignacion-Sobra (asignar-Asignacion n 0 bs)),
        ))
