-- ===== src/Cpu/Posiciones.antt =====
-- Positions in the pages of a process and the pointers that the ANSISOP parser sees, src/cpu/cpu.c. The
-- fields of a `t_posicion` and the pointers are unsigned numbers of 32 bits.
use tp_sisop_1c_2017_david.Prelude.{
  ℕ, suc, ◌+◌, ◌-◌, ◌*◌, ◌/◌, ◌%◌, ◌^◌, ◌≤◌, ◌<◌, ◌≡◌, refl, ap, ◌∙◌, ℤ, pos, negsuc, leb,
  if◌then◌else◌, entero, le→leb, lt→leb_false, dec_lt, arith,
}
use native.Mathlib.Nat.{mod-lt}
use native.Mathlib.Omega.{div_any}

-- `t_posicion`
pub record Posicion : Type 0 where
  pub pagina : ℕ
  pub offset : ℕ
  pub size : ℕ

-- `posicionConvertirAPuntero`
pub posicion_convertir_a_puntero : ℕ → Posicion → ℕ
posicion_convertir_a_puntero tam_pagina p = (p.pagina * tam_pagina + p.offset) % 2 ^ 32

-- The size of a position has no part in its pointer.
pub posicion_convertir-size :
    (tam n : ℕ) (p : Posicion)
    → posicion_convertir_a_puntero tam (record p { size = n }) ≡ posicion_convertir_a_puntero tam p
unfolding posicion_convertir_a_puntero
posicion_convertir-size tam n p = refl

abbrev pub abs : ℤ → ℕ
abs (pos n) = n
abs (negsuc n) = suc n

-- `punteroConvertirAPosicion`: the difference is unsigned, and `abs` reads it as an `int`.
unfoldable pub puntero_convertir_a_posicion : ℕ → ℕ → Posicion
puntero_convertir_a_posicion tam_pagina ptr =
    let pagina = ptr / tam_pagina in
    record {
      pagina = pagina;
      offset = abs (entero ((tam_pagina * pagina + (2 ^ 32 - ptr)) % 2 ^ 32));
      size = 4;
    }

-- `actualizarStackPointer`
unfoldable pub actualizar_stack_pointer : ℕ → Posicion → Posicion
actualizar_stack_pointer tam_pagina sp =
    if leb tam_pagina (sp.offset + 4)
    then record sp { pagina = sp.pagina + 1; offset = sp.offset + 4 - tam_pagina }
    else record sp { offset = sp.offset + 4 }

-- The difference comes out negative, and `abs` makes it the rest of the division.
abs-resto :
    (p r t : ℕ)
    → r < 2 ^ 31
    → t + r ≡ p
    → p < 2 ^ 32
    → abs (entero ((t + (2 ^ 32 - p)) % 2 ^ 32)) ≡ r
abs-resto p r t h e m = ground arith

-- A pointer below 2 ^ 32 is turned into a position inside its page, and that position back into the
-- pointer, for pages of at most 2 ^ 31 bytes.
pub puntero-posicion :
    (tam ptr : ℕ)
    → 0 < tam
    → tam ≤ 2 ^ 31
    → ptr < 2 ^ 32
    → ((puntero_convertir_a_posicion tam ptr).offset < tam)
      × (posicion_convertir_a_puntero tam (puntero_convertir_a_posicion tam ptr) ≡ ptr)
unfolding puntero_convertir_a_posicion posicion_convertir_a_puntero
puntero-posicion tam ptr h l m =
    let division = div_any ptr tam in
    let menor = mod-lt ptr h in
    let resto = abs-resto ptr (ptr % tam) (tam * (ptr / tam)) (omega arith) division m in
    (
      omega (arith, resto, menor),
      ap (λ o. (ptr / tam * tam + o) % 2 ^ 32) resto
          ∙ ap (λ x. x % 2 ^ 32) (grind (arith, division))
          ∙ entra,
    )
  where
    entra : ptr % 2 ^ 32 ≡ ptr
    entra = omega arith

-- For a position inside its page, pages of at least four bytes and a pointer that does not reach
-- 2 ^ 32, the next stack position is again inside its page, and its pointer is four more.
pub actualizar_stack_pointer_lem :
    (tam : ℕ) (sp : Posicion)
    → 4 ≤ tam
    → sp.offset < tam
    → sp.pagina * tam + sp.offset + 4 < 2 ^ 32
    → ((actualizar_stack_pointer tam sp).offset < tam)
      × (posicion_convertir_a_puntero tam (actualizar_stack_pointer tam sp)
          ≡ posicion_convertir_a_puntero tam sp + 4)
unfolding actualizar_stack_pointer posicion_convertir_a_puntero
actualizar_stack_pointer_lem tam sp h o m = elim (dec_lt (sp.offset + 4) tam) [
  | yes l ↦
      rw (actualizar_stack_pointer, lt→leb_false tam (sp.offset + 4) l) (omega arith, omega arith)
  | no l ↦
      rw (actualizar_stack_pointer, le→leb tam (sp.offset + 4) (omega arith))
        (omega arith, grind arith)
]
