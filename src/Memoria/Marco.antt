-- ===== src/Memoria/Marco.antt =====
-- The inverted page table of src/memoria/memoria.c: its entries, and the loops that search it.
pub mod Busqueda
pub mod Igualdad
use tp_sisop_1c_2017_david.Prelude.{
  ℕ, zero, suc, ◌+◌, ℤ, negsuc, minus_one, eqb_ℤ, Bool, ◌&&◌, if◌then◌else◌, Option, none, some,
  List, [], ◌∷◌,
}

-- `t_elem_pags_invert`
pub record Marco : Type 0 where
  pub pid : ℤ
  pub pag : ℤ
  pub frame : ℕ

-- The entries that `crearMemoria` writes: -1 for a frame that is free, -2 for one that the table itself
-- occupies.
abbrev pub marco_libre : ℕ → Marco
marco_libre i = record { pid = minus_one; pag = minus_one; frame = i }

abbrev pub marco_adm : ℕ → Marco
marco_adm i = record { pid = negsuc 1; pag = negsuc 1; frame = i }

-- The two loops of `crearMemoria`, from index `i` on for `n` entries.
abbrev pub marcos_libres : ℕ → ℕ → List Marco
marcos_libres i zero = []
marcos_libres i (suc n) = marco_libre i ∷ marcos_libres (i + 1) n

abbrev pub marcos_adm : ℕ → ℕ → List Marco
marcos_adm i zero = []
marcos_adm i (suc n) = marco_adm i ∷ marcos_adm (i + 1) n

-- The test of `verificarPosHash`, and at (-1, -1) that of `buscarPaginaLibre`.
abbrev pub es_pagina : ℤ → ℤ → Marco → Bool
es_pagina pid pag m = eqb_ℤ m.pid pid && eqb_ℤ m.pag pag

abbrev pub es_libre : Marco → Bool
es_libre m = es_pagina minus_one minus_one m

abbrev pub es_del_pid : ℤ → Marco → Bool
es_del_pid pid m = eqb_ℤ m.pid pid

-- Both searches run up the table from an index and stop at the first entry that passes the test.
-- The list is the table from index `i` on; `none` is the code's -1.
unfoldable pub buscar_desde : (Marco → Bool) → ℕ → List Marco → Option ℕ
buscar_desde test i [] = none
buscar_desde test i (m ∷ ms) =
    let resto = buscar_desde test (i + 1) ms in if test m then some i else resto

-- How many entries pass a test: the count of `calcularSizePID`.
unfoldable pub contar : (Marco → Bool) → List Marco → ℕ
contar test [] = 0
contar test (m ∷ ms) = let resto = contar test ms in if test m then suc resto else resto
