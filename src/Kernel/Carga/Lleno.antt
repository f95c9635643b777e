-- ===== src/Kernel/Carga/Lleno.antt =====
-- A memory server with no page left, and src/kernel/kernel.c that asks it for some.
use tp_sisop_1c_2017_david.Prelude.{
  ℕ, zero, suc, ◌<◌, ℤ, pos, eqb_ℤ, false, lt→ltb, Bool-cases, inl, inr, ◌≡◌, refl, ◌∙◌, Option,
  none, List, length, arith,
}
use tp_sisop_1c_2017_david.Kernel.Planificacion.{Pcb}
use tp_sisop_1c_2017_david.Kernel.Carga.{
  Servidor, pedir_pagina_para_proceso, cargar_pagina, cargar_paginas,
}

-- A memory server that has no page left.
abbrev pub Lleno : {σ : Type 0} → Servidor σ → Type 0
Lleno {σ} servidor =
    (m : σ) (pid : ℤ) (k : ℕ) → eqb_ℤ (servidor.reservar m pid k).1.1.0 (pos 0) ≡ false

module _ {σ : Type 0} (servidor : Servidor σ) (lleno : Lleno servidor) where
  pedir_lleno : (p : Pcb) (m : σ) → (pedir_pagina_para_proceso servidor p m).1 ≡ 0
  unfolding pedir_pagina_para_proceso
  pedir_lleno p m = elim (Bool-cases (servidor.reservar m p.pid p.paginas_pedidas).1.0) [
    | inl e ↦ rw (pedir_pagina_para_proceso, e, lleno m p.pid p.paginas_pedidas) refl
    | inr e ↦ rw (pedir_pagina_para_proceso, e) refl
  ]

  -- With a memory server that refuses every page, the loop over a script that is not all sent goes on for ever:
  -- there is no amount of fuel with which it ends.
  pub cargar_paginas_lleno :
      (fuel : ℕ) (script : List ℕ) (offset : ℕ) (m : σ) (p : Pcb)
      → offset < length script
      → ◌≡◌ {A = Option (σ × Pcb)} (cargar_paginas servidor fuel script offset m p) none
  unfolding cargar_paginas cargar_pagina
  cargar_paginas_lleno zero script offset m p h = refl
  cargar_paginas_lleno (suc fuel) script offset m p h =
      let r = cargar_pagina servidor script offset m p in
      let mismo : r.1 ≡ offset = omega (arith, pedir_lleno p m) in
      rw (cargar_paginas, lt→ltb offset (length script) h) refl
      ∙ cargar_paginas_lleno fuel script r.1 r.0.0 r.0.1 (omega (arith, mismo))
