-- ===== src/Memoria/Marco/Igualdad.antt =====
-- When an entry of the page table is that of a page.
use tp_sisop_1c_2017_david.Prelude.{
  ℕ, ℤ, eqb_ℤ, eqb_ℤ_iff, ◌≡◌, refl, sym, ◌∙◌, ◌≢◌, ◌⊎◌, inl, inr, ◌↔◌, true, false, Bool-cases,
  and_iff,
}
use tp_sisop_1c_2017_david.Memoria.Marco.{Marco, es_pagina}

-- Two pages of the table differ in the process or in the number.
abbrev pub Otra : ℤ → ℤ → ℤ → ℤ → Type 0
Otra pid pag q g = (pid ≢ q) ⊎ (pag ≢ g)

pub es_pagina_iff :
    (pid pag : ℤ) (m : Marco) → (es_pagina pid pag m ≡ true) ↔ ((m.pid ≡ pid) × (m.pag ≡ pag))
es_pagina_iff pid pag m = (
  λ h.
      let (a, b) = (and_iff (eqb_ℤ m.pid pid) (eqb_ℤ m.pag pag)).0 h in
      ((eqb_ℤ_iff m.pid pid).0 a, (eqb_ℤ_iff m.pag pag).0 b),
  λ h.
      (and_iff (eqb_ℤ m.pid pid) (eqb_ℤ m.pag pag)).1
        ((eqb_ℤ_iff m.pid pid).1 h.0, (eqb_ℤ_iff m.pag pag).1 h.1),
)

pub es_pagina_self :
    (pid pag : ℤ) (frame : ℕ)
    → es_pagina pid pag (record { pid = pid; pag = pag; frame = frame }) ≡ true
es_pagina_self pid pag frame =
    (es_pagina_iff pid pag (record { pid = pid; pag = pag; frame = frame })).1 (refl, refl)

-- An entry is that of one page only.
pub es_pagina-Otra :
    (pid pag q g : ℤ) (m : Marco)
    → es_pagina pid pag m ≡ true
    → Otra pid pag q g
    → es_pagina q g m ≡ false
es_pagina-Otra pid pag q g m h otra = elim (Bool-cases (es_pagina q g m)) [
  | inr e ↦ e
  | inl e ↦
      let (a, b) = (es_pagina_iff pid pag m).0 h in
      let (c, d) = (es_pagina_iff q g m).0 e in
      absurd (elim otra [ inl n ↦ n (sym a ∙ c) | inr n ↦ n (sym b ∙ d) ])
]
