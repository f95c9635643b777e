-- ===== src/Memoria/Cache/Victima.antt =====
-- Which entry of the cache of src/memoria/memoria.c is replaced.
use tp_sisop_1c_2017_david.Prelude.{
  ℕ, suc, ◌+◌, ◌≤◌, ◌<◌, ◌≡◌, refl, sym, subst, ◌∙◌, inl, inr, List, [], ◌∷◌, length, get_or,
  lt→ltb, le→ltb_false, All, ◌⊎◌, arith, dec_lt,
}
use tp_sisop_1c_2017_david.Memoria.Cache.{
  Entrada, entrada_libre, menos_usada, pagina_a_reemplazar_en_cache,
}

-- What the loop picks among entry `elegida` of the entries before `i`, used `minimo` times, and the entries
-- from `i` on: the pick is the old one and all the others are used at least as often, or it is entry
-- `i + j`, used less often than `minimo` and no more often than the others.
menos_usada_lem :
    (minimo elegida i : ℕ) (es : List Entrada)
    → ((menos_usada minimo elegida i es ≡ elegida) × All (λ e. minimo ≤ e.veces_usado) es)
      ⊎ ((j : ℕ) × (menos_usada minimo elegida i es ≡ i + j)
          × (j < length es)
          × ((get_or es j entrada_libre).veces_usado < minimo)
          × All (λ e. (get_or es j entrada_libre).veces_usado ≤ e.veces_usado) es)
unfolding menos_usada
menos_usada_lem minimo elegida i [] = inl (refl, tt)
menos_usada_lem minimo elegida i (e ∷ es) = elim (dec_lt e.veces_usado minimo) [
  | yes l ↦ rw (lt→ltb e.veces_usado minimo l) (elim (menos_usada_lem e.veces_usado i (i + 1) es) [
    | inl (m, a) ↦ inr (0, m ∙ omega arith, omega arith, l, (omega arith, a))
    | inr (j, m, lj, u, a) ↦
        inr (suc j, m ∙ omega arith, omega arith, omega arith, (omega arith, a))
  ])
  | no l ↦
      rw (le→ltb_false e.veces_usado minimo (omega arith))
        (elim (menos_usada_lem minimo elegida (i + 1) es) [
          | inl (m, a) ↦ inl (m, (omega arith, a))
          | inr (j, m, lj, u, a) ↦ inr (suc j, m ∙ omega arith, omega arith, u, (omega arith, a))
        ])
]

-- `paginaAReemplazarEnCache` picks an entry of the cache that no other is used less often than.
pub pagina_a_reemplazar_en_cache_lem :
    (e : Entrada) (es : List Entrada)
    → (pagina_a_reemplazar_en_cache (e ∷ es) < length (e ∷ es))
      × All
          (λ o.
            (get_or (e ∷ es) (pagina_a_reemplazar_en_cache (e ∷ es)) entrada_libre).veces_usado
            ≤ o.veces_usado)
          (e ∷ es)
unfolding pagina_a_reemplazar_en_cache
pagina_a_reemplazar_en_cache_lem e es = elim (menos_usada_lem e.veces_usado 0 1 es) [
  | inl (m, a) ↦ subst Elegida (sym m) (omega arith, (omega arith, a))
  | inr (j, m, lj, u, a) ↦
      let m' : menos_usada e.veces_usado 0 1 es ≡ suc j = m ∙ omega arith in
      subst Elegida (sym m') (omega arith, (omega arith, a))
]
  where
    Elegida : ℕ → Type 0
    Elegida k =
        (k < length (e ∷ es))
        × All (λ o. (get_or (e ∷ es) k entrada_libre).veces_usado ≤ o.veces_usado) (e ∷ es)
