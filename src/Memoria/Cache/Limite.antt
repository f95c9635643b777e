-- ===== src/Memoria/Cache/Limite.antt =====
-- The limit of cache entries per process in src/memoria/memoria.c, `entradas_x_proc`.
use tp_sisop_1c_2017_david.Prelude.{
  ℕ, zero, suc, ◌+◌, ◌≤◌, ◌<◌, ℤ, pos, eqb_ℤ, eqb_ℤ_iff, eqb_ne, ◌≡◌, refl, sym, ap, ◌∙◌, ◌≢◌, inl,
  inr, Bool, true, dec_lt, lt→ltb, le→ltb_false, Bool-cases, if◌then◌else◌, List, [], ◌∷◌, length,
  get_or, set, arith,
}
use tp_sisop_1c_2017_david.Memoria.Cache.{
  Entrada, entrada_libre, cant_veces_pid_en_cache, buscar_pid, pagina_a_reemplazar_del_pid,
  pagina_a_reemplazar_en_cache, actualizar_cache, agregar_a_cache, sumar_veces_usada,
  eliminar_proceso_en_cache, flush_cache, crear_cache,
}

abbrev uno : Bool → ℕ
uno b = if b then 1 else 0

cant-set :
    (pid : ℤ) (v : Entrada) (k : ℕ) (es : List Entrada)
    → k < length es
    → cant_veces_pid_en_cache pid (set es k v) + uno (eqb_ℤ (get_or es k entrada_libre).pid pid)
      ≡ cant_veces_pid_en_cache pid es + uno (eqb_ℤ v.pid pid)
unfolding cant_veces_pid_en_cache
cant-set pid v k [] h = absurd (omega arith)
cant-set pid v zero (e ∷ es) h = ground arith
cant-set pid v (suc k) (e ∷ es) h = ground (arith, cant-set pid v k es)

cant-set_out :
    (pid : ℤ) (v : Entrada) (k : ℕ) (es : List Entrada)
    → cant_veces_pid_en_cache pid (set es k v)
      ≤ cant_veces_pid_en_cache pid es + uno (eqb_ℤ v.pid pid)
unfolding cant_veces_pid_en_cache
cant-set_out pid v k [] = omega arith
cant-set_out pid v zero (e ∷ es) = ground arith
cant-set_out pid v (suc k) (e ∷ es) = ground (arith, cant-set_out pid v k es)

-- A process with an entry has its first one found.
buscar_pid_lem :
    (pid : ℤ) (i : ℕ) (es : List Entrada)
    → 0 < cant_veces_pid_en_cache pid es
    → (j : ℕ) × (buscar_pid pid i es ≡ i + j)
      × (j < length es)
      × (eqb_ℤ (get_or es j entrada_libre).pid pid ≡ true)
unfolding cant_veces_pid_en_cache buscar_pid
buscar_pid_lem pid i [] h = absurd (omega arith)
buscar_pid_lem pid i (e ∷ es) h = elim (Bool-cases (eqb_ℤ e.pid pid)) [
  | inl t ↦ (0, ground arith, omega arith, t)
  | inr t ↦
      let (j, e₁, l, m) = buscar_pid_lem pid (i + 1) es (ground arith) in
      (suc j, ground (arith, e₁), omega arith, m)
]

-- No process has more than `entradas_x_proc` entries, free entries aside.
abbrev pub DentroDelLimite : ℕ → List Entrada → Type 0
DentroDelLimite maximo cache = (q : ℤ) → q ≢ pos 0 → cant_veces_pid_en_cache q cache ≤ maximo

-- Adding a page keeps every process within the limit, which is at least 1: a process below it may take
-- any entry, and one at it replaces an entry of its own.
pub agregar-DentroDelLimite :
    (maximo : ℕ) (cache : List Entrada) (pid pag : ℤ) (bloque : ℕ)
    → 0 < maximo
    → DentroDelLimite maximo cache
    → DentroDelLimite maximo (agregar_a_cache maximo cache pid pag bloque)
unfolding agregar_a_cache actualizar_cache pagina_a_reemplazar_del_pid
agregar-DentroDelLimite maximo cache pid pag bloque h d q nq =
    elim (dec_lt (cant_veces_pid_en_cache pid cache) maximo) [
      | yes l ↦
          rw (lt→ltb (cant_veces_pid_en_cache pid cache) maximo l)
            (elim (Bool-cases (eqb_ℤ pid q)) [
              | inl e ↦
                  let igual = (eqb_ℤ_iff pid q).0 e in
                  ground (
                    arith,
                    e,
                    ap (λ x. cant_veces_pid_en_cache x cache) igual,
                    cant-set_out q (nueva bloque) (pagina_a_reemplazar_en_cache cache) cache,
                  )
              | inr e ↦ ground (
                arith,
                e,
                d q nq,
                cant-set_out q (nueva bloque) (pagina_a_reemplazar_en_cache cache) cache,
              )
            ])
      | no l ↦ rw (le→ltb_false (cant_veces_pid_en_cache pid cache) maximo (omega arith)) (
          let (j, e, lj, m) = buscar_pid_lem pid 0 cache (omega arith) in
          elim (Bool-cases (eqb_ℤ pid q)) [
            | inl t ↦
                let igual = (eqb_ℤ_iff pid q).0 t in
                let lugar : pagina_a_reemplazar_del_pid cache pid ≡ j = e ∙ omega arith in
                rw lugar
                  (ground (arith, t, rw igual at m, d q nq, cant-set q (nueva bloque) j cache))
            | inr t ↦
                ground
                  (arith, t, d q nq, cant-set_out q (nueva bloque) (buscar_pid pid 0 cache) cache)
          ])
    ]
  where
    nueva : ℕ → Entrada
    nueva b = record { pid = pid; num_pag = pag; num_bloque = b; veces_usado = 1 }

pub cant-sumar :
    (q : ℤ) (i : ℕ) (es : List Entrada)
    → cant_veces_pid_en_cache q (sumar_veces_usada i es) ≡ cant_veces_pid_en_cache q es
unfolding cant_veces_pid_en_cache sumar_veces_usada
cant-sumar q i [] = refl
cant-sumar q zero (e ∷ es) = refl
cant-sumar q (suc i) (e ∷ es) = ground (arith, cant-sumar q i es)

-- `eliminarProcesoEnCache` leaves the process no entry, and every other process its own.
pub cant-eliminar :
    (pid q : ℤ) (es : List Entrada)
    → q ≢ pos 0
    → cant_veces_pid_en_cache q (eliminar_proceso_en_cache pid es)
      ≡ (if eqb_ℤ q pid then 0 else cant_veces_pid_en_cache q es)
unfolding cant_veces_pid_en_cache eliminar_proceso_en_cache
cant-eliminar pid q [] nq = ground arith
cant-eliminar pid q (e ∷ es) nq = ground (
  arith,
  cant-eliminar pid q es nq,
  eqb_ne (pos 0) q (λ x. nq (sym x)),
  (eqb_ℤ_iff e.pid pid).0,
  (eqb_ℤ_iff e.pid q).0,
  (eqb_ℤ_iff q pid).0,
  (eqb_ℤ_iff q pid).1,
  (eqb_ℤ_iff e.pid q).1,
)

pub cant-flush :
    (q : ℤ) (es : List Entrada) → q ≢ pos 0 → cant_veces_pid_en_cache q (flush_cache es) ≡ 0
unfolding cant_veces_pid_en_cache flush_cache
cant-flush q [] nq = refl
cant-flush q (e ∷ es) nq = rw (eqb_ne (pos 0) q (λ x. nq (sym x))) (cant-flush q es nq)

pub cant-crear : (q : ℤ) (n : ℕ) → q ≢ pos 0 → cant_veces_pid_en_cache q (crear_cache n) ≡ 0
unfolding cant_veces_pid_en_cache crear_cache
cant-crear q zero nq = refl
cant-crear q (suc n) nq = rw (eqb_ne (pos 0) q (λ x. nq (sym x))) (cant-crear q n nq)
