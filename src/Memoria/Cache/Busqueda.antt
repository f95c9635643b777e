-- ===== src/Memoria/Cache/Busqueda.antt =====
-- What the cache searches of src/memoria/memoria.c find, and what each change does to the entries.
use mathlib.Core.Bool.{false≢true}
use tp_sisop_1c_2017_david.Prelude.{
  ℕ, zero, suc, ◌+◌, ◌<◌, ℤ, eqb_ℤ, eqb_ℤ_iff, ◌≡◌, ◌≢◌, ◌∙◌, sym, refl, inl, inr, ◌&&◌, and_iff,
  Bool-cases, if◌then◌else◌, some, List, [], ◌∷◌, length, get_or, All, All-set, arith,
}
use tp_sisop_1c_2017_david.Memoria.Cache.{
  Entrada, entrada_libre, buscar_entrada, esta_la_pag_en_cache, sumar_veces_usada, actualizar_cache,
  agregar_a_cache, eliminar_proceso_en_cache, flush_cache, cache_activada, crear_cache,
}

buscar_entrada-some :
    (pid pag : ℤ) (i k : ℕ) (es : List Entrada)
    → buscar_entrada pid pag i es ≡ some k
    → (j : ℕ) × (k ≡ i + j)
      × (j < length es)
      × ((get_or es j entrada_libre).pid ≡ pid)
      × ((get_or es j entrada_libre).num_pag ≡ pag)
unfolding buscar_entrada
buscar_entrada-some pid pag i k [] h = absurd (ground arith)
buscar_entrada-some pid pag i k (e ∷ es) h =
    elim (Bool-cases (eqb_ℤ e.pid pid && eqb_ℤ e.num_pag pag)) [
      | inl t ↦
          let (a, b) = (and_iff (eqb_ℤ e.pid pid) (eqb_ℤ e.num_pag pag)).0 t in
          (0, ground arith, omega arith, (eqb_ℤ_iff e.pid pid).0 a, (eqb_ℤ_iff e.num_pag pag).0 b)
      | inr t ↦
          let (j, ek, l, a, b) = buscar_entrada-some pid pag (i + 1) k es (ground arith) in
          (suc j, omega arith, omega arith, a, b)
    ]

-- A hit is an entry of the page.
pub esta_en_cache-some :
    (cache : List Entrada) (pid pag : ℤ) {k : ℕ}
    → esta_la_pag_en_cache cache pid pag ≡ some k
    → (k < length cache)
      × ((get_or cache k entrada_libre).pid ≡ pid)
      × ((get_or cache k entrada_libre).num_pag ≡ pag)
unfolding esta_la_pag_en_cache
esta_en_cache-some cache pid pag {k} h =
    let (j, e, l, a, b) = buscar_entrada-some pid pag 0 k cache h in
    let e' : k ≡ j = omega arith in (omega arith, rw e' a, rw e' b)

module _ {κ} (P : Entrada → Type κ) (libre : P entrada_libre) where
  pub All-sumar :
      (i : ℕ) (es : List Entrada)
      → ((e : Entrada) → P e → P (record e { veces_usado = suc e.veces_usado }))
      → All P es
      → All P (sumar_veces_usada i es)
  unfolding sumar_veces_usada
  All-sumar i [] f a = a
  All-sumar zero (e ∷ es) f a = (f e a.0, a.1)
  All-sumar (suc i) (e ∷ es) f a = (a.0, All-sumar i es f a.1)

  pub All-flush : (es : List Entrada) → All P (flush_cache es)
  unfolding flush_cache
  All-flush [] = tt
  All-flush (e ∷ es) = (libre, All-flush es)

module _ {κ} (P : Entrada → Type κ) where
  pub All-agregar :
      (maximo : ℕ) (es : List Entrada) (pid pag : ℤ) (bloque : ℕ)
      → All P es
      → P (record { pid = pid; num_pag = pag; num_bloque = bloque; veces_usado = 1 })
      → All P (agregar_a_cache maximo es pid pag bloque)
  unfolding agregar_a_cache actualizar_cache
  All-agregar maximo es pid pag bloque a p = All-set P es _ _ a p

-- Clearing a process's entries keeps what holds of the free entry and of the other processes' ones.
pub All-eliminar {κ ν} :
    (P : Entrada → Type κ) (Q : Entrada → Type ν) (pid : ℤ) (es : List Entrada)
    → Q entrada_libre
    → ((e : Entrada) → P e → e.pid ≢ pid → Q e)
    → All P es
    → All Q (eliminar_proceso_en_cache pid es)
unfolding eliminar_proceso_en_cache
All-eliminar P Q pid [] libre f a = tt
All-eliminar P Q pid (e ∷ es) libre f a = elim (Bool-cases (eqb_ℤ e.pid pid)) [
  | inl t ↦ rw t (libre, All-eliminar P Q pid es libre f a.1)
  | inr t ↦ rw t (
    f e a.0 (λ x. false≢true (sym t ∙ (eqb_ℤ_iff e.pid pid).1 x)),
    All-eliminar P Q pid es libre f a.1,
  )
]

-- Where the cache is off there is nothing to clear.
pub eliminar_si_activa :
    (pid : ℤ) (es : List Entrada)
    → (if cache_activada es then eliminar_proceso_en_cache pid es else es)
      ≡ eliminar_proceso_en_cache pid es
unfolding eliminar_proceso_en_cache
eliminar_si_activa pid [] = refl
eliminar_si_activa pid (e ∷ es) = refl

pub All-crear {κ} : (P : Entrada → Type κ) (n : ℕ) → P entrada_libre → All P (crear_cache n)
unfolding crear_cache
All-crear P zero p = tt
All-crear P (suc n) p = (p, All-crear P n p)

pub All-imp {κ ν} :
    (P : Entrada → Type κ) (Q : Entrada → Type ν) (es : List Entrada)
    → ((e : Entrada) → P e → Q e)
    → All P es
    → All Q es
All-imp P Q [] f a = tt
All-imp P Q (e ∷ es) f a = (f e a.0, All-imp P Q es f a.1)
