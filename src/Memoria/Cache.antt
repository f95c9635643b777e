-- ===== src/Memoria/Cache.antt =====
-- The cache of src/memoria/memoria.c as the array `memCache`; its length is `entradas_cache`.
pub mod Busqueda
pub mod Limite
pub mod Victima
use tp_sisop_1c_2017_david.Prelude.{
  ℕ, zero, suc, ◌+◌, ℤ, pos, eqb_ℤ, Bool, true, false, ◌&&◌, ltb, if◌then◌else◌, Option, none, some,
  List, [], ◌∷◌, set, get_or, replicate,
}

-- `t_elem_cache`
pub record Entrada : Type 0 where
  pub pid : ℤ
  pub num_pag : ℤ
  pub num_bloque : ℕ
  pub veces_usado : ℕ

-- `CACHE_LIBRE` is 0, in both fields.
abbrev pub entrada_libre : Entrada
entrada_libre = record { pid = pos 0; num_pag = pos 0; num_bloque = 0; veces_usado = 0 }

-- `crearCache`
unfoldable pub crear_cache : ℕ → List Entrada
crear_cache entradas = replicate entradas entrada_libre

-- `cacheActivada`
abbrev pub cache_activada : List Entrada → Bool
cache_activada [] = false
cache_activada (e ∷ es) = true

-- `estaLaPagEnCache`: the first entry that holds the page; `none` is the code's -1.
unfoldable pub buscar_entrada : ℤ → ℤ → ℕ → List Entrada → Option ℕ
buscar_entrada pid num_pag i [] = none
buscar_entrada pid num_pag i (e ∷ es) =
    let resto = buscar_entrada pid num_pag (i + 1) es in
    if eqb_ℤ e.pid pid && eqb_ℤ e.num_pag num_pag then some i else resto

unfoldable pub esta_la_pag_en_cache : List Entrada → ℤ → ℤ → Option ℕ
unfolding buscar_entrada
esta_la_pag_en_cache cache pid num_pag = buscar_entrada pid num_pag 0 cache

-- `sumarVecesUsada`
pub sumar_veces_usada : ℕ → List Entrada → List Entrada
sumar_veces_usada i [] = []
sumar_veces_usada zero (e ∷ es) = record e { veces_usado = suc e.veces_usado } ∷ es
sumar_veces_usada (suc i) (e ∷ es) = e ∷ sumar_veces_usada i es

-- The loop of `paginaAReemplazarEnCache` over the entries from `i` on, with its `min` and `pos`.
unfoldable pub menos_usada : ℕ → ℕ → ℕ → List Entrada → ℕ
menos_usada minimo elegida i [] = elegida
menos_usada minimo elegida i (e ∷ es) =
    let cambia = ltb e.veces_usado minimo in
    menos_usada (if cambia then e.veces_usado else minimo) (if cambia then i else elegida) (i + 1)
      es

-- `paginaAReemplazarEnCache` runs only where the cache has an entry 0.
unfoldable pub pagina_a_reemplazar_en_cache : List Entrada → ℕ
unfolding menos_usada
pagina_a_reemplazar_en_cache [] = 0
pagina_a_reemplazar_en_cache (e ∷ es) = menos_usada e.veces_usado 0 1 es

-- `paginaAReemplazarEnCacheDelPid`: the first entry of the process, or entry 0.
unfoldable pub buscar_pid : ℤ → ℕ → List Entrada → ℕ
buscar_pid pid i [] = 0
buscar_pid pid i (e ∷ es) =
    let resto = buscar_pid pid (i + 1) es in if eqb_ℤ e.pid pid then i else resto

unfoldable pub pagina_a_reemplazar_del_pid : List Entrada → ℤ → ℕ
unfolding buscar_pid
pagina_a_reemplazar_del_pid cache pid = buscar_pid pid 0 cache

-- `cantVecesPidEnCache`
unfoldable pub cant_veces_pid_en_cache : ℤ → List Entrada → ℕ
cant_veces_pid_en_cache pid [] = 0
cant_veces_pid_en_cache pid (e ∷ es) =
    let resto = cant_veces_pid_en_cache pid es in if eqb_ℤ e.pid pid then suc resto else resto

-- `actualizarCache`
unfoldable pub actualizar_cache : List Entrada → ℕ → ℤ → ℤ → ℕ → List Entrada
actualizar_cache cache i pid num_pag bloque =
    set cache i (record { pid = pid; num_pag = num_pag; num_bloque = bloque; veces_usado = 1 })

-- `eliminarProcesoEnCache`
pub eliminar_proceso_en_cache : ℤ → List Entrada → List Entrada
eliminar_proceso_en_cache pid [] = []
eliminar_proceso_en_cache pid (e ∷ es) =
    (if eqb_ℤ e.pid pid then entrada_libre else e) ∷ eliminar_proceso_en_cache pid es

-- `flushCache`
pub flush_cache : List Entrada → List Entrada
flush_cache [] = []
flush_cache (e ∷ es) = entrada_libre ∷ flush_cache es

-- What the four data operations do where the page is not in an active cache but is in memory:
-- the victim is the least used entry while the process has room left, else one of its own.
unfoldable pub agregar_a_cache : ℕ → List Entrada → ℤ → ℤ → ℕ → List Entrada
unfolding actualizar_cache
agregar_a_cache entradas_x_proc cache pid num_pag bloque =
    actualizar_cache cache
      (if ltb (cant_veces_pid_en_cache pid cache) entradas_x_proc
        then pagina_a_reemplazar_en_cache cache
        else pagina_a_reemplazar_del_pid cache pid)
      pid num_pag bloque
