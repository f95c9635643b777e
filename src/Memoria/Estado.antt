-- ===== src/Memoria/Estado.antt =====
-- The state of src/memoria/memoria.c, and how `inicializarEstructuras` builds it.
use tp_sisop_1c_2017_david.Prelude.{
  ℕ, ◌+◌, ◌-◌, ◌*◌, ◌/◌, ℤ, pos, ◌==◌, ltb, ◌&&◌, if◌then◌else◌, Option, none, some, List, [], ◌++◌,
  replicate,
}
use tp_sisop_1c_2017_david.Memoria.Marco.{Marco, marcos_libres, marcos_adm}
use tp_sisop_1c_2017_david.Memoria.Cache.{Entrada, crear_cache}

-- The globals of memoria.h. `bytes` is the allocation from `inicioMemoriaProcesos` to its end;
-- `tabla` is what lies before it. The length of `cache` is `entradas_cache`.
pub record Memoria : Type 0 where
  pub marcos : ℕ
  pub marco_size : ℕ
  pub entradas_x_proc : ℕ
  pub retardo_memoria : ℤ
  pub tabla : List Marco
  pub bytes : List ℕ
  pub cache : List Entrada
  pub bloques_adm : ℕ
  pub frames_ocupados : ℤ
  pub proc_activos : List ℤ

-- What `leerArchConfig` reads.
pub record Config : Type 0 where
  pub marcos : ℕ
  pub marco_size : ℕ
  pub retardo_memoria : ℤ
  pub entradas_cache : ℕ
  pub cache_x_proc : ℕ

-- A process limit of 0 switches the cache off.
abbrev pub entradas_cache : Config → ℕ
entradas_cache c = if c.cache_x_proc == 0 then 0 else c.entradas_cache

-- `sizeof(t_elem_pags_invert)` is 12.
abbrev pub bloques_del_espacio_adm : Config → ℕ
bloques_del_espacio_adm c = c.marcos * 12 / c.marco_size + 1

-- What `crearMemoria`, `crearCache` and `crearListaProcActivos` leave.
abbrev pub estado_inicial : Config → Memoria
estado_inicial c =
    let adm = bloques_del_espacio_adm c in
    record {
      marcos = c.marcos;
      marco_size = c.marco_size;
      entradas_x_proc = c.cache_x_proc;
      retardo_memoria = c.retardo_memoria;
      tabla = marcos_adm 0 adm ++ marcos_libres adm (c.marcos - adm);
      bytes = replicate ((c.marcos - adm) * c.marco_size) 0;
      cache = crear_cache (entradas_cache c);
      bloques_adm = adm;
      frames_ocupados = pos adm;
      proc_activos = [];
    }

-- `inicializarEstructuras`. `none` is the division by a frame size of 0, or the table written past the
-- end of the allocation: with more administrative frames than frames, frames are of at most 12 bytes, and
-- the first loop of `crearMemoria` writes more entries than fit.
unfoldable pub inicializar_estructuras : Config → Option Memoria
inicializar_estructuras c =
    if ltb 0 c.marco_size && ltb (bloques_del_espacio_adm c) (c.marcos + 1)
    then some (estado_inicial c)
    else none
