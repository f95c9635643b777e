-- ===== src/Kernel/Archivos/Estructuras.antt =====
-- The tables of open files of src/kernel/kernel.c, and what it asks of the file system.
use tp_sisop_1c_2017_david.Prelude.{
  ℕ, ◌+◌, ◌%◌, ◌^◌, ℤ, negsuc, Bool, ◌==◌, if◌then◌else◌, Option, none, some, List, [], ◌∷◌,
}
use tp_sisop_1c_2017_david.Comunicacion.{iguales}
use tp_sisop_1c_2017_david.Kernel.Planificacion.{Abierto, Pcb, restar_uno}

-- `t_tabla_global_archivo`
pub record Global : Type 0 where
  pub ident : ℕ
  pub count_open : ℕ
  pub file : List ℕ

-- `archivosGlobal`, the number of the next entry, and the file system.
pub record Archivos (ψ : Type 0) : Type 0 where
  pub tabla : List Global
  pub proximo : ℕ
  pub disco : ψ

-- The answers of the file system: `validarExisteArchivo`, `crearArchivo`, `borrarArchivo`, `escribirArchivo` and
-- `leerArchivo`, the last one with the text, where it answers with one.
pub record Disco (ψ : Type 0) : Type 0 where
  pub existe : ψ → List ℕ → ψ × Bool
  pub crear : ψ → List ℕ → ψ × Bool
  pub borrar : ψ → List ℕ → ψ × Bool
  pub escribir : ψ → List ℕ → List ℕ → ℕ → ℕ → ψ
  pub leer : ψ → List ℕ → ℕ → ℕ → ψ × Option (List ℕ)

-- `EXIT_CODE_ERROR_ARCHIVO_INEXISTENTE`, `EXIT_CODE_ERROR_LEER_SIN_PERMISO`,
-- `EXIT_CODE_ERROR_ESCRIBIR_SIN_PERMISO` and `EXIT_CODE_ERROR_SIN_DEFINICION`
abbrev pub archivo_inexistente : ℤ
archivo_inexistente = negsuc 1

abbrev pub leer_sin_permiso : ℤ
leer_sin_permiso = negsuc 2

abbrev pub escribir_sin_permiso : ℤ
escribir_sin_permiso = negsuc 3

abbrev pub sin_definicion : ℤ
sin_definicion = negsuc 19

-- `PK_PRINT_CONSOLA`
abbrev pub pk_print_consola : ℕ
pk_print_consola = 504

-- The entry that a pointer stands for, and a write through the pointer.
unfoldable pub global_de : ℕ → List Global → Option Global
global_de n [] = none
global_de n (g ∷ gs) = let resto = global_de n gs in if g.ident == n then some g else resto

unfoldable pub con_global : (Global → Global) → ℕ → List Global → List Global
con_global f n [] = []
con_global f n (g ∷ gs) =
    let resto = con_global f n gs in if g.ident == n then f g ∷ gs else g ∷ resto

-- `countOpen++` and `countOpen--`
abbrev pub abrir_uno : Global → Global
abrir_uno g = record g { count_open = (g.count_open + 1) % 2 ^ 32 }

abbrev pub cerrar_uno : Global → Global
cerrar_uno g = record g { count_open = restar_uno g.count_open }

-- `esArchBuscadoGlobal` and `esArchBuscado`
abbrev pub es_arch_buscado_global : Pcb → Global → Bool
es_arch_buscado_global p g = iguales g.file p.direccion

abbrev pub es_arch_buscado : Pcb → Abierto → Bool
es_arch_buscado p x = x.file_descriptor == p.descriptor

abbrev pub con_codigo : ℤ → Pcb → Pcb
con_codigo codigo p = record p { exit_code = codigo }
