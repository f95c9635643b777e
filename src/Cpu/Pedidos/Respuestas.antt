-- ===== src/Cpu/Pedidos/Respuestas.antt =====
-- What the kernel is told of a process that asks for an operation, by the primitive and by the end of the loop of
-- main in src/cpu/cpu.c.
use tp_sisop_1c_2017_david.Prelude.{
  ℕ, suc, ◌+◌, ◌%◌, ◌^◌, ◌<◌, ◌==◌, ltb, lt→ltb, le→ltb_false, ◌≡◌, refl, ap, ◌∙◌, ℤ, true, false,
  Option, none, some, ◌>>=◌, List, [], ◌∷◌, ◌++◌, length, Commons, arith,
}
use tp_sisop_1c_2017_david.Comunicacion.{Mensaje}
use tp_sisop_1c_2017_david.Comunicacion.Campos.{Campo}
use tp_sisop_1c_2017_david.Contexto.{Etiqueta, Nivel, Codigo}
use tp_sisop_1c_2017_david.Contexto.Viaje.{mapear}
use tp_sisop_1c_2017_david.Cpu.Variables.{Variable}
use tp_sisop_1c_2017_david.Cpu.Llamadas.{
  Ejecucion, Servicios, ejecutando, ck_finalizo_ejecucion, ck_finalizo_stackoverflow,
}
use tp_sisop_1c_2017_david.Cpu.Pedidos.{
  primera_vez, abrir, leer, escribir, cerrar, borrar, mover_cursor, wait,
}
use tp_sisop_1c_2017_david.Cpu.Rafaga.{seguir, tras_rafaga, ciclo, es_pedido, avisar_fin}

-- The calls that the parser makes for a line that asks for an operation.
pub data Pedido : Type 0 where
  abre : List ℕ → ℕ → ℕ → ℕ → Pedido
  lee : ℕ → ℕ → ℕ → Pedido
  escribe : ℕ → List ℕ → Pedido
  cierra : ℕ → Pedido
  borra : ℕ → Pedido
  espera : List ℕ → Pedido
  mueve : ℕ → ℤ → Pedido

unfoldable pub hacer : (List (List ℕ × Campo) → Mensaje) → Pedido → Ejecucion → Option Ejecucion
unfolding abrir leer escribir cerrar borrar wait mover_cursor
hacer guardar (abre direccion escritura creacion lectura) e =
    abrir direccion escritura creacion lectura e
hacer guardar (lee descriptor puntero tamanio) e = leer guardar descriptor puntero tamanio e
hacer guardar (escribe desc informacion) e = some (escribir desc informacion e)
hacer guardar (cierra descriptor) e = some (cerrar descriptor e)
hacer guardar (borra descriptor) e = some (borrar descriptor e)
hacer guardar (espera nombre) e = some (wait nombre e)
hacer guardar (mueve descriptor posicion) e = some (mover_cursor descriptor posicion e)

-- The path of a file fits in the buffer that it is copied to.
abbrev pub Cabe : Pedido → Type 0
Cabe (abre direccion escritura creacion lectura) = length direccion < 100
Cabe (lee descriptor puntero tamanio) = Unit
Cabe (escribe desc informacion) = Unit
Cabe (cierra descriptor) = Unit
Cabe (borra descriptor) = Unit
Cabe (espera nombre) = Unit
Cabe (mueve descriptor posicion) = Unit

-- The types of the messages that a request is to send.
abbrev pub avisos : Pedido → List ℕ
avisos (abre direccion escritura creacion lectura) = 103 ∷ []
avisos (lee descriptor puntero tamanio) = 105 ∷ []
avisos (escribe desc informacion) = 106 ∷ []
avisos (cierra descriptor) = 107 ∷ []
avisos (borra descriptor) = 108 ∷ []
avisos (espera nombre) = 115 ∷ []
avisos (mueve descriptor posicion) = []

-- The types of the messages sent to the kernel, the last one first.
abbrev pub tipos : Ejecucion → List ℕ
tipos e = mapear (λ m. m.0) e.enviados

module _ (servicios : Servicios) (analizador_linea : List ℕ → Ejecucion → Option Ejecucion)
    ⦃etiquetas : Commons Etiqueta⦄ ⦃codigos : Commons Codigo⦄ ⦃niveles : Commons (Nivel Variable)⦄
    (guardar : List (List ℕ × Campo) → Mensaje) where
  -- The round after a line, the test of the loop, and the messages sent when the loop is left.
  abbrev avisados : Option Ejecucion → Option (List ℕ)
  avisados none = none
  avisados (some g) = some (tipos (avisar_fin g))

  unfoldable pub tras_linea : ℕ → Ejecucion → Option (List ℕ)
  tras_linea fuel f = avisados (
      ciclo servicios analizador_linea fuel
        (tras_rafaga servicios analizador_linea (seguir servicios analizador_linea f)))

  -- The process after a line, and after its round.
  abbrev pasado : Ejecucion → Ejecucion
  pasado f = record f {
    pcb = record f.pcb {
      program_counter = (f.pcb.program_counter + 1) % 2 ^ 32;
      cantidad_rafagas = (f.pcb.cantidad_rafagas + 1) % 2 ^ 32;
    };
    continuar_ejecutando = (f.pcb.quantum + 1000) % 2 ^ 32;
  }

  -- A state in which the process has asked for something.
  abbrev EsPedido : ℕ → Type 0
  EsPedido estado =
      ((estado == ejecutando) ≡ false)
      × ((estado == ck_finalizo_stackoverflow) ≡ false)
      × ((estado == ck_finalizo_ejecucion) ≡ false)
      × (es_pedido estado ≡ true)

  avisar_fin-calla :
      (f : Ejecucion)
      → (f.pcb.volvio_entrada_salida == 1) ≡ false
      → EsPedido f.pcb.estado_en_cpu
      → avisar_fin f ≡ f
  unfolding avisar_fin
  avisar_fin-calla f b s = rw (avisar_fin, b, s.0, s.1, s.2, s.3) refl

  sale_de :
      (fuel : ℕ) (f : Ejecucion)
      → ltb f.continuar_ejecutando f.pcb.quantum ≡ false
      → ciclo servicios analizador_linea (suc fuel) f ≡ some f
  unfolding ciclo
  sale_de fuel f h = rw (ciclo, h) refl

  sin_mas :
      (fuel : ℕ) (f : Ejecucion)
      → (f.pcb.volvio_entrada_salida == 0) ≡ true
      → (f.pcb.volvio_entrada_salida == 1) ≡ false
      → EsPedido f.pcb.estado_en_cpu
      → f.pcb.quantum + 1000 < 2 ^ 32
      → tras_linea (suc fuel) f ≡ some (tipos f)
  unfolding tras_linea
  sin_mas fuel f a b s q =
      let llega : tras_rafaga servicios analizador_linea (seguir servicios analizador_linea f)
          ≡ pasado f =
        rw (a, s.0) refl in
      let pasa : ltb ((f.pcb.quantum + 1000) % 2 ^ 32) f.pcb.quantum ≡ false =
        le→ltb_false ((f.pcb.quantum + 1000) % 2 ^ 32) f.pcb.quantum (omega (arith, q)) in
      let sale : ciclo servicios analizador_linea (suc fuel) (pasado f) ≡ some (pasado f) =
        sale_de fuel (pasado f) pasa in
      ap (λ g. avisados (ciclo servicios analizador_linea (suc fuel) g)) llega
      ∙ ap avisados sale
      ∙ ap (λ g. some (tipos g)) (avisar_fin-calla (pasado f) b s)

  -- A process that asks for an operation with no answer pending leaves the loop after its line, and the kernel is
  -- told once, by a message of the type of the request, for a path of less than 100 characters and a quantum below
  -- 2 ^ 32 - 1000; only for the move of a cursor it is not told at all.
  pub pedido-avisa :
      (fuel : ℕ) (q : Pedido) (e : Ejecucion)
      → Cabe q
      → e.pcb.volvio_entrada_salida ≡ 0
      → e.pcb.quantum + 1000 < 2 ^ 32
      → (hacer guardar q e >>= λ f. tras_linea (suc fuel) f) ≡ some (avisos q ++ tipos e)
  unfolding hacer abrir leer escribir cerrar borrar wait mover_cursor
  pedido-avisa fuel (abre direccion escritura creacion lectura) e c v l =
      let primera : primera_vez e ≡ true = ap (λ n. n == 0) v in
      rw (hacer, abrir, primera, lt→ltb (length direccion) 100 c, ◌>>=◌)
        (sin_mas fuel _ refl refl (refl, refl, refl, refl) l)
  pedido-avisa fuel (lee descriptor puntero tamanio) e c v l =
      let primera : primera_vez e ≡ true = ap (λ n. n == 0) v in
      rw (hacer, leer, primera, ◌>>=◌) (sin_mas fuel _ refl refl (refl, refl, refl, refl) l)
  pedido-avisa fuel (escribe desc informacion) e c v l =
      let primera : primera_vez e ≡ true = ap (λ n. n == 0) v in
      rw (hacer, escribir, primera, ◌>>=◌) (sin_mas fuel _ refl refl (refl, refl, refl, refl) l)
  pedido-avisa fuel (cierra descriptor) e c v l =
      let primera : primera_vez e ≡ true = ap (λ n. n == 0) v in
      rw (hacer, cerrar, primera, ◌>>=◌) (sin_mas fuel _ refl refl (refl, refl, refl, refl) l)
  pedido-avisa fuel (borra descriptor) e c v l =
      let primera : primera_vez e ≡ true = ap (λ n. n == 0) v in
      rw (hacer, borrar, primera, ◌>>=◌) (sin_mas fuel _ refl refl (refl, refl, refl, refl) l)
  pedido-avisa fuel (espera nombre) e c v l =
      let primera : primera_vez e ≡ true = ap (λ n. n == 0) v in
      rw (hacer, wait, primera, ◌>>=◌) (sin_mas fuel _ refl refl (refl, refl, refl, refl) l)
  pedido-avisa fuel (mueve descriptor posicion) e c v l =
      sin_mas fuel _ (ap (λ n. n == 0) v) (ap (λ n. n == 1) v) (refl, refl, refl, refl) l
