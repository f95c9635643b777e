-- ===== src/Kernel/Semaforos/Espera.antt =====
-- The shared semaphores of src/kernel/kernel.c against counting semaphores with a queue.
use tp_sisop_1c_2017_david.Prelude.{
  ℕ, zero, suc, ◌+◌, ◌≤◌, ℤ, pos, ◌≡◌, refl, sym, ap, ◌∙◌, Option, none, some, List, [], ◌∷◌, ◌++◌,
  append_assoc, append-nil, Commons, arith, length, lt→ltb,
}
use tp_sisop_1c_2017_david.Kernel.Planificacion.{VarComp}
use tp_sisop_1c_2017_david.Kernel.Semaforos.{wait_en, signal_en}

-- A counting semaphore: so many units left, or the processes that wait for one.
pub data Semaforo : Type 0 where
  unidades : ℕ → Semaforo
  cola : ℤ → List ℤ → Semaforo

abbrev pub esperar : ℤ → Semaforo → Option ℤ × Semaforo
esperar pid (unidades zero) = (none, cola pid [])
esperar pid (unidades (suc n)) = (some pid, unidades n)
esperar pid (cola p ps) = (none, cola p (ps ++ (pid ∷ [])))

abbrev pub avisar : Semaforo → Option ℤ × Semaforo
avisar (unidades n) = (none, unidades (suc n))
avisar (cola p []) = (some p, unidades 0)
avisar (cola p (q ∷ qs)) = (some p, cola q qs)

-- How the kernel holds it, in a `valor` that no signal overflows.
abbrev pub concreto : List ℕ → Semaforo → VarComp
concreto nombre (unidades n) = record { nombre = nombre; valor = pos n; pila_espera = [] }
concreto nombre (cola p ps) = record { nombre = nombre; valor = pos 0; pila_espera = p ∷ ps }

pub data Operacion : Type 0 where
  espera : ℤ → Operacion
  aviso : Operacion

abbrev pub salida : Option ℤ → List ℤ
salida none = []
salida (some pid) = pid ∷ []

abbrev pub con_salida : {S : Type 0} → Option ℤ → List ℤ × S → List ℤ × S
con_salida o t = (salida o ++ t.0, t.1)

abbrev pub seguido : {S : Type 0} → (S → List ℤ × S) → Option ℤ × S → List ℤ × S
seguido k r = con_salida r.0 (k r.1)

-- A sequence of operations: the processes that went on, in order, and the semaphore that is left.
abbrev pub correr :
    {S : Type 0} → (ℤ → S → Option ℤ × S) → (S → Option ℤ × S) → List Operacion → S → List ℤ × S
correr w a [] sem = ([], sem)
correr w a (espera pid ∷ ops) sem = seguido (correr w a ops) (w pid sem)
correr w a (aviso ∷ ops) sem = seguido (correr w a ops) (a sem)

abbrev pub esperas : List Operacion → List ℤ
esperas [] = []
esperas (espera pid ∷ ops) = pid ∷ esperas ops
esperas (aviso ∷ ops) = esperas ops

abbrev pub avisos : List Operacion → ℕ
avisos [] = 0
avisos (espera pid ∷ ops) = avisos ops
avisos (aviso ∷ ops) = suc (avisos ops)

abbrev pub en_espera : Semaforo → List ℤ
en_espera (unidades n) = []
en_espera (cola p ps) = p ∷ ps

abbrev pub libres : Semaforo → ℕ
libres (unidades n) = n
libres (cola p ps) = 0

-- What passes first waited first.
orden_de_llegada :
    (ops : List Operacion) (sem : Semaforo)
    → (correr esperar avisar ops sem).0 ++ en_espera (correr esperar avisar ops sem).1
      ≡ en_espera sem ++ esperas ops
orden_de_llegada [] sem = sym (append-nil (en_espera sem))
orden_de_llegada (espera pid ∷ ops) (unidades zero) = orden_de_llegada ops (cola pid [])
orden_de_llegada (espera pid ∷ ops) (unidades (suc n)) =
    ap (λ l. pid ∷ l) (orden_de_llegada ops (unidades n))
orden_de_llegada (espera pid ∷ ops) (cola p ps) =
    orden_de_llegada ops (cola p (ps ++ (pid ∷ [])))
    ∙ ap (λ l. p ∷ l) (append_assoc ps (pid ∷ []) (esperas ops))
orden_de_llegada (aviso ∷ ops) (unidades n) = orden_de_llegada ops (unidades (suc n))
orden_de_llegada (aviso ∷ ops) (cola p []) = ap (λ l. p ∷ l) (orden_de_llegada ops (unidades 0))
orden_de_llegada (aviso ∷ ops) (cola p (q ∷ qs)) =
    ap (λ l. p ∷ l) (orden_de_llegada ops (cola q qs))

-- One passes for each unit.
una_por_unidad :
    (ops : List Operacion) (sem : Semaforo)
    → length (correr esperar avisar ops sem).0 + libres (correr esperar avisar ops sem).1
      ≡ libres sem + avisos ops
una_por_unidad [] sem = omega arith
una_por_unidad (espera pid ∷ ops) (unidades zero) = una_por_unidad ops (cola pid [])
una_por_unidad (espera pid ∷ ops) (unidades (suc n)) =
    omega (arith, una_por_unidad ops (unidades n))
una_por_unidad (espera pid ∷ ops) (cola p ps) = una_por_unidad ops (cola p (ps ++ (pid ∷ [])))
una_por_unidad (aviso ∷ ops) (unidades n) = omega (arith, una_por_unidad ops (unidades (suc n)))
una_por_unidad (aviso ∷ ops) (cola p []) = omega (arith, una_por_unidad ops (unidades 0))
una_por_unidad (aviso ∷ ops) (cola p (q ∷ qs)) = omega (arith, una_por_unidad ops (cola q qs))

pila-concreto :
    (nombre : List ℕ) (sem : Semaforo) → (concreto nombre sem).pila_espera ≡ en_espera sem
pila-concreto nombre (unidades n) = refl
pila-concreto nombre (cola p ps) = refl

module _ ⦃commons : Commons ℤ⦄ where
  wait_en-esperar :
      (nombre : List ℕ) (pid : ℤ) (sem : Semaforo)
      → ◌≡◌ {A = Option ℤ × VarComp}
          (wait_en pid (concreto nombre sem))
          ((esperar pid sem).0, concreto nombre (esperar pid sem).1)
  unfolding wait_en
  wait_en-esperar nombre pid (unidades zero) = rw (commons.list_add_lem) refl
  wait_en-esperar nombre pid (unidades (suc n)) =
      rw (commons.list_add_lem, commons.list_remove_lem, commons.list_get_lem) refl
  wait_en-esperar nombre pid (cola p ps) = rw (commons.list_add_lem) refl

  signal_en-avisar :
      (nombre : List ℕ) (sem : Semaforo)
      → ◌≡◌ {A = Option ℤ × VarComp}
          (signal_en (concreto nombre sem))
          ((avisar sem).0, concreto nombre (avisar sem).1)
  unfolding signal_en
  signal_en-avisar nombre (unidades n) = refl
  signal_en-avisar nombre (cola p []) = rw (commons.list_remove_lem, commons.list_get_lem) refl
  signal_en-avisar nombre (cola p (q ∷ qs)) =
      rw
        (
          signal_en,
          lt→ltb 0 (length (p ∷ q ∷ qs)) (omega arith),
          commons.list_remove_lem,
          commons.list_get_lem,
        )
        refl

  -- On a semaphore with no negative value, nobody waiting for units that are left, any sequence of waits and
  -- signals lets the same processes pass, in the same order, as on a counting semaphore with a queue, and ends in
  -- the corresponding state.
  pub semaforo-refina :
      (nombre : List ℕ) (ops : List Operacion) (sem : Semaforo)
      → ◌≡◌ {A = List ℤ × VarComp}
          (correr wait_en signal_en ops (concreto nombre sem))
          ((correr esperar avisar ops sem).0, concreto nombre (correr esperar avisar ops sem).1)
  semaforo-refina nombre [] sem = refl
  semaforo-refina nombre (espera pid ∷ ops) sem =
      let a = esperar pid sem in
      ap (seguido (correr wait_en signal_en ops)) (wait_en-esperar nombre pid sem)
      ∙ ap (λ t. con_salida a.0 t) (semaforo-refina nombre ops a.1)
  semaforo-refina nombre (aviso ∷ ops) sem =
      let a = avisar sem in
      ap (seguido (correr wait_en signal_en ops)) (signal_en-avisar nombre sem)
      ∙ ap (λ t. con_salida a.0 t) (semaforo-refina nombre ops a.1)

  -- On such a semaphore, after any sequence of waits and signals, the processes that passed, and then those that
  -- still wait, are those that waited at the start, and then those of the sequence, in the order of their
  -- waits; and those that passed are never more than the units at the start and the signals together.
  pub semaforo-orden :
      (nombre : List ℕ) (ops : List Operacion) (sem : Semaforo)
      → let t = correr wait_en signal_en ops (concreto nombre sem) in
        (t.0 ++ t.1.pila_espera ≡ en_espera sem ++ esperas ops)
        × (length t.0 ≤ libres sem + avisos ops)
  semaforo-orden nombre ops sem =
      let u = una_por_unidad ops sem in
      rw (semaforo-refina nombre ops sem) (
        ap (λ l. (correr esperar avisar ops sem).0 ++ l)
              (pila-concreto nombre (correr esperar avisar ops sem).1)
            ∙ orden_de_llegada ops sem,
        omega (arith, u),
      )
