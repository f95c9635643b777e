-- ===== src/Contexto/Lectura.antt =====
-- The readers of src/kernel/kernel.c and src/cpu/cpu.c for the parts of a process, on a message with the
-- fields that their writers made.
use tp_sisop_1c_2017_david.Prelude.{
  ℕ, ◌<◌, ◌^◌, ◌≢◌, ◌≡◌, refl, ap, true, false, ◌++◌, ◌>>=◌, some, List, [], ◌∷◌, length, codes,
}
use tp_sisop_1c_2017_david.Comunicacion.{Mensaje, iguales}
use tp_sisop_1c_2017_david.Comunicacion.Campos.{texto, valor_de, SinSeparador}
use tp_sisop_1c_2017_david.Comunicacion.Claves.{decimal, dos, iguales_refl}
use tp_sisop_1c_2017_david.Comunicacion.Secuencias.{
  Da, Incluye, sin_signo, leer_sin_signo, palabra-entero,
}
use tp_sisop_1c_2017_david.Comunicacion.Seleccion.{empieza, Incluye-detras}
use tp_sisop_1c_2017_david.Cpu.Posiciones.{Posicion}
use tp_sisop_1c_2017_david.Contexto.{
  Etiqueta, Codigo, Formato, claves_de_posicion, campos_etiqueta, campos_argumento, campos_variable,
  campos_codigo, leer_texto, leer_posicion, leer_etiqueta, leer_argumento, leer_variable_stack,
  leer_codigo,
}

-- A number that fits in a `uint32_t`, and the positions and labels with such numbers.
abbrev pub EsPalabra : ℕ → Type 0
EsPalabra n = n < 2 ^ 32

abbrev pub EsPosicion : Posicion → Type 0
EsPosicion p = EsPalabra p.pagina × EsPalabra p.offset × EsPalabra p.size

module _ (m : Mensaje) where
  pub leer_sin_signo-Da :
      (clave : List ℕ) (n : ℕ)
      → EsPalabra n
      → Da m clave (sin_signo n)
      → leer_sin_signo m clave ≡ some n
  unfolding leer_sin_signo
  leer_sin_signo-Da clave n h d = rw (leer_sin_signo, d.0, ◌>>=◌) (ap some (palabra-entero n h))

  pub leer_texto-Da : (clave t : List ℕ) → Da m clave (texto t) → leer_texto m clave ≡ some t
  leer_texto-Da clave t d = rw (d.1, ◌>>=◌) refl

  pub leer_posicion-Da :
      (a b c : List ℕ) (p : Posicion)
      → EsPosicion p
      → Da m a (sin_signo p.pagina)
      → Da m b (sin_signo p.offset)
      → Da m c (sin_signo p.size)
      → leer_posicion m a b c ≡ some p
  leer_posicion-Da a b c p h d e f =
      rw
        (
          leer_sin_signo-Da a p.pagina h.0 d,
          ◌>>=◌,
          leer_sin_signo-Da b p.offset h.1 e,
          leer_sin_signo-Da c p.size h.2 f,
        )
        refl

  -- The three fields of a position, whose keys differ.
  leer_posicion-Incluye :
      (a b c : List ℕ) (p : Posicion)
      → EsPosicion p
      → iguales b a ≡ false
      → iguales c a ≡ false
      → iguales c b ≡ false
      → Incluye m (claves_de_posicion a b c p)
      → leer_posicion m a b c ≡ some p
  unfolding valor_de
  leer_posicion-Incluye a b c p h ba ca cb inc =
      leer_posicion-Da a b c p h (inc a (sin_signo p.pagina) (rw (valor_de, iguales_refl a) refl))
        (inc b (sin_signo p.offset) (rw (valor_de, ba, iguales_refl b) refl))
        (inc c (sin_signo p.size) (rw (valor_de, ca, cb, iguales_refl c) refl))

  pub leer_etiqueta-Incluye :
      (i : ℕ) (e : Etiqueta)
      → EsPalabra e.ubicacion
      → Incluye m (campos_etiqueta i e)
      → leer_etiqueta m i ≡ some e
  unfolding leer_etiqueta valor_de
  leer_etiqueta-Incluye i e h inc =
      let k = codes "claveEtiqueta" ++ decimal i in
      let l = codes "claveUbicacion" ++ decimal i in
      let t =
        leer_texto-Da k e.etiquetas
          (inc k (texto e.etiquetas) (rw (valor_de, iguales_refl k) refl)) in
      let u =
        leer_sin_signo-Da l e.ubicacion h
          (inc l (sin_signo e.ubicacion) (rw (valor_de, iguales_refl l) refl)) in
      rw (leer_etiqueta, t, ◌>>=◌, u) refl

  pub leer_codigo-Incluye :
      (i : ℕ) (c : Codigo)
      → EsPalabra c.pagina × EsPalabra c.offset × EsPalabra c.size
      → Incluye m (campos_codigo i c)
      → leer_codigo m i ≡ some c
  unfolding leer_codigo valor_de
  leer_codigo-Incluye i c h inc =
      let k = codes "pagina" ++ decimal i in
      let l = codes "offset" ++ decimal i in
      let n = codes "size" ++ decimal i in
      rw
        (
          leer_codigo,
          leer_sin_signo-Da k c.pagina h.0
              (inc k (sin_signo c.pagina) (rw (valor_de, iguales_refl k) refl)),
          ◌>>=◌,
          leer_sin_signo-Da l c.offset h.1
              (inc l (sin_signo c.offset) (rw (valor_de, iguales_refl l) refl)),
          leer_sin_signo-Da n c.size h.2
              (inc n (sin_signo c.size) (rw (valor_de, iguales_refl n) refl)),
        )
        refl

  pub leer_argumento-Incluye :
      (s a : ℕ) (p : Posicion)
      → EsPosicion p
      → Incluye m (campos_argumento s a p)
      → leer_argumento m s a ≡ some p
  unfolding leer_argumento
  leer_argumento-Incluye s a p h inc =
      leer_posicion-Incluye (codes "argPag" ++ dos s a) (codes "argOff" ++ dos s a)
        (codes "argSize" ++ dos s a) p h refl refl refl inc

-- A text that survives the way.
abbrev pub EsTexto : List ℕ → Type 0
EsTexto t = (0 < length t) × SinSeparador t

-- A variable that the format builds of its name and its position.
abbrev pub EsVariable : {ν : Type 0} → Formato ν → ν → Type 0
EsVariable formato v =
    EsPosicion (formato.posicion v)
    × (formato.construir (formato.nombre v) (formato.posicion v) ≡ v)
    × EsTexto (formato.nombre v)

module _ {ν : Type 0} (formato : Formato ν) (m : Mensaje) where
  pub leer_variable_stack-Incluye :
      (s v : ℕ) (var : ν)
      → EsVariable formato var
      → Incluye m (campos_variable formato s v var)
      → leer_variable_stack formato m s v ≡ some var
  unfolding leer_variable_stack valor_de empieza
  leer_variable_stack-Incluye s v var h inc =
      let k = codes "varID" ++ dos s v in
      let a = codes "varPag" ++ dos s v in
      let b = codes "varOff" ++ dos s v in
      let c = codes "varSize" ++ dos s v in
      let p = formato.posicion var in
      let t =
        leer_texto-Da m k (formato.nombre var)
          (inc k (texto (formato.nombre var)) (rw (valor_de, iguales_refl k) refl)) in
      let resto =
        Incluye-detras (empieza (codes "varID" ∷ [])) m false ((k, texto (formato.nombre var)) ∷ [])
          (claves_de_posicion a b c p) ((λ e. cc), tt) (refl, (refl, (refl, tt))) inc in
      let q = leer_posicion-Incluye m a b c p h.0 refl refl refl resto in
      rw (leer_variable_stack, t, ◌>>=◌, q) (ap some h.1)

pub falso : false ≢ true
falso e = cc
