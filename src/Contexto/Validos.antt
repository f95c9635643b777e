-- ===== src/Contexto/Validos.antt =====
-- The fields of a process in the messages of src/kernel/kernel.c and src/cpu/cpu.c that survive the way: keys
-- and texts that are not empty and have no '|', numbers that fit.
use tp_sisop_1c_2017_david.Prelude.{
  ℕ, suc, ◌<◌, ◌^◌, ◌≡◌, refl, Bool, true, false, ◌&&◌, and_iff, ltb, ◌++◌, List, [], ◌∷◌, pos,
  length, codes, All, arith, if◌then◌else◌, length-append,
}
use tp_sisop_1c_2017_david.Comunicacion.{es_separador, es_digito}
use tp_sisop_1c_2017_david.Comunicacion.Campos.{
  Campo, numero, texto, EsCampo, EsValor, SinSeparador,
}
use tp_sisop_1c_2017_david.Comunicacion.Claves.{decimal, dos, decimal_en-EsDigito}
use tp_sisop_1c_2017_david.Comunicacion.Secuencias.{sin_signo, numerados, entero-EsInt32}
use tp_sisop_1c_2017_david.Comunicacion.Seleccion.{All-append, All-mapear, All-numerados}
use tp_sisop_1c_2017_david.Cpu.Posiciones.{Posicion}
use tp_sisop_1c_2017_david.Contexto.{
  Etiqueta, Nivel, Codigo, Formato, campos_etiqueta, campos_argumento, campos_variable,
  campos_marco, campos_nivel, campos_codigo,
}
use tp_sisop_1c_2017_david.Contexto.Lectura.{EsTexto, EsPalabra, EsPosicion, EsVariable}
use tp_sisop_1c_2017_david.Contexto.Niveles.{EsNivel}

-- A name without '|', as the keys have them.
unfoldable pub limpio : List ℕ → Bool
limpio [] = true
limpio (c ∷ cs) = (if es_separador c then false else true) && limpio cs

limpio-SinSeparador : (k : List ℕ) → limpio k ≡ true → SinSeparador k
unfolding limpio
limpio-SinSeparador [] h = tt
limpio-SinSeparador (c ∷ k) h =
    let a = (and_iff (if es_separador c then false else true) (limpio k)).0 h in
    (ground arith, limpio-SinSeparador k a.1)

pub campo_fijo :
    (k : List ℕ) (c : Campo) → (ltb 0 (length k) && limpio k) ≡ true → EsValor c → EsCampo (k, c)
campo_fijo k c h v =
    let a = (and_iff (ltb 0 (length k)) (limpio k)).0 h in
    (ground arith, limpio-SinSeparador k a.1, v)

digito-no_separador : (c : ℕ) → es_digito c ≡ true → es_separador c ≡ false
digito-no_separador c h = ground arith

decimal-SinSeparador : (n : ℕ) → SinSeparador (decimal n)
decimal-SinSeparador n =
    All-mapear (λ c. es_digito c ≡ true) (λ c. es_separador c ≡ false) digito-no_separador
      (decimal n) (decimal_en-EsDigito (suc n) n)

dos-SinSeparador : (i j : ℕ) → SinSeparador (dos i j)
dos-SinSeparador i j =
    All-append (λ c. es_separador c ≡ false) (decimal i) (46 ∷ decimal j) (decimal-SinSeparador i)
      (refl, decimal-SinSeparador j)

campo_con :
    (k ds : List ℕ) (c : Campo)
    → (ltb 0 (length k) && limpio k) ≡ true
    → SinSeparador ds
    → EsValor c
    → EsCampo (k ++ ds, c)
campo_con k ds c h s v =
    let a = (and_iff (ltb 0 (length k)) (limpio k)).0 h in
    let largo : 0 < length k = ground arith in
    (
      omega (arith, largo, length-append k ds),
      All-append (λ c. es_separador c ≡ false) k ds (limpio-SinSeparador k a.1) s,
      v,
    )

abbrev pub EsEtiqueta : Etiqueta → Type 0
EsEtiqueta e = EsTexto e.etiquetas × EsPalabra e.ubicacion

abbrev pub EsCodigo : Codigo → Type 0
EsCodigo c = EsPalabra c.pagina × EsPalabra c.offset × EsPalabra c.size

abbrev pub EsLargo : ℕ → Type 0
EsLargo n = n < 2 ^ 31

pub EsCampo-etiqueta : (i : ℕ) (e : Etiqueta) → EsEtiqueta e → All EsCampo (campos_etiqueta i e)
unfolding limpio
EsCampo-etiqueta i e h =
    let s = decimal-SinSeparador i in
    (
      campo_con (codes "claveEtiqueta") (decimal i) (texto e.etiquetas) refl s h.0,
      (
        campo_con (codes "claveUbicacion") (decimal i) (sin_signo e.ubicacion) refl s
            (entero-EsInt32 e.ubicacion h.1),
        tt,
      ),
    )

pub EsCampo-codigo : (i : ℕ) (c : Codigo) → EsCodigo c → All EsCampo (campos_codigo i c)
unfolding limpio
EsCampo-codigo i c h =
    let s = decimal-SinSeparador i in
    (
      campo_con (codes "pagina") (decimal i) (sin_signo c.pagina) refl s
          (entero-EsInt32 c.pagina h.0),
      (
        campo_con (codes "offset") (decimal i) (sin_signo c.offset) refl s
            (entero-EsInt32 c.offset h.1),
        (
          campo_con (codes "size") (decimal i) (sin_signo c.size) refl s
              (entero-EsInt32 c.size h.2),
          tt,
        ),
      ),
    )

EsCampo-posicion :
    (a b c : List ℕ) (ds : List ℕ) (p : Posicion)
    → (ltb 0 (length a) && limpio a) ≡ true
    → (ltb 0 (length b) && limpio b) ≡ true
    → (ltb 0 (length c) && limpio c) ≡ true
    → SinSeparador ds
    → EsPosicion p
    → All EsCampo (
        (a ++ ds, sin_signo p.pagina)
        ∷ (b ++ ds, sin_signo p.offset)
        ∷ (c ++ ds, sin_signo p.size)
        ∷ [])
EsCampo-posicion a b c ds p ha hb hc s h = (
  campo_con a ds (sin_signo p.pagina) ha s (entero-EsInt32 p.pagina h.0),
  (
    campo_con b ds (sin_signo p.offset) hb s (entero-EsInt32 p.offset h.1),
    (campo_con c ds (sin_signo p.size) hc s (entero-EsInt32 p.size h.2), tt),
  ),
)

-- What all fields of a level have.
pub All-nivel :
    {ν : Type 0} (formato : Formato ν) (P : List ℕ × Campo → Type 0) (i : ℕ) (n : Nivel ν)
    → EsNivel formato n
    → All P (campos_marco i n)
    → ((a : ℕ) (p : Posicion) → EsPosicion p → All P (campos_argumento i a p))
    → P (codes "contVariable" ++ decimal i, numero (pos (length n.variable)))
    → ((v : ℕ) (x : ν) → EsVariable formato x → All P (campos_variable formato i v x))
    → All P (campos_nivel formato i n)
All-nivel formato P i n h marco argumentos contador variables =
    let vs = numerados (campos_variable formato i) 0 n.variable in
    let contado = (codes "contVariable" ++ decimal i, numero (pos (length n.variable))) ∷ vs in
    All-append P (campos_marco i n) (numerados (campos_argumento i) 0 n.argumento ++ contado) marco
      (All-append P (numerados (campos_argumento i) 0 n.argumento) contado
        (All-numerados (campos_argumento i) P EsPosicion argumentos 0 n.argumento h.3)
        (
          contador,
          All-numerados (campos_variable formato i) P (EsVariable formato) variables 0 n.variable
              h.4,
        ))

-- A level that survives the way: its lists are not longer than an `int` counts.
abbrev pub EsNivelValido : {ν : Type 0} → Formato ν → Nivel ν → Type 0
EsNivelValido formato n =
    EsNivel formato n × EsLargo (length n.argumento) × EsLargo (length n.variable)

pub EsCampo-nivel :
    {ν : Type 0} (formato : Formato ν) (i : ℕ) (n : Nivel ν)
    → EsNivelValido formato n
    → All EsCampo (campos_nivel formato i n)
unfolding limpio
EsCampo-nivel formato i n h =
    let s = decimal-SinSeparador i in
    let e = h.0 in
    All-nivel formato EsCampo i n e
      (
        campo_con (codes "claveID") (decimal i) (sin_signo n.id) refl s (entero-EsInt32 n.id e.0),
        (
          campo_con (codes "retPos") (decimal i) (sin_signo n.ret_pos) refl s
              (entero-EsInt32 n.ret_pos e.1),
          All-append EsCampo
              ((codes "retVarPag" ++ decimal i, sin_signo n.ret_var.pagina)
                ∷ (codes "retVarOff" ++ decimal i, sin_signo n.ret_var.offset)
                ∷ (codes "retVarSiz" ++ decimal i, sin_signo n.ret_var.size)
                ∷ [])
              ((codes "contArgumento" ++ decimal i, numero (pos (length n.argumento))) ∷ [])
              (EsCampo-posicion (codes "retVarPag") (codes "retVarOff") (codes "retVarSiz")
                (decimal i) n.ret_var refl refl refl s e.2)
              (
                campo_con (codes "contArgumento") (decimal i) (numero (pos (length n.argumento)))
                    refl s h.1,
                tt,
              ),
        ),
      )
      (λ a p q.
        EsCampo-posicion (codes "argPag") (codes "argOff") (codes "argSize") (dos i a) p refl refl
          refl (dos-SinSeparador i a) q)
      (campo_con (codes "contVariable") (decimal i) (numero (pos (length n.variable))) refl s h.2)
      (λ v x q. (
        campo_con (codes "varID") (dos i v) (texto (formato.nombre x)) refl (dos-SinSeparador i v)
            q.2,
        EsCampo-posicion (codes "varPag") (codes "varOff") (codes "varSize") (dos i v)
            (formato.posicion x) refl refl refl (dos-SinSeparador i v) q.0,
      ))
