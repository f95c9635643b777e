-- ===== src/Kernel/Minify/Instrucciones.antt =====
-- Where the text of each line of a script stands: the instructions of src/kernel/minify.c.
use tp_sisop_1c_2017_david.Prelude.{
  ℕ, zero, suc, ◌+◌, ◌≤◌, ◌<◌, ◌≡◌, refl, ap, ap₂, ◌∙◌, some, List, [], ◌∷◌, ◌++◌, length, take,
  drop, get_or, All-get_or, length-append, drop-append_right, take-append_self, arith,
}
use tp_sisop_1c_2017_david.Kernel.Minify.{
  script_to_list, MapInstruccion, bloques_desde, concatenar, script_to_bloques,
  get_cadena_contatenada, substring,
}
use tp_sisop_1c_2017_david.Kernel.Minify.Lineas.{EsComando, script_to_list-EsComando}

-- What the loop of `scriptToBloques` writes down about line `k`.
bloques_desde-get :
    (i inicio k : ℕ) (d : MapInstruccion) (cs : List (List ℕ))
    → k < length cs
    → get_or (bloques_desde i inicio cs) k d ≡ record {
      index = i + k;
      pagina = 0;
      offset = inicio + length (concatenar (take k cs));
      size = length (get_or cs k []);
    }
unfolding bloques_desde concatenar
bloques_desde-get i inicio k d [] h = absurd (omega arith)
bloques_desde-get i inicio zero d (c ∷ cs) h =
    ap₂ (λ x y. record { index = x; pagina = 0; offset = y; size = length c }) (omega arith)
      (omega arith)
bloques_desde-get i inicio (suc k) d (c ∷ cs) h =
    let indice : suc i + k ≡ i + suc k = omega arith in
    let lugar : inicio + length c + length (concatenar (take k cs))
        ≡ inicio + length (c ++ concatenar (take k cs)) =
      omega (arith, length-append c (concatenar (take k cs))) in
    bloques_desde-get (suc i) (inicio + length c) k d cs (omega arith)
    ∙ ap₂ (λ x y. record { index = x; pagina = 0; offset = y; size = length (get_or cs k []) })
        indice lugar

-- Line `k` of a concatenation.
concatenar-linea :
    (k : ℕ) (cs : List (List ℕ))
    → k < length cs
    → take (length (get_or cs k [])) (drop (length (concatenar (take k cs))) (concatenar cs))
      ≡ get_or cs k []
unfolding concatenar
concatenar-linea k [] h = absurd (omega arith)
concatenar-linea zero (c ∷ cs) h = take-append_self c (concatenar cs) (length c) refl
concatenar-linea (suc k) (c ∷ cs) h =
    rw
      (drop-append_right (length (c ++ concatenar (take k cs))) (length (concatenar (take k cs))) c
        (concatenar cs) (length-append c (concatenar (take k cs))))
      (concatenar-linea k cs (omega arith))

length-concatenar :
    (k : ℕ) (cs : List (List ℕ))
    → k < length cs
    → length (concatenar (take k cs)) + length (get_or cs k []) ≤ length (concatenar cs)
unfolding concatenar
length-concatenar k [] h = absurd (omega arith)
length-concatenar zero (c ∷ cs) h = omega (arith, length-append c (concatenar cs))
length-concatenar (suc k) (c ∷ cs) h = omega (
  arith,
  length-append c (concatenar cs),
  length-append c (concatenar (take k cs)),
  length-concatenar k cs (omega arith),
)

substring-some :
    (str : List ℕ) (begin len : ℕ)
    → 0 < length str
    → begin + len ≤ length str
    → substring str begin len ≡ some (take len (drop begin str))
unfolding substring
substring-some str begin len p h = ground arith

EsComando-largo : (l : List ℕ) → EsComando l → 0 < length l
EsComando-largo [] c = absurd c.0
EsComando-largo (c ∷ cs) h = omega arith

-- The block that `scriptToBloques` writes for each line finds that line in the text of
-- `getCadenaContatenada`, and its index is the line's.
pub script_to_bloques-substring :
    (script : List ℕ) (d : MapInstruccion) (k : ℕ) {cs : List (List ℕ)}
    → script_to_list script ≡ some cs
    → k < length cs
    → (bloques : List MapInstruccion) × (texto : List ℕ) × (script_to_bloques script ≡ some bloques)
      × (get_cadena_contatenada script ≡ some texto)
      × ((get_or bloques k d).index ≡ k)
      × (substring texto (get_or bloques k d).offset (get_or bloques k d).size
          ≡ some (get_or cs k []))
unfolding script_to_bloques get_cadena_contatenada
script_to_bloques-substring script d k {cs} e h =
    let b = bloques_desde-get 0 0 k d cs h in
    let largo = length-concatenar k cs h in
    let linea =
      EsComando-largo (get_or cs k [])
        (All-get_or EsComando [] cs k (script_to_list-EsComando script e) h) in
    let offset : (get_or (bloques_desde 0 0 cs) k d).offset ≡ length (concatenar (take k cs)) =
      omega (arith, ap (λ x. x.offset) b) in
    (
      bloques_desde 0 0 cs,
      concatenar cs,
      rw (e) refl,
      rw (e) refl,
      omega (arith, ap (λ x. x.index) b),
      ap₂ (substring (concatenar cs)) offset (ap (λ x. x.size) b)
          ∙ substring-some (concatenar cs) _ _ (omega arith) largo
          ∙ ap some (concatenar-linea k cs h),
    )
