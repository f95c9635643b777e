-- ===== src/Comunicacion/Numeros.antt =====
-- The decimal form of an `int` in a message of src/comunicacion/comunicacion.c, and back.
use tp_sisop_1c_2017_david.Prelude.{
  ℕ, zero, suc, ◌+◌, ◌-◌, ◌*◌, ◌/◌, ◌%◌, ◌^◌, ◌<◌, ◌≤◌, ℤ, pos, negsuc, EsInt32, true, false, ◌==◌,
  ◌≡◌, refl, ap, ◌∙◌, List, [], ◌∷◌, ◌++◌, length, length-append, All, dec_lt, lt→ltb, le→ltb_false,
  arith,
}
use tp_sisop_1c_2017_david.Comunicacion.{
  digitos, formatear, leer_digitos, atoi, opuesto, cero, menos, es_digito, es_separador,
}

-- Reading goes on where the first digits end.
pub leer_digitos-append :
    (a : ℕ) (xs ys : List ℕ)
    → All (λ c. es_digito c ≡ true) xs
    → leer_digitos a (xs ++ ys) ≡ leer_digitos (leer_digitos a xs) ys
unfolding leer_digitos
leer_digitos-append a [] ys h = refl
leer_digitos-append a (x ∷ xs) ys h =
    rw (leer_digitos, h.0) (leer_digitos-append (10 * a + (x - cero)) xs ys h.1)

pub es_digito-cifra : (n : ℕ) → es_digito (cero + n % 10) ≡ true
es_digito-cifra n = ground arith

pub All-append_digitos :
    (xs ys : List ℕ)
    → All (λ c. es_digito c ≡ true) xs
    → All (λ c. es_digito c ≡ true) ys
    → All (λ c. es_digito c ≡ true) (xs ++ ys)
All-append_digitos [] ys a b = b
All-append_digitos (x ∷ xs) ys a b = (a.0, All-append_digitos xs ys a.1 b)

pub digitos-EsDigito : (w n : ℕ) → All (λ c. es_digito c ≡ true) (digitos w n)
unfolding digitos
digitos-EsDigito zero n = tt
digitos-EsDigito (suc w) n =
    All-append_digitos (digitos w (n / 10)) ((cero + n % 10) ∷ []) (digitos-EsDigito w (n / 10))
      (es_digito-cifra n, tt)

pub length-digitos : (w n : ℕ) → length (digitos w n) ≡ w
unfolding digitos
length-digitos zero n = refl
length-digitos (suc w) n =
    omega
      (arith, length-append (digitos w (n / 10)) ((cero + n % 10) ∷ []), length-digitos w (n / 10))

abbrev potencia : ℕ → ℕ
potencia zero = 1
potencia (suc w) = 10 * potencia w

pub ultima_cifra : (q r n : ℕ) → q ≡ n / 10 → r ≡ n % 10 → 10 * q + (cero + r - cero) ≡ n
ultima_cifra q r n e f = omega arith

leer-digitos : (w n : ℕ) → n < potencia w → leer_digitos 0 (digitos w n) ≡ n
unfolding digitos leer_digitos
leer-digitos zero n h = omega arith
leer-digitos (suc w) n h =
    leer_digitos-append 0 (digitos w (n / 10)) ((cero + n % 10) ∷ []) (digitos-EsDigito w (n / 10))
    ∙ rw (leer-digitos w (n / 10) (omega arith), es_digito-cifra n)
        (ultima_cifra (n / 10) (n % 10) n refl refl)

atoi-digitos : (ds : List ℕ) → All (λ c. es_digito c ≡ true) ds → atoi ds ≡ pos (leer_digitos 0 ds)
unfolding atoi leer_digitos
atoi-digitos [] a = refl
atoi-digitos (c ∷ cs) a = rw (no_menos c a.0) refl
  where
    no_menos : (c : ℕ) → es_digito c ≡ true → (c == menos) ≡ false
    no_menos c e = ground arith

atoi-menos : (ds : List ℕ) → atoi (menos ∷ ds) ≡ opuesto (leer_digitos 0 ds)
unfolding atoi
atoi-menos ds = refl

-- For every `int` of 32 bits, `atoi` of what `sprintf` wrote of it returns it.
pub atoi-formatear : (v : ℤ) → EsInt32 v → atoi (formatear v) ≡ v
unfolding formatear
atoi-formatear (pos n) h =
    atoi-digitos (digitos 11 n) (digitos-EsDigito 11 n) ∙ ap pos (leer-digitos 11 n (omega arith))
atoi-formatear (negsuc n) h = elim (dec_lt (suc n) (10 ^ 9)) [
  | yes l ↦
      rw (lt→ltb (suc n) (10 ^ 9) l)
        (atoi-menos (digitos 9 (suc n)) ∙ ap opuesto (leer-digitos 9 (suc n) (omega arith)))
  | no l ↦
      rw (le→ltb_false (suc n) (10 ^ 9) (omega arith))
        (atoi-menos (digitos 10 (suc n)) ∙ ap opuesto (leer-digitos 10 (suc n) (omega arith)))
]

digito-no_separador : (c : ℕ) → es_digito c ≡ true → es_separador c ≡ false
digito-no_separador c e = ground arith

pub All-digitos :
    (ds : List ℕ) → All (λ c. es_digito c ≡ true) ds → All (λ c. es_separador c ≡ false) ds
All-digitos [] a = tt
All-digitos (c ∷ cs) a = (digito-no_separador c a.0, All-digitos cs a.1)

-- The decimal form has no separator in it, and is not empty.
pub formatear-SinSeparador : (v : ℤ) → All (λ c. es_separador c ≡ false) (formatear v)
unfolding formatear
formatear-SinSeparador (pos n) = All-digitos (digitos 11 n) (digitos-EsDigito 11 n)
formatear-SinSeparador (negsuc n) = elim (dec_lt (suc n) (10 ^ 9)) [
  | yes l ↦
      rw (lt→ltb (suc n) (10 ^ 9) l)
        (refl, All-digitos (digitos 9 (suc n)) (digitos-EsDigito 9 (suc n)))
  | no l ↦
      rw (le→ltb_false (suc n) (10 ^ 9) (omega arith))
        (refl, All-digitos (digitos 10 (suc n)) (digitos-EsDigito 10 (suc n)))
]

pub length-formatear :
    (v : ℤ) → EsInt32 v → (0 < length (formatear v)) × (length (formatear v) ≤ 11)
unfolding formatear
length-formatear (pos n) h =
    (omega (arith, length-digitos 11 n), omega (arith, length-digitos 11 n))
length-formatear (negsuc n) h = elim (dec_lt (suc n) (10 ^ 9)) [
  | yes l ↦
      rw (lt→ltb (suc n) (10 ^ 9) l)
        (omega (arith, length-digitos 9 (suc n)), omega (arith, length-digitos 9 (suc n)))
  | no l ↦
      rw (le→ltb_false (suc n) (10 ^ 9) (omega arith))
        (omega (arith, length-digitos 10 (suc n)), omega (arith, length-digitos 10 (suc n)))
]
