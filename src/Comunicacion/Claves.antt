-- ===== src/Comunicacion/Claves.antt =====
-- Keys with a number in them, as sprintf makes them of "%d", and the fields of lists.
use tp_sisop_1c_2017_david.Prelude.{
  ℕ, zero, suc, ◌+◌, ◌/◌, ◌%◌, ◌<◌, ◌≡◌, ◌≢◌, refl, sym, ap, ap₂, ◌∙◌, ==_iff, and_iff, get_or,
  append-nil, true, false, ltb, lt→ltb, le→ltb_false, ◌==◌, if◌then◌else◌, Bool-cases, inl, inr,
  List, [], ◌∷◌, ◌++◌, All, dec_lt, arith,
}
use tp_sisop_1c_2017_david.Comunicacion.{leer_digitos, iguales, es_digito, cero}
use tp_sisop_1c_2017_david.Comunicacion.Numeros.{
  ultima_cifra, leer_digitos-append, es_digito-cifra, All-append_digitos,
}

-- `%d`, for a number that is not negative, on as many rounds as it may have digits.
unfoldable pub decimal_en : ℕ → ℕ → List ℕ
decimal_en zero n = []
decimal_en (suc w) n =
    let resto = decimal_en w (n / 10) in
    if ltb n 10 then (cero + n) ∷ [] else resto ++ ((cero + n % 10) ∷ [])

abbrev pub decimal : ℕ → List ℕ
decimal n = decimal_en (suc n) n

pub decimal_en-EsDigito : (w n : ℕ) → All (λ c. es_digito c ≡ true) (decimal_en w n)
unfolding decimal_en
decimal_en-EsDigito zero n = tt
decimal_en-EsDigito (suc w) n = elim (dec_lt n 10) [
  | yes l ↦ rw (decimal_en, lt→ltb n 10 l) (una n l, tt)
  | no l ↦
      rw (decimal_en, le→ltb_false n 10 (omega arith))
        (All-append_digitos (decimal_en w (n / 10)) ((cero + n % 10) ∷ [])
          (decimal_en-EsDigito w (n / 10)) (es_digito-cifra n, tt))
]
  where
    una : (n : ℕ) → n < 10 → es_digito (cero + n) ≡ true
    una n l = ground arith

pub leer_digitos-decimal_en : (w n : ℕ) → n < w → leer_digitos 0 (decimal_en w n) ≡ n
unfolding decimal_en leer_digitos
leer_digitos-decimal_en zero n h = absurd (omega arith)
leer_digitos-decimal_en (suc w) n h = elim (dec_lt n 10) [
  | yes l ↦ rw (decimal_en, lt→ltb n 10 l) (ground arith)
  | no l ↦
      rw (decimal_en, le→ltb_false n 10 (omega arith))
        (leer_digitos-append 0 (decimal_en w (n / 10)) ((cero + n % 10) ∷ [])
            (decimal_en-EsDigito w (n / 10))
          ∙ rw (leer_digitos-decimal_en w (n / 10) (omega arith), es_digito-cifra n)
              (ultima_cifra (n / 10) (n % 10) n refl refl))
]

pub iguales_refl : (cs : List ℕ) → iguales cs cs ≡ true
iguales_refl [] = refl
iguales_refl (c ∷ cs) = let mismo : (c == c) ≡ true = ground arith in rw (mismo) (iguales_refl cs)

pub iguales→≡ : (cs ds : List ℕ) → iguales cs ds ≡ true → cs ≡ ds
iguales→≡ [] [] e = refl
iguales→≡ [] (d ∷ ds) e = cc
iguales→≡ (c ∷ cs) [] e = cc
iguales→≡ (c ∷ cs) (d ∷ ds) e =
    let a = (and_iff (c == d) (iguales cs ds)).0 e in
    ap₂ (λ x xs. x ∷ xs) ((==_iff c d).0 a.0) (iguales→≡ cs ds a.1)

-- Behind the same text, keys are compared by what follows.
pub iguales-append : (xs ys zs : List ℕ) → iguales (xs ++ ys) (xs ++ zs) ≡ iguales ys zs
iguales-append [] ys zs = refl
iguales-append (x ∷ xs) ys zs =
    let mismo : (x == x) ≡ true = ground arith in rw (mismo) (iguales-append xs ys zs)

-- What a key starts with tells its number, as nothing of what follows is a digit.
pub numero_de :
    (i : ℕ) (cs : List ℕ) → es_digito (get_or cs 0 0) ≡ false → leer_digitos 0 (decimal i ++ cs) ≡ i
unfolding leer_digitos
numero_de i cs h =
    leer_digitos-append 0 (decimal i) cs (decimal_en-EsDigito (suc i) i)
    ∙ ap (λ n. leer_digitos n cs) (leer_digitos-decimal_en (suc i) i (omega arith))
    ∙ para i cs h
  where
    para : (n : ℕ) (cs : List ℕ) → es_digito (get_or cs 0 0) ≡ false → leer_digitos n cs ≡ n
    para n [] h = refl
    para n (c ∷ cs) h = rw (leer_digitos, h) refl

distintas :
    (i j : ℕ) (cs ds : List ℕ)
    → es_digito (get_or cs 0 0) ≡ false
    → es_digito (get_or ds 0 0) ≡ false
    → i ≢ j
    → iguales (decimal i ++ cs) (decimal j ++ ds) ≡ false
distintas i j cs ds hc hd ne = elim (Bool-cases (iguales (decimal i ++ cs) (decimal j ++ ds))) [
  | inr e ↦ e
  | inl e ↦
      let mismo : i ≡ j =
        sym (numero_de i cs hc)
        ∙ ap (leer_digitos 0) (iguales→≡ (decimal i ++ cs) (decimal j ++ ds) e)
        ∙ numero_de j ds hd in
      absurd (ne mismo)
]

pub uno_distinto : (i j : ℕ) → i ≢ j → iguales (decimal i) (decimal j) ≡ false
uno_distinto i j ne =
    ap₂ iguales (sym (append-nil (decimal i))) (sym (append-nil (decimal j)))
    ∙ distintas i j [] [] refl refl ne

-- `%d.%d`
abbrev pub dos : ℕ → ℕ → List ℕ
dos i j = decimal i ++ (46 ∷ decimal j)

pub dos_distinto : (i j a b : ℕ) → i ≢ j → iguales (dos i a) (dos j b) ≡ false
dos_distinto i j a b ne = distintas i j (46 ∷ decimal a) (46 ∷ decimal b) refl refl ne

pub dos_interno : (i a b : ℕ) → a ≢ b → iguales (dos i a) (dos i b) ≡ false
dos_interno i a b ne =
    iguales-append (decimal i) (46 ∷ decimal a) (46 ∷ decimal b) ∙ uno_distinto a b ne
