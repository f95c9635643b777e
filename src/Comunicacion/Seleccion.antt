-- ===== src/Comunicacion/Seleccion.antt =====
-- Which fields of a message a key of src/comunicacion/comunicacion.c reads, where the keys are told apart by
-- their names and by the numbers in them.
use tp_sisop_1c_2017_david.Prelude.{
  ℕ, suc, ◌<◌, ◌==◌, ◌+◌, ◌≡◌, ◌≢◌, refl, sym, ap, ◌∙◌, Bool, true, false, Bool-cases, inl, inr,
  ◌||◌, subst, length-append, append-nil, lt→ltb, le→ltb_false, dec_lt, ◌/◌, ◌%◌, Option, some,
  ◌>>=◌, List, [], ◌∷◌, ◌++◌, length, take, get_or, All, arith, if◌then◌else◌,
}
use tp_sisop_1c_2017_david.Comunicacion.{Mensaje, cero, iguales, es_digito, leer_digitos}
use tp_sisop_1c_2017_david.Comunicacion.Campos.{Campo, valor_de}
use tp_sisop_1c_2017_david.Comunicacion.Claves.{
  decimal_en, decimal_en-EsDigito, leer_digitos-decimal_en, iguales→≡, numero_de, decimal, dos,
}
use tp_sisop_1c_2017_david.Comunicacion.Secuencias.{Incluye, numerados, leer_lista}

-- The number in a key, and the second one, behind a '.'.
unfoldable pub numero_en : List ℕ → ℕ
numero_en [] = 0
numero_en (c ∷ cs) =
    let resto = numero_en cs in if es_digito c then leer_digitos 0 (c ∷ cs) else resto

unfoldable pub segundo_en : List ℕ → ℕ
segundo_en [] = 0
segundo_en (c ∷ cs) = let resto = segundo_en cs in if c == 46 then leer_digitos 0 cs else resto

-- One of the names starts the key.
unfoldable pub empieza : List (List ℕ) → List ℕ → Bool
empieza [] clave = false
empieza (n ∷ ns) clave = iguales (take (length n) clave) n || empieza ns clave

-- A key that is found has what all keys have.
pub valor_de-All :
    (P : List ℕ → Type 0) (clave : List ℕ) (cs : List (List ℕ × Campo)) {c : Campo}
    → All (λ c. P c.0) cs
    → valor_de clave cs ≡ some c
    → P clave
unfolding valor_de
valor_de-All P clave [] a e = cc
valor_de-All P clave (d ∷ cs) {c} a e = elim (Bool-cases (iguales clave d.0)) [
  | inl h ↦ subst P (sym (iguales→≡ clave d.0 h)) a.0
  | inr h ↦
      let abre : valor_de clave (d ∷ cs) ≡ valor_de clave cs = rw (valor_de, h) refl in
      valor_de-All P clave cs a.1 (sym abre ∙ e)
]

module _ {κ : Type 0} (g : List ℕ → κ) where
  -- Every key has the same image.
  abbrev pub Todas : κ → List (List ℕ × Campo) → Type 0
  Todas q = All (λ c. g c.0 ≡ q)

  abbrev pub Ninguna : κ → List (List ℕ × Campo) → Type 0
  Ninguna q = All (λ c. g c.0 ≢ q)

  pub valor_de-Ninguna :
      (clave : List ℕ) (ds bs : List (List ℕ × Campo))
      → Ninguna (g clave) ds
      → valor_de clave (ds ++ bs) ≡ valor_de clave bs
  unfolding valor_de
  valor_de-Ninguna clave [] bs a = refl
  valor_de-Ninguna clave (d ∷ ds) bs a = elim (Bool-cases (iguales clave d.0)) [
    | inl h ↦ absurd (a.0 (sym (ap g (iguales→≡ clave d.0 h))))
    | inr h ↦ rw (valor_de, h) (valor_de-Ninguna clave ds bs a.1)
  ]

  -- What stands behind fields with other keys.
  pub Incluye-detras :
      (m : Mensaje) (q : κ) (ds bs : List (List ℕ × Campo))
      → Ninguna q ds
      → Todas q bs
      → Incluye m (ds ++ bs)
      → Incluye m bs
  Incluye-detras m q ds bs n t inc clave c e =
      let mismo = valor_de-All (λ k. g k ≡ q) clave bs t e in
      inc clave c (valor_de-Ninguna clave ds bs (subst (λ x. Ninguna x ds) (sym mismo) n) ∙ e)

pub valor_de-delante :
    (clave : List ℕ) (ds bs : List (List ℕ × Campo)) {c : Campo}
    → valor_de clave ds ≡ some c
    → valor_de clave (ds ++ bs) ≡ some c
unfolding valor_de
valor_de-delante clave [] bs e = cc
valor_de-delante clave (d ∷ ds) bs {c} e = elim (Bool-cases (iguales clave d.0)) [
  | inl h ↦
      let abre : valor_de clave (d ∷ ds) ≡ some d.1 = rw (valor_de, h) refl in
      rw (valor_de, h) (sym abre ∙ e)
  | inr h ↦
      let abre : valor_de clave (d ∷ ds) ≡ valor_de clave ds = rw (valor_de, h) refl in
      rw (valor_de, h) (valor_de-delante clave ds bs (sym abre ∙ e))
]

pub Incluye-delante :
    (m : Mensaje) (ds bs : List (List ℕ × Campo)) → Incluye m (ds ++ bs) → Incluye m ds
Incluye-delante m ds bs inc clave c e = inc clave c (valor_de-delante clave ds bs e)

pub All-append {ℓ} :
    {A : Type ℓ} (P : A → Type 0) (xs ys : List A) → All P xs → All P ys → All P (xs ++ ys)
All-append P [] ys a b = b
All-append P (x ∷ xs) ys a b = (a.0, All-append P xs ys a.1 b)

pub All-mapear {ℓ} :
    {A : Type ℓ} (P Q : A → Type 0) → ((x : A) → P x → Q x) → (xs : List A) → All P xs → All Q xs
All-mapear P Q f [] a = tt
All-mapear P Q f (x ∷ xs) a = (f x a.0, All-mapear P Q f xs a.1)

module _ {A : Type 0} (f : ℕ → A → List (List ℕ × Campo)) where
  pub All-numerados :
      (P : List ℕ × Campo → Type 0) (Q : A → Type 0)
      → ((i : ℕ) (x : A) → Q x → All P (f i x))
      → (s : ℕ) (xs : List A) → All Q xs
      → All P (numerados f s xs)
  unfolding numerados
  All-numerados P Q h s [] a = tt
  All-numerados P Q h s (x ∷ xs) a =
      All-append P (f s x) (numerados f (suc s) xs) (h s x a.0) (All-numerados P Q h (suc s) xs a.1)

  module _ (g : List ℕ → ℕ) (Q : A → Type 0) (h : (i : ℕ) (x : A) → Q x → Todas g i (f i x)) where
    posteriores : (s t : ℕ) (xs : List A) → All Q xs → s < t → Ninguna g s (numerados f t xs)
    unfolding numerados
    posteriores s t [] a l = tt
    posteriores s t (x ∷ xs) a l =
        All-append (λ c. g c.0 ≢ s) (f t x) (numerados f (suc t) xs)
          (All-mapear (λ c. g c.0 ≡ t) (λ c. g c.0 ≢ s) (λ c e d. absurd (omega (arith, e, d)))
            (f t x) (h t x a.0))
          (posteriores s (suc t) xs a.1 (omega arith))

    -- A list is read back element by element, where each is told apart by the number in its keys.
    pub leer_lista-numerados :
        (leer : ℕ → Option A) (m : Mensaje)
        → ((i : ℕ) (x : A) → Q x → Incluye m (f i x) → leer i ≡ some x)
        → (s : ℕ) (xs : List A) → All Q xs
        → Incluye m (numerados f s xs)
        → leer_lista leer s (length xs) ≡ some xs
    unfolding leer_lista numerados
    leer_lista-numerados leer m r s [] a inc = refl
    leer_lista-numerados leer m r s (x ∷ xs) a inc =
        let cabeza = r s x a.0 (Incluye-delante m (f s x) (numerados f (suc s) xs) inc) in
        let cola = leer_lista-numerados leer m r (suc s) xs a.1 (siguen s x xs a inc) in
        rw (leer_lista, cabeza, ◌>>=◌, cola) refl
      where
        siguen :
            (s : ℕ) (x : A) (xs : List A)
            → All Q (x ∷ xs)
            → Incluye m (f s x ++ numerados f (suc s) xs)
            → Incluye m (numerados f (suc s) xs)
        siguen s x xs a inc clave c e =
            let cola = numerados f (suc s) xs in
            let otro =
              valor_de-All (λ k. g k ≢ s) clave cola (posteriores s (suc s) xs a.1 (omega arith))
                e in
            let ninguna =
              All-mapear (λ c. g c.0 ≡ s) (λ c. g c.0 ≢ g clave) (λ d p q. otro (sym q ∙ p)) (f s x)
                (h s x a.0) in
            inc clave c (valor_de-Ninguna g clave (f s x) cola ninguna ∙ e)

numero_en-delante :
    (xs cs : List ℕ)
    → 0 < length xs
    → All (λ c. es_digito c ≡ true) xs
    → numero_en (xs ++ cs) ≡ leer_digitos 0 (xs ++ cs)
unfolding numero_en
numero_en-delante [] cs h a = absurd (omega arith)
numero_en-delante (x ∷ xs) cs h a = rw (numero_en, a.0) refl

decimal-length : (i : ℕ) → 0 < length (decimal i)
unfolding decimal_en
decimal-length i = elim (dec_lt i 10) [
  | yes l ↦ rw (decimal_en, lt→ltb i 10 l) (omega arith)
  | no l ↦
      rw (decimal_en, le→ltb_false i 10 (omega arith))
        (omega (arith, length-append (decimal_en i (i / 10)) ((cero + i % 10) ∷ [])))
]

-- `%d` behind a name without digits, and what follows it.
numero_en-decimal :
    (i : ℕ) (cs : List ℕ) → es_digito (get_or cs 0 0) ≡ false → numero_en (decimal i ++ cs) ≡ i
numero_en-decimal i cs h =
    numero_en-delante (decimal i) cs (decimal-length i) (decimal_en-EsDigito (suc i) i)
    ∙ numero_de i cs h

pub numero_en-uno : (i : ℕ) → numero_en (decimal i) ≡ i
numero_en-uno i = ap numero_en (sym (append-nil (decimal i))) ∙ numero_en-decimal i [] refl

pub numero_en-dos : (i j : ℕ) → numero_en (dos i j) ≡ i
numero_en-dos i j = numero_en-decimal i (46 ∷ decimal j) refl

digito-no_punto : (c : ℕ) → es_digito c ≡ true → (c == 46) ≡ false
digito-no_punto c h = ground arith

segundo_en-detras :
    (xs cs : List ℕ)
    → All (λ c. es_digito c ≡ true) xs
    → segundo_en (xs ++ (46 ∷ cs)) ≡ leer_digitos 0 cs
unfolding segundo_en
segundo_en-detras [] cs a = refl
segundo_en-detras (x ∷ xs) cs a =
    rw (segundo_en, digito-no_punto x a.0) (segundo_en-detras xs cs a.1)

pub segundo_en-dos : (i j : ℕ) → segundo_en (dos i j) ≡ j
segundo_en-dos i j =
    segundo_en-detras (decimal i) (decimal j) (decimal_en-EsDigito (suc i) i)
    ∙ leer_digitos-decimal_en (suc j) j (omega arith)
