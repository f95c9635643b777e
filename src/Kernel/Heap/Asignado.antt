-- ===== src/Kernel/Heap/Asignado.antt =====
-- The blocks in use on a heap page of src/kernel/heapmemo.c, under reservation, release and compaction.
use tp_sisop_1c_2017_david.Prelude.{
  ℕ, ◌+◌, ◌-◌, ◌≤◌, ◌≡◌, ◌≢◌, refl, ap, subst, ◌∙◌, ◌==◌, Option, none, some, List, [], ◌∷◌, inl,
  inr, Bool-cases, ℕ_discrete, ==_iff, arith,
}
use tp_sisop_1c_2017_david.Kernel.Heap.Bloques.{
  Bloque, libre, usado, tamanio, Asignacion, anteponer, nada, aqui, despues, Asignado, soltar,
  fundir_con, Fundidos,
}

pub Asignado-desde : (p n i : ℕ) (bs : List Bloque) → Asignado p n i bs → i + 5 ≤ p
Asignado-desde p n i [] a = absurd a
Asignado-desde p n i (b ∷ bs) (inl a) = omega (arith, a.0)
Asignado-desde p n i (b ∷ bs) (inr a) = omega (arith, Asignado-desde p n (i + 5 + tamanio b) bs a)

-- What first fit grants is in use, and what was in use stays so.
pub data Concedido (n i : ℕ) (bs : List Bloque) : Option (List Bloque × ℕ) → Type 0 where
  negado : Concedido n i bs none
  concedido :
      {bs' : List Bloque} {p : ℕ}
      → Asignado p n i bs'
      → ((q m : ℕ) → Asignado q m i bs → Asignado q m i bs')
      → Concedido n i bs (some (bs', p))

anteponer-Concedido :
    {n i : ℕ} (b : Bloque) {bs : List Bloque} {o : Option (List Bloque × ℕ)}
    → Concedido n (i + 5 + tamanio b) bs o
    → Concedido n i (b ∷ bs) (anteponer b o)
anteponer-Concedido b negado = negado
anteponer-Concedido b (concedido {bs' = bs'} a h) =
    concedido {bs' = b ∷ bs'} (inr a) (λ q m x. elim x [ inl y ↦ inl y | inr y ↦ inr (h q m y) ])

pub Asignacion-Concedido :
    {n i : ℕ} {bs : List Bloque} {o : Option (List Bloque × ℕ)}
    → Asignacion n i bs o
    → Concedido n i bs o
Asignacion-Concedido nada = negado
Asignacion-Concedido {n} (aqui {puntero} {k} {bs} h) = concedido (inl (refl, refl)) (λ q m x.
    elim x [ inl y ↦ cc | inr y ↦ inr (inr (subst (λ j. Asignado q m j bs) (omega arith) y)) ])
Asignacion-Concedido (despues b h a) = anteponer-Concedido b (Asignacion-Concedido a)

pub soltar_aqui :
    (p i : ℕ) (b : Bloque) (bs : List Bloque)
    → p ≡ i + 5
    → soltar p i (b ∷ bs) ≡ libre (tamanio b) ∷ bs
unfolding soltar
soltar_aqui p i b bs e = rw (soltar, (==_iff p (i + 5)).1 e) refl

pub soltar_despues :
    (p i : ℕ) (b : Bloque) (bs : List Bloque)
    → p ≢ i + 5
    → soltar p i (b ∷ bs) ≡ b ∷ soltar p (i + 5 + tamanio b) bs
unfolding soltar
soltar_despues p i b bs d = elim (Bool-cases (p == i + 5)) [
  | inl e ↦ absurd (d ((==_iff p (i + 5)).0 e))
  | inr e ↦ rw (soltar, e) refl
]

pub libre-usado : (k m : ℕ) → libre k ≢ usado m
libre-usado k m = cc

-- The release of one block leaves the others in use.
pub soltar-Asignado :
    (p q m i : ℕ) (bs : List Bloque) → p ≢ q → Asignado q m i bs → Asignado q m i (soltar p i bs)
unfolding soltar
soltar-Asignado p q m i [] d a = a
soltar-Asignado p q m i (b ∷ bs) d a = elim (ℕ_discrete p (i + 5)) [
  | yes e ↦
      rw (soltar_aqui p i b bs e)
        (elim a [ inl x ↦ absurd (d (omega (arith, x.0))) | inr x ↦ inr x ])
  | no e ↦
      rw (soltar_despues p i b bs e)
        (elim a [ inl x ↦ inl x | inr x ↦ inr (soltar-Asignado p q m (i + 5 + tamanio b) bs d x) ])
]

-- The blocks left start at `i`, and with the free block that `fundir_con` has read at `j`.
abbrev pub Empieza : Option ℕ → ℕ → ℕ → Type 0
Empieza none j i = j ≡ i
Empieza (some s) j i = i ≡ j + 5 + s

-- Compaction leaves every block in use.
pub fundir_con-Asignado :
    (o : Option ℕ) (q m j i : ℕ) (bs : List Bloque)
    → Empieza o j i
    → Asignado q m i bs
    → Asignado q m j (fundir_con o bs)
unfolding fundir_con
fundir_con-Asignado o q m j i [] e a = absurd a
fundir_con-Asignado none q m j i (usado k ∷ bs) e (inl a) = inl (omega (arith, a.0), a.1)
fundir_con-Asignado none q m j i (usado k ∷ bs) e (inr a) =
    inr (fundir_con-Asignado none q m (j + 5 + k) (i + 5 + k) bs (omega arith) a)
fundir_con-Asignado none q m j i (libre k ∷ bs) e (inl a) = absurd (libre-usado k m a.1)
fundir_con-Asignado none q m j i (libre k ∷ bs) e (inr a) =
    fundir_con-Asignado (some k) q m j (i + 5 + k) bs (omega arith) a
fundir_con-Asignado (some s) q m j i (usado k ∷ bs) e (inl a) = inr (inl (omega (arith, a.0), a.1))
fundir_con-Asignado (some s) q m j i (usado k ∷ bs) e (inr a) =
    inr (inr (fundir_con-Asignado none q m (j + 5 + s + 5 + k) (i + 5 + k) bs (omega arith) a))
fundir_con-Asignado (some s) q m j i (libre k ∷ bs) e (inl a) = absurd (libre-usado k m a.1)
fundir_con-Asignado (some s) q m j i (libre k ∷ bs) e (inr a) =
    fundir_con-Asignado (some (s + k + 5)) q m j (i + 5 + k) bs (omega arith) a

fundir_con-Fundidos_id : (bs : List Bloque) → Fundidos bs → fundir_con none bs ≡ bs
unfolding fundir_con
fundir_con-Fundidos_id [] f = refl
fundir_con-Fundidos_id (usado k ∷ bs) f = ap (λ l. usado k ∷ l) (fundir_con-Fundidos_id bs f)
fundir_con-Fundidos_id (libre k ∷ []) f = refl
fundir_con-Fundidos_id (libre k ∷ libre m ∷ bs) f = absurd f
fundir_con-Fundidos_id (libre k ∷ usado m ∷ bs) f =
    ap (λ l. libre k ∷ usado m ∷ l) (fundir_con-Fundidos_id bs f)

-- The release of what first fit granted gives the blocks back.
abbrev pub Vuelve : ℕ → List Bloque → Option (List Bloque × ℕ) → Type 0
Vuelve i bs none = Unit
Vuelve i bs (some (bs', p)) = (i + 5 ≤ p) × (fundir_con none (soltar p i bs') ≡ bs)

usado-Vuelve :
    (i k : ℕ) (bs : List Bloque) (o : Option (List Bloque × ℕ))
    → Vuelve (i + 5 + k) bs o
    → Vuelve i (usado k ∷ bs) (anteponer (usado k) o)
unfolding fundir_con
usado-Vuelve i k bs none v = tt
usado-Vuelve i k bs (some (bs', p)) v = (
  omega (arith, v.0),
  rw (soltar_despues p i (usado k) bs' (omega (arith, v.0))) (ap (λ l. usado k ∷ l) v.1),
)

libre-Vuelve :
    (i k m : ℕ) (bs : List Bloque) (o : Option (List Bloque × ℕ))
    → Vuelve (i + 5 + k + 5 + m) bs o
    → Vuelve i (libre k ∷ usado m ∷ bs) (anteponer (libre k) (anteponer (usado m) o))
unfolding fundir_con
libre-Vuelve i k m bs none v = tt
libre-Vuelve i k m bs (some (bs', p)) v = (
  omega (arith, v.0),
  rw
      (
        soltar_despues p i (libre k) (usado m ∷ bs') (omega (arith, v.0)),
        soltar_despues p (i + 5 + k) (usado m) bs' (omega (arith, v.0)),
      )
      (ap (λ l. libre k ∷ usado m ∷ l) v.1),
)

-- Release undoes a reservation, on a page whose free blocks are never neighbours.
pub Asignacion-Vuelve :
    {n i : ℕ} {bs : List Bloque} {o : Option (List Bloque × ℕ)}
    → Fundidos bs
    → Asignacion n i bs o
    → Vuelve i bs o
unfolding fundir_con
Asignacion-Vuelve f nada = tt
Asignacion-Vuelve {n} f (aqui {puntero} {k} {bs} h) = (
  omega arith,
  rw (soltar_aqui (puntero + 5) puntero (usado n) (libre (k - (n + 5)) ∷ bs) refl)
      (ap (λ s. fundir_con (some s) bs) (omega arith) ∙ fundir_con-Fundidos_id (libre k ∷ bs) f),
)
Asignacion-Vuelve f (despues {puntero} (usado k) {bs} {o} h a) =
    usado-Vuelve puntero k bs o (Asignacion-Vuelve f a)
Asignacion-Vuelve f (despues (libre k) h nada) = tt
Asignacion-Vuelve f (despues (libre k) h (aqui {bs = bs} l)) = absurd f
Asignacion-Vuelve f (despues (libre k) h (despues (libre m) h' a)) = absurd f
Asignacion-Vuelve f (despues {puntero} (libre k) h (despues (usado m) {bs} {o} h' a)) =
    libre-Vuelve puntero k m bs o (Asignacion-Vuelve f a)
