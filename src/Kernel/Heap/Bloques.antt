-- ===== src/Kernel/Heap/Bloques.antt =====
-- What a heap page of src/kernel/heapmemo.c is in the abstract: its blocks in order. Each one takes five
-- bytes more than its size.
use tp_sisop_1c_2017_david.Prelude.{
  ℕ, ◌+◌, ◌-◌, ◌≤◌, ◌<◌, ◌≡◌, refl, ltb, true, false, Option, none, some, lt→ltb, le→ltb_false,
  if◌then◌else◌, dec_lt, List, [], ◌∷◌, ◌⊎◌, ◌==◌, arith,
}

pub data Bloque : Type 0 where
  libre : ℕ → Bloque
  usado : ℕ → Bloque

abbrev pub tamanio : Bloque → ℕ
tamanio (libre n) = n
tamanio (usado n) = n

-- The bytes that the blocks take, headers included.
abbrev pub ocupan : List Bloque → ℕ
ocupan [] = 0
ocupan (b ∷ bs) = 5 + tamanio b + ocupan bs

-- Put back in front of what a search in the rest of the blocks found.
abbrev pub anteponer : Bloque → Option (List Bloque × ℕ) → Option (List Bloque × ℕ)
anteponer b none = none
anteponer b (some (bs, p)) = some (b ∷ bs, p)

-- First fit: the first free block that is larger than the request and one more header, split in two.
-- `puntero` is where the first block of the list starts.
unfoldable pub asignar : ℕ → ℕ → List Bloque → Option (List Bloque × ℕ)
asignar n puntero [] = none
asignar n puntero (usado k ∷ bs) = anteponer (usado k) (asignar n (puntero + 5 + k) bs)
asignar n puntero (libre k ∷ bs) = elim (ltb (n + 5) k) [
  | true ↦ some (usado n ∷ libre (k - (n + 5)) ∷ bs, puntero + 5)
  | false ↦ anteponer (libre k) (asignar n (puntero + 5 + k) bs)
]

-- Runs of free blocks become one block. `fundir_con o` has read a free block already, of size `s` for
-- `o = some s`.
unfoldable pub fundir_con : Option ℕ → List Bloque → List Bloque
fundir_con none [] = []
fundir_con (some s) [] = libre s ∷ []
fundir_con none (usado k ∷ bs) = usado k ∷ fundir_con none bs
fundir_con (some s) (usado k ∷ bs) = libre s ∷ usado k ∷ fundir_con none bs
fundir_con none (libre k ∷ bs) = fundir_con (some k) bs
fundir_con (some s) (libre k ∷ bs) = fundir_con (some (s + k + 5)) bs

-- A used block of size `n` whose bytes start at `p`, among blocks that start at `puntero`.
abbrev pub Asignado : ℕ → ℕ → ℕ → List Bloque → Type 0
Asignado p n puntero [] = ⊥
Asignado p n puntero (b ∷ bs) =
    ((p ≡ puntero + 5) × (b ≡ usado n)) ⊎ Asignado p n (puntero + 5 + tamanio b) bs

-- The block whose bytes start at `p` made free.
unfoldable pub soltar : ℕ → ℕ → List Bloque → List Bloque
soltar p puntero [] = []
soltar p puntero (b ∷ bs) =
    if p == puntero + 5 then libre (tamanio b) ∷ bs else b ∷ soltar p (puntero + 5 + tamanio b) bs

-- No two free blocks are neighbours.
abbrev pub Fundidos : List Bloque → Type 0
Fundidos [] = Unit
Fundidos (usado k ∷ bs) = Fundidos bs
Fundidos (libre k ∷ []) = Unit
Fundidos (libre k ∷ libre m ∷ bs) = ⊥
Fundidos (libre k ∷ usado m ∷ bs) = Fundidos bs

-- What the free block that `fundir_con` has read takes.
abbrev pub pendiente : Option ℕ → ℕ
pendiente none = 0
pendiente (some s) = 5 + s

pub ocupan-fundir_con :
    (o : Option ℕ) (bs : List Bloque) → ocupan (fundir_con o bs) ≡ pendiente o + ocupan bs
unfolding fundir_con
ocupan-fundir_con none [] = refl
ocupan-fundir_con (some s) [] = omega arith
ocupan-fundir_con none (usado k ∷ bs) = omega (arith, ocupan-fundir_con none bs)
ocupan-fundir_con (some s) (usado k ∷ bs) = omega (arith, ocupan-fundir_con none bs)
ocupan-fundir_con none (libre k ∷ bs) = omega (arith, ocupan-fundir_con (some k) bs)
ocupan-fundir_con (some s) (libre k ∷ bs) = omega (arith, ocupan-fundir_con (some (s + k + 5)) bs)

pub fundir_con-Fundidos : (o : Option ℕ) (bs : List Bloque) → Fundidos (fundir_con o bs)
unfolding fundir_con
fundir_con-Fundidos none [] = tt
fundir_con-Fundidos (some s) [] = tt
fundir_con-Fundidos none (usado k ∷ bs) = fundir_con-Fundidos none bs
fundir_con-Fundidos (some s) (usado k ∷ bs) = fundir_con-Fundidos none bs
fundir_con-Fundidos none (libre k ∷ bs) = fundir_con-Fundidos (some k) bs
fundir_con-Fundidos (some s) (libre k ∷ bs) = fundir_con-Fundidos (some (s + k + 5)) bs

-- A block that is used, or too small for a request of `n` bytes.
abbrev pub NoEntra : ℕ → Bloque → Type 0
NoEntra n (libre k) = k ≤ n + 5
NoEntra n (usado k) = Unit

-- What first fit does: the blocks before the one it splits do not serve.
pub data Asignacion (n : ℕ) : ℕ → List Bloque → Option (List Bloque × ℕ) → Type 0 where
  nada : {puntero : ℕ} → Asignacion n puntero [] none
  aqui :
      {puntero k : ℕ} {bs : List Bloque}
      → n + 5 < k
      → Asignacion n puntero (libre k ∷ bs) (some (usado n ∷ libre (k - (n + 5)) ∷ bs, puntero + 5))
  despues :
      {puntero : ℕ} (b : Bloque) {bs : List Bloque} {o : Option (List Bloque × ℕ)}
      → NoEntra n b
      → Asignacion n (puntero + 5 + tamanio b) bs o
      → Asignacion n puntero (b ∷ bs) (anteponer b o)

pub asignar-Asignacion :
    (n puntero : ℕ) (bs : List Bloque) → Asignacion n puntero bs (asignar n puntero bs)
unfolding asignar
asignar-Asignacion n puntero [] = nada
asignar-Asignacion n puntero (usado k ∷ bs) =
    despues (usado k) tt (asignar-Asignacion n (puntero + 5 + k) bs)
asignar-Asignacion n puntero (libre k ∷ bs) = elim (dec_lt (n + 5) k) [
  | yes l ↦ rw (asignar, lt→ltb (n + 5) k l) (aqui l)
  | no l ↦
      rw (asignar, le→ltb_false (n + 5) k (omega arith))
        (despues (libre k) (omega arith) (asignar-Asignacion n (puntero + 5 + k) bs))
]
