-- ===== src/Prelude/Bytes.antt =====
-- `memcpy` out of and into an array of bytes: `none` where it would leave the array.
use Prim.Native.Nat.{ℕ, ◌+◌, ◌-◌, ◌≤◌, ◌<◌}
use mathlib.Core.Path.{◌≡◌, refl, sym, ap, ◌∙◌}
use mathlib.Core.Logic.{◌⊎◌, inl, inr}
use mathlib.Core.Option.{Option, none, some}
use native.Mathlib.Decide.{dec_lt}
use mathlib.Core.List.{List, ◌++◌}
use native.Mathlib.Omega.{arith}
use tp_sisop_1c_2017_david.Prelude.Tests.{leb}
use tp_sisop_1c_2017_david.Prelude.Lists.{
  length, take, drop, take-append-drop, window-append_left, drop-append_right, drop-drop, drop-take,
  take-append_self, length-append, length-take, length-drop,
}
use tp_sisop_1c_2017_david.Prelude.Fault.{◌>>◌, guard}

unfoldable pub leer_bytes : ℕ → ℕ → List ℕ → Option (List ℕ)
leer_bytes a n mem = guard (leb (a + n) (length mem)) >> some (take n (drop a mem))

unfoldable pub escribir_bytes : ℕ → List ℕ → List ℕ → Option (List ℕ)
escribir_bytes a xs mem =
    guard (leb (a + length xs) (length mem))
    >> some (take a mem ++ (xs ++ drop (a + length xs) mem))

pub escribir_bytes-some :
    (a : ℕ) (xs mem : List ℕ)
    → a + length xs ≤ length mem
    → escribir_bytes a xs mem ≡ some (take a mem ++ (xs ++ drop (a + length xs) mem))
unfolding escribir_bytes
escribir_bytes-some a xs mem h = ground (arith)

pub escribir_bytes-total :
    (a : ℕ) (xs mem : List ℕ)
    → a + length xs ≤ length mem
    → (mem' : List ℕ) × (escribir_bytes a xs mem ≡ some mem')
escribir_bytes-total a xs mem h =
    (take a mem ++ (xs ++ drop (a + length xs) mem), escribir_bytes-some a xs mem h)

pub escribir_bytes-none :
    (a : ℕ) (xs mem : List ℕ) → length mem < a + length xs → escribir_bytes a xs mem ≡ none
unfolding escribir_bytes
escribir_bytes-none a xs mem h = ground arith

pub leer_bytes-some :
    (a n : ℕ) (mem : List ℕ) → a + n ≤ length mem → leer_bytes a n mem ≡ some (take n (drop a mem))
unfolding leer_bytes
leer_bytes-some a n mem h = ground arith

pub leer_bytes-none : (a n : ℕ) (mem : List ℕ) → length mem < a + n → leer_bytes a n mem ≡ none
unfolding leer_bytes
leer_bytes-none a n mem h = ground arith

-- A write that succeeds was in bounds, and keeps the length.
pub length-escribir_bytes :
    (a : ℕ) (xs mem : List ℕ) {mem' : List ℕ}
    → escribir_bytes a xs mem ≡ some mem'
    → (a + length xs ≤ length mem) × (length mem' ≡ length mem)
unfolding escribir_bytes
length-escribir_bytes a xs mem {mem'} e = ground (
  arith,
  length-append (take a mem) (xs ++ drop (a + length xs) mem),
  length-append xs (drop (a + length xs) mem),
  length-take a mem,
  length-drop (a + length xs) mem,
)

-- What a write that succeeds leaves.
escribir_bytes-inv :
    (a : ℕ) (xs mem : List ℕ) {mem' : List ℕ}
    → escribir_bytes a xs mem ≡ some mem'
    → mem' ≡ take a mem ++ (xs ++ drop (a + length xs) mem)
unfolding escribir_bytes
escribir_bytes-inv a xs mem {mem'} e = ground arith

-- A read of what was just written.
pub leer-escribir_self :
    (a n : ℕ) (xs mem : List ℕ) {mem' : List ℕ}
    → n ≡ length xs
    → escribir_bytes a xs mem ≡ some mem'
    → leer_bytes a n mem' ≡ some xs
leer-escribir_self a n xs mem {mem'} en e =
    let (h, l) = length-escribir_bytes a xs mem e in
    leer_bytes-some a n mem' (omega arith)
    ∙ ap some (
        ap (λ m. take n (drop a m)) (escribir_bytes-inv a xs mem e)
        ∙ ap (take n) (
            drop-append_right a 0 (take a mem) (xs ++ drop (a + length xs) mem)
              (omega (arith, length-take a mem)))
        ∙ take-append_self xs (drop (a + length xs) mem) n en)

-- A write leaves what lies before it or behind it as it was.
pub leer-escribir_disjoint :
    (a b n : ℕ) (xs mem : List ℕ) {mem' : List ℕ}
    → (b + n ≤ a) ⊎ (a + length xs ≤ b)
    → escribir_bytes a xs mem ≡ some mem'
    → leer_bytes b n mem' ≡ leer_bytes b n mem
unfolding leer_bytes
leer-escribir_disjoint a b n xs mem {mem'} (inl before) e =
    let (h, l) = length-escribir_bytes a xs mem e in
    rw (l, escribir_bytes-inv a xs mem e)
      (ap (λ r. guard (leb (b + n) (length mem)) >> some r)
        (window-append_left b n (take a mem) (xs ++ drop (a + length xs) mem)
            (omega (arith, length-take a mem))
          ∙ sym
              (window-append_left b n (take a mem) (drop a mem) (omega (arith, length-take a mem)))
          ∙ ap (λ m. take n (drop b m)) (take-append-drop a mem)))
leer-escribir_disjoint a b n xs mem {mem'} (inr behind) e =
    let (h, l) = length-escribir_bytes a xs mem e in
    let k : ℕ = b - (a + length xs) in
    rw (l, escribir_bytes-inv a xs mem e)
      (ap (λ r. guard (leb (b + n) (length mem)) >> some (take n r))
        (drop-append_right b (length xs + k) (take a mem) (xs ++ drop (a + length xs) mem)
            (omega (arith, length-take a mem))
          ∙ drop-append_right (length xs + k) k xs (drop (a + length xs) mem) refl
          ∙ drop-drop (a + length xs) k b mem (omega arith)))

-- The tail of a read is a read.
pub leer_bytes-drop :
    (a b i m n : ℕ) (mem : List ℕ) {xs : List ℕ}
    → leer_bytes a n mem ≡ some xs
    → b ≡ a + i
    → n ≡ i + m
    → leer_bytes b m mem ≡ some (drop i xs)
leer_bytes-drop a b i m n mem {xs} e eb en = elim (dec_lt (length mem) (a + n)) [
  | yes h ↦ cc (leer_bytes-none a n mem h)
  | no h ↦
      let lectura : xs ≡ take n (drop a mem) = cc (leer_bytes-some a n mem (omega arith)) in
      leer_bytes-some b m mem (omega arith)
      ∙ ap some (
          ap (take m) (sym (drop-drop a i b mem eb))
          ∙ sym (drop-take i m n (drop a mem) en)
          ∙ ap (drop i) (sym lectura))
]
