-- ===== src/Prelude/Lists.antt =====
-- Lists measured and indexed by native numbers, under the library's names: C arrays.
use Prim.Native.Nat.{ℕ, zero, suc, ◌+◌, ◌-◌, ◌≤◌, ◌<◌, min}
use mathlib.Core.Path.{◌≡◌, refl, ap, ◌∙◌}
use mathlib.Core.Logic.{◌≢◌}
use mathlib.Core.List.{List, [], ◌∷◌, ◌++◌}
use mathlib.Core.Option.{Option, none, some}
use native.Mathlib.Omega.{arith}

module _ {ℓ} {A : Type ℓ} where
  abbrev pub length : List A → ℕ
  length [] = 0
  length (x ∷ xs) = suc (length xs)

  abbrev pub get_elem? : List A → ℕ → Option A
  get_elem? [] i = none
  get_elem? (x ∷ xs) zero = some x
  get_elem? (x ∷ xs) (suc i) = get_elem? xs i

  abbrev pub get_or : List A → ℕ → A → A
  get_or [] i d = d
  get_or (x ∷ xs) zero d = x
  get_or (x ∷ xs) (suc i) d = get_or xs i d

  -- A write out of bounds changes nothing.
  abbrev pub set : List A → ℕ → A → List A
  set [] i v = []
  set (x ∷ xs) zero v = v ∷ xs
  set (x ∷ xs) (suc i) v = x ∷ set xs i v

  abbrev pub take : ℕ → List A → List A
  take zero xs = []
  take (suc n) [] = []
  take (suc n) (x ∷ xs) = x ∷ take n xs

  abbrev pub drop : ℕ → List A → List A
  drop zero xs = xs
  drop (suc n) [] = []
  drop (suc n) (x ∷ xs) = drop n xs

  abbrev pub replicate : ℕ → A → List A
  replicate zero a = []
  replicate (suc n) a = a ∷ replicate n a

  pub length-append : (xs ys : List A) → length (xs ++ ys) ≡ length xs + length ys
  length-append [] ys = omega arith
  length-append (x ∷ xs) ys = omega (arith, length-append xs ys)

  pub length-set : (xs : List A) (i : ℕ) (v : A) → length (set xs i v) ≡ length xs
  length-set [] i v = refl
  length-set (x ∷ xs) zero v = refl
  length-set (x ∷ xs) (suc i) v = ap suc (length-set xs i v)

  pub length-replicate : (n : ℕ) (a : A) → length (replicate n a) ≡ n
  length-replicate zero a = refl
  length-replicate (suc n) a = ap suc (length-replicate n a)

  pub length-take : (n : ℕ) (xs : List A) → length (take n xs) ≡ min n (length xs)
  length-take zero xs = omega arith
  length-take (suc n) [] = omega arith
  length-take (suc n) (x ∷ xs) = omega (arith, length-take n xs)

  pub length-drop : (n : ℕ) (xs : List A) → length (drop n xs) ≡ length xs - n
  length-drop zero xs = omega arith
  length-drop (suc n) [] = omega arith
  length-drop (suc n) (x ∷ xs) = omega (arith, length-drop n xs)

  pub take-append-drop : (n : ℕ) (xs : List A) → take n xs ++ drop n xs ≡ xs
  take-append-drop zero xs = refl
  take-append-drop (suc n) [] = refl
  take-append-drop (suc n) (x ∷ xs) = ap (λ l. x ∷ l) (take-append-drop n xs)

  pub get_or-set_self :
      (xs : List A) (i : ℕ) (v d : A) → i < length xs → get_or (set xs i v) i d ≡ v
  get_or-set_self [] i v d h = absurd (omega arith)
  get_or-set_self (x ∷ xs) zero v d h = refl
  get_or-set_self (x ∷ xs) (suc i) v d h = get_or-set_self xs i v d (omega arith)

  pub get_or-set_ne :
      (xs : List A) (i j : ℕ) (v d : A) → i ≢ j → get_or (set xs i v) j d ≡ get_or xs j d
  get_or-set_ne [] i j v d h = refl
  get_or-set_ne (x ∷ xs) zero zero v d h = absurd (h refl)
  get_or-set_ne (x ∷ xs) zero (suc j) v d h = refl
  get_or-set_ne (x ∷ xs) (suc i) zero v d h = refl
  get_or-set_ne (x ∷ xs) (suc i) (suc j) v d h = get_or-set_ne xs i j v d (λ e. h (ap suc e))

  pub get_or-drop :
      (n i j : ℕ) (xs : List A) (d : A) → j ≡ n + i → get_or (drop n xs) i d ≡ get_or xs j d
  get_or-drop zero i j xs d e = ap (λ k. get_or xs k d) (omega arith)
  get_or-drop (suc n) i j [] d e = refl
  get_or-drop (suc n) i zero (x ∷ xs) d e = absurd (omega arith)
  get_or-drop (suc n) i (suc j) (x ∷ xs) d e = get_or-drop n i j xs d (omega arith)

  pub get_or-replicate : (n i : ℕ) (a d : A) → i < n → get_or (replicate n a) i d ≡ a
  get_or-replicate zero i a d h = absurd (omega arith)
  get_or-replicate (suc n) zero a d h = refl
  get_or-replicate (suc n) (suc i) a d h = get_or-replicate n i a d (omega arith)

  pub get_or-append_right :
      (xs ys : List A) (i : ℕ) (d : A)
      → length xs ≤ i
      → get_or (xs ++ ys) i d ≡ get_or ys (i - length xs) d
  get_or-append_right [] ys i d h = ap (λ k. get_or ys k d) (omega arith)
  get_or-append_right (x ∷ xs) ys zero d h = absurd (omega arith)
  get_or-append_right (x ∷ xs) ys (suc i) d h =
      get_or-append_right xs ys i d (omega arith) ∙ ap (λ k. get_or ys k d) (omega arith)

  pub get_or-append_left :
      (xs ys : List A) (i : ℕ) (d : A) → i < length xs → get_or (xs ++ ys) i d ≡ get_or xs i d
  get_or-append_left [] ys i d h = absurd (omega arith)
  get_or-append_left (x ∷ xs) ys zero d h = refl
  get_or-append_left (x ∷ xs) ys (suc i) d h = get_or-append_left xs ys i d (omega arith)

  -- The window of `n` bytes from `b` on, and what it does not depend on.
  pub take-append_left : (n : ℕ) (xs ys : List A) → n ≤ length xs → take n (xs ++ ys) ≡ take n xs
  take-append_left zero xs ys h = refl
  take-append_left (suc n) [] ys h = absurd (omega arith)
  take-append_left (suc n) (x ∷ xs) ys h = ap (λ l. x ∷ l) (take-append_left n xs ys (omega arith))

  pub window-append_left :
      (b n : ℕ) (xs ys : List A)
      → b + n ≤ length xs
      → take n (drop b (xs ++ ys)) ≡ take n (drop b xs)
  window-append_left zero n xs ys h = take-append_left n xs ys (omega arith)
  window-append_left (suc b) zero [] ys h = refl
  window-append_left (suc b) (suc n) [] ys h = absurd (omega arith)
  window-append_left (suc b) n (x ∷ xs) ys h = window-append_left b n xs ys (omega arith)

  pub drop-append_right :
      (b k : ℕ) (xs ys : List A) → b ≡ length xs + k → drop b (xs ++ ys) ≡ drop k ys
  drop-append_right b k [] ys e = ap (λ j. drop j ys) (omega arith)
  drop-append_right zero k (x ∷ xs) ys e = absurd (omega arith)
  drop-append_right (suc b) k (x ∷ xs) ys e = drop-append_right b k xs ys (omega arith)

  pub drop-drop : (a b k : ℕ) (xs : List A) → k ≡ a + b → drop b (drop a xs) ≡ drop k xs
  drop-drop zero b k xs e = ap (λ j. drop j xs) (omega arith)
  drop-drop (suc a) zero zero [] e = refl
  drop-drop (suc a) (suc b) zero [] e = refl
  drop-drop (suc a) zero (suc k) [] e = refl
  drop-drop (suc a) (suc b) (suc k) [] e = refl
  drop-drop (suc a) b zero (x ∷ xs) e = absurd (omega arith)
  drop-drop (suc a) b (suc k) (x ∷ xs) e = drop-drop a b k xs (omega arith)

  pub take-append_self : (xs ys : List A) (n : ℕ) → n ≡ length xs → take n (xs ++ ys) ≡ xs
  take-append_self [] ys zero e = refl
  take-append_self [] ys (suc n) e = absurd (omega arith)
  take-append_self (x ∷ xs) ys zero e = absurd (omega arith)
  take-append_self (x ∷ xs) ys (suc n) e = ap (λ l. x ∷ l) (take-append_self xs ys n (omega arith))

  pub drop-take : (i m n : ℕ) (xs : List A) → n ≡ i + m → drop i (take n xs) ≡ take m (drop i xs)
  drop-take zero m n xs e = ap (λ k. take k xs) (omega arith)
  drop-take (suc i) m zero xs e = absurd (omega arith)
  drop-take (suc i) zero (suc n) [] e = refl
  drop-take (suc i) (suc m) (suc n) [] e = refl
  drop-take (suc i) m (suc n) (x ∷ xs) e = drop-take i m n xs (omega arith)

-- Every element has the property.
abbrev pub All {ℓ κ} : {A : Type ℓ} → (A → Type κ) → List A → Type κ
All P [] = Unit
All P (x ∷ xs) = P x × All P xs

module _ {ℓ κ} {A : Type ℓ} (P : A → Type κ) where
  pub All-get_or : (d : A) (xs : List A) (i : ℕ) → All P xs → i < length xs → P (get_or xs i d)
  All-get_or d [] i a h = absurd (omega arith)
  All-get_or d (x ∷ xs) zero a h = a.0
  All-get_or d (x ∷ xs) (suc i) a h = All-get_or d xs i a.1 (omega arith)

  pub All-set : (xs : List A) (i : ℕ) (v : A) → All P xs → P v → All P (set xs i v)
  All-set [] i v a p = a
  All-set (x ∷ xs) zero v a p = (p, a.1)
  All-set (x ∷ xs) (suc i) v a p = (a.0, All-set xs i v a.1 p)
