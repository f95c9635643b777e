-- ===== src/Prelude/Palabra.antt =====
-- An `int` of 32 bits as four bytes, the lowest first, in two's complement.
use Prim.Native.Nat.{ℕ, ◌+◌, ◌-◌, ◌*◌, ◌/◌, ◌%◌, ◌^◌, ◌<◌}
use mathlib.Core.Path.{◌≡◌, refl, ap, ◌∙◌}
use mathlib.Core.List.{List, [], ◌∷◌}
use native.Mathlib.Omega.{arith}
use tp_sisop_1c_2017_david.Prelude.Tests.{ltb, if◌then◌else◌}
use tp_sisop_1c_2017_david.Prelude.Lists.{length}
use tp_sisop_1c_2017_david.Prelude.Int.{ℤ, pos, negsuc}

abbrev pub palabra : ℤ → ℕ
palabra (pos n) = n % 2 ^ 32
palabra (negsuc n) = 2 ^ 32 - 1 - n % 2 ^ 32

abbrev pub entero : ℕ → ℤ
entero w = if ltb w (2 ^ 31) then pos w else negsuc (2 ^ 32 - 1 - w)

unfoldable pub bytes_de_palabra : ℕ → List ℕ
bytes_de_palabra w = (w % 256) ∷ (w / 256 % 256) ∷ (w / 65536 % 256) ∷ (w / 16777216 % 256) ∷ []

-- The number that bytes stand for, the lowest first.
unfoldable pub palabra_de_bytes : List ℕ → ℕ
palabra_de_bytes [] = 0
palabra_de_bytes (b ∷ bs) = b + 256 * palabra_de_bytes bs

-- `int32_t` holds the value.
abbrev pub EsInt32 : ℤ → Type 0
EsInt32 (pos n) = n < 2 ^ 31
EsInt32 (negsuc n) = n < 2 ^ 31

pub length-bytes_de_palabra : (w : ℕ) → length (bytes_de_palabra w) ≡ 4
unfolding bytes_de_palabra
length-bytes_de_palabra w = refl

pub palabra_de_bytes-bytes_de_palabra :
    (w : ℕ) → w < 2 ^ 32 → palabra_de_bytes (bytes_de_palabra w) ≡ w
unfolding palabra_de_bytes bytes_de_palabra
palabra_de_bytes-bytes_de_palabra w h = omega arith

pub palabra-lt : (v : ℤ) → palabra v < 2 ^ 32
palabra-lt (pos n) = omega arith
palabra-lt (negsuc n) = omega arith

pub entero-palabra : (v : ℤ) → EsInt32 v → entero (palabra v) ≡ v
entero-palabra (pos n) h = ground arith
entero-palabra (negsuc n) h = ground arith

pub int_roundtrip :
    (v : ℤ) → EsInt32 v → entero (palabra_de_bytes (bytes_de_palabra (palabra v))) ≡ v
int_roundtrip v h =
    ap (λ w. entero w) (palabra_de_bytes-bytes_de_palabra (palabra v) (palabra-lt v))
    ∙ entero-palabra v h
