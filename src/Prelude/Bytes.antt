-- ===== src/Prelude/Bytes.antt =====
-- Byte strings: lists of numbers below 256, and `int.from_bytes` in both orders.
use home_assistant_bluetooth.Prelude.Lists.{All, length}
use Prim.Native.Nat.{ℕ, zero, suc, ◌+◌, ◌*◌, ◌/◌, ◌%◌, ◌^◌, ◌<◌}
use mathlib.Core.List.{List, [], ◌∷◌, foldl}
use mathlib.Core.Path.{◌≡◌, refl}
use native.Mathlib.Nat.{pow-suc}
use native.Mathlib.Omega.{arith}

abbrev pub Bytes : Type 0
Bytes = List ℕ

abbrev pub IsBytes : Bytes → Type 0
IsBytes = All (λ b. b < 256)

-- int.from_bytes(b, "little")
unfoldable pub from_bytes_little : Bytes → ℕ
from_bytes_little [] = 0
from_bytes_little (b ∷ bs) = b + 256 * from_bytes_little bs

-- int.from_bytes(b, "big")
unfoldable pub from_bytes_big : Bytes → ℕ
from_bytes_big = foldl (λ acc b. acc * 256 + b) 0

-- The `n` low bytes of a number, lowest first: what `struct.pack` writes for "<B", "<H", "<I", "<Q".
abbrev pub le_bytes : ℕ → ℕ → Bytes
le_bytes zero x = []
le_bytes (suc n) x = x % 256 ∷ le_bytes n (x / 256)

pub length-le_bytes : (n x : ℕ) → length (le_bytes n x) ≡ n
length-le_bytes zero x = refl
length-le_bytes (suc n) x = omega (arith, length-le_bytes n (x / 256))

pub from_bytes_little-le_bytes : (n x : ℕ) → x < 256 ^ n → from_bytes_little (le_bytes n x) ≡ x
unfolding from_bytes_little
from_bytes_little-le_bytes zero x h = omega arith
from_bytes_little-le_bytes (suc n) x h =
    omega (arith, from_bytes_little-le_bytes n (x / 256) (omega (arith, pow-suc 256 n)))

-- A string of zero bytes is the number 0.
pub from_bytes_little_zeros : (bs : Bytes) → All (λ b. b ≡ 0) bs → from_bytes_little bs ≡ 0
unfolding from_bytes_little
from_bytes_little_zeros [] h = refl
from_bytes_little_zeros (b ∷ bs) h = omega (arith, h.0, from_bytes_little_zeros bs h.1)

pub from_bytes_little-lt : (bs : Bytes) → IsBytes bs → from_bytes_little bs < 256 ^ length bs
unfolding from_bytes_little
from_bytes_little-lt [] h = omega arith
from_bytes_little-lt (b ∷ bs) h =
    omega (arith, pow-suc 256 (length bs), from_bytes_little-lt bs h.1)
