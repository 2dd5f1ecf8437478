-- ===== src/ObjectStore/Paths.antt =====
-- `object_path` of ObjectStore.antt gives distinct numbers distinct files.
use coding_agent_sandbox.Common.{
  ℕ, zero, suc, ◌+◌, ◌-◌, ◌*◌, ◌/◌, ◌%◌, ◌^◌, ◌<◌, ◌≡◌, sym, ap, arith, ltb, if◌then◌else◌, ◌∙◌,
}
use coding_agent_sandbox.FilePath.{Name, FilePath}
use coding_agent_sandbox.ObjectStore.{ObjectStore, hex_digit, hex, object_path}
use mathlib.Core.List.{foldl, foldl-append, head?}
use mathlib.Core.Option.{Option, some-injective}
use native.Mathlib.Nat.{pow-suc}

from_hex_digit : ℕ → ℕ
from_hex_digit c = if ltb c 58 then c - 48 else c - 87

digit_value : (d : ℕ) → d < 16 → from_hex_digit (hex_digit d) ≡ d
unfolding from_hex_digit hex_digit
digit_value d h = ground arith

value : Name → ℕ
value = foldl (λ v c. v * 16 + from_hex_digit c) 0

value-hex : (w n : ℕ) → n < 16 ^ w → value (hex w n) ≡ n
unfolding value hex
value-hex zero n h = omega arith
value-hex (suc w) n h = rw foldl-append (
    omega (
      arith,
      value-hex w (n / 16) (omega (arith, pow-suc 16 w)),
      digit_value (n % 16) (omega arith),
    ))

pub hex-injective : (w m n : ℕ) → m < 16 ^ w → n < 16 ^ w → hex w m ≡ hex w n → m ≡ n
hex-injective w m n h k e = sym (value-hex w m h) ∙ ap value e ∙ value-hex w n k

last_name : FilePath → Option Name
last_name p = head? p.names

-- Two object numbers below 2 ^ 64 with one path are equal.
pub object_path-injective :
    (s : ObjectStore) (m n : ℕ)
    → m < 2 ^ 64
    → n < 2 ^ 64
    → object_path s m ≡ object_path s n
    → m ≡ n
unfolding object_path last_name
object_path-injective s m n h k e = hex-injective 16 m n h k (some-injective _ _ (ap last_name e))
