-- ===== src/Base/Text.antt =====
-- Texts compared as a whole, and the character of a byte.
use Prim.Native.Nat.{ℕ, zero, suc, ◌+◌, ◌%◌, ◌≤◌, compare, Ordering}
use Prim.Native.Nat.compare as compare_clauses
use Prim.Native.Char.{Char, char, IsScalar}
use Prim.Native.String.{String, [], ◌∷◌}
use native.Mathlib.Omega.{arith}
use mathlib.Core.Path.{◌≡◌, ◌∙◌}
use mathlib.Core.Bool.{Bool, true}
use mathlib.Core.Logic.{◌↔◌}
use text.Mathlib.Text.{◌==◌}
use text.Mathlib.TextEquality.{eq_iff}

abbrev pub equal_text : String → String → Bool
equal_text s t = s == t

pub equal_text_iff : (s t : String) → (equal_text s t ≡ true) ↔ (s ≡ t)
equal_text_iff s t = eq_iff s t

lt-compare : (m n : ℕ) → m + 1 ≤ n → compare m n ≡ Ordering.lt
lt-compare zero zero h = absurd (omega arith)
lt-compare zero (suc n) h = λ i. compare_clauses.zero-suc n i
lt-compare (suc m) zero h = absurd (omega arith)
lt-compare (suc m) (suc n) h = (λ i. compare_clauses.suc-suc m n i) ∙ lt-compare m n (omega arith)

pub byte-IsScalar : (b : ℕ) → IsScalar (b % 256)
byte-IsScalar b = rw (lt-compare (b % 256) 55296 (omega arith)) tt

-- `byte as char`
unfoldable pub byte_char : ℕ → Char
byte_char b = char (b % 256) (byte-IsScalar b)

abbrev pub no_text : String
no_text = []

-- a byte in front of a text
abbrev pub in_front : ℕ → String → String
in_front b s = byte_char b ∷ s
