-- ===== src/Prelude/Texts.antt =====
-- Go strings that are only compared and joined are the native `String`; byte slices that the code
-- walks through are lists of numbers.
use Prim.Native.Nat.{ℕ, ◌+◌}
use Prim.Native.Char.{code}
use Prim.Native.String.{String, ◌++◌, len}
use Prim.Native.String.len as len_clauses
use mathlib.Core.Bool.{Bool}
use mathlib.Core.List.{List, [], ◌∷◌}
use mathlib.Core.Path.{◌≡◌, refl}
use native.Mathlib.Omega.{arith}
use text.Mathlib.Text.{◌==◌}
use text.Mathlib.TextLemmas.{nil-append, append-nil, append_assoc}
use text.Mathlib.TextPositions.{len-append, len_utf8-pos}

abbrev pub Bytes : Type 0
Bytes = List ℕ

-- The bytes of an ASCII text.
abbrev pub codes : String → Bytes
codes String.[] = []
codes (String.◌∷◌ c s) = code c ∷ codes s

abbrev pub is_empty : String → Bool
is_empty s = s == ""

infixl 65 ◌<>◌
abbrev pub ◌<>◌ : String → String → String
s <> t = s ++ t

-- `strings.Join(ss, "")`, and what a `strings.Builder` holds after writing the pieces in order.
abbrev pub concat : List String → String
concat [] = ""
concat (s ∷ ss) = s <> concat ss

pub empty-<> : (s : String) → "" <> s ≡ s
empty-<> = nil-append

pub <>-empty : (s : String) → s <> "" ≡ s
<>-empty = append-nil

pub <>_assoc : (s t u : String) → s <> t <> u ≡ s <> (t <> u)
<>_assoc = append_assoc

-- A text of no bytes is the empty text.
pub len-eq-zero : (s : String) → len s ≡ 0 → s ≡ ""
len-eq-zero String.[] h = refl
len-eq-zero (String.◌∷◌ c s) h =
    let (k, wide) = len_utf8-pos c in absurd (omega (arith, len_clauses.cons c s, wide))

pub len-<> : (s t : String) → len (s <> t) ≡ len s + len t
len-<> = len-append
