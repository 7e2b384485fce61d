-- ===== src/Common/Text.antt =====
-- Texts as lists of bytes.
use Prim.Native.Char.{code}
use Prim.Native.Nat.{ℕ}
use Prim.Native.String.{String}
use mathlib.Core.Path.{◌≡◌, refl}
use mathlib.Core.Bool.{Bool, true, false, ◌&&◌}
use mathlib.Core.Option.{Option, none, some}
use mathlib.Core.List.{List, [], ◌∷◌, ◌++◌}
use mathlib.Core.List
use native.Mathlib.Omega.{arith}
use core_telegram_api.Common.Tests.{if◌then◌else◌}
use core_telegram_api.Common.Equality.{◌==◌, nat_eq}

abbrev pub Bytes : Type 0
Bytes = List ℕ

-- The code points of a literal: its bytes, as every literal here is ASCII.
abbrev pub codes : String → Bytes
codes String.[] = []
codes (String.◌∷◌ letter rest) = code letter ∷ codes rest

unfoldable pub is_prefix : Bytes → Bytes → Bool
is_prefix [] s = true
is_prefix (c ∷ p) [] = false
is_prefix (c ∷ p) (d ∷ s) = c == d && is_prefix p s

-- What follows a prefix.
unfoldable pub prefix_rest : Bytes → Bytes → Option Bytes
prefix_rest [] s = some s
prefix_rest (c ∷ p) [] = none
prefix_rest (c ∷ p) (d ∷ s) = if c == d then prefix_rest p s else none

-- The text up to the first `c`, and the text from it on.
unfoldable pub split_at_byte : ℕ → Bytes → Bytes × Bytes
split_at_byte c [] = ([], [])
split_at_byte c (d ∷ s) =
    if c == d then ([], d ∷ s) else (d ∷ (split_at_byte c s).0, (split_at_byte c s).1)

abbrev pub lacks : ℕ → Bytes → Bool
lacks c [] = true
lacks c (d ∷ s) = if c == d then false else lacks c s

abbrev pub Lacks : ℕ → Bytes → Type 0
Lacks c s = lacks c s ≡ true

pub append_nil : (s : Bytes) → s ++ [] ≡ s
append_nil s = List.append-nil s

pub is_prefix-append : (p s : Bytes) → is_prefix p (p ++ s) ≡ true
unfolding is_prefix
is_prefix-append [] s = refl
is_prefix-append (c ∷ p) s = ground (arith, is_prefix-append p s)

pub prefix_rest-append : (p s : Bytes) → prefix_rest p (p ++ s) ≡ some s
unfolding prefix_rest
prefix_rest-append [] s = refl
prefix_rest-append (c ∷ p) s = ground (arith, prefix_rest-append p s)

pub split_at_byte-append :
    (c : ℕ) (s r : Bytes) → Lacks c s → split_at_byte c (s ++ (c ∷ r)) ≡ (s, c ∷ r)
unfolding split_at_byte
split_at_byte-append c [] r h = ground arith
split_at_byte-append c (d ∷ s) r h = ground (arith, split_at_byte-append c s r)
