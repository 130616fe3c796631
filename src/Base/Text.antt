-- ===== src/Base/Text.antt =====
-- Texts as lists of bytes, and what the program uses of Go's package strings on ASCII text.
use Prim.Native.Nat.{ℕ, suc, ◌+◌}
use Prim.Native.Char.{code}
use Prim.Native.String.{String}
use mathlib.Core.Path.{◌≡◌, refl}
use mathlib.Core.Logic.{◌↔◌}
use mathlib.Core.Bool.{Bool, true, false, ◌&&◌, ◌||◌}
use mathlib.Core.Option.{Option, none, some}
use mathlib.Core.List.{List, [], ◌∷◌, ◌++◌, map}
use native.Mathlib.Omega.{arith}
use unwedge.Base.Tests.{leb, ◌==◌, if◌then◌else◌}
use unwedge.Base.Lists.{length, drop}

abbrev pub Bytes : Type 0
Bytes = List ℕ

-- The bytes of an ASCII literal.
abbrev pub codes : String → Bytes
codes String.[] = []
codes (String.◌∷◌ c s) = code c ∷ codes s

pub length-codes_cons : (c : ℕ) (s : Bytes) → length (c ∷ s) ≡ suc (length s)
length-codes_cons c s = refl

-- Comparison of two texts by `==`.
unfoldable pub eqb : Bytes → Bytes → Bool
eqb [] [] = true
eqb [] (y ∷ ys) = false
eqb (x ∷ xs) [] = false
eqb (x ∷ xs) (y ∷ ys) = (x == y) && eqb xs ys

pub eqb_iff : (s t : Bytes) → (eqb s t ≡ true) ↔ (s ≡ t)
unfolding eqb
eqb_iff [] [] = ((λ _. refl), (λ _. refl))
eqb_iff [] (y ∷ ys) = ((λ h. cc), (λ h. cc))
eqb_iff (x ∷ xs) [] = ((λ h. cc), (λ h. cc))
eqb_iff (x ∷ xs) (y ∷ ys) = ground (arith, eqb_iff xs ys)

pub eqb_refl : (s : Bytes) → eqb s s ≡ true
eqb_refl s = (eqb_iff s s).1 refl

-- strings.HasPrefix(s, p)
unfoldable pub has_prefix : Bytes → Bytes → Bool
has_prefix s [] = true
has_prefix [] (c ∷ p) = false
has_prefix (d ∷ s) (c ∷ p) = (d == c) && has_prefix s p

pub has_prefix-append : (p s : Bytes) → has_prefix (p ++ s) p ≡ true
unfolding has_prefix
has_prefix-append [] s = refl
has_prefix-append (c ∷ p) s = ground (arith, has_prefix-append p s)

-- A text with the prefix is the prefix and the rest.
pub drop-has_prefix : (s p : Bytes) → has_prefix s p ≡ true → p ++ drop (length p) s ≡ s
unfolding has_prefix
drop-has_prefix s [] h = refl
drop-has_prefix [] (c ∷ p) h = cc
drop-has_prefix (d ∷ s) (c ∷ p) h = ground (arith, drop-has_prefix s p)

shift : Option ℕ → Option ℕ
shift none = none
shift (some i) = some (suc i)

-- strings.Index(s, sub): the first position, if there is one.
unfoldable pub find_sub : Bytes → Bytes → Option ℕ
unfolding has_prefix shift
find_sub [] sub = if has_prefix [] sub then some 0 else none
find_sub (c ∷ s) sub =
    let rest = shift (find_sub s sub) in if has_prefix (c ∷ s) sub then some 0 else rest

-- strings.Contains(s, sub)
unfoldable pub contains_sub : Bytes → Bytes → Bool
unfolding find_sub
contains_sub s sub = elim (find_sub s sub) [ none ↦ false | some i ↦ true ]

unfoldable pub elem : ℕ → Bytes → Bool
elem c [] = false
elem c (d ∷ ds) = (c == d) || elem c ds

-- strings.TrimLeft and strings.TrimRight by a predicate on bytes
unfoldable pub trim_left : (ℕ → Bool) → Bytes → Bytes
trim_left cut [] = []
trim_left cut (c ∷ s) = let rest = trim_left cut s in if cut c then rest else c ∷ s

unfoldable pub trim_right : (ℕ → Bool) → Bytes → Bytes
trim_right cut [] = []
trim_right cut (c ∷ s) = elim (trim_right cut s) [
  | [] ↦ if cut c then [] else c ∷ []
  | d ∷ r ↦ c ∷ d ∷ r
]

-- The ASCII bytes of unicode.IsSpace: tab, line feed, vertical tab, form feed, return, space.
unfoldable pub is_space : ℕ → Bool
is_space c = (leb 9 c && leb c 13) || c == 32

unfoldable pub trim_space : Bytes → Bytes
unfolding trim_left trim_right is_space
trim_space s = trim_right is_space (trim_left is_space s)

unfoldable pub lower : ℕ → ℕ
lower c = if leb b'A' c && leb c b'Z' then c + 32 else c

unfoldable pub to_lower : Bytes → Bytes
unfolding lower
to_lower = map lower
