-- ===== src/Prelude/Texts.antt =====
-- Texts: equality and the string methods that the source uses.
use abrio.Prelude.Tests.{Text, ◌==◌, if◌then◌else◌, ==→eq, ==-refl}
use abrio.Prelude.Lists.{length, drop}
use Prim.Native.Nat.{ℕ}
use mathlib.Core.Path.{◌≡◌, refl}
use mathlib.Core.Bool.{Bool, true, false, ◌&&◌}
use mathlib.Core.List.{[], ◌∷◌, ◌++◌}
use native.Mathlib.Omega.{arith}

-- `==`
abbrev pub same : Text → Text → Bool
same [] [] = true
same (a ∷ s) (b ∷ t) = a == b && same s t
same _ _ = false

-- `t.startswith(s)`
abbrev pub is_prefix : Text → Text → Bool
is_prefix [] t = true
is_prefix (a ∷ s) [] = false
is_prefix (a ∷ s) (b ∷ t) = a == b && is_prefix s t

-- `text.rstrip(c)` for one character.
abbrev strip_onto : ℕ → ℕ → Text → Text
strip_onto c a [] = if a == c then [] else a ∷ []
strip_onto c a (b ∷ s) = a ∷ b ∷ s

abbrev pub rstrip : ℕ → Text → Text
rstrip c [] = []
rstrip c (a ∷ s) = strip_onto c a (rstrip c s)

-- `text.lstrip(c)` for one character.
abbrev pub lstrip : ℕ → Text → Text
lstrip c [] = []
lstrip c (a ∷ s) = if a == c then lstrip c s else a ∷ s

-- Two texts that go on differently: neither begins the other.
abbrev pub clash : Text → Text → Bool
clash [] t = true
clash s [] = true
clash (a ∷ s) (b ∷ t) = a == b && clash s t

pub same_refl : (s : Text) → same s s ≡ true
same_refl [] = refl
same_refl (a ∷ s) = ground (arith, same_refl s)

pub same→eq : (s t : Text) → same s t ≡ true → s ≡ t
same→eq [] [] h = refl
same→eq [] (b ∷ t) h = cc
same→eq (a ∷ s) [] h = cc
same→eq (a ∷ s) (b ∷ t) h = ground (arith, same→eq s t, ==→eq a b)

-- Equal texts with beginnings of their own: one beginning begins the other.
pub append-clash : (s t x y : Text) → s ++ x ≡ t ++ y → clash s t ≡ true
append-clash [] t x y h = refl
append-clash (a ∷ s) [] x y h = refl
append-clash (a ∷ s) (b ∷ t) x y h = ground (arith, append-clash s t x y)

pub is_prefix-append : (s t : Text) → is_prefix s (s ++ t) ≡ true
is_prefix-append [] t = refl
is_prefix-append (c ∷ s) t = ground (arith, ==-refl c, is_prefix-append s t)

pub drop-append : (s t : Text) → drop (length s) (s ++ t) ≡ t
drop-append [] t = refl
drop-append (c ∷ s) t = drop-append s t
