-- ===== src/Prelude/Texts.antt =====
-- Texts: code points, membership in a list of texts, and texts that may be absent.
use Prim.Native.Nat.{ℕ, ◌+◌}
use Prim.Native.Char.{code}
use Prim.Native.String.{String}
use mathlib.Core.Path.{◌≡◌, refl}
use mathlib.Core.Bool.{Bool, true, false, not, ◌&&◌, ◌||◌}
use mathlib.Core.Logic.{inl, inr}
use mathlib.Core.Option.{Option, none, some}
use mathlib.Core.List.{List, [], ◌∷◌, ◌++◌}
use native.Mathlib.Omega.{arith}
use text.Mathlib.Text.{◌==◌}
use text.Mathlib.TextEquality.{eq_iff}
use text.Mathlib.TextPositions.{eq_refl}
use balanz.Prelude.Lists.{all, filter}
use balanz.Prelude.Tests.{Bool-cases, and-split, ltb, if◌then◌else◌}

-- The code points of a text.
abbrev pub codes : String → List ℕ
codes String.[] = []
codes (String.◌∷◌ c s) = code c ∷ codes s

-- `length` of a JavaScript text: a code point above the basic plane counts twice.
abbrev pub utf16_length : List ℕ → ℕ
utf16_length [] = 0
utf16_length (c ∷ cs) = (if ltb c 65536 then 1 else 2) + utf16_length cs

-- `xs.includes(s)`
abbrev pub includes : List String → String → Bool
includes [] s = false
includes (x ∷ xs) s = x == s || includes xs s

-- A string in a Boolean position: neither null nor empty.
abbrev pub truthy : Option String → Bool
truthy none = false
truthy (some s) = not (s == "")

-- `o === s` for a nullable `o`
abbrev pub is_some_of : Option String → String → Bool
is_some_of none s = false
is_some_of (some t) s = t == s

pub is_some_of-eq : (o : Option String) (s : String) → is_some_of o s ≡ true → o ≡ some s
is_some_of-eq none s h = absurd (ground arith)
is_some_of-eq (some t) s h = ground (arith, eq_iff t s)

-- What holds of every text of a list holds of a text that it includes.
pub all-includes :
    (p : String → Bool) (xs : List String) (s : String)
    → all p xs ≡ true
    → includes xs s ≡ true
    → p s ≡ true
all-includes p [] s h k = ground arith
all-includes p (x ∷ xs) s h k =
    ground (arith, and-split (p x) (all p xs) h, eq_iff x s, all-includes p xs s)

-- A key is in a filtered list when it is in the list and passes the test.
pub includes-filter :
    (p : String → Bool) (xs : List String) (s : String)
    → includes (filter p xs) s ≡ (includes xs s && p s)
includes-filter p [] s = refl
includes-filter p (x ∷ xs) s = elim (Bool-cases (p x)) [
  | inl keep ↦ rw keep (ground (arith, eq_iff x s, includes-filter p xs s))
  | inr drop ↦ rw drop (ground (arith, eq_iff x s, includes-filter p xs s))
]

pub includes-append :
    (xs ys : List String) (s : String) → includes (xs ++ ys) s ≡ (includes xs s || includes ys s)
includes-append [] ys s = refl
includes-append (x ∷ xs) ys s = ground (arith, includes-append xs ys s)

-- A test that holds of each included text holds of the whole list.
pub all_of_includes :
    (p : String → Bool) (xs : List String)
    → ((s : String) → includes xs s ≡ true → p s ≡ true)
    → all p xs ≡ true
all_of_includes p [] h = refl
all_of_includes p (x ∷ xs) h =
    ground (arith, h x, eq_refl x, all_of_includes p xs (λ s k. h s (later s k)))
  where
    later : (s : String) → includes xs s ≡ true → includes (x ∷ xs) s ≡ true
    later s k = ground arith
