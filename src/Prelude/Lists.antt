-- ===== src/Prelude/Lists.antt =====
-- Lists: Boolean searches, filters and updates, under the names of JavaScript's array methods or
-- the library's.
use Prim.Native.Nat.{ℕ, suc, ◌+◌}
use mathlib.Core.Path.{◌≡◌, refl}
use mathlib.Core.Logic.{inl, inr, ◌↔◌}
use mathlib.Core.Bool.{Bool, true, false, not, ◌&&◌, ◌||◌}
use mathlib.Core.Option.{Option, none, some}
use mathlib.Core.List.{List, [], ◌∷◌, ◌++◌}
use native.Mathlib.Omega.{arith}
use balanz.Prelude.Tests.{Bool-cases, eqb, if◌then◌else◌}

module _ {ℓ} {A : Type ℓ} where
  abbrev pub length : List A → ℕ
  length [] = 0
  length (x ∷ xs) = suc (length xs)

  -- `xs.every(p)`
  abbrev pub all : (A → Bool) → List A → Bool
  all p [] = true
  all p (x ∷ xs) = p x && all p xs

  -- `xs.some(p)`
  abbrev pub any : (A → Bool) → List A → Bool
  any p [] = false
  any p (x ∷ xs) = p x || any p xs

  abbrev pub filter : (A → Bool) → List A → List A
  filter p [] = []
  filter p (x ∷ xs) = if p x then x ∷ filter p xs else filter p xs

  -- `xs.find(p)`, and `SELECT … WHERE p` read by its first row
  abbrev pub find : (A → Bool) → List A → Option A
  find p [] = none
  find p (x ∷ xs) = if p x then some x else find p xs

  -- `UPDATE … SET f WHERE p`
  abbrev pub update_where : (A → Bool) → (A → A) → List A → List A
  update_where p f [] = []
  update_where p f (x ∷ xs) = (if p x then f x else x) ∷ update_where p f xs

  -- `!xs.length`
  abbrev pub is_empty : List A → Bool
  is_empty [] = true
  is_empty (x ∷ xs) = false

  abbrev pub head? : List A → Option A
  head? [] = none
  head? (x ∷ xs) = some x

  -- how many elements satisfy the test
  abbrev pub count : (A → Bool) → List A → ℕ
  count p [] = 0
  count p (x ∷ xs) = (if p x then 1 else 0) + count p xs

module _ {ℓ} {A : Type ℓ} where
  -- A found element satisfies the test.
  pub find_holds : (p : A → Bool) (xs : List A) {x : A} → find p xs ≡ some x → p x ≡ true
  find_holds p [] {x} h = ground arith
  find_holds p (y ∷ xs) {x} h = ground (arith, find_holds p xs {x = x})

  -- An update whose test holds nowhere changes nothing.
  pub update_where-none :
      (p : A → Bool) (f : A → A) (xs : List A) → find p xs ≡ none → update_where p f xs ≡ xs
  update_where-none p f [] h = refl
  update_where-none p f (x ∷ xs) h = ground (arith, update_where-none p f xs)

  pub length-update_where :
      (p : A → Bool) (f : A → A) (xs : List A) → length (update_where p f xs) ≡ length xs
  length-update_where p f [] = refl
  length-update_where p f (x ∷ xs) = omega (arith, length-update_where p f xs)

  -- The row that a test finds is still found, updated, after an update by the same test.
  pub find-update_self :
      (p : A → Bool) (f : A → A) (xs : List A) {x : A}
      → find p xs ≡ some x
      → p (f x) ≡ true
      → find p (update_where p f xs) ≡ some (f x)
  find-update_self p f [] {x} h k = ground arith
  find-update_self p f (y ∷ xs) {x} h k = ground (arith, find-update_self p f xs {x = x})

  -- An update of rows that another test rejects, before and after, is invisible to that test.
  pub find-update_ne :
      (p q : A → Bool) (f : A → A) (xs : List A)
      → ((x : A) → p x ≡ true → q x ≡ false)
      → ((x : A) → p x ≡ true → q (f x) ≡ false)
      → find q (update_where p f xs) ≡ find q xs
  find-update_ne p q f [] h k = refl
  find-update_ne p q f (y ∷ xs) h k = ground (arith, h y, k y, find-update_ne p q f xs h k)

  -- A row that a stronger test finds leaves the weaker test with a row.
  pub find_weaken :
      (p q : A → Bool) (xs : List A) {x : A}
      → find (λ y. p y && q y) xs ≡ some x
      → (z : A) × (find p xs ≡ some z)
  find_weaken p q [] {x} h = absurd (ground arith)
  find_weaken p q (y ∷ xs) {x} h = elim (Bool-cases (p y)) [
    | inl here ↦ (y, rw here)
    | inr later ↦ let (z, found) = find_weaken p q xs {x = x} (rw later at h) in (z, rw later found)
  ]

module _ {ℓ} {A : Type ℓ} where
  -- What holds of the rows after an update, from what holds of the rows before.
  pub all-update_where :
      (r q p : A → Bool) (f : A → A) (xs : List A)
      → ((x : A) → r x ≡ true → p x ≡ true → q (f x) ≡ true)
      → ((x : A) → r x ≡ true → p x ≡ false → q x ≡ true)
      → all r xs ≡ true
      → all q (update_where p f xs) ≡ true
  all-update_where r q p f [] changed kept h = refl
  all-update_where r q p f (x ∷ xs) changed kept h =
      ground (arith, changed x, kept x, all-update_where r q p f xs changed kept)

  -- No element that a filter keeps satisfies the test.
  pub any-filter :
      (p q : A → Bool) (xs : List A)
      → any q (filter p xs) ≡ false
      → all (λ x. not (p x && q x)) xs ≡ true
  any-filter p q [] h = refl
  any-filter p q (x ∷ xs) h = ground (arith, any-filter p q xs)

  pub any-not : (p : A → Bool) (xs : List A) → any (λ x. not (p x)) xs ≡ false → all p xs ≡ true
  any-not p [] h = refl
  any-not p (x ∷ xs) h = ground (arith, any-not p xs)

  pub any-append : (p : A → Bool) (xs : List A) (x : A) → p x ≡ true → any p (xs ++ x ∷ []) ≡ true
  any-append p [] x h = ground arith
  any-append p (y ∷ xs) x h = ground (arith, any-append p xs x)

  -- An update that keeps the test keeps an element that satisfies it.
  pub any-update_where :
      (p q : A → Bool) (f : A → A) (xs : List A)
      → ((x : A) → p x ≡ true → p (f x) ≡ true)
      → any p xs ≡ true
      → any p (update_where q f xs) ≡ true
  any-update_where p q f [] kept h = h
  any-update_where p q f (x ∷ xs) kept h = ground (arith, kept x, any-update_where p q f xs kept)

  -- A test that fails on every element finds nothing.
  pub find-all_not :
      (p q : A → Bool) (xs : List A)
      → ((x : A) → q x ≡ true → p x ≡ false)
      → all q xs ≡ true
      → find p xs ≡ none
  find-all_not p q [] apart h = refl
  find-all_not p q (x ∷ xs) apart h = ground (arith, apart x, find-all_not p q xs apart)

  -- A row that is saved over the found one, or appended if there is none, is found.
  pub find-update_saved :
      (p q : A → Bool) (y : A) (xs : List A) {x : A}
      → find p xs ≡ some x
      → q x ≡ true
      → p y ≡ true
      → find p (update_where q (λ _. y) xs) ≡ some y
  find-update_saved p q y [] {x} h k l = ground arith
  find-update_saved p q y (z ∷ xs) {x} h k l = ground (arith, find-update_saved p q y xs {x = x})

  pub find-append_none :
      (p : A → Bool) (xs : List A) (x : A)
      → find p xs ≡ none
      → p x ≡ true
      → find p (xs ++ x ∷ []) ≡ some x
  find-append_none p [] x h k = ground arith
  find-append_none p (y ∷ xs) x h k = ground (arith, find-append_none p xs x)

-- `===` of two texts, by their code units
unfoldable pub same_codes : List ℕ → List ℕ → Bool
same_codes [] [] = true
same_codes (c ∷ cs) (d ∷ ds) = eqb c d && same_codes cs ds
same_codes _ _ = false

pub same_codes_iff : (cs ds : List ℕ) → (same_codes cs ds ≡ true) ↔ (cs ≡ ds)
unfolding same_codes
same_codes_iff [] [] = ((λ h. refl), (λ h. refl))
same_codes_iff [] (d ∷ ds) = ((λ h. cc), (λ h. cc))
same_codes_iff (c ∷ cs) [] = ((λ h. cc), (λ h. cc))
same_codes_iff (c ∷ cs) (d ∷ ds) = ground (arith, same_codes_iff cs ds)

-- A predicate of every element, by recursion.
module _ {ℓ κ} {A : Type ℓ} (P : A → Type κ) where
  abbrev pub All : List A → Type κ
  All [] = Unit
  All (x ∷ xs) = P x × All xs
