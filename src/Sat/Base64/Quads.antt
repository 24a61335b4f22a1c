-- ===== src/Sat/Base64/Quads.antt =====
-- Prefixes of an encoded text, cut into quads.
use balanz.Prelude.{
  ◌+◌, ◌*◌, ◌/◌, ◌%◌, ℕ, ◌≡◌, refl, arith, true, List, [], ◌∷◌, ◌++◌, All, any, ap, sym, ◌∙◌,
}
use balanz.Sat.Base64.{encode, split_quads, is_pad}
use balanz.Sat.Base64.Digits.{IsByte, digit_ne_pad}

-- What a prefix `part` of the encoding of `xs` holds: its quads encode some first bytes, and its
-- tail begins the encoding of the others; after padding there are no others.
pub record Cut (xs part rest : List ℕ) : Type 0 where
  pub first : List ℕ
  pub others : List ℕ
  pub bytes : first ++ others ≡ xs
  pub whole : (split_quads part).0 ≡ encode first
  pub tail : (split_quads part).1 ++ rest ≡ encode others
  pub padded : any is_pad (encode first) ≡ true → others ≡ []

-- Three bytes add no padding.
pads-encode :
    (x y z : ℕ) (xs : List ℕ)
    → IsByte x
    → IsByte y
    → IsByte z
    → any is_pad (encode (x ∷ y ∷ z ∷ xs)) ≡ any is_pad (encode xs)
unfolding encode
pads-encode x y z xs hx hy hz =
    let a = digit_ne_pad (x / 4) (omega arith) in
    let b = digit_ne_pad (x % 4 * 16 + y / 16) (omega arith) in
    let c = digit_ne_pad (y % 16 * 4 + z / 64) (omega arith) in
    let d = digit_ne_pad (z % 64) (omega arith) in rw (a, b, c, d) refl

-- Nothing of a quad is complete yet.
short :
    (xs part rest : List ℕ)
    → split_quads part ≡ ([], part)
    → part ++ rest ≡ encode xs
    → Cut xs part rest
unfolding encode
short xs part rest h e = record {
  first = [];
  others = xs;
  bytes = refl;
  whole = ap (λ p. p.0) h;
  tail = rw h e;
  padded = λ p. absurd (cc);
}

pub cut : (xs part rest : List ℕ) → All IsByte xs → part ++ rest ≡ encode xs → Cut xs part rest
unfolding split_quads encode
cut xs [] rest h e = short xs [] rest refl e
cut xs (p ∷ []) rest h e = short xs (p ∷ []) rest refl e
cut xs (p ∷ q ∷ []) rest h e = short xs (p ∷ q ∷ []) rest refl e
cut xs (p ∷ q ∷ r ∷ []) rest h e = short xs (p ∷ q ∷ r ∷ []) rest refl e
cut [] (p ∷ q ∷ r ∷ s ∷ part) rest h e = absurd (cc)
cut (x ∷ []) (p ∷ q ∷ r ∷ s ∷ []) rest h e = record {
  first = x ∷ [];
  others = [];
  bytes = refl;
  whole = ground arith;
  tail = ground arith;
  padded = λ p. refl;
}
cut (x ∷ []) (p ∷ q ∷ r ∷ s ∷ t ∷ part) rest h e = absurd (ground arith)
cut (x ∷ y ∷ []) (p ∷ q ∷ r ∷ s ∷ []) rest h e = record {
  first = x ∷ y ∷ [];
  others = [];
  bytes = refl;
  whole = ground arith;
  tail = ground arith;
  padded = λ p. refl;
}
cut (x ∷ y ∷ []) (p ∷ q ∷ r ∷ s ∷ t ∷ part) rest h e = absurd (ground arith)
cut (x ∷ y ∷ z ∷ xs) (p ∷ q ∷ r ∷ s ∷ part) rest h e =
    let c = cut xs part rest (ground arith) (ground arith) in
    record {
      first = x ∷ y ∷ z ∷ c.first;
      others = c.others;
      bytes = ap (λ l. x ∷ y ∷ z ∷ l) c.bytes;
      whole = ground (arith, c.whole);
      tail = c.tail;
      padded = λ p. c.padded (sym (pads-encode x y z c.first h.0 h.1.0 h.1.1.0) ∙ p);
    }
