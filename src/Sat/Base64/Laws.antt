-- ===== src/Sat/Base64/Laws.antt =====
-- What the strict decoder accepts.
use balanz.Prelude.{
  append_assoc, append-nil, ℕ, ◌+◌, ◌*◌, ◌/◌, ◌%◌, ◌≤◌, ◌<◌, ◌≡◌, refl, sym, ap, subst, ◌∙◌, arith,
  Bool, true, false, not, ◌||◌, ◌&&◌, List, [], ◌∷◌, ◌++◌, All, any, filter, is_empty, length,
  same_codes_iff, inl, inr, ◌⊎◌, Bool-cases,
}
use balanz.Sat.Contract.{done, compressed_limit}
use balanz.Sat.Base64.{
  Decoder, new_decoder, write, write_all, finish, decode_texts, encode, decode, is_quads,
  split_quads, is_pad, is_space, is_foreign,
}
use balanz.Sat.Base64.Digits.{IsByte, decode-encode, is_quads-encode, is_digit-digit}
use balanz.Sat.Base64.Quads.{Cut, cut}

-- the characters of a text that are not white space
abbrev pub clean : List ℕ → List ℕ
clean = filter (λ c. not (is_space c))

-- the texts as one, without white space
unfoldable pub joined : List (List ℕ) → List ℕ
joined [] = []
joined (text ∷ texts) = clean text ++ joined texts

pub any-append : (p : ℕ → Bool) (xs ys : List ℕ) → any p (xs ++ ys) ≡ (any p xs || any p ys)
any-append p [] ys = refl
any-append p (x ∷ xs) ys = ground (arith, any-append p xs ys)

pub length-append : (xs ys : List ℕ) → length (xs ++ ys) ≡ length xs + length ys
length-append [] ys = ground arith
length-append (x ∷ xs) ys = omega (arith, length-append xs ys)

All-append : (xs ys : List ℕ) → All IsByte (xs ++ ys) → All IsByte xs × All IsByte ys
All-append [] ys h = (tt, h)
All-append (x ∷ xs) ys h = let (first, others) = All-append xs ys h.1 in ((h.0, first), others)

pub is_empty-eq : (xs : List ℕ) → is_empty xs ≡ true → xs ≡ []
is_empty-eq [] h = refl
is_empty-eq (x ∷ xs) h = cc

pub append_empty : (xs ys : List ℕ) → xs ++ ys ≡ [] → is_empty xs ≡ true
append_empty [] ys h = refl
append_empty (x ∷ xs) ys h = cc

-- An encoding holds digits and pads only.
encode-foreign : (xs : List ℕ) → All IsByte xs → any is_foreign (encode xs) ≡ false
unfolding encode
encode-foreign [] h = refl
encode-foreign (x ∷ []) h = ground (arith, is_digit-digit (x / 4), is_digit-digit (x % 4 * 16))
encode-foreign (x ∷ y ∷ []) h = ground (
  arith,
  is_digit-digit (x / 4),
  is_digit-digit (x % 4 * 16 + y / 16),
  is_digit-digit (y % 16 * 4),
)
encode-foreign (x ∷ y ∷ z ∷ rest) h =
    let a = is_digit-digit (x / 4) (omega arith) in
    let b = is_digit-digit (x % 4 * 16 + y / 16) (omega arith) in
    let c = is_digit-digit (y % 16 * 4 + z / 64) (omega arith) in
    let d = is_digit-digit (z % 64) (omega arith) in rw (a, b, c, d) (encode-foreign rest h.1.1.1)

-- A call that passes every check.
write_whole :
    (s : Decoder) (text complete tail decoded : List ℕ)
    → split_quads (s.tail ++ clean text) ≡ (complete, tail)
    → decode complete ≡ decoded
    → any is_foreign (clean text) ≡ false
    → s.ended ≡ false
    → is_quads complete ≡ true
    → encode decoded ≡ complete
    → (any is_pad complete && not (is_empty tail)) ≡ false
    → s.bytes + length decoded ≤ compressed_limit
    → write s text
      ≡ done (
        decoded,
        record { tail = tail; ended = any is_pad complete; bytes = s.bytes + length decoded },
      )
unfolding write decode
write_whole s text [] tail decoded cuts decodes clean_text running quads encodes padding small =
    rw (cuts, clean_text, running) (ground arith)
write_whole s text (c ∷ cs) tail decoded cuts decodes clean_text running quads encodes padding
      small =
    rw
      (
        cuts,
        decodes,
        clean_text,
        running,
        quads,
        encodes,
        padding,
        (same_codes_iff (c ∷ cs) (c ∷ cs)).1 refl,
      )
      (ground arith)

-- One call in the middle of the encoding of `xs`: the decoder's tail and the text begin it, what
-- follows is `rest`. It returns the first bytes and keeps the rest of a quad.
write_step :
    (s : Decoder) (text rest xs : List ℕ)
    → All IsByte xs
    → (s.tail ++ clean text) ++ rest ≡ encode xs
    → s.ended ≡ false
    → s.bytes + length xs ≤ compressed_limit
    → (c : Cut xs (s.tail ++ clean text) rest) × (write s text
        ≡ done (
          c.first,
          record {
            tail = (split_quads (s.tail ++ clean text)).1;
            ended = any is_pad (encode c.first);
            bytes = s.bytes + length c.first;
          },
        ))
unfolding write
write_step s text rest xs h e running small =
    let part = s.tail ++ clean text in
    let c = cut xs part rest h e in
    let bytes = subst (λ l. All IsByte l) (sym c.bytes) h in
    let first = (All-append c.first c.others bytes).0 in
    let decoded = ap decode c.whole ∙ decode-encode c.first first in
    let whole = ap is_quads c.whole ∙ is_quads-encode c.first first in
    let whole_foreign = subst (λ l. any is_foreign l ≡ false) (sym e) (encode-foreign xs h) in
    let foreign_part = any-append is_foreign part rest in
    let foreign = any-append is_foreign s.tail (clean text) in
    let lengths = length-append c.first c.others in
    let total = ap length c.bytes in
    let tail_empty = append_empty (split_quads part).1 rest in
    let padding : (any is_pad (encode c.first) && not (is_empty (split_quads part).1)) ≡ false =
      elim (Bool-cases (any is_pad (encode c.first))) [
        | inl pads ↦
            let ends : (split_quads part).1 ++ rest ≡ [] = c.tail ∙ ap encode (c.padded pads) in
            ground (arith, tail_empty ends)
        | inr open_end ↦ ground arith
      ] in
    (
      c,
      write_whole s text (encode c.first) (split_quads part).1 c.first
          (ap (λ w. (w, (split_quads part).1)) c.whole) (decode-encode c.first first) (ground arith)
          running (is_quads-encode c.first first) refl padding (omega (arith, lengths, total)),
    )

-- A text of less than four characters, as the decoder keeps it.
abbrev IsTail : List ℕ → Type 0
IsTail t = split_quads t ≡ ([], t)

split_quads-IsTail : (cs : List ℕ) → IsTail (split_quads cs).1
unfolding split_quads
split_quads-IsTail [] = refl
split_quads-IsTail (a ∷ []) = refl
split_quads-IsTail (a ∷ b ∷ []) = refl
split_quads-IsTail (a ∷ b ∷ c ∷ []) = refl
split_quads-IsTail (a ∷ b ∷ c ∷ d ∷ rest) = split_quads-IsTail rest

IsTail-encode : (t xs : List ℕ) → IsTail t → t ≡ encode xs → (xs ≡ []) × (t ≡ [])
unfolding split_quads encode
IsTail-encode t [] h e = (refl, e)
IsTail-encode t (x ∷ []) h e = absurd (ground arith)
IsTail-encode t (x ∷ y ∷ []) h e = absurd (ground arith)
IsTail-encode t (x ∷ y ∷ z ∷ xs) h e = absurd (ground arith)

pub append_nil : (xs ys : List ℕ) → xs ++ ys ≡ [] → (xs ≡ []) × (ys ≡ [])
append_nil [] ys h = (refl, h)
append_nil (x ∷ xs) ys h = cc

-- After the end there is nothing to decode, and white space is skipped.
write_after :
    (s : Decoder) (text : List ℕ) → s.tail ++ clean text ≡ [] → write s text ≡ done ([], s)
unfolding write split_quads
write_after s text e =
    let (tail, nothing) = append_nil s.tail (clean text) e in
    rw (tail, nothing) (ground (arith, tail))

-- Writing texts that continue the encoding of `xs` returns `xs`.
write_all-encode :
    (texts : List (List ℕ)) (s : Decoder) (xs : List ℕ)
    → All IsByte xs
    → IsTail s.tail
    → s.tail ++ joined texts ≡ encode xs
    → (s.ended ≡ false) ⊎ (xs ≡ [])
    → s.bytes + length xs ≤ compressed_limit
    → (s' : Decoder) × (write_all s texts ≡ done (xs, s'))
      × (s'.tail ≡ [])
      × (s'.bytes ≡ s.bytes + length xs)
unfolding write_all joined encode
write_all-encode [] s xs h t e running small =
    let (none_left, tail) = IsTail-encode s.tail xs t (sym (append-nil s.tail) ∙ e) in
    (s, rw none_left refl, tail, ground arith)
write_all-encode (text ∷ texts) s xs h t e (inr over) small =
    let (tail, others) = append_nil s.tail (clean text ++ joined texts) (e ∙ ap encode over) in
    let (here, later) = append_nil (clean text) (joined texts) others in
    let step = write_after s text (rw (tail, here) refl) in
    let (s', all_written, end, count) =
      write_all-encode texts s xs h t (rw (tail, later) (sym (ap encode over))) (inr over) small in
    (s', ground (arith, step, all_written), end, count)
write_all-encode (text ∷ texts) s xs h t e (inl running) small =
    let part = s.tail ++ clean text in
    let whole = append_assoc s.tail (clean text) (joined texts) ∙ e in
    let (c, step) = write_step s text (joined texts) xs h whole running small in
    let next : Decoder = record {
      tail = (split_quads part).1;
      ended = any is_pad (encode c.first);
      bytes = s.bytes + length c.first;
    } in
    let bytes = All-append c.first c.others (subst (λ l. All IsByte l) (sym c.bytes) h) in
    let lengths = length-append c.first c.others in
    let total = ap length c.bytes in
    let state : (next.ended ≡ false) ⊎ (c.others ≡ []) =
      elim (Bool-cases (any is_pad (encode c.first))) [
        | inl pads ↦ inr (c.padded pads)
        | inr open_end ↦ inl open_end
      ] in
    let (s', all_written, end, count) =
      write_all-encode texts next c.others bytes.1 (split_quads-IsTail part) c.tail state
        (omega (arith, lengths, total)) in
    (s', rw (step, all_written, c.bytes) refl, end, omega (arith, lengths, total, count))

-- However an encoding is cut into texts, and wherever white space stands in it, the decoder
-- returns the encoded bytes, if there are any and they are within the limit of a package.
pub decode_texts-encode :
    (texts : List (List ℕ)) (xs : List ℕ)
    → All IsByte xs
    → joined texts ≡ encode xs
    → 0 < length xs
    → length xs ≤ compressed_limit
    → decode_texts texts ≡ done xs
unfolding decode_texts finish split_quads
decode_texts-encode texts xs h e some_bytes small =
    let (s', written, tail, count) =
      write_all-encode texts new_decoder xs h refl e (inl refl) (omega arith) in
    rw (written, tail) (ground (arith, count))
