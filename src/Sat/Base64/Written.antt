-- ===== src/Sat/Base64/Written.antt =====
-- What one successful call of the strict decoder says of its text.
use balanz.Prelude.{
  ℕ, ◌+◌, ◌*◌, ◌/◌, ◌%◌, ◌≤◌, ◌≡◌, refl, sym, ap, subst, ◌∙◌, arith, Bool, true, false, not, ◌&&◌,
  ◌||◌, List, [], ◌∷◌, ◌++◌, any, is_empty, length, ltb, same_codes, same_codes_iff, inl, inr, ◌⊎◌,
  if◌then◌else◌,
}
use balanz.Sat.Contract.{done, sat_error, compressed_limit}
use balanz.Sat.Base64.{
  Decoder, write, encode, decode, is_quads, split_quads, is_pad, is_foreign, digit,
}
use balanz.Sat.Base64.Laws.{clean, is_empty-eq}

split_quads-append : (cs : List ℕ) → (split_quads cs).0 ++ (split_quads cs).1 ≡ cs
unfolding split_quads
split_quads-append [] = refl
split_quads-append (a ∷ []) = refl
split_quads-append (a ∷ b ∷ []) = refl
split_quads-append (a ∷ b ∷ c ∷ []) = refl
split_quads-append (a ∷ b ∷ c ∷ d ∷ rest) = ap (λ l. a ∷ b ∷ c ∷ d ∷ l) (split_quads-append rest)

any-drop_quad :
    (a b c d : ℕ) (cs : List ℕ) → any is_pad (a ∷ b ∷ c ∷ d ∷ cs) ≡ false → any is_pad cs ≡ false
any-drop_quad a b c d cs h = ground arith

-- Without padding the encoding goes on where it stopped.
pub encode-append :
    (xs ys : List ℕ) → any is_pad (encode xs) ≡ false → encode (xs ++ ys) ≡ encode xs ++ encode ys
unfolding encode
encode-append [] ys h = refl
encode-append (x ∷ []) ys h = absurd (ground arith)
encode-append (x ∷ y ∷ []) ys h = absurd (ground arith)
encode-append (x ∷ y ∷ z ∷ xs) ys h =
    ap
      (λ l.
        digit (x / 4)
        ∷ digit (x % 4 * 16 + y / 16)
        ∷ digit (y % 16 * 4 + z / 64)
        ∷ digit (z % 64)
        ∷ l)
      (encode-append xs ys (
        any-drop_quad (digit (x / 4)) (digit (x % 4 * 16 + y / 16)) (digit (y % 16 * 4 + z / 64))
          (digit (z % 64)) (encode xs) h))

-- What a successful call says: its text is the encoding of the bytes, between the tails.
pub record Wrote (s : Decoder) (text out : List ℕ) (s' : Decoder) : Type 0 where
  pub text_eq : s.tail ++ clean text ≡ encode out ++ s'.tail
  pub after_end : s.ended ≡ true → clean text ≡ []
  pub open_end :
      (out ≡ []) × (s'.ended ≡ s.ended)
      ⊎ (any is_pad (encode out) ≡ s'.ended) × (is_empty (encode out) ≡ false)
  pub end_tail : s'.ended ≡ true → s.ended ≡ false → s'.tail ≡ []
  pub count : s'.bytes ≡ s.bytes + length out
  pub limit : s.bytes ≤ compressed_limit → s'.bytes ≤ compressed_limit

or_false : (a b : Bool) → (a || b) ≡ false → b ≡ false
or_false a b h = ground arith

not_both : (a b : Bool) → (a && not b) ≡ false → a ≡ true → b ≡ true
not_both a b h k = ground arith

-- The checks of `write`, each by its outcome.
passed_checks :
    (refused short odd loose unended large : Bool) (kept written r : List ℕ × Decoder)
    → (if refused
        then sat_error "SAT_BASE64_INVALID"
        else if short
        then done kept
        else if not odd
        then sat_error "SAT_BASE64_INVALID"
        else if not loose
        then sat_error "SAT_BASE64_INVALID"
        else if unended
        then sat_error "SAT_BASE64_INVALID"
        else if large
        then sat_error "SAT_PACKAGE_LIMIT"
        else done written)
      ≡ done r
    → (refused ≡ false)
      × ((short ≡ true) × (kept ≡ r)
          ⊎ (short ≡ false) × (loose ≡ true) × (unended ≡ false) × (large ≡ false) × (written ≡ r))
passed_checks true short odd loose unended large kept written r h = cc
passed_checks false true odd loose unended large kept written r h = (refl, inl (refl, cc))
passed_checks false false false loose unended large kept written r h = cc
passed_checks false false true false unended large kept written r h = cc
passed_checks false false true true true large kept written r h = cc
passed_checks false false true true false true kept written r h = cc
passed_checks false false true true false false kept written r h =
    (refl, inr (refl, refl, refl, refl, cc))

not_large : (a b : ℕ) → ltb a b ≡ false → b ≤ a
not_large a b h = ground arith

-- The checks of a successful call.
write-done :
    (s s' : Decoder) (text out complete tail : List ℕ)
    → split_quads (s.tail ++ clean text) ≡ (complete, tail)
    → write s text ≡ done (out, s')
    → ((s.ended && not (is_empty (clean text))) ≡ false)
      × ((is_empty complete ≡ true) × (out ≡ []) × (s' ≡ record s { tail = tail })
          ⊎ (is_empty complete ≡ false)
            × (same_codes (encode out) complete ≡ true)
            × ((any is_pad complete && not (is_empty tail)) ≡ false)
            × (ltb compressed_limit (s.bytes + length out) ≡ false)
            × (s' ≡ record {
              tail = tail;
              ended = any is_pad complete;
              bytes = s.bytes + length out;
            }))
unfolding write
write-done s s' text out complete tail cuts h =
    let h' = rw cuts at h in
    let (checked, result) =
      passed_checks (any is_foreign (clean text) || s.ended && not (is_empty (clean text)))
        (is_empty complete) (is_quads complete) (same_codes (encode (decode complete)) complete)
        (any is_pad complete && not (is_empty tail))
        (ltb compressed_limit (s.bytes + length (decode complete))) ([], record s { tail = tail })
        (
          decode complete,
          record {
            tail = tail;
            ended = any is_pad complete;
            bytes = s.bytes + length (decode complete);
          },
        )
        (out, s') h' in
    (
      or_false _ _ checked,
      elim result [
        | inl (short, e) ↦ inl (short, sym (ap (λ p. p.0) e), sym (ap (λ p. p.1) e))
        | inr (whole, same, padding, small, e) ↦
            let bytes = ap (λ p. p.0) e in
            inr (
              whole,
              subst (λ l. same_codes (encode l) complete ≡ true) bytes same,
              padding,
              subst (λ l. ltb compressed_limit (s.bytes + length l) ≡ false) bytes small,
              subst
                  (λ l. s' ≡ record {
                    tail = tail;
                    ended = any is_pad complete;
                    bytes = s.bytes + length l;
                  })
                  bytes (sym (ap (λ p. p.1) e)),
            )
      ],
    )

pub write-Wrote :
    (s s' : Decoder) (text out : List ℕ) → write s text ≡ done (out, s') → Wrote s text out s'
unfolding write
write-Wrote s s' text out h =
    let complete = (split_quads (s.tail ++ clean text)).0 in
    let tail = (split_quads (s.tail ++ clean text)).1 in
    let join = split_quads-append (s.tail ++ clean text) in
    let (running, result) = write-done s s' text out complete tail refl h in
    elim result [
      | inl (short, nothing, after) ↦ record {
        text_eq =
            sym join
            ∙ ap (λ l. l ++ tail) (is_empty-eq complete short)
            ∙ rw (nothing, after, encode) refl;
        after_end = λ ended. is_empty-eq (clean text) (not_both _ _ running ended);
        open_end = inl (nothing, ap (λ d. d.ended) after);
        end_tail = λ now before. absurd (cc);
        count = rw (after, nothing) (omega arith);
        limit = λ small. rw after small;
      }
      | inr (whole, same, padding, small, after) ↦
          let quads = (same_codes_iff (encode out) complete).0 same in
          record {
            text_eq = sym join ∙ ap (λ l. l ++ tail) (sym quads) ∙ rw after refl;
            after_end = λ ended. is_empty-eq (clean text) (not_both _ _ running ended);
            open_end =
                inr (
                  ap (any is_pad) quads ∙ sym (ap (λ d. d.ended) after),
                  ap is_empty quads ∙ whole,
                );
            end_tail = λ now before.
                ap (λ d. d.tail) after
                ∙ is_empty-eq tail (not_both _ _ padding (sym (ap (λ d. d.ended) after) ∙ now));
            count = rw after refl;
            limit = λ _. rw after (omega (arith, not_large _ _ small));
          }
    ]
