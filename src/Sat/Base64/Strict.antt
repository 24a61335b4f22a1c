-- ===== src/Sat/Base64/Strict.antt =====
-- The strict decoder accepts canonical texts only.
use balanz.Prelude.{
  append_assoc, append-nil, ℕ, ◌+◌, ◌≤◌, ◌<◌, ◌≡◌, refl, sym, ap, ◌∙◌, arith, true, List, [], ◌∷◌,
  ◌++◌, any, is_empty, length, inl, inr, Bool-cases,
}
use balanz.Sat.Contract.{Sat-cases, done, compressed_limit}
use balanz.Sat.Base64.{Decoder, new_decoder, write, write_all, finish, decode_texts, encode, is_pad}
use balanz.Sat.Base64.Laws.{clean, joined, length-append, is_empty-eq, append_nil}
use balanz.Sat.Base64.Written.{Wrote, write-Wrote, encode-append}

-- A decoder that has seen the padding keeps no tail.
abbrev Rests : Decoder → Type 0
Rests s = s.ended ≡ true → s.tail ≡ []

ended_stays :
    (s s' : Decoder) (text out : List ℕ)
    → Wrote s text out s'
    → Rests s
    → s.ended ≡ true
    → (s'.ended ≡ true) × (out ≡ [])
ended_stays s s' text out w rests ended = elim w.open_end [
  | inl (nothing, same) ↦ (same ∙ ended, nothing)
  | inr (pads, some_text) ↦
      let no_text : s.tail ++ clean text ≡ [] = rw (rests ended, w.after_end ended) refl in
      let (no_quads, no_tail) = append_nil (encode out) s'.tail (sym w.text_eq ∙ no_text) in
      absurd (ground (arith, no_quads, some_text))
]

step-Rests : (s s' : Decoder) (text out : List ℕ) → Wrote s text out s' → Rests s → Rests s'
step-Rests s s' text out w rests ended' = elim (Bool-cases s.ended) [
  | inr before ↦ w.end_tail ended' before
  | inl ended ↦
      let (still, nothing) = ended_stays s s' text out w rests ended in
      let no_text : s.tail ++ clean text ≡ [] = rw (rests ended, w.after_end ended) refl in
      (append_nil (encode out) s'.tail (sym w.text_eq ∙ no_text)).1
]

encode_empty : (xs : List ℕ) → encode xs ≡ [] → xs ≡ []
unfolding encode
encode_empty [] h = refl
encode_empty (x ∷ []) h = cc
encode_empty (x ∷ y ∷ []) h = cc
encode_empty (x ∷ y ∷ z ∷ xs) h = cc

no_pads : (xs : List ℕ) → xs ≡ [] → any is_pad (encode xs) ≡ true → ⊥
unfolding encode
no_pads [] h p = cc
no_pads (x ∷ xs) h p = cc

-- The encodings of two successive results are the encoding of both, since nothing follows padding.
encode_parts :
    (s s1 s2 : Decoder) (text o os more : List ℕ)
    → Wrote s text o s1
    → Rests s1
    → s1.tail ++ more ≡ encode os ++ s2.tail
    → (s1.ended ≡ true → more ≡ [])
    → encode (o ++ os) ≡ encode o ++ encode os
unfolding encode
encode_parts s s1 s2 text o os more w rests text_eq after_end =
    elim (Bool-cases (any is_pad (encode o))) [
      | inr unpadded ↦ encode-append o os unpadded
      | inl pads ↦
          let ended : s1.ended ≡ true = elim w.open_end [
            | inl (nothing, same) ↦ absurd (no_pads o nothing pads)
            | inr (same, some_text) ↦ sym same ∙ pads
          ] in
          let no_text : s1.tail ++ more ≡ [] = rw (rests ended, after_end ended) refl in
          let no_bytes =
            encode_empty os (append_nil (encode os) s2.tail (sym text_eq ∙ no_text)).0 in
          rw (no_bytes, encode, append-nil o, append-nil (encode o)) refl
    ]

-- What successful calls say of all their texts.
write_all-joined :
    (texts : List (List ℕ)) (s s' : Decoder) (out : List ℕ)
    → Rests s
    → write_all s texts ≡ done (out, s')
    → (s.tail ++ joined texts ≡ encode out ++ s'.tail)
      × (s'.bytes ≡ s.bytes + length out)
      × (s.bytes ≤ compressed_limit → s'.bytes ≤ compressed_limit)
      × (s.ended ≡ true → joined texts ≡ [])
unfolding write_all joined encode
write_all-joined [] s s' out rests h = ground (arith, append-nil s.tail)
write_all-joined (text ∷ texts) s s' out rests h = elim (Sat-cases (write s text)) [
  | inl (code, failed) ↦ absurd (ground arith)
  | inr ((o, s1), one) ↦ elim (Sat-cases (write_all s1 texts)) [
    | inl (code, failed) ↦ absurd (ground arith)
    | inr ((os, s2), others) ↦
        let w = write-Wrote s s1 text o one in
        let rests1 = step-Rests s s1 text o w rests in
        let (text_eq, count, limit, after_end) = write_all-joined texts s1 s2 os rests1 others in
        let bytes : out ≡ o ++ os = ground (arith, one, others) in
        let last : s' ≡ s2 = ground (arith, one, others) in
        let parts = encode_parts s s1 s2 text o os (joined texts) w rests1 text_eq after_end in
        let all_text =
          sym (append_assoc s.tail (clean text) (joined texts))
          ∙ ap (λ l. l ++ joined texts) w.text_eq
          ∙ append_assoc (encode o) s1.tail (joined texts)
          ∙ ap (λ l. encode o ++ l) text_eq
          ∙ sym (append_assoc (encode o) (encode os) s2.tail)
          ∙ ap (λ l. l ++ s2.tail) (sym parts) in
        (
          rw (bytes, last) all_text,
          rw (bytes, last) (omega (arith, w.count, count, length-append o os)),
          λ small. rw last (limit (w.limit small)),
          λ ended. rw (w.after_end ended) (after_end (ended_stays s s1 text o w rests ended).0),
        )
  ]
]

-- The decoder is strict: a text that it accepts, without its white space, is the encoding of the
-- bytes that it returns, so it has no other accepted spelling; there are some, and they are within
-- the limit.
pub decode_texts_strict :
    (texts : List (List ℕ)) (xs : List ℕ)
    → decode_texts texts ≡ done xs
    → (joined texts ≡ encode xs) × (0 < length xs) × (length xs ≤ compressed_limit)
unfolding decode_texts finish
decode_texts_strict texts xs h = elim (Sat-cases (write_all new_decoder texts)) [
  | inl (code, failed) ↦ absurd (ground arith)
  | inr ((out, s), written) ↦
      let (text_eq, count, limit, after_end) =
        write_all-joined texts new_decoder s out (λ ended. refl) written in
      let same : (out ≡ xs) × (is_empty s.tail ≡ true) × (0 < s.bytes) = ground (arith, written) in
      let (bytes, tail, some_bytes) = same in
      let whole : joined texts ≡ encode xs =
        text_eq
        ∙ ap (λ l. encode out ++ l) (is_empty-eq s.tail tail)
        ∙ append-nil (encode out)
        ∙ ap encode bytes in
      let total = ap length bytes in
      let small = limit (omega arith) in
      (whole, omega (arith, count, total, some_bytes), omega (arith, count, total, small))
]
