-- ===== src/Session/Format/Header.antt =====
-- session/format.py: which bytes are headers, and of which version.
use tuner_os.Prelude.{
  ℕ, ◌≡◌, refl, sym, ap, ap₂, ◌∙◌, Bool, true, false, [], ◌∷◌, ◌++◌, arith, ◌⊎◌, inl, inr, ◌↔◌,
  length, take, drop, length-take, length-drop, take-All, drop-All, not, eqb, ◌==◌,
  take-append-drop, drop-add, list_beq_iff, list_eq, nat_eq, ok, raise_if-passed, ok_injective,
  ok-ne-err, Bool-cases, subst,
}
use tuner_os.Prelude.Values.{Bytes}
use tuner_os.Prelude.Struct.{to_be, of_be, to_be-of_be, IsBytes}
use tuner_os.Session.Format.{
  encode_session_header, decode_session_header, session_file_magic, is_supported, version_field,
}

-- The supported versions are 1 and 2.
pub is_supported_lem : (v : ℕ) → is_supported v ≡ true → (v ≡ 1) ⊎ (v ≡ 2)
is_supported_lem v h = ground arith

pub decode-encode_header :
    (v : ℕ)
    → is_supported v ≡ true
    → (b : Bytes) × (encode_session_header v ≡ ok b)
      × (decode_session_header b ≡ ok v)
      × (length b ≡ 8)
unfolding encode_session_header decode_session_header to_be of_be
decode-encode_header v h = elim (is_supported_lem v h) [
  | inl e ↦
      subst
        (λ k.
          (b : Bytes) × (encode_session_header k ≡ ok b)
          × (decode_session_header b ≡ ok k)
          × (length b ≡ 8))
        (sym e) (_, refl, refl, refl)
  | inr e ↦
      subst
        (λ k.
          (b : Bytes) × (encode_session_header k ≡ ok b)
          × (decode_session_header b ≡ ok k)
          × (length b ≡ 8))
        (sym e) (_, refl, refl, refl)
]

-- What a header that is accepted looks like.
header_parts :
    (d : Bytes) (v : ℕ)
    → decode_session_header d ≡ ok v
    → (length d ≡ 8)
      × (take 4 d ≡ session_file_magic)
      × (is_supported v ≡ true)
      × (drop 5 d ≡ 0 ∷ 0 ∷ 0 ∷ [])
      × (version_field d ≡ v)
unfolding decode_session_header
header_parts d v h =
    let (sized, h1) = raise_if-passed (not (eqb (length d) 8)) _ _ h in
    let (magic, h2) = raise_if-passed (not (take 4 d == session_file_magic)) _ _ h1 in
    let (version, h3) = raise_if-passed (not (is_supported (version_field d))) _ _ h2 in
    let (reserved, h4) = raise_if-passed (not (drop 5 d == 0 ∷ 0 ∷ 0 ∷ [])) _ _ h3 in
    let same = ok_injective h4 in
    (
      ground arith,
      (list_beq_iff (take 4 d) session_file_magic).0 (not_false _ magic),
      subst (λ k. is_supported k ≡ true) same (not_false _ version),
      (list_beq_iff (drop 5 d) (0 ∷ 0 ∷ 0 ∷ [])).0 (not_false _ reserved),
      same,
    )
  where
    not_false : (b : Bool) → not b ≡ false → b ≡ true
    not_false b h = ground arith

encode-supported :
    (v : ℕ)
    → is_supported v ≡ true
    → encode_session_header v ≡ ok (session_file_magic ++ (to_be 1 v ++ 0 ∷ 0 ∷ 0 ∷ []))
unfolding encode_session_header
encode-supported v h = rw h

encode-refused : (d : Bytes) (v : ℕ) → is_supported v ≡ false → encode_session_header v ≡ ok d → ⊥
unfolding encode_session_header
encode-refused d v n h = ok-ne-err (sym (rw n at h))

-- What is written for a version is eight bytes that are read as that version.
pub encoded :
    (d : Bytes) (v : ℕ)
    → encode_session_header v ≡ ok d
    → (decode_session_header d ≡ ok v) × (length d ≡ 8)
encoded d v h = elim (Bool-cases (is_supported v)) [
  | inl known ↦
      let (c, e, k, l) = decode-encode_header v known in
      subst (λ x. (decode_session_header x ≡ ok v) × (length x ≡ 8)) (ok_injective (sym e ∙ h))
        (k, l)
  | inr n ↦ absurd (encode-refused d v n h)
]

-- Bytes are read as the header of a version exactly if they are what that version is written as.
pub header_exact :
    (d : Bytes) (v : ℕ)
    → IsBytes d
    → (decode_session_header d ≡ ok v) ↔ (encode_session_header v ≡ ok d)
header_exact d v b = (
  λ h.
      let (sized, magic, version, reserved, same) = header_parts d v h in
      let one : length (take 1 (drop 4 d)) ≡ 1 =
        omega (arith, length-take 1 (drop 4 d), length-drop 4 d) in
      let field : to_be 1 v ≡ take 1 (drop 4 d) =
        ap (to_be 1) (sym same)
        ∙ ap (λ n. to_be n (version_field d)) (sym one)
        ∙ to_be-of_be (take 1 (drop 4 d)) (take-All _ 1 _ (drop-All _ 4 d b)) in
      encode-supported v version
      ∙ ap ok (
          ap₂ ◌++◌ (sym magic)
            (ap₂ ◌++◌ field (sym reserved ∙ drop-add 4 1 d) ∙ take-append-drop 1 (drop 4 d))
          ∙ take-append-drop 4 d),
  λ h. (encoded d v h).0,
)
