-- ===== src/Header/Sack.antt =====
-- SACK ranges on the wire, as `encode_sack` writes them and `decode_sack` reads them.
use peeroxide.Common.{
  ℕ, ◌+◌, ◌*◌, ◌%◌, ◌^◌, ◌≤◌, ◌<◌, ◌≡◌, refl, ap, ◌∙◌, sym, Option, none, some, List, [], ◌∷◌, ◌++◌,
  append_assoc, arith, length, length-append, length-drop, drop, write_at, ◌≢◌, ◌↔◌, inl, inr,
  Bool-cases, true, ==_iff, All, ◌==◌,
}
use peeroxide.Encoding.Words.{to_le_bytes}
use peeroxide.Header.{
  SackRange, parsed, rejected, HeaderError, invalid_sack, ◌>=>◌, encode_ranges, encode_sack,
  decode_chunks, decode_sack, put_u32, encode_ranges,
}
use peeroxide.Header.Laws.{write_at-front, by_cells, u32-read}

-- The values the two fields can hold.
abbrev pub IsRange : SackRange → Type 0
IsRange r = (r.start < 2 ^ 32) × (r.end < 2 ^ 32)

abbrev pub ranges_bytes : List SackRange → List ℕ
ranges_bytes [] = []
ranges_bytes (r ∷ rs) = to_le_bytes 4 r.start ++ (to_le_bytes 4 r.end ++ ranges_bytes rs)

length-ranges_bytes : (rs : List SackRange) → length (ranges_bytes rs) ≡ length rs * 8
length-ranges_bytes [] = omega arith
length-ranges_bytes (r ∷ rs) = omega (arith, length-ranges_bytes rs)

abbrev After : ℕ → SackRange → List ℕ → List ℕ → Type 0
After i r ws xs =
    (put_u32 (i * 8) r.start >=> put_u32 (i * 8 + 4) r.end) (ws ++ xs)
    ≡ some ((ws ++ (to_le_bytes 4 r.start ++ to_le_bytes 4 r.end)) ++ drop 8 xs)

abbrev then_write : ℕ → List ℕ → Option (List ℕ) → Option (List ℕ)
then_write i v o = elim o [ none ↦ none | some b ↦ write_at i v b ]

one_range :
    (i : ℕ) (r : SackRange) (ws xs : List ℕ) → length ws ≡ i * 8 → 8 ≤ length xs → After i r ws xs
one_range i r ws xs hw =
    by_cells 8 (After i r ws)
      (λ c0 c1 c2 c3 c4 c5 c6 c7 rest.
        let u : List ℕ = to_le_bytes 4 r.start in
        let v : List ℕ = to_le_bytes 4 r.end in
        let tail : List ℕ = c4 ∷ c5 ∷ c6 ∷ c7 ∷ rest in
        ap (then_write (i * 8 + 4) v)
          (write_at-front ws u (c0 ∷ c1 ∷ c2 ∷ c3 ∷ tail) (i * 8) (sym hw) (omega arith))
        ∙ (write_at-front (ws ++ u) v tail (i * 8 + 4) (omega (arith, length-append ws u))
              (omega arith)
            ∙ ap (λ zs. some (zs ++ rest)) (append_assoc ws u v)))
      xs

encode_ranges-front :
    (i : ℕ) (rs : List SackRange) (ws xs : List ℕ)
    → length ws ≡ i * 8
    → length rs * 8 ≡ length xs
    → encode_ranges i rs (ws ++ xs) ≡ some (ws ++ ranges_bytes rs)
unfolding encode_ranges
encode_ranges-front i [] ws [] hw hx = refl
encode_ranges-front i [] ws (x ∷ xs) hw hx = absurd (omega arith)
encode_ranges-front i (r ∷ rs) ws xs hw hx =
    let uv : List ℕ = to_le_bytes 4 r.start ++ to_le_bytes 4 r.end in
    ap (λ o. elim o [ none ↦ none | some b ↦ encode_ranges (i + 1) rs b ])
      (one_range i r ws xs hw (omega arith))
    ∙ (encode_ranges-front (i + 1) rs (ws ++ uv) (drop 8 xs) (omega (arith, length-append ws uv))
          (omega (arith, length-drop 8 xs))
        ∙ ap some (append_assoc ws uv (ranges_bytes rs)))

decode_chunks-ranges_bytes :
    (rs : List SackRange) → All IsRange rs → decode_chunks (ranges_bytes rs) ≡ rs
unfolding decode_chunks
decode_chunks-ranges_bytes [] h = refl
decode_chunks-ranges_bytes (r ∷ rs) ((hs, he), h) =
    rw (u32-read r.start hs, u32-read r.end he, decode_chunks-ranges_bytes rs h) refl

-- SACK ranges whose ends are below 2^32, encoded into a buffer of eight bytes for each, write as
-- many bytes as the buffer has, and decode_sack reads the same ranges from it.
pub decode_sack-encode_sack :
    (ranges : List SackRange) (buf : List ℕ)
    → All IsRange ranges
    → length buf ≡ length ranges * 8
    → (out : List ℕ) × (encode_sack ranges buf ≡ some (out, length buf))
      × (decode_sack out ≡ parsed ranges)
unfolding encode_sack decode_sack
decode_sack-encode_sack ranges buf v l =
    let aligned : length (ranges_bytes ranges) % 8 ≡ 0 =
      omega (arith, length-ranges_bytes ranges) in
    (
      ranges_bytes ranges,
      rw (encode_ranges-front 0 ranges [] buf refl (sym l), encode_sack)
          (ap (λ n. some (ranges_bytes ranges, n)) (sym l)),
      rw (aligned, decode_chunks-ranges_bytes ranges v, decode_sack) refl,
    )

parsed-ne-rejected : {A : Type 0} (a : A) (e : HeaderError) → parsed a ≢ rejected e
parsed-ne-rejected a e h = cc

-- decode_sack returns the error with the length exactly if the length is not a multiple of
-- eight.
pub decode_sack-refuses :
    (buf : List ℕ) → (decode_sack buf ≡ rejected (invalid_sack (length buf))) ↔ (length buf % 8 ≢ 0)
unfolding decode_sack
decode_sack-refuses buf =
    let reads : (length buf % 8 == 0) ≡ true → decode_sack buf ≡ parsed (decode_chunks buf) =
      λ e. rw e refl in
    elim (Bool-cases (length buf % 8 == 0)) [
      | inl e ↦ (
        λ h. absurd (parsed-ne-rejected (decode_chunks buf) _ (sym (reads e) ∙ h)),
        λ n. absurd (n ((==_iff _ _).0 e)),
      )
      | inr e ↦ (λ h z. ground arith, λ n. rw e refl)
    ]
