-- ===== src/Header/Laws.antt =====
-- The header on the wire: its twenty bytes, and the ways the parser ends.
use peeroxide.Common.{
  ℕ, zero, suc, ◌+◌, ◌*◌, ◌/◌, ◌%◌, ◌==◌, not, ◌^◌, ◌≤◌, ◌<◌, ◌≡◌, ◌≢◌, refl, ap, ap₂, ◌∙◌, sym,
  some, List, [], ◌∷◌, ◌++◌, append_assoc, arith, length, Bool, true, false, drop, take, write_at,
  overwrite, write_at-append, All, inl, inr, Bool-cases, ltb, ==_iff, ◌↔◌, ltb→lt, lt→ltb,
  get_elem?,
}
use peeroxide.Encoding.Words.{to_le_bytes, from_le_bytes}
use peeroxide.Header.{
  Header, too_short, bad_magic, bad_version, parsed, rejected, crashed, magic, version, header_size,
  encode_into, decode, decode_fields, reject_if,
}

-- The values the field types can hold.
pub record IsHeader (h : Header) : Type 0 where
  pub remote_id : h.remote_id < 2 ^ 32
  pub recv_window : h.recv_window < 2 ^ 32
  pub seq : h.seq < 2 ^ 32
  pub ack : h.ack < 2 ^ 32

abbrev pub header_bytes : Header → List ℕ
header_bytes h =
    magic ∷ version ∷ h.type_flags ∷ h.data_offset ∷ to_le_bytes 4 h.remote_id
    ++ (to_le_bytes 4 h.recv_window ++ (to_le_bytes 4 h.seq ++ to_le_bytes 4 h.ack))

overwrite-eq :
    (vs xs : List ℕ) → length vs ≤ length xs → overwrite vs xs ≡ some (vs ++ drop (length vs) xs)
overwrite-eq [] xs h = refl
overwrite-eq (v ∷ vs) [] h = absurd (omega arith)
overwrite-eq (v ∷ vs) (x ∷ xs) h = rw (overwrite-eq vs xs (omega arith)) refl

-- A write right behind a front that is already written.
pub write_at-front :
    (ws vs xs : List ℕ) (i : ℕ)
    → i ≡ length ws
    → length vs ≤ length xs
    → write_at i vs (ws ++ xs) ≡ some ((ws ++ vs) ++ drop (length vs) xs)
write_at-front ws vs xs i e h =
    ap (λ j. write_at j vs (ws ++ xs)) (omega arith)
    ∙ write_at-append ws xs (vs ++ drop (length vs) xs) vs 0 (overwrite-eq vs xs h)
    ∙ ap some (sym (append_assoc ws vs (drop (length vs) xs)))

pub encode_into-eq :
    (h : Header) (b0 b1 b2 b3 b4 b5 b6 b7 b8 b9 b10 b11 b12 b13 b14 b15 b16 b17 b18 b19 : ℕ)
    (rest : List ℕ)
    → encode_into h (
        b0 ∷ b1 ∷ b2 ∷ b3 ∷ b4 ∷ b5 ∷ b6 ∷ b7 ∷ b8 ∷ b9 ∷ b10 ∷ b11 ∷ b12 ∷ b13 ∷ b14 ∷ b15 ∷ b16
        ∷ b17 ∷ b18 ∷ b19 ∷ rest)
      ≡ some (header_bytes h ++ rest)
unfolding encode_into
encode_into-eq h b0 b1 b2 b3 b4 b5 b6 b7 b8 b9 b10 b11 b12 b13 b14 b15 b16 b17 b18 b19 rest = refl

-- A fact about each list of `n` cells and a rest, given for the cells one by one.
abbrev pub Cells : ℕ → (List ℕ → Type 0) → Type 0
Cells zero P = (rest : List ℕ) → P rest
Cells (suc n) P = (b : ℕ) → Cells n (λ bs. P (b ∷ bs))

pub by_cells : (n : ℕ) (P : List ℕ → Type 0) → Cells n P → (xs : List ℕ) → n ≤ length xs → P xs
by_cells zero P f xs h = f xs
by_cells (suc n) P f [] h = absurd (omega arith)
by_cells (suc n) P f (x ∷ xs) h = by_cells n (λ bs. P (x ∷ bs)) (f x) xs (omega arith)

pub encode_into-front :
    (h : Header) (buf : List ℕ)
    → header_size ≤ length buf
    → encode_into h buf ≡ some (header_bytes h ++ drop header_size buf)
encode_into-front h =
    by_cells header_size (λ buf. encode_into h buf ≡ some (header_bytes h ++ drop header_size buf))
      (encode_into-eq h)

pub u32-read : (v : ℕ) → v < 2 ^ 32 → from_le_bytes (to_le_bytes 4 v) ≡ v
u32-read v h = omega arith

long_enough : (buf : List ℕ) → header_size ≤ length buf → ltb (length buf) header_size ≡ false
long_enough buf h = ground arith

pub decode-front :
    (h : Header) (rest : List ℕ) → IsHeader h → decode (header_bytes h ++ rest) ≡ parsed h
unfolding decode decode_fields
decode-front h rest v =
    rw
      (
        long_enough (header_bytes h ++ rest) (omega arith),
        u32-read h.remote_id v.remote_id,
        u32-read h.recv_window v.recv_window,
        u32-read h.seq v.seq,
        u32-read h.ack v.ack,
      )
      refl

pub decode-too_short :
    (buf : List ℕ) → length buf < header_size → decode buf ≡ rejected (too_short (length buf))
unfolding decode
decode-too_short buf h = rw (lt→ltb _ _ h) refl

abbrev pub IsBytes : List ℕ → Type 0
IsBytes bs = All (λ b. b < 256) bs

pub to_le_bytes-from_le_bytes :
    (bs : List ℕ) → IsBytes bs → to_le_bytes (length bs) (from_le_bytes bs) ≡ bs
to_le_bytes-from_le_bytes [] h = refl
to_le_bytes-from_le_bytes (b ∷ bs) (hb, h) =
    let m = from_le_bytes bs in
    let low : (b + 256 * m) % 256 ≡ b = omega (arith, hb) in
    let high : (b + 256 * m) / 256 ≡ m = omega (arith, hb) in
    rw (low, high) (ap (λ cs. b ∷ cs) (to_le_bytes-from_le_bytes bs h))

IsBytes-slice : (i n : ℕ) (bs : List ℕ) → IsBytes bs → IsBytes (take n (drop i bs))
IsBytes-slice zero zero bs h = tt
IsBytes-slice zero (suc n) [] h = tt
IsBytes-slice zero (suc n) (b ∷ bs) (hb, h) = (hb, IsBytes-slice zero n bs h)
IsBytes-slice (suc i) zero [] h = tt
IsBytes-slice (suc i) (suc n) [] h = tt
IsBytes-slice (suc i) n (b ∷ bs) (hb, h) = IsBytes-slice i n bs h

-- What `decode` returns on twenty bytes and a rest.
abbrev fields : ℕ → ℕ → List ℕ → List ℕ → List ℕ → List ℕ → Header
fields b2 b3 u v w x = record {
  type_flags = b2;
  data_offset = b3;
  remote_id = from_le_bytes u;
  recv_window = from_le_bytes v;
  seq = from_le_bytes w;
  ack = from_le_bytes x;
}

two_words :
    (u v : List ℕ)
    → IsBytes u
    → IsBytes v
    → to_le_bytes (length u) (from_le_bytes u) ++ to_le_bytes (length v) (from_le_bytes v) ≡ u ++ v
two_words u v hu hv =
    ap₂ (λ a b. a ++ b) (to_le_bytes-from_le_bytes u hu) (to_le_bytes-from_le_bytes v hv)

-- What `decode` makes of a buffer that holds the twenty bytes.
record Reading (buf : List ℕ) : Type 0 where
  b0 : ℕ
  b1 : ℕ
  header : Header
  at0 : get_elem? buf 0 ≡ some b0
  at1 : get_elem? buf 1 ≡ some b1
  result :
      decode buf
      ≡ reject_if
          (not (b0 == magic))
          (bad_magic b0)
          (reject_if (not (b1 == version)) (bad_version b1) (parsed header))
  again : IsBytes buf → b0 ≡ magic → b1 ≡ version → encode_into header buf ≡ some buf

reading : (buf : List ℕ) → header_size ≤ length buf → Reading buf
unfolding decode decode_fields
reading =
    by_cells header_size Reading
      (λ b0 b1 b2 b3 b4 b5 b6 b7 b8 b9 b10 b11 b12 b13 b14 b15 b16 b17 b18 b19 rest.
        let u : List ℕ = b4 ∷ b5 ∷ b6 ∷ b7 ∷ [] in
        let v : List ℕ = b8 ∷ b9 ∷ b10 ∷ b11 ∷ [] in
        let w : List ℕ = b12 ∷ b13 ∷ b14 ∷ b15 ∷ [] in
        let x : List ℕ = b16 ∷ b17 ∷ b18 ∷ b19 ∷ [] in
        record {
          b0 = b0;
          b1 = b1;
          header = fields b2 b3 u v w x;
          at0 = refl;
          at1 = refl;
          result =
              rw (long_enough (b0 ∷ b1 ∷ b2 ∷ b3 ∷ u ++ (v ++ (w ++ (x ++ rest)))) (omega arith))
                refl;
          again = λ hb e0 e1.
              let all : List ℕ = b0 ∷ b1 ∷ b2 ∷ b3 ∷ u ++ (v ++ (w ++ (x ++ rest))) in
              let hu : IsBytes u = IsBytes-slice 4 4 all hb in
              let hv : IsBytes v = IsBytes-slice 8 4 all hb in
              let hw : IsBytes w = IsBytes-slice 12 4 all hb in
              let hx : IsBytes x = IsBytes-slice 16 4 all hb in
              encode_into-eq (fields b2 b3 u v w x) b0 b1 b2 b3 b4 b5 b6 b7 b8 b9 b10 b11 b12 b13
                b14 b15 b16 b17 b18 b19 rest
              ∙ rw (e0, e1)
                  (ap₂ (λ l r. some (magic ∷ version ∷ b2 ∷ b3 ∷ l ++ (r ++ rest)))
                    (two_words u v hu hv) (two_words w x hw hx));
        })

-- The four ways a call of `decode` ends.
pub data Ending (buf : List ℕ) : Type 0 where
  short : length buf < header_size → decode buf ≡ rejected (too_short (length buf)) → Ending buf
  no_magic :
      (b0 : ℕ)
      → header_size ≤ length buf
      → get_elem? buf 0 ≡ some b0
      → b0 ≢ magic
      → decode buf ≡ rejected (bad_magic b0)
      → Ending buf
  no_version :
      (b1 : ℕ)
      → header_size ≤ length buf
      → get_elem? buf 0 ≡ some magic
      → get_elem? buf 1 ≡ some b1
      → b1 ≢ version
      → decode buf ≡ rejected (bad_version b1)
      → Ending buf
  read :
      (h : Header)
      → header_size ≤ length buf
      → get_elem? buf 0 ≡ some magic
      → get_elem? buf 1 ≡ some version
      → decode buf ≡ parsed h
      → (IsBytes buf → encode_into h buf ≡ some buf)
      → Ending buf

Ending-Reading :
    (buf : List ℕ)
    → header_size ≤ length buf
    → (r : Reading buf) → (b0 b1 : Bool) → (r.b0 == magic) ≡ b0
    → (r.b1 == version) ≡ b1
    → Ending buf
Ending-Reading buf l r false b1 e0 e1 =
    no_magic r.b0 l r.at0 (λ e. ground arith) (r.result ∙ rw e0 refl)
Ending-Reading buf l r true false e0 e1 =
    no_version r.b1 l (r.at0 ∙ ap some ((==_iff _ _).0 e0)) r.at1 (λ e. ground arith)
      (r.result ∙ rw (e0, e1) refl)
Ending-Reading buf l r true true e0 e1 =
    let m = (==_iff r.b0 magic).0 e0 in
    let v = (==_iff r.b1 version).0 e1 in
    read r.header l (r.at0 ∙ ap some m) (r.at1 ∙ ap some v) (r.result ∙ rw (e0, e1) refl)
      (λ hb. r.again hb m v)

pub ending : (buf : List ℕ) → Ending buf
ending buf = elim (Bool-cases (ltb (length buf) header_size)) [
  | inl few ↦ short (ltb→lt _ _ few) (decode-too_short buf (ltb→lt _ _ few))
  | inr enough ↦
      let l : header_size ≤ length buf = ground arith in
      let r = reading buf l in Ending-Reading buf l r (r.b0 == magic) (r.b1 == version) refl refl
]

-- If decode reads a header from a buffer of bytes, then encoding that header into the buffer
-- leaves the buffer as it was.
pub encode_into-decode :
    (buf : List ℕ) (h : Header) → IsBytes buf → decode buf ≡ parsed h → encode_into h buf ≡ some buf
encode_into-decode buf h hb e = elim (ending buf) [
  | short l s ↦ cc
  | no_magic b l a n s ↦ cc
  | no_version b l a0 a1 n s ↦ cc
  | read g l a0 a1 s w ↦ let same : h ≡ g = cc in ap (λ x. encode_into x buf) same ∙ w hb
]

-- Whatever the buffer, decode does not index out of it.
pub decode-ne-crashed : (buf : List ℕ) → decode buf ≢ crashed
decode-ne-crashed buf e = elim (ending buf) [
  | short l s ↦ cc
  | no_magic b l a n s ↦ cc
  | no_version b l a0 a1 n s ↦ cc
  | read g l a0 a1 s w ↦ cc
]

-- decode returns a header exactly for the buffers of at least 20 bytes that begin with the magic
-- byte and the version byte.
pub decode-accepts :
    (buf : List ℕ)
    → ((h : Header) × (decode buf ≡ parsed h)) ↔ (
        (header_size ≤ length buf)
        × (get_elem? buf 0 ≡ some magic)
        × (get_elem? buf 1 ≡ some version))
decode-accepts buf = elim (ending buf) [
  | short l s ↦ (λ (h, e). cc, λ (le, m, v). absurd (omega arith))
  | no_magic b l a n s ↦ (λ (h, e). cc, λ (le, m, v). absurd (n (cc)))
  | no_version b l a0 a1 n s ↦ (λ (h, e). cc, λ (le, m, v). absurd (n (cc)))
  | read g l a0 a1 s w ↦ (λ h. (l, a0, a1), λ p. (g, s))
]

-- A header whose four wide fields are below 2^32, encoded into a buffer of at least 20 bytes,
-- writes a buffer from which decode reads the same header.
pub decode-encode_into :
    (h : Header) (buf : List ℕ)
    → IsHeader h
    → header_size ≤ length buf
    → (out : List ℕ) × (encode_into h buf ≡ some out) × (decode out ≡ parsed h)
decode-encode_into h buf v l = (
  header_bytes h ++ drop header_size buf,
  encode_into-front h buf l,
  decode-front h (drop header_size buf) v,
)
