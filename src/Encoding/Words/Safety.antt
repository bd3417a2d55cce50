-- ===== src/Encoding/Words/Safety.antt =====
-- The readers of fixed-width integers on arbitrary bytes.
use peeroxide.Common.{refl, arith}
use peeroxide.Encoding.State.{◌>>=◌, ◌>>◌, advance}
use peeroxide.Encoding.State.Laws.{Safe-check, Safe-checked, load-bounds}
use peeroxide.Encoding.Laws.{Safe, Safe-bind, Safe-pure}
use peeroxide.Encoding.Words.{
  decode_uint8, decode_uint16, decode_uint24, decode_uint32, decode_uint40, decode_uint48,
  decode_uint56, decode_uint64,
}

pub Safe-uint8 : Safe decode_uint8
unfolding decode_uint8 advance
Safe-uint8 = Safe-check 1 _ λ s wf h.
    let (b0, e0) = load-bounds 0 s (omega arith) in
    rw (e0, ◌>>=◌, ◌>>◌) (refl, refl, omega arith, omega arith)

pub Safe-uint16 : Safe decode_uint16
unfolding decode_uint16 advance
Safe-uint16 = Safe-check 2 _ λ s wf h.
    let (b0, e0) = load-bounds 0 s (omega arith) in
    let (b1, e1) = load-bounds 1 s (omega arith) in
    rw (e0, e1, ◌>>=◌, ◌>>◌) (refl, refl, omega arith, omega arith)

pub Safe-uint24 : Safe decode_uint24
unfolding decode_uint24 advance
Safe-uint24 = Safe-check 3 _ λ s wf h.
    let (b0, e0) = load-bounds 0 s (omega arith) in
    let (b1, e1) = load-bounds 1 s (omega arith) in
    let (b2, e2) = load-bounds 2 s (omega arith) in
    rw (e0, e1, e2, ◌>>=◌, ◌>>◌) (refl, refl, omega arith, omega arith)

pub Safe-uint32 : Safe decode_uint32
unfolding decode_uint32 advance
Safe-uint32 = Safe-check 4 _ λ s wf h.
    let (b0, e0) = load-bounds 0 s (omega arith) in
    let (b1, e1) = load-bounds 1 s (omega arith) in
    let (b2, e2) = load-bounds 2 s (omega arith) in
    let (b3, e3) = load-bounds 3 s (omega arith) in
    rw (e0, e1, e2, e3, ◌>>=◌, ◌>>◌) (refl, refl, omega arith, omega arith)

pub Safe-uint40 : Safe decode_uint40
unfolding decode_uint40
Safe-uint40 =
    Safe-checked 5 (Safe-bind _ Safe-uint8 (λ lo. Safe-bind _ Safe-uint32 (λ hi. Safe-pure _)))

pub Safe-uint48 : Safe decode_uint48
unfolding decode_uint48
Safe-uint48 =
    Safe-checked 6 (Safe-bind _ Safe-uint16 (λ lo. Safe-bind _ Safe-uint32 (λ hi. Safe-pure _)))

pub Safe-uint56 : Safe decode_uint56
unfolding decode_uint56
Safe-uint56 =
    Safe-checked 7 (Safe-bind _ Safe-uint24 (λ lo. Safe-bind _ Safe-uint32 (λ hi. Safe-pure _)))

pub Safe-uint64 : Safe decode_uint64
unfolding decode_uint64
Safe-uint64 =
    Safe-checked 8 (Safe-bind _ Safe-uint32 (λ lo. Safe-bind _ Safe-uint32 (λ hi. Safe-pure _)))
