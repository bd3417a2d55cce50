-- ===== src/Encoding/Fields.antt =====
-- One field of a message at one value: its size, its writer and its reader, and how the fields of
-- a message are put together.
use peeroxide.Common.{
  ℕ, ◌^◌, ◌≤◌, ◌<◌, ◌≡◌, ap, ◌∙◌, le→leb, List, [], ◌++◌, arith, length, length-append,
}
use peeroxide.Encoding.State.{State, M, ◌>>=◌, ◌>>◌, pure, reserve}
use peeroxide.Encoding.Laws.{
  Codes, Reads, Writes, Sizes, RoundTrips, Reads-bind, Reads-pure, Reads-return, Reads-val,
  Writes-bind, Writes-nothing, Codes-RoundTrips,
}
use peeroxide.Encoding.Uint.{preencode_uint, encode_uint, decode_uint}
use peeroxide.Encoding.Uint.Laws.{Codes-uint, uint_bytes}

pub record Field {A : Type 0} (p : State → State) (w : M (Unit {0})) (d : M A) (v : A)
    : Type 0 where
  pub bytes : List ℕ
  pub sized : Sizes p (length bytes)
  pub written : Writes w bytes
  pub read : Reads d bytes v

-- What a type's size, writer and reader do at one value is a field.
pub field :
    {A B : Type 0} {p : A → State → State} {w : A → M (Unit {0})} {d : M B} {a : A} {b : B}
    {bs : List ℕ}
    → Codes p w d a b bs
    → Field (p a) (w a) d b
field {bs} c = record { bytes = bs; sized = c.sized; written = c.written; read = c.read }

pub Field-then :
    {A B : Type 0} {p q : State → State} {w v : M (Unit {0})} {d : M A} {a : A} {b : B}
    (f : A → M B)
    → Field p w d a
    → Field q v (f a) b
    → Field (λ s. q (p s)) (w >> v) (d >>= f) b
Field-then {q} f x y = record {
  bytes = x.bytes ++ y.bytes;
  sized = λ s.
      ap q (x.sized s)
      ∙ y.sized (reserve (length x.bytes) s)
      ∙ ap (λ n. record s { end = n }) (omega (arith, length-append x.bytes y.bytes));
  written = Writes-bind x.written y.written;
  read = Reads-bind f x.read y.read;
}

pub Field-last :
    {A B : Type 0} {p : State → State} {w : M (Unit {0})} {d : M A} {a : A} (f : A → B)
    → Field p w d a
    → Field p w (d >>= λ x. pure (f x)) (f a)
Field-last f x = record {
  bytes = x.bytes;
  sized = x.sized;
  written = x.written;
  read = Reads-return f x.read;
}

-- The same field, its size computed in another way.
pub Field-size :
    {A : Type 0} {p q : State → State} {w : M (Unit {0})} {d : M A} {a : A}
    → ((s : State) → q s ≡ p s)
    → Field p w d a
    → Field q w d a
Field-size e x = record {
  bytes = x.bytes;
  sized = λ s. e s ∙ x.sized s;
  written = x.written;
  read = x.read;
}

-- A field that the reader is known to read as `b`.
pub Field-val :
    {A : Type 0} {p : State → State} {w : M (Unit {0})} {d : M A} {a b : A}
    → a ≡ b
    → Field p w d a
    → Field p w d b
Field-val e x = record {
  bytes = x.bytes;
  sized = x.sized;
  written = x.written;
  read = Reads-val e x.read;
}

-- Nothing is written and the reader returns `a`.
pub Field-none : {A : Type 0} (a : A) → Field (λ s. s) (pure tt) (pure a) a
Field-none a = record {
  bytes = [];
  sized = λ s. ap (λ n. record s { end = n }) (omega arith);
  written = Writes-nothing;
  read = Reads-pure a;
}

pub Field-RoundTrips :
    {A B : Type 0} (p : A → State → State) (w : A → M (Unit {0})) {d : M B} (a : A) {b : B}
    → Field (p a) (w a) d b
    → RoundTrips p w d a b
Field-RoundTrips p w a x =
    Codes-RoundTrips {p = p} {w = w} {a = a}
      (record { sized = x.sized; written = x.written; read = x.read })

pub Field-uint : (n : ℕ) → n < 2 ^ 64 → Field (preencode_uint n) (encode_uint n) decode_uint n
Field-uint n h = field (Codes-uint n h)

-- A number up to 0xfc takes the one byte that is reserved for it.
pub Field-small : (n : ℕ) → n ≤ 0xfc → Field (reserve 1) (encode_uint n) decode_uint n
Field-small n h =
    let c = Codes-uint n (omega arith) in
    record {
      bytes = uint_bytes n;
      sized = λ s. rw (le→leb n 0xfc h);
      written = c.written;
      read = c.read;
    }
