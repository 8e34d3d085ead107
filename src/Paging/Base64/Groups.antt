-- ===== src/Paging/Base64/Groups.antt =====
-- Groups of four characters: how they are encoded, stripped and decoded.
use gg_proxy.Base.{
  ℕ, ◌+◌, ◌*◌, ◌/◌, ◌%◌, ◌<◌, ◌≡◌, refl, false, some, [], ◌∷◌, ◌++◌, ◌==◌, arith, List-cases, inl,
  inr, ap, ◌∙◌,
}
use gg_proxy.Paging.Base64.{
  Bytes, symbol, sextet, pad, urlsafe_b64encode, strip_padding, pads, padding, completed, leftover,
  emit, decode_from,
}
use gg_proxy.Paging.Base64.Sextets.{sextet-symbol, symbol-not_pad}

abbrev pub AllBytes : Bytes → Type 0
AllBytes [] = Unit {0}
AllBytes (b ∷ bs) = (b < 256) × AllBytes bs

decode_from-value :
    (quad seen left c v : ℕ) (cs : Bytes)
    → (c == pad) ≡ false
    → sextet c ≡ some v
    → decode_from quad seen left (c ∷ cs)
      ≡ emit (completed quad left v) (decode_from ((quad + 1) % 4) 0 (leftover quad v) cs)
unfolding decode_from
decode_from-value quad seen left c v cs other value = ground arith

-- A character of the alphabet is taken as its value.
pub decode_from-symbol :
    (quad seen left v : ℕ) (cs : Bytes)
    → v < 64
    → decode_from quad seen left (symbol v ∷ cs)
      ≡ emit (completed quad left v) (decode_from ((quad + 1) % 4) 0 (leftover quad v) cs)
decode_from-symbol quad seen left v cs h =
    decode_from-value quad seen left (symbol v) v cs (symbol-not_pad v h) (sextet-symbol v h)

strip_padding-other :
    (c : ℕ) (cs : Bytes) → (c == pad) ≡ false → strip_padding (c ∷ cs) ≡ c ∷ strip_padding cs
unfolding strip_padding
strip_padding-other c cs h = elim (List-cases (strip_padding cs)) [
  | inl e ↦ rw (e, h) refl
  | inr (d, ds, e) ↦ rw e refl
]

pub strip_padding-symbol :
    (v : ℕ) (cs : Bytes) → v < 64 → strip_padding (symbol v ∷ cs) ≡ symbol v ∷ strip_padding cs
strip_padding-symbol v cs h = strip_padding-other (symbol v) cs (symbol-not_pad v h)

-- The wire form, as a client has it.
abbrev pub wire : Bytes → Bytes
wire bytes = strip_padding (urlsafe_b64encode bytes)

abbrev padded : Bytes → Bytes
padded text = text ++ padding text

pub wire-group :
    (a b c : ℕ) (rest : Bytes)
    → a < 256
    → b < 256
    → c < 256
    → wire (a ∷ b ∷ c ∷ rest) ≡ (
        symbol (a / 4)
        ∷ symbol (a % 4 * 16 + b / 16)
        ∷ symbol (b % 16 * 4 + c / 64)
        ∷ symbol (c % 64)
        ∷ wire rest)
unfolding urlsafe_b64encode
wire-group a b c rest ha hb hc =
    rw
      (
        strip_padding-symbol (a / 4) _ (omega arith),
        strip_padding-symbol (a % 4 * 16 + b / 16) _ (omega arith),
        strip_padding-symbol (b % 16 * 4 + c / 64) _ (omega arith),
        strip_padding-symbol (c % 64) _ (omega arith),
      )
      refl

pub padding-group : (w x y z : ℕ) (cs : Bytes) → padding (w ∷ x ∷ y ∷ z ∷ cs) ≡ padding cs
unfolding padding
padding-group w x y z cs = ap pads (omega arith)

-- One character, two, three and four of a group, with the bytes that they complete.
pub first_of :
    (v : ℕ) (cs : Bytes) → v < 64 → decode_from 0 0 0 (symbol v ∷ cs) ≡ decode_from 1 0 v cs
first_of v cs h = decode_from-symbol 0 0 0 v cs h

pub second_of :
    (a b : ℕ) (cs : Bytes)
    → a < 256
    → b < 16
    → decode_from 1 0 (a / 4) (symbol (a % 4 * 16 + b) ∷ cs) ≡ emit (some a) (decode_from 2 0 b cs)
second_of a b cs ha hb =
    decode_from-symbol 1 0 (a / 4) (a % 4 * 16 + b) cs (omega arith)
    ∙ (ap (λ n. emit (some n) (decode_from 2 0 ((a % 4 * 16 + b) % 16) cs)) (omega arith)
        ∙ ap (λ n. emit (some a) (decode_from 2 0 n cs)) (omega arith))

pub third_of :
    (b c : ℕ) (cs : Bytes)
    → b < 256
    → c < 4
    → decode_from 2 0 (b / 16) (symbol (b % 16 * 4 + c) ∷ cs) ≡ emit (some b) (decode_from 3 0 c cs)
third_of b c cs hb hc =
    decode_from-symbol 2 0 (b / 16) (b % 16 * 4 + c) cs (omega arith)
    ∙ (ap (λ n. emit (some n) (decode_from 3 0 ((b % 16 * 4 + c) % 4) cs)) (omega arith)
        ∙ ap (λ n. emit (some b) (decode_from 3 0 n cs)) (omega arith))

fourth_of :
    (c : ℕ) (cs : Bytes)
    → c < 256
    → decode_from 3 0 (c / 64) (symbol (c % 64) ∷ cs) ≡ emit (some c) (decode_from 0 0 0 cs)
fourth_of c cs hc =
    decode_from-symbol 3 0 (c / 64) (c % 64) cs (omega arith)
    ∙ ap (λ n. emit (some n) (decode_from 0 0 0 cs)) (omega arith)

-- Four characters of the alphabet give three bytes.
pub decode_from-group :
    (a b c : ℕ) (cs : Bytes)
    → a < 256
    → b < 256
    → c < 256
    → decode_from 0 0 0 (
        symbol (a / 4)
        ∷ symbol (a % 4 * 16 + b / 16)
        ∷ symbol (b % 16 * 4 + c / 64)
        ∷ symbol (c % 64)
        ∷ cs)
      ≡ emit (some a) (emit (some b) (emit (some c) (decode_from 0 0 0 cs)))
decode_from-group a b c cs ha hb hc =
    first_of (a / 4) _ (omega arith)
    ∙ (second_of a (b / 16) _ ha (omega arith)
        ∙ (ap (emit (some a)) (third_of b (c / 64) _ hb (omega arith))
            ∙ ap (λ more. emit (some a) (emit (some b) more)) (fourth_of c cs hc)))
