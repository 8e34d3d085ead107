-- ===== src/Paging/Base64/RoundTrip.antt =====
-- The wire form of a cursor is read back, though the padding is stripped on the way.
use gg_proxy.Base.{
  ℕ, zero, suc, ◌+◌, ◌-◌, ◌*◌, ◌/◌, ◌%◌, ◌<◌, ◌≡◌, refl, true, some, [], ◌∷◌, ◌++◌, ◌&&◌, length,
  arith, ap, ◌∙◌,
}
use gg_proxy.Paging.Base64.{
  Bytes, symbol, pad, urlsafe_b64encode, strip_padding, pads, padding, emit, is_ascii, decode_from,
  urlsafe_b64decode,
}
use gg_proxy.Paging.Base64.Sextets.{symbol-ascii}
use gg_proxy.Paging.Base64.Groups.{
  AllBytes, wire, strip_padding-symbol, wire-group, padding-group, first_of, second_of, third_of,
  decode_from-group,
}

-- The padding of the last group, stripped and put back.
strip_padding-pad : strip_padding (pad ∷ []) ≡ []
unfolding strip_padding
strip_padding-pad = refl

strip_padding-pads : strip_padding (pad ∷ pad ∷ []) ≡ []
unfolding strip_padding
strip_padding-pads = refl

padding_two : (w x : ℕ) → padding (w ∷ x ∷ []) ≡ (pad ∷ pad ∷ [])
unfolding padding
padding_two w x = refl

padding_three : (w x y : ℕ) → padding (w ∷ x ∷ y ∷ []) ≡ (pad ∷ [])
unfolding padding
padding_three w x y = refl

wire_none : wire [] ++ padding (wire []) ≡ []
unfolding urlsafe_b64encode strip_padding padding
wire_none = refl

wire_one : (a : ℕ) → a < 256 → wire (a ∷ []) ≡ (symbol (a / 4) ∷ symbol (a % 4 * 16) ∷ [])
unfolding urlsafe_b64encode
wire_one a ha =
    rw
      (
        strip_padding-symbol (a / 4) _ (omega arith),
        strip_padding-symbol (a % 4 * 16) _ (omega arith),
        strip_padding-pads,
      )
      refl

wire_two :
    (a b : ℕ)
    → a < 256
    → b < 256
    → wire (a ∷ b ∷ []) ≡ (symbol (a / 4) ∷ symbol (a % 4 * 16 + b / 16) ∷ symbol (b % 16 * 4) ∷ [])
unfolding urlsafe_b64encode
wire_two a b ha hb =
    rw
      (
        strip_padding-symbol (a / 4) _ (omega arith),
        strip_padding-symbol (a % 4 * 16 + b / 16) _ (omega arith),
        strip_padding-symbol (b % 16 * 4) _ (omega arith),
        strip_padding-pad,
      )
      refl

ascii_none : is_ascii (wire []) ≡ true
unfolding urlsafe_b64encode strip_padding
ascii_none = refl

done : decode_from 0 0 0 [] ≡ some []
unfolding decode_from
done = refl

last_two : decode_from 2 0 0 (pad ∷ pad ∷ []) ≡ some []
unfolding decode_from
last_two = refl

last_three : decode_from 3 0 0 (pad ∷ []) ≡ some []
unfolding decode_from
last_three = refl

plus_nothing : (n : ℕ) → n ≡ n + 0
plus_nothing n = omega arith

decode_one :
    (a : ℕ)
    → a < 256
    → decode_from 0 0 0 (symbol (a / 4) ∷ symbol (a % 4 * 16) ∷ pad ∷ pad ∷ []) ≡ some (a ∷ [])
decode_one a ha =
    first_of (a / 4) _ (omega arith)
    ∙ (ap (λ n. decode_from 1 0 (a / 4) (symbol n ∷ pad ∷ pad ∷ [])) (plus_nothing (a % 4 * 16))
        ∙ (second_of a 0 _ ha (omega arith) ∙ ap (emit (some a)) last_two))

decode_two :
    (a b : ℕ)
    → a < 256
    → b < 256
    → decode_from 0 0 0
        (symbol (a / 4) ∷ symbol (a % 4 * 16 + b / 16) ∷ symbol (b % 16 * 4) ∷ pad ∷ [])
      ≡ some (a ∷ b ∷ [])
decode_two a b ha hb =
    first_of (a / 4) _ (omega arith)
    ∙ (second_of a (b / 16) _ ha (omega arith)
        ∙ ap (emit (some a)) (
            ap (λ n. decode_from 2 0 (b / 16) (symbol n ∷ pad ∷ [])) (plus_nothing (b % 16 * 4))
            ∙ (third_of b 0 _ hb (omega arith) ∙ ap (emit (some b)) last_three)))

-- The wire form is ASCII.
is_ascii-append : (xs ys : Bytes) → is_ascii (xs ++ ys) ≡ (is_ascii xs && is_ascii ys)
is_ascii-append [] ys = refl
is_ascii-append (x ∷ xs) ys = ground (arith, is_ascii-append xs ys)

is_ascii-pads : (n : ℕ) → is_ascii (pads n) ≡ true
is_ascii-pads zero = refl
is_ascii-pads (suc n) = is_ascii-pads n

is_ascii-symbol : (v : ℕ) (cs : Bytes) → v < 64 → is_ascii (symbol v ∷ cs) ≡ is_ascii cs
is_ascii-symbol v cs h = rw (symbol-ascii v h) refl

is_ascii-wire : (bytes : Bytes) → AllBytes bytes → is_ascii (wire bytes) ≡ true
is_ascii-wire [] all = ascii_none
is_ascii-wire (a ∷ []) all =
    rw (wire_one a all.0, is_ascii-symbol (a / 4) _ (omega arith))
      (is_ascii-symbol (a % 4 * 16) [] (omega arith))
is_ascii-wire (a ∷ b ∷ []) all =
    rw
      (
        wire_two a b all.0 all.1.0,
        is_ascii-symbol (a / 4) _ (omega arith),
        is_ascii-symbol (a % 4 * 16 + b / 16) _ (omega arith),
      )
      (is_ascii-symbol (b % 16 * 4) [] (omega arith))
is_ascii-wire (a ∷ b ∷ c ∷ rest) all =
    rw
      (
        wire-group a b c rest all.0 all.1.0 all.1.1.0,
        is_ascii-symbol (a / 4) _ (omega arith),
        is_ascii-symbol (a % 4 * 16 + b / 16) _ (omega arith),
        is_ascii-symbol (b % 16 * 4 + c / 64) _ (omega arith),
        is_ascii-symbol (c % 64) _ (omega arith),
      )
      (is_ascii-wire rest all.1.1.1)

is_ascii-sent :
    (bytes : Bytes) → AllBytes bytes → is_ascii (wire bytes ++ padding (wire bytes)) ≡ true
unfolding padding
is_ascii-sent bytes all =
    rw (is_ascii-append (wire bytes) (padding (wire bytes)), is_ascii-wire bytes all)
      (is_ascii-pads ((4 - length (wire bytes) % 4) % 4))

decode_from-wire :
    (bytes : Bytes)
    → AllBytes bytes
    → decode_from 0 0 0 (wire bytes ++ padding (wire bytes)) ≡ some bytes
decode_from-wire [] all = ap (decode_from 0 0 0) wire_none ∙ done
decode_from-wire (a ∷ []) all =
    rw (wire_one a all.0, padding_two (symbol (a / 4)) (symbol (a % 4 * 16))) (decode_one a all.0)
decode_from-wire (a ∷ b ∷ []) all =
    rw
      (
        wire_two a b all.0 all.1.0,
        padding_three (symbol (a / 4)) (symbol (a % 4 * 16 + b / 16)) (symbol (b % 16 * 4)),
      )
      (decode_two a b all.0 all.1.0)
decode_from-wire (a ∷ b ∷ c ∷ rest) all =
    rw (wire-group a b c rest all.0 all.1.0 all.1.1.0, padding-group _ _ _ _ (wire rest))
      (decode_from-group a b c (wire rest ++ padding (wire rest)) all.0 all.1.0 all.1.1.0
        ∙ ap (λ more. emit (some a) (emit (some b) (emit (some c) more)))
            (decode_from-wire rest all.1.1.1))

-- What a client sends back is decoded to the bytes that were encoded.
pub urlsafe_b64decode-wire :
    (bytes : Bytes)
    → AllBytes bytes
    → urlsafe_b64decode (wire bytes ++ padding (wire bytes)) ≡ some bytes
unfolding urlsafe_b64decode
urlsafe_b64decode-wire bytes all = rw (is_ascii-sent bytes all) (decode_from-wire bytes all)
