-- ===== src/Paging/Base64.antt =====
-- The wire form of a cursor in src/gg_relay/store/repository.py: `base64.urlsafe_b64encode` without the
-- padding, and `base64.urlsafe_b64decode` with the padding put back, over the codes of the characters.
mod Sextets
pub mod Groups
pub mod RoundTrip
use gg_proxy.Base.{
  ℕ, zero, suc, ◌+◌, ◌-◌, ◌*◌, ◌/◌, ◌%◌, Bool, true, false, ◌&&◌, ◌||◌, Option, none, some, List,
  [], ◌∷◌, ◌++◌, ltb, leb, ◌==◌, if◌then◌else◌, length,
}

abbrev pub Bytes : Type 0
Bytes = List ℕ

-- The character of a six-bit value: A to Z, a to z, 0 to 9, `-` and `_`.
abbrev pub symbol : ℕ → ℕ
symbol v =
    if ltb v 26
    then v + 65
    else if ltb v 52
    then v + 71
    else if ltb v 62
    then v - 4
    else if v == 62
    then 45
    else 95

-- The six-bit value of a character; `+` and `/` are read as `-` and `_` are.
abbrev pub sextet : ℕ → Option ℕ
sextet c =
    if leb 65 c && leb c 90
    then some (c - 65)
    else if leb 97 c && leb c 122
    then some (c - 71)
    else if leb 48 c && leb c 57
    then some (c + 4)
    else if c == 45 || c == 43
    then some 62
    else if c == 95 || c == 47
    then some 63
    else none

-- The character `=`.
abbrev pub pad : ℕ
pad = 61

-- `base64.urlsafe_b64encode`
unfoldable pub urlsafe_b64encode : Bytes → Bytes
urlsafe_b64encode [] = []
urlsafe_b64encode (a ∷ []) = symbol (a / 4) ∷ symbol (a % 4 * 16) ∷ pad ∷ pad ∷ []
urlsafe_b64encode (a ∷ b ∷ []) =
    symbol (a / 4) ∷ symbol (a % 4 * 16 + b / 16) ∷ symbol (b % 16 * 4) ∷ pad ∷ []
urlsafe_b64encode (a ∷ b ∷ c ∷ rest) =
    symbol (a / 4)
    ∷ symbol (a % 4 * 16 + b / 16)
    ∷ symbol (b % 16 * 4 + c / 64)
    ∷ symbol (c % 64)
    ∷ urlsafe_b64encode rest

-- `.rstrip(b"=")`
unfoldable pub strip_padding : Bytes → Bytes
strip_padding [] = []
strip_padding (c ∷ cs) = elim (strip_padding cs) [
  | [] ↦ if c == pad then [] else c ∷ []
  | d ∷ ds ↦ c ∷ d ∷ ds
]

abbrev pub pads : ℕ → Bytes
pads zero = []
pads (suc n) = pad ∷ pads n

-- `"=" * (-len(cursor) % 4)`
unfoldable pub padding : Bytes → Bytes
padding cursor = pads ((4 - length cursor % 4) % 4)

-- The byte that a value completes at a place in a group of four, if it completes one.
abbrev pub completed : ℕ → ℕ → ℕ → Option ℕ
completed quad left v =
    if quad == 0
    then none
    else if quad == 1
    then some (left * 4 + v / 16)
    else if quad == 2
    then some (left * 16 + v / 4)
    else some (left * 64 + v)

-- The bits of the value that are left for the next byte.
abbrev pub leftover : ℕ → ℕ → ℕ
leftover quad v =
    if quad == 0 then v else if quad == 1 then v % 16 else if quad == 2 then v % 4 else 0

abbrev pub emit : Option ℕ → Option Bytes → Option Bytes
emit none bytes = bytes
emit (some byte) none = none
emit (some byte) (some bytes) = some (byte ∷ bytes)

-- `binascii.a2b_base64` outside its strict mode. The state is the place in a group of four, the pads
-- seen since the last value, and the bits left over. Other characters are skipped, a group that the
-- pads complete ends the input, and an input that ends inside a group raises.
unfoldable pub decode_from : ℕ → ℕ → ℕ → Bytes → Option Bytes
decode_from quad seen left [] = if quad == 0 then some [] else none
decode_from quad seen left (c ∷ cs) = elim (c == pad) [
  | true ↦ elim (leb 2 quad) [
    | true ↦ elim (leb 4 (quad + suc seen)) [
      | true ↦ some []
      | false ↦ decode_from quad (suc seen) left cs
    ]
    | false ↦ decode_from quad seen left cs
  ]
  | false ↦ elim (sextet c) [
    | none ↦ decode_from quad seen left cs
    | some v ↦ emit (completed quad left v) (decode_from ((quad + 1) % 4) 0 (leftover quad v) cs)
  ]
]

abbrev pub is_ascii : Bytes → Bool
is_ascii [] = true
is_ascii (c ∷ cs) = ltb c 128 && is_ascii cs

-- `base64.urlsafe_b64decode` of a text, which raises unless the text is ASCII.
unfoldable pub urlsafe_b64decode : Bytes → Option Bytes
unfolding decode_from
urlsafe_b64decode text = if is_ascii text then decode_from 0 0 0 text else none
