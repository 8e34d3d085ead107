-- ===== src/Paging/Base64/Sextets.antt =====
-- The alphabet: a six-bit value survives its character, and no character is the padding.
use gg_proxy.Base.{ℕ, ◌<◌, ◌≡◌, some, true, false, ltb, ◌==◌, arith}
use gg_proxy.Paging.Base64.{symbol, sextet, pad}

pub sextet-symbol : (v : ℕ) → v < 64 → sextet (symbol v) ≡ some v
sextet-symbol v h = ground arith

pub symbol-not_pad : (v : ℕ) → v < 64 → (symbol v == pad) ≡ false
symbol-not_pad v h = ground arith

pub symbol-ascii : (v : ℕ) → v < 64 → ltb (symbol v) 128 ≡ true
symbol-ascii v h = ground arith
