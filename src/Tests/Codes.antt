-- ===== src/Tests/Codes.antt =====
-- A concrete codec for the cursors: every text is a run of one letter, and bytes count the letters.
use gg_proxy.Base.{
  ℕ, zero, suc, ◌≡◌, refl, some, List, [], ◌∷◌, ltb, str_eq, if◌then◌else◌, ap, arith, Bool-cases,
  inl, inr, String,
}
use gg_proxy.Paging.Base64.{Bytes}
use gg_proxy.Paging.Base64.Groups.{AllBytes}
use gg_proxy.Paging.Cursor.{Field, string, integer, Loaded, raises, dict, Codes, CodesLaws}

abbrev letters : ℕ → String
letters zero = ""
letters (suc n) = String.◌∷◌ "a" (letters n)

abbrev count : String → ℕ
count String.[] = 0
count (String.◌∷◌ c s) = suc (count s)

abbrev unary : ℕ → Bytes → Bytes
unary zero rest = 0 ∷ rest
unary (suc n) rest = 1 ∷ unary n rest

abbrev read : Bytes → ℕ × Bytes
read [] = (0, [])
read (zero ∷ bytes) = (0, bytes)
read (suc n ∷ bytes) = let r = read bytes in (suc r.0, r.1)

count-letters : (n : ℕ) → count (letters n) ≡ n
count-letters zero = refl
count-letters (suc n) = ap suc (count-letters n)

read-unary : (n : ℕ) (rest : Bytes) → read (unary n rest) ≡ (n, rest)
read-unary zero rest = refl
read-unary (suc n) rest = rw (read-unary n rest) refl

AllBytes-unary : (n : ℕ) (rest : Bytes) → AllBytes rest → AllBytes (unary n rest)
AllBytes-unary zero rest h = (omega arith, h)
AllBytes-unary (suc n) rest h = (omega arith, AllBytes-unary n rest h)

abbrev sha : String → String
sha s = if str_eq s "*|*" then "" else "a"

letters-count-sha : (s : String) → letters (count (sha s)) ≡ sha s
letters-count-sha s = elim (Bool-cases (str_eq s "*|*")) [ inl e ↦ rw e refl | inr e ↦ rw e refl ]

abbrev dumps : List (String × Field) → Bytes
dumps ((_, string t) ∷ (_, string i) ∷ (_, string f) ∷ []) =
    1 ∷ unary (count t) (unary (count i) (unary (count f) []))
dumps ((_, string t) ∷ (_, integer i) ∷ (_, string f) ∷ []) =
    2 ∷ unary (count t) (unary i (unary (count f) []))
dumps _ = []

abbrev fields : (ℕ → Field) → Bytes → Loaded
fields id bytes =
    let t = read bytes in
    let i = read t.1 in
    let f = read i.1 in
    dict (("ts", string (letters t.0)) ∷ ("id", id i.0) ∷ ("fh", string (letters f.0)) ∷ [])

abbrev loads : Bytes → Loaded
loads [] = raises
loads (kind ∷ bytes) =
    if ltb kind 2 then fields (λ i. string (letters i)) bytes else fields integer bytes

abbrev pub codes : Codes
codes = record {
  dumps = dumps;
  loads = loads;
  isoformat = letters;
  fromisoformat = λ s. some (count s);
  decimal = letters;
  parse_int = λ s. some (count s);
  repr = λ ts. "";
  id_text = letters;
  text_before = λ s t. ltb (count s) (count t);
  sha1_prefix = sha;
}

pub codes_laws : CodesLaws codes
codes_laws = record {
  string_bytes =
      λ t i s. (omega arith, AllBytes-unary _ _ (AllBytes-unary _ _ (AllBytes-unary _ _ tt)));
  string_loads = λ t i s.
      rw
        (
          count-letters t,
          count-letters i,
          read-unary t _,
          read-unary i (unary (count (sha s)) []),
          read-unary (count (sha s)) [],
          letters-count-sha s,
        )
        refl;
  integer_bytes =
      λ t i s. (omega arith, AllBytes-unary _ _ (AllBytes-unary _ _ (AllBytes-unary _ _ tt)));
  integer_loads = λ t i s.
      rw
        (
          count-letters t,
          read-unary t _,
          read-unary i _,
          read-unary (count (sha s)) [],
          letters-count-sha s,
        )
        refl;
  iso_time = λ t. ap some (count-letters t);
  id_order = λ i j. rw (count-letters i, count-letters j) refl;
}
