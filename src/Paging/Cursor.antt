-- ===== src/Paging/Cursor.antt =====
-- src/gg_relay/store/repository.py, `_encode_cursor` and `_decode_cursor` with their audit and search
-- forms, and the three `_filter_hash` functions. JSON, ISO times and SHA-1 are the standard library's:
-- parameters, with the documented laws of `Codes`.
pub mod Anchor
use gg_proxy.Base.{
  ℕ, ◌≡◌, Bool, true, false, String, Option, none, some, List, [], ◌∷◌, ◌++◌, ltb, if◌then◌else◌,
  str_eq, text_lookup, is_some, ◌||◌,
}
use Prim.Native.String.{◌++◌ as ◌<>◌, compare}
use text.Mathlib.Text.{is_lt}
use mathlib.Core.Option
use gg_proxy.Paging.Base64.{Bytes, urlsafe_b64encode, strip_padding, padding, urlsafe_b64decode}
use gg_proxy.Paging.Base64.Groups.{AllBytes}

-- A value of the payload. Of a value that is neither a text nor an integer only what `str` and `int`
-- give for it matters: `int` raises on most.
pub data Field : Type 0 where
  string : String → Field
  integer : ℕ → Field
  other : String → Option ℕ → Field

-- What `json.loads` gives.
pub data Loaded : Type 0 where
  raises : Loaded
  not_a_dict : Loaded
  dict : List (String × Field) → Loaded

pub record Codes : Type 0 where
  pub dumps : List (String × Field) → Bytes
  pub loads : Bytes → Loaded
  pub isoformat : ℕ → String
  pub fromisoformat : String → Option ℕ
  -- the decimal text of an integer, and `int` of a text
  pub decimal : ℕ → String
  pub parse_int : String → Option ℕ
  -- a list of texts, printed
  pub repr : List String → String
  -- the text of a session's id, and the order that the database has on texts
  pub id_text : ℕ → String
  pub text_before : String → String → Bool
  -- the first twelve hexadecimal digits of the SHA-1 of a text
  pub sha1_prefix : String → String

-- `v or '*'`, and the join of a key with a value.
abbrev pub or_star : Option String → String
or_star none = "*"
or_star (some s) = if str_eq s "" then "*" else s

abbrev pub given : Option String → String
given none = "*"
given (some s) = s

-- `sorted` of texts, by their code points.
abbrev place : String → List String → List String
place s [] = s ∷ []
place s (t ∷ ts) = if is_lt (compare t s) then t ∷ place s ts else s ∷ t ∷ ts

abbrev pub sorted : List String → List String
sorted [] = []
sorted (t ∷ ts) = place t (sorted ts)

-- Why a cursor is refused.
pub data CursorError : Type 0 where
  invalid filter_mismatch : CursorError

pub data Decoded (A : Type 0) : Type 0 where
  decoded : A → Decoded A
  refused : CursorError → Decoded A

abbrev pub str_of : Codes → Field → String
str_of codes (string s) = s
str_of codes (integer n) = codes.decimal n
str_of codes (other s n) = s

abbrev pub int_of : Codes → Field → Option ℕ
int_of codes (string s) = codes.parse_int s
int_of codes (integer n) = some n
int_of codes (other s n) = n

module _ (codes : Codes) where
  unfoldable pub filter_hash : Option String → Option String → String
  filter_hash status tag = codes.sha1_prefix (or_star status <> ("|" <> or_star tag))

  -- The parts in the order of their texts, which is that of their keys.
  unfoldable pub audit_filter_hash :
      Option String → Option String → Option String → Option String → String
  audit_filter_hash actor action target_type target_id = codes.sha1_prefix (
      "action="
      <> (or_star action
          <> ("|actor="
              <> (or_star actor
                  <> ("|target_id="
                      <> (or_star target_id <> ("|target_type=" <> or_star target_type)))))))

  -- `sorted(xs) if xs else None`, printed.
  abbrev printed : List String → Option String
  printed [] = none
  printed (t ∷ ts) = some (codes.repr (sorted (t ∷ ts)))

  unfoldable pub filter_hash_search :
      Option String → Option String → List String → List String → Option ℕ → Option ℕ → String
  filter_hash_search q owner tags status after_ts before_ts = codes.sha1_prefix (
      "after_ts="
      <> (given (Option.map codes.isoformat after_ts)
          <> ("|before_ts="
              <> (given (Option.map codes.isoformat before_ts)
                  <> ("|owner="
                      <> (given owner
                          <> ("|q="
                              <> (given q
                                  <> ("|status="
                                      <> (given (printed status)
                                          <> ("|tags=" <> given (printed tags))))))))))))

  abbrev pub payload : ℕ → Field → String → List (String × Field)
  payload ts id fh = ("ts", string (codes.isoformat ts)) ∷ ("id", id) ∷ ("fh", string fh) ∷ []

  abbrev pub encode : List (String × Field) → Bytes
  encode fields = strip_padding (urlsafe_b64encode (codes.dumps fields))

  unfoldable pub encode_cursor : ℕ → String → String → Bytes
  encode_cursor submitted_at id fh = encode (payload submitted_at (string id) fh)

  unfoldable pub encode_audit_cursor : ℕ → ℕ → String → Bytes
  encode_audit_cursor ts id fh = encode (payload ts (integer id) fh)

  unfoldable pub encode_search_cursor : ℕ → String → String → Bytes
  encode_search_cursor submitted_at id fh = encode (payload submitted_at (string id) fh)

  -- `obj.get("fh") != expected_filter_hash`, negated.
  abbrev pub same_filter : Option Field → String → Bool
  same_filter (some (string fh)) expected = str_eq fh expected
  same_filter _ expected = false

  -- `datetime.fromisoformat`, which raises on what is not a text.
  abbrev pub time_of : Field → Option ℕ
  time_of (string s) = codes.fromisoformat s
  time_of _ = none

  abbrev with_time : Option ℕ → Field → Decoded (ℕ × Field)
  with_time none id = refused invalid
  with_time (some ts) id = decoded (ts, id)

  abbrev checked : Option Field → Option Field → Option Field → String → Decoded (ℕ × Field)
  checked (some ts) (some id) fh expected =
      if same_filter fh expected then with_time (time_of ts) id else refused filter_mismatch
  checked _ _ fh expected = refused invalid

  abbrev pub decode_loaded : Loaded → String → Decoded (ℕ × Field)
  decode_loaded (dict obj) expected =
      checked (text_lookup "ts" obj) (text_lookup "id" obj) (text_lookup "fh" obj) expected
  decode_loaded _ expected = refused invalid

  abbrev decode_bytes : Option Bytes → String → Decoded (ℕ × Field)
  decode_bytes none expected = refused invalid
  decode_bytes (some bytes) expected = decode_loaded (codes.loads bytes) expected

  -- The part that the three forms have in common: the time and the field of the id.
  abbrev pub decode : Bytes → String → Decoded (ℕ × Field)
  decode cursor expected = decode_bytes (urlsafe_b64decode (cursor ++ padding cursor)) expected

  abbrev with_string : Decoded (ℕ × Field) → Decoded (ℕ × String)
  with_string (refused e) = refused e
  with_string (decoded (ts, id)) = decoded (ts, str_of codes id)

  abbrev with_int : Decoded (ℕ × Field) → Decoded (ℕ × ℕ)
  with_int (refused e) = refused e
  with_int (decoded (ts, id)) = elim (int_of codes id) [
    | none ↦ refused invalid
    | some n ↦ decoded (ts, n)
  ]

  unfoldable pub decode_cursor : Bytes → String → Decoded (ℕ × String)
  decode_cursor cursor expected = with_string (decode cursor expected)

  unfoldable pub decode_search_cursor : Bytes → String → Decoded (ℕ × String)
  decode_search_cursor cursor expected = with_string (decode cursor expected)

  unfoldable pub decode_audit_cursor : Bytes → String → Decoded (ℕ × ℕ)
  decode_audit_cursor cursor expected = with_int (decode cursor expected)

-- What is documented of the standard library, at the payloads that the store makes; and that ids of
-- sessions, texts of one length, are ordered as their numbers.
pub record CodesLaws (codes : Codes) : Type 0 where
  pub string_bytes :
      (t i : ℕ) (s : String)
      → AllBytes (codes.dumps (payload codes t (string (codes.id_text i)) (codes.sha1_prefix s)))
  pub string_loads :
      (t i : ℕ) (s : String)
      → codes.loads (codes.dumps (payload codes t (string (codes.id_text i)) (codes.sha1_prefix s)))
        ≡ dict (payload codes t (string (codes.id_text i)) (codes.sha1_prefix s))
  pub integer_bytes :
      (t i : ℕ) (s : String)
      → AllBytes (codes.dumps (payload codes t (integer i) (codes.sha1_prefix s)))
  pub integer_loads :
      (t i : ℕ) (s : String)
      → codes.loads (codes.dumps (payload codes t (integer i) (codes.sha1_prefix s)))
        ≡ dict (payload codes t (integer i) (codes.sha1_prefix s))
  pub iso_time : (t : ℕ) → codes.fromisoformat (codes.isoformat t) ≡ some t
  pub id_order : (i j : ℕ) → codes.text_before (codes.id_text i) (codes.id_text j) ≡ ltb i j
