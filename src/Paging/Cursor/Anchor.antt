-- ===== src/Paging/Cursor/Anchor.antt =====
-- A cursor gives back the place it was made for, under the filter it was made under.
use gg_proxy.Base.{ℕ, ◌≡◌, refl, String, some, str_eq, if◌then◌else◌, Bool-cases, inl, inr}
use gg_proxy.Paging.Base64.Groups.{AllBytes}
use gg_proxy.Paging.Base64.RoundTrip.{urlsafe_b64decode-wire}
use gg_proxy.Paging.Cursor.{
  Field, string, integer, Codes, CodesLaws, decoded, refused, filter_mismatch, payload, encode,
  decode, decode_loaded, dict, encode_cursor, decode_cursor, encode_audit_cursor,
  decode_audit_cursor, encode_search_cursor, decode_search_cursor,
}

module _ (codes : Codes) where
  decode-payload :
      (t : ℕ) (id : Field) (fh expected : String)
      → codes.fromisoformat (codes.isoformat t) ≡ some t
      → decode_loaded codes (dict (payload codes t id fh)) expected
        ≡ (if str_eq fh expected then decoded (t, id) else refused filter_mismatch)
  decode-payload t id fh expected iso = elim (Bool-cases (str_eq fh expected)) [
    | inl e ↦ rw (e, iso) refl
    | inr e ↦ rw e refl
  ]

  decode-encode :
      (t : ℕ) (id : Field) (fh expected : String)
      → AllBytes (codes.dumps (payload codes t id fh))
      → codes.loads (codes.dumps (payload codes t id fh)) ≡ dict (payload codes t id fh)
      → codes.fromisoformat (codes.isoformat t) ≡ some t
      → decode codes (encode codes (payload codes t id fh)) expected
        ≡ (if str_eq fh expected then decoded (t, id) else refused filter_mismatch)
  decode-encode t id fh expected bytes loads iso =
      rw (urlsafe_b64decode-wire (codes.dumps (payload codes t id fh)) bytes, loads)
        (decode-payload t id fh expected iso)

module _ (codes : Codes) (laws : CodesLaws codes) where
  string_form :
      (t i : ℕ) (filter expected : String)
      → decode codes
          (encode codes (payload codes t (string (codes.id_text i)) (codes.sha1_prefix filter)))
          expected
        ≡ (if str_eq (codes.sha1_prefix filter) expected
            then decoded (t, string (codes.id_text i))
            else refused filter_mismatch)
  string_form t i filter expected =
      decode-encode codes t (string (codes.id_text i)) (codes.sha1_prefix filter) expected
        (laws.string_bytes t i filter) (laws.string_loads t i filter) (laws.iso_time t)

  integer_form :
      (t i : ℕ) (filter expected : String)
      → decode codes
          (encode codes (payload codes t (integer i) (codes.sha1_prefix filter)))
          expected
        ≡ (if str_eq (codes.sha1_prefix filter) expected
            then decoded (t, integer i)
            else refused filter_mismatch)
  integer_form t i filter expected =
      decode-encode codes t (integer i) (codes.sha1_prefix filter) expected
        (laws.integer_bytes t i filter) (laws.integer_loads t i filter) (laws.iso_time t)

  -- What `_decode_cursor` makes of a cursor that `_encode_cursor` made for a row: its time and its id, if
  -- the cursor was made under the filter that is active, and the error of a filter mismatch otherwise.
  -- The cursor passes through base64 with its padding stripped; JSON and ISO times are read back as they
  -- are documented to be.
  pub decode_cursor-encode_cursor :
      (t i : ℕ) (filter expected : String)
      → decode_cursor codes
          (encode_cursor codes t (codes.id_text i) (codes.sha1_prefix filter))
          expected
        ≡ (if str_eq (codes.sha1_prefix filter) expected
            then decoded (t, codes.id_text i)
            else refused filter_mismatch)
  unfolding decode_cursor encode_cursor
  decode_cursor-encode_cursor t i filter expected =
      elim (Bool-cases (str_eq (codes.sha1_prefix filter) expected)) [
        | inl e ↦ rw (string_form t i filter expected, e) refl
        | inr e ↦ rw (string_form t i filter expected, e) refl
      ]

  pub decode_search_cursor-encode_search_cursor :
      (t i : ℕ) (filter expected : String)
      → decode_search_cursor codes
          (encode_search_cursor codes t (codes.id_text i) (codes.sha1_prefix filter))
          expected
        ≡ (if str_eq (codes.sha1_prefix filter) expected
            then decoded (t, codes.id_text i)
            else refused filter_mismatch)
  unfolding decode_search_cursor encode_search_cursor
  decode_search_cursor-encode_search_cursor t i filter expected =
      elim (Bool-cases (str_eq (codes.sha1_prefix filter) expected)) [
        | inl e ↦ rw (string_form t i filter expected, e) refl
        | inr e ↦ rw (string_form t i filter expected, e) refl
      ]

  pub decode_audit_cursor-encode_audit_cursor :
      (t i : ℕ) (filter expected : String)
      → decode_audit_cursor codes
          (encode_audit_cursor codes t i (codes.sha1_prefix filter))
          expected
        ≡ (if str_eq (codes.sha1_prefix filter) expected
            then decoded (t, i)
            else refused filter_mismatch)
  unfolding decode_audit_cursor encode_audit_cursor
  decode_audit_cursor-encode_audit_cursor t i filter expected =
      elim (Bool-cases (str_eq (codes.sha1_prefix filter) expected)) [
        | inl e ↦ rw (integer_form t i filter expected, e) refl
        | inr e ↦ rw (integer_form t i filter expected, e) refl
      ]
