-- ===== src/Credentials/Given.antt =====
-- src/gg_relay/store/user_credentials.py, `get_for_user`: a user is given what the table holds for them.
use text.Mathlib.TextPositions.{eq_refl}
use gg_proxy.Base.{
  ◌≡◌, refl, true, false, String, Option, none, some, List, [], ◌∷◌, str_eq, eq_iff, str_eq_sym,
  if◌then◌else◌, Bool-cases, inl, inr, arith, ap, sym, ◌∙◌, subst, text_lookup,
}
use gg_proxy.Credentials.{
  CredentialRow, Fernet, UserCredentialsStore, read_value, set_name, set_read, collect, is_of,
  has_row, get_for_user,
}
use gg_proxy.Credentials.Held.{IsDistinct, seen, both_true}

text_lookup-set_name :
    (k v : String) (out : List (String × String)) → text_lookup k (set_name k v out) ≡ some v
text_lookup-set_name k v [] = rw (eq_refl k) refl
text_lookup-set_name k v (first ∷ out) = elim (Bool-cases (str_eq k first.0)) [
  | inl h ↦ rw h (rw (eq_refl k) refl)
  | inr h ↦ rw h (rw h (text_lookup-set_name k v out))
]

text_lookup-set_name_ne :
    (env k v : String) (out : List (String × String))
    → str_eq env k ≡ false
    → text_lookup env (set_name k v out) ≡ text_lookup env out
text_lookup-set_name_ne env k v [] ne = rw ne refl
text_lookup-set_name_ne env k v (first ∷ out) ne = elim (Bool-cases (str_eq k first.0)) [
  | inl h ↦ rw h (rw ne (sym (passed h)))
  | inr h ↦ rw h (
      ap (λ o. if str_eq env first.0 then some first.1 else o)
        (text_lookup-set_name_ne env k v out ne))
]
  where
    passed : str_eq k first.0 ≡ true → text_lookup env (first ∷ out) ≡ text_lookup env out
    passed h = let same : first.0 ≡ k = sym ((eq_iff k first.0).0 h) in rw same (rw ne refl)

-- `some a`, or else the second.
abbrev pub or_first : Option String → Option String → Option String
or_first none second = second
or_first (some a) second = some a

module _ (fernet : Fernet) (fp : Option String) (label : String) where
  with_row : CredentialRow → List (String × String) → List (String × String)
  with_row row out =
      if str_eq row.user_label label
      then set_read row.env_name (read_value fernet fp row) out
      else out

  text_lookup-set_read_ne :
      (env k : String) (r : Option String) (out : List (String × String))
      → str_eq env k ≡ false
      → text_lookup env (set_read k r out) ≡ text_lookup env out
  text_lookup-set_read_ne env k none out ne = refl
  text_lookup-set_read_ne env k (some v) out ne = text_lookup-set_name_ne env k v out ne

  text_lookup-set_read :
      (k : String) (r : Option String) (out : List (String × String))
      → text_lookup k (set_read k r out) ≡ or_first r (text_lookup k out)
  text_lookup-set_read k none out = refl
  text_lookup-set_read k (some v) out = text_lookup-set_name k v out

  -- A row of another place changes nothing at this one.
  after_other :
      (env : String) (row : CredentialRow) (out : List (String × String))
      → is_of label env row ≡ false
      → text_lookup env (with_row row out) ≡ text_lookup env out
  unfolding with_row
  after_other env row out ne = elim (Bool-cases (str_eq row.user_label label)) [
    | inl h ↦ rw h (
        text_lookup-set_read_ne env row.env_name (read_value fernet fp row) out
          (str_eq_sym env row.env_name ∙ ground (arith, h, ne)))
    | inr h ↦ rw h refl
  ]

  after_own :
      (env : String) (row : CredentialRow) (out : List (String × String))
      → is_of label env row ≡ true
      → text_lookup env (with_row row out)
        ≡ or_first (read_value fernet fp row) (text_lookup env out)
  unfolding with_row
  after_own env row out h =
      let both = both_true (str_eq row.user_label label) (str_eq row.env_name env) h in
      rw both.0 (
        subst
          (λ k.
            text_lookup k (set_read row.env_name (read_value fernet fp row) out)
            ≡ or_first (read_value fernet fp row) (text_lookup k out))
          ((eq_iff row.env_name env).0 both.1)
          (text_lookup-set_read row.env_name (read_value fernet fp row) out))

  collect_absent :
      (env : String) (rows : List CredentialRow) (out : List (String × String))
      → has_row label env rows ≡ false
      → text_lookup env (collect fernet fp label rows out) ≡ text_lookup env out
  unfolding with_row
  collect_absent env [] out h = refl
  collect_absent env (row ∷ rows) out h =
      collect_absent env rows (with_row row out) (ground (arith, h))
      ∙ after_other env row out (ground (arith, h))

  collect-seen :
      (env : String) (rows : List CredentialRow) (out : List (String × String))
      → IsDistinct rows
      → text_lookup env (collect fernet fp label rows out)
        ≡ or_first (seen fernet fp label env rows) (text_lookup env out)
  unfolding with_row
  collect-seen env [] out distinct = refl
  collect-seen env (row ∷ rows) out distinct = elim (Bool-cases (is_of label env row)) [
    | inl h ↦
        collect_absent env rows (with_row row out) (alone h) ∙ (after_own env row out h ∙ rw h refl)
    | inr h ↦
        collect-seen env rows (with_row row out) distinct.1
        ∙ (rw (after_other env row out h) (rw h refl))
  ]
    where
      alone : is_of label env row ≡ true → has_row label env rows ≡ false
      alone h =
          let both = both_true (str_eq row.user_label label) (str_eq row.env_name env) h in
          subst (λ l. has_row l env rows ≡ false) ((eq_iff row.user_label label).0 both.0)
            (subst (λ e. has_row row.user_label e rows ≡ false) ((eq_iff row.env_name env).0 both.1)
              distinct.0)

-- Under a label that is not empty, a user is given what the row of each name is read as.
pub get_for_user-seen :
    (fernet : Fernet) (store : UserCredentialsStore) (label env : String)
    → store.fernet ≡ some fernet
    → str_eq label "" ≡ false
    → IsDistinct store.rows
    → text_lookup env (get_for_user label store)
      ≡ seen fernet store.key_fingerprint label env store.rows
unfolding get_for_user
get_for_user-seen fernet store label env enabled named distinct = rw enabled (
    rw named (
      collect-seen fernet store.key_fingerprint label env store.rows [] distinct
      ∙ or_none (seen fernet store.key_fingerprint label env store.rows)))
  where
    or_none : (a : Option String) → or_first a none ≡ a
    or_none none = refl
    or_none (some a) = refl
