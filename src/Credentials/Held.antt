-- ===== src/Credentials/Held.antt =====
-- src/gg_relay/store/user_credentials.py: what the table holds for a label and a name, and that this is
-- what a user's sessions are given.
use gg_proxy.Base.{
  ◌≡◌, refl, Bool, true, false, ◌&&◌, String, Option, none, some, List, [], ◌∷◌, str_eq, eq_iff,
  str_eq_sym, if◌then◌else◌, Bool-cases, inl, inr, arith, ap, sym, ◌∙◌,
}
use gg_proxy.Credentials.{
  CredentialRow, Fernet, read_value, is_of, merged, put_row, has_row, delete_rows,
}

abbrev pub same_key : String → String → String → String → Bool
same_key l' e' l e = str_eq l' l && str_eq e' e

pub both_true : (a b : Bool) → (a && b) ≡ true → (a ≡ true) × (b ≡ true)
both_true a b h = ground arith

-- A row of one place is of another exactly if the places are the same.
moved :
    (l' e' l e : String) (row : CredentialRow)
    → is_of l' e' row ≡ true
    → is_of l e row ≡ same_key l' e' l e
moved l' e' l e row h =
    let both = both_true (str_eq row.user_label l') (str_eq row.env_name e') h in
    let p : row.user_label ≡ l' = (eq_iff row.user_label l').0 both.0 in
    let q : row.env_name ≡ e' = (eq_iff row.env_name e').0 both.1 in rw (p, q) refl

same_key_sym : (l e l' e' : String) → same_key l e l' e' ≡ same_key l' e' l e
same_key_sym l e l' e' = rw (str_eq_sym l l', str_eq_sym e e') refl

unlike :
    (new row : CredentialRow)
    → is_of new.user_label new.env_name row ≡ false
    → is_of row.user_label row.env_name new ≡ false
unlike new row h = same_key_sym new.user_label new.env_name row.user_label row.env_name ∙ h

-- No two rows of one label and one name.
abbrev pub IsDistinct : List CredentialRow → Type 0
IsDistinct [] = Unit {0}
IsDistinct (row ∷ rows) = (has_row row.user_label row.env_name rows ≡ false) × IsDistinct rows

has_row-put_row :
    (l e : String) (new : CredentialRow) (rows : List CredentialRow)
    → is_of l e new ≡ false
    → has_row l e (put_row new rows) ≡ has_row l e rows
has_row-put_row l e new [] h = ground (arith, h)
has_row-put_row l e new (row ∷ rows) h = elim (Bool-cases (is_of new.user_label new.env_name row)) [
  | inl here ↦ rw here (ground arith)
  | inr there ↦ rw there (ground (arith, has_row-put_row l e new rows h))
]

pub put_row-IsDistinct :
    (new : CredentialRow) (rows : List CredentialRow)
    → IsDistinct rows
    → IsDistinct (put_row new rows)
put_row-IsDistinct new [] h = (refl, tt)
put_row-IsDistinct new (row ∷ rows) h = elim (Bool-cases (is_of new.user_label new.env_name row)) [
  | inl here ↦ rw here h
  | inr there ↦ rw there (
    has_row-put_row row.user_label row.env_name new rows (unlike new row there) ∙ h.0,
    put_row-IsDistinct new rows h.1,
  )
]

has_row-delete_rows :
    (l e l' e' : String) (rows : List CredentialRow)
    → has_row l e rows ≡ false
    → has_row l e (delete_rows l' e' rows) ≡ false
has_row-delete_rows l e l' e' [] h = refl
has_row-delete_rows l e l' e' (row ∷ rows) h = ground (arith, has_row-delete_rows l e l' e' rows)

pub delete_rows-IsDistinct :
    (l e : String) (rows : List CredentialRow) → IsDistinct rows → IsDistinct (delete_rows l e rows)
delete_rows-IsDistinct l e [] h = tt
delete_rows-IsDistinct l e (row ∷ rows) h = elim (Bool-cases (is_of l e row)) [
  | inl here ↦ rw here (delete_rows-IsDistinct l e rows h.1)
  | inr there ↦ rw there (
    has_row-delete_rows row.user_label row.env_name l e rows h.0,
    delete_rows-IsDistinct l e rows h.1,
  )
]

-- A row of one place is of no other.
apart :
    (l e l' e' : String) (row : CredentialRow)
    → is_of l e row ≡ true
    → is_of l' e' row ≡ false
    → same_key l' e' l e ≡ false
apart l e l' e' row at_it elsewhere =
    same_key_sym l' e' l e ∙ (sym (moved l e l' e' row at_it) ∙ elsewhere)

if_twice :
    {A : Type 0} (b : Bool) (x x' y z : A)
    → x ≡ x'
    → (if b then x else z) ≡ (if b then x' else (if b then y else z))
if_twice true x x' y z e = e
if_twice false x x' y z e = refl

read_alike :
    (fernet : Fernet) (fp : Option String) (row other : CredentialRow)
    → row.key_fingerprint ≡ other.key_fingerprint
    → row.value_encrypted ≡ other.value_encrypted
    → read_value fernet fp row ≡ read_value fernet fp other
read_alike fernet none row other p q = ap fernet.decrypt q
read_alike fernet (some fp) row other p q = rw (p, q) refl

module _ (fernet : Fernet) (fp : Option String) where
  -- What the row of a label and a name is read as.
  abbrev pub seen : String → String → List CredentialRow → Option String
  seen l e [] = none
  seen l e (row ∷ rows) = if is_of l e row then read_value fernet fp row else seen l e rows

  pub seen-put_row :
      (l e : String) (new : CredentialRow) (rows : List CredentialRow)
      → seen l e (put_row new rows) ≡ (
          if same_key new.user_label new.env_name l e
          then read_value fernet fp new
          else seen l e rows)
  seen-put_row l e new [] = refl
  seen-put_row l e new (row ∷ rows) = elim (Bool-cases (is_of new.user_label new.env_name row)) [
    | inl here ↦ rw here (
        rw (moved new.user_label new.env_name l e row here) (
          if_twice (same_key new.user_label new.env_name l e) _ _ _ _
            (read_alike fernet fp (merged new row) new refl refl)))
    | inr there ↦ rw there (elim (Bool-cases (is_of l e row)) [
      | inl at_it ↦ rw at_it (rw (apart l e new.user_label new.env_name row at_it there) refl)
      | inr elsewhere ↦ rw elsewhere (seen-put_row l e new rows)
    ])
  ]

  pub seen-delete_rows :
      (l e l' e' : String) (rows : List CredentialRow)
      → seen l e (delete_rows l' e' rows) ≡ (if same_key l' e' l e then none else seen l e rows)
  seen-delete_rows l e l' e' [] = ground arith
  seen-delete_rows l e l' e' (row ∷ rows) = elim (Bool-cases (is_of l' e' row)) [
    | inl here ↦ rw here (
        seen-delete_rows l e l' e' rows
        ∙ rw (moved l' e' l e row here) (if_twice (same_key l' e' l e) _ _ _ _ refl))
    | inr there ↦ rw there (elim (Bool-cases (is_of l e row)) [
      | inl at_it ↦ rw at_it (rw (apart l e l' e' row at_it there) refl)
      | inr elsewhere ↦ rw elsewhere (seen-delete_rows l e l' e' rows)
    ])
  ]
