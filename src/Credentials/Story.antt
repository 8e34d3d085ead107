-- ===== src/Credentials/Story.antt =====
-- src/gg_relay/api/routers/user_credentials.py: a user's sessions are given what was asked for last.
use text.Mathlib.TextPositions.{eq_refl}
use gg_proxy.Base.{
  ℕ, ◌≡◌, refl, Bool, true, false, ◌&&◌, String, Option, none, some, List, [], ◌∷◌, str_eq, leb,
  if◌then◌else◌, if_both, ap, ◌∙◌, text_lookup,
}
use gg_proxy.Roles.{rank_of}
use gg_proxy.Credentials.{
  CredentialRow, Fernet, read_value, put_row, NewCredential, encrypted, get_for_user,
  env_name_is_allowed, body_fits, mine, Audit, Vault,
}
use gg_proxy.Credentials.Held.{
  same_key, IsDistinct, put_row-IsDistinct, delete_rows-IsDistinct, seen, seen-put_row,
  seen-delete_rows,
}
use gg_proxy.Credentials.Served.{
  Request, puts_mine, deletes_mine, puts_of, deletes_of, serve, with_rows, rows_told, serve-store,
}
use gg_proxy.Credentials.Given.{get_for_user-seen}

abbrev pub serve_all : List Request → Vault → Vault
serve_all [] vault = vault
serve_all (request ∷ requests) vault = serve_all requests (serve request vault)

-- What one request says of a label and a name, given what was said of them before.
abbrev pub told : String → String → Request → Option String → Option String
told label env (puts_mine who name body iv now) word =
    if (leb 1 (rank_of who.role) && (body_fits body && env_name_is_allowed name))
      && same_key (mine who) name label env
    then some body.value
    else word
told label env (deletes_mine who name) word =
    if (leb 1 (rank_of who.role) && env_name_is_allowed name) && same_key (mine who) name label env
    then none
    else word
told label env (puts_of who user name body iv now) word =
    if (leb 2 (rank_of who.role) && (body_fits body && env_name_is_allowed name))
      && same_key user name label env
    then some body.value
    else word
told label env (deletes_of who user name) word =
    if (leb 2 (rank_of who.role) && env_name_is_allowed name) && same_key user name label env
    then none
    else word

abbrev pub last_word : String → String → List Request → Option String → Option String
last_word label env [] word = word
last_word label env (request ∷ requests) word =
    last_word label env requests (told label env request word)

module _ (fernet : Fernet) (fp : String) where
  rows_told-IsDistinct :
      (request : Request) (rows : List CredentialRow)
      → IsDistinct rows
      → IsDistinct (rows_told fernet fp request rows)
  rows_told-IsDistinct (puts_mine who env body iv now) rows d =
      if_both IsDistinct (leb 1 (rank_of who.role) && (body_fits body && env_name_is_allowed env))
        (put_row-IsDistinct _ rows d) d
  rows_told-IsDistinct (deletes_mine who env) rows d =
      if_both IsDistinct (leb 1 (rank_of who.role) && env_name_is_allowed env)
        (delete_rows-IsDistinct (mine who) env rows d) d
  rows_told-IsDistinct (puts_of who label env body iv now) rows d =
      if_both IsDistinct (leb 2 (rank_of who.role) && (body_fits body && env_name_is_allowed env))
        (put_row-IsDistinct _ rows d) d
  rows_told-IsDistinct (deletes_of who label env) rows d =
      if_both IsDistinct (leb 2 (rank_of who.role) && env_name_is_allowed env)
        (delete_rows-IsDistinct label env rows d) d

  module _
      (law : (iv : ℕ) (value : String)
        → fernet.decrypt (fernet.encrypt iv value) ≡ some value) where
    read_back :
        (iv now : ℕ) (new : NewCredential)
        → read_value fernet (some fp) (encrypted fernet fp iv now new) ≡ some new.value
    read_back iv now new = rw (eq_refl fp) (law iv new.value)

    told_if :
        (a : Bool) (b : Bool) (label env : String) (rows changed : List CredentialRow)
        (value : Option String)
        → seen fernet (some fp) label env changed
          ≡ (if b then value else seen fernet (some fp) label env rows)
        → seen fernet (some fp) label env (if a then changed else rows)
          ≡ (if a && b then value else seen fernet (some fp) label env rows)
    told_if true b label env rows changed value h = h
    told_if false b label env rows changed value h = refl

    seen-encrypted :
        (iv now : ℕ) (new : NewCredential) (label env : String) (rows : List CredentialRow)
        → seen fernet (some fp) label env (put_row (encrypted fernet fp iv now new) rows) ≡ (
            if same_key new.user_label new.env_name label env
            then some new.value
            else seen fernet (some fp) label env rows)
    seen-encrypted iv now new label env rows =
        seen-put_row fernet (some fp) label env (encrypted fernet fp iv now new) rows
        ∙ ap
            (λ v.
              if same_key new.user_label new.env_name label env
              then v
              else seen fernet (some fp) label env rows)
            (read_back iv now new)

    rows_told-told :
        (label env : String) (request : Request) (rows : List CredentialRow)
        → seen fernet (some fp) label env (rows_told fernet fp request rows)
          ≡ told label env request (seen fernet (some fp) label env rows)
    rows_told-told label env (puts_mine who name body iv now) rows =
        told_if _ _ label env rows _ _ (seen-encrypted iv now _ label env rows)
    rows_told-told label env (deletes_mine who name) rows =
        told_if _ _ label env rows _ _
          (seen-delete_rows fernet (some fp) label env (mine who) name rows)
    rows_told-told label env (puts_of who user name body iv now) rows =
        told_if _ _ label env rows _ _ (seen-encrypted iv now _ label env rows)
    rows_told-told label env (deletes_of who user name) rows =
        told_if _ _ label env rows _ _ (seen-delete_rows fernet (some fp) label env user name rows)

    serve_all_gives :
        (label env : String) (requests : List Request) (vault : Vault) (rows : List CredentialRow)
        → str_eq label "" ≡ false
        → vault.store ≡ with_rows fernet fp rows
        → IsDistinct rows
        → text_lookup env (get_for_user label (serve_all requests vault).store)
          ≡ last_word label env requests (seen fernet (some fp) label env rows)
    serve_all_gives label env [] vault rows named h d =
        ap (λ s. text_lookup env (get_for_user label s)) h
        ∙ get_for_user-seen fernet (with_rows fernet fp rows) label env refl named d
    serve_all_gives label env (request ∷ requests) vault rows named h d =
        serve_all_gives label env requests (serve request vault) (rows_told fernet fp request rows)
          named (serve-store fernet fp request vault rows h) (rows_told-IsDistinct request rows d)
        ∙ ap (λ w. last_word label env requests w) (rows_told-told label env request rows)

    -- From an empty table, under one key, and with any or no audit log: whatever is requested, by
    -- users and by admins, a user whose label is not empty is given for each name the value that was put
    -- there last by a request that was let through, and none if that request deleted it or there was none.
    pub get_for_user-last_word :
        (label env : String) (requests : List Request) (audit : Audit)
        → str_eq label "" ≡ false
        → text_lookup env (
            get_for_user label
              (serve_all requests
                (record { store = with_rows fernet fp []; audit = audit; log = [] })).store)
          ≡ last_word label env requests none
    get_for_user-last_word label env requests audit named =
        serve_all_gives label env requests
          (record { store = with_rows fernet fp []; audit = audit; log = [] }) [] named refl tt
