-- ===== src/Credentials/Served.antt =====
-- src/gg_relay/api/routers/user_credentials.py: what the endpoints leave of the table.
use gg_proxy.Base.{
  ℕ, ◌≡◌, refl, Bool, true, false, ◌&&◌, String, some, List, leb, if◌then◌else◌, Bool-cases, inl,
  inr, ap, sym, ◌∙◌,
}
use gg_proxy.Roles.{rank_of}
use gg_proxy.Credentials.{
  CredentialRow, Fernet, UserCredentialsStore, put_row, delete_rows, encrypted, upsert, delete,
  CredentialUpsert, env_name_is_allowed, body_fits, Caller, mine, admin_label, Audit, absent, up,
  down, Vault, CredentialNote, Response, recorded, upsert_credential, delete_credential,
  upsert_my_credential, delete_my_credential, upsert_user_credential, delete_user_credential,
}

pub data Request : Type 0 where
  puts_mine : Caller → String → CredentialUpsert → ℕ → ℕ → Request
  deletes_mine : Caller → String → Request
  puts_of : Caller → String → String → CredentialUpsert → ℕ → ℕ → Request
  deletes_of : Caller → String → String → Request

abbrev pub serve : Request → Vault → Vault
serve (puts_mine who env body iv now) vault = (upsert_my_credential who env body iv now vault).0
serve (deletes_mine who env) vault = (delete_my_credential who env vault).0
serve (puts_of who label env body iv now) vault =
    (upsert_user_credential who label env body iv now vault).0
serve (deletes_of who label env) vault = (delete_user_credential who label env vault).0

module _ (fernet : Fernet) (fp : String) where
  abbrev pub with_rows : List CredentialRow → UserCredentialsStore
  with_rows rows = record { fernet = some fernet; key_fingerprint = some fp; rows = rows }

  recorded-store :
      (note : CredentialNote) (reply : Response) (vault : Vault)
      → (recorded note reply vault).0.store ≡ vault.store
  recorded-store note reply vault = kept vault.audit refl
    where
      kept :
          (audit : Audit) → vault.audit ≡ audit → (recorded note reply vault).0.store ≡ vault.store
      kept absent h = rw h refl
      kept up h = rw h refl
      kept down h = rw h refl

  upsert_credential-store :
      (self_service : Bool) (label actor env : String) (body : CredentialUpsert) (iv now : ℕ)
      (audit : Audit) (log : List CredentialNote) (rows : List CredentialRow)
      → (upsert_credential self_service label actor env body iv now
          (record { store = with_rows rows; audit = audit; log = log })).0.store
        ≡ with_rows (
            if body_fits body && env_name_is_allowed env
            then put_row
                (encrypted fernet fp iv now (record {
                  user_label = label;
                  env_name = env;
                  value = body.value;
                  actor_label = actor;
                  notes = body.notes;
                }))
                rows
            else rows)
  unfolding upsert
  upsert_credential-store self_service label actor env body iv now audit log rows =
      elim (Bool-cases (body_fits body)) [
        | inr h ↦ rw h refl
        | inl h ↦ rw h (elim (Bool-cases (env_name_is_allowed env)) [
          | inr k ↦ rw k refl
          | inl k ↦ rw k (recorded-store _ _ _)
        ])
      ]

  delete_credential-store :
      (self_service : Bool) (label actor env : String) (audit : Audit) (log : List CredentialNote)
      (rows : List CredentialRow)
      → (delete_credential self_service label actor env
          (record { store = with_rows rows; audit = audit; log = log })).0.store
        ≡ with_rows (if env_name_is_allowed env then delete_rows label env rows else rows)
  unfolding delete
  delete_credential-store self_service label actor env audit log rows =
      elim (Bool-cases (env_name_is_allowed env)) [
        | inr k ↦ rw k refl
        | inl k ↦ rw k (recorded-store _ _ _)
      ]

  -- The rows after a request.
  abbrev pub rows_told : Request → List CredentialRow → List CredentialRow
  rows_told (puts_mine who env body iv now) rows =
      if leb 1 (rank_of who.role) && (body_fits body && env_name_is_allowed env)
      then put_row
          (encrypted fernet fp iv now (record {
            user_label = mine who;
            env_name = env;
            value = body.value;
            actor_label = mine who;
            notes = body.notes;
          }))
          rows
      else rows
  rows_told (deletes_mine who env) rows =
      if leb 1 (rank_of who.role) && env_name_is_allowed env
      then delete_rows (mine who) env rows
      else rows
  rows_told (puts_of who label env body iv now) rows =
      if leb 2 (rank_of who.role) && (body_fits body && env_name_is_allowed env)
      then put_row
          (encrypted fernet fp iv now (record {
            user_label = label;
            env_name = env;
            value = body.value;
            actor_label = admin_label who;
            notes = body.notes;
          }))
          rows
      else rows
  rows_told (deletes_of who label env) rows =
      if leb 2 (rank_of who.role) && env_name_is_allowed env
      then delete_rows label env rows
      else rows

  gate-store :
      (b c : Bool) (answer : Vault × Response) (reply : Response) (vault : Vault)
      (new rows : List CredentialRow)
      → vault.store ≡ with_rows rows
      → answer.0.store ≡ with_rows (if c then new else rows)
      → (if b then answer else (vault, reply)).0.store ≡ with_rows (if b && c then new else rows)
  gate-store true c answer reply vault new rows h k = k
  gate-store false c answer reply vault new rows h k = h

  in_vault :
      (vault : Vault) (rows : List CredentialRow)
      → vault.store ≡ with_rows rows
      → record { store = with_rows rows; audit = vault.audit; log = vault.log } ≡ vault
  in_vault vault rows h = ap (λ s. record vault { store = s }) (sym h)

  upserted_store :
      (self_service : Bool) (label actor env : String) (body : CredentialUpsert) (iv now : ℕ)
      (vault : Vault) (rows : List CredentialRow)
      → vault.store ≡ with_rows rows
      → (upsert_credential self_service label actor env body iv now vault).0.store
        ≡ with_rows (
            if body_fits body && env_name_is_allowed env
            then put_row
                (encrypted fernet fp iv now (record {
                  user_label = label;
                  env_name = env;
                  value = body.value;
                  actor_label = actor;
                  notes = body.notes;
                }))
                rows
            else rows)
  upserted_store self_service label actor env body iv now vault rows h =
      ap (λ v. (upsert_credential self_service label actor env body iv now v).0.store)
        (sym (in_vault vault rows h))
      ∙ upsert_credential-store self_service label actor env body iv now vault.audit vault.log rows

  deleted_store :
      (self_service : Bool) (label actor env : String) (vault : Vault) (rows : List CredentialRow)
      → vault.store ≡ with_rows rows
      → (delete_credential self_service label actor env vault).0.store
        ≡ with_rows (if env_name_is_allowed env then delete_rows label env rows else rows)
  deleted_store self_service label actor env vault rows h =
      ap (λ v. (delete_credential self_service label actor env v).0.store)
        (sym (in_vault vault rows h))
      ∙ delete_credential-store self_service label actor env vault.audit vault.log rows

  pub serve-store :
      (request : Request) (vault : Vault) (rows : List CredentialRow)
      → vault.store ≡ with_rows rows
      → (serve request vault).store ≡ with_rows (rows_told request rows)
  unfolding upsert_my_credential delete_my_credential upsert_user_credential delete_user_credential
  serve-store (puts_mine who env body iv now) vault rows h =
      gate-store (leb 1 (rank_of who.role)) (body_fits body && env_name_is_allowed env) _ _ vault _
        rows h (upserted_store true (mine who) (mine who) env body iv now vault rows h)
  serve-store (deletes_mine who env) vault rows h =
      gate-store (leb 1 (rank_of who.role)) (env_name_is_allowed env) _ _ vault _ rows h
        (deleted_store true (mine who) (mine who) env vault rows h)
  serve-store (puts_of who label env body iv now) vault rows h =
      gate-store (leb 2 (rank_of who.role)) (body_fits body && env_name_is_allowed env) _ _ vault _
        rows h (upserted_store false label (admin_label who) env body iv now vault rows h)
  serve-store (deletes_of who label env) vault rows h =
      gate-store (leb 2 (rank_of who.role)) (env_name_is_allowed env) _ _ vault _ rows h
        (deleted_store false label (admin_label who) env vault rows h)
