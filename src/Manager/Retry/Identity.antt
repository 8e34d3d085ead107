-- ===== src/Manager/Retry/Identity.antt =====
-- With whose credentials and environment a retry runs, and how it is tied to the old session.
use Prim.Native.String.{String}
use gg_proxy.Base.{
  ℕ, ◌≡◌, ◌≢◌, refl, ◌⊎◌, inl, inr, Option, none, some, List, [], ◌∷◌, arith, str_eq, if◌then◌else◌,
  truthy, option_or, Option-cases,
}
use gg_proxy.Base.Dict.{lookup, insert, lookup-insert}
use gg_proxy.Store.{Row, Sessions, NewSession, get_session, create_session}
use gg_proxy.Manager.State.{Manager, ok, audited}
use gg_proxy.Manager.Submit.{
  Credentials, Submission, UserStore, submit, behind_gate, enqueue, new_session,
}
use gg_proxy.Manager.Retry.{Codec, Retrier, retry, retry_found, retry_submission, new_owner}

-- What the retrier has stored; nothing without a label, without a store, or when the lookup fails.
abbrev pub own_credentials : UserStore → Retrier → Credentials
own_credentials none who = []
own_credentials (some get_for_user) who =
    if truthy who.actor then option_or (get_for_user (option_or who.actor "")) [] else []

-- The value that the last of the pairs of a name gives.
abbrev pub last_named : String → List (String × String) → Option String
last_named name [] = none
last_named name ((k, v) ∷ rows) =
    let later = last_named name rows in
    elim later [ some w ↦ some w | none ↦ if str_eq name k then some v else none ]

abbrev pub first_some : Option String → Option String → Option String
first_some none o = o
first_some (some v) o = some v

created :
    (sid : ℕ) (new : NewSession) (now : ℕ) (db : Sessions)
    → (create_session sid new now db ≡ none)
      ⊎ ((r : Row) × (create_session sid new now db ≡ some (insert sid r db))
          × (r.parent_session_id ≡ new.parent_session_id)
          × (r.owner ≡ new.owner))
unfolding create_session
created sid new now db = elim (Option-cases (lookup sid db)) [
  | inl missing ↦ rw missing (inr (_, refl, refl, refl))
  | inr (r, h) ↦ rw h (inl refl)
]

Linked : ℕ → Submission → Manager → Manager → Type 0
Linked sid s m m' =
    (r : Row) × (m'.store ≡ insert sid r m.store)
    × (r.parent_session_id ≡ s.parent_session_id)
    × (r.owner ≡ s.owner)

submit-Linked :
    (sid : ℕ) (s : Submission) (users : UserStore) (now : ℕ) (m : Manager) (creds : Credentials)
    → (submit sid s users now m).0 ≡ ok creds
    → Linked sid s m (submit sid s users now m).1
unfolding submit behind_gate enqueue Linked
submit-Linked sid s users now m creds h = elim (created sid (new_session s) now m.store) [
  | inl exists ↦ absurd (ground (arith, h, exists))
  | inr (r, new, parent, owner) ↦ (r, ground (arith, h, new), parent, owner)
]

found-Linked :
    (codec : Codec) (sid : ℕ) (id_text : String) (who : Retrier) (new_sid : ℕ) (users : UserStore)
    (now : ℕ) (original : Row) (m : Manager) (creds : Credentials)
    → (retry_found codec sid id_text who new_sid users now original m).0 ≡ ok creds
    → Linked new_sid
        (retry_submission codec sid id_text who original (codec.decode original.spec_json))
        m
        (retry_found codec sid id_text who new_sid users now original m).1
unfolding retry_found audited Linked
found-Linked codec sid id_text who new_sid users now original m creds h =
    let (r, e, parent, owner) =
      submit-Linked new_sid
        (retry_submission codec sid id_text who original (codec.decode original.spec_json)) users
        now m creds (ground (arith, h)) in
    (r, ground (arith, h, e), parent, owner)

-- A retry that goes through under a new id leaves the old session's row as it is, and the new row has the
-- old session as its parent and the retrier, or else the old owner, as its owner.
pub retry_links :
    (codec : Codec) (sid : ℕ) (id_text : String) (who : Retrier) (new_sid : ℕ) (users : UserStore)
    (now : ℕ) (m : Manager) (creds : Credentials) (original : Row)
    → lookup sid m.store ≡ some original
    → sid ≢ new_sid
    → (retry codec sid id_text who new_sid users now m).0 ≡ ok creds
    → let m' = (retry codec sid id_text who new_sid users now m).1 in
      (lookup sid m'.store ≡ some original)
      × ((r : Row) × (lookup new_sid m'.store ≡ some r)
          × (r.parent_session_id ≡ some sid)
          × (r.owner ≡ some (new_owner who original)))
unfolding retry get_session Linked retry_submission
retry_links codec sid id_text who new_sid users now m creds original h ne went =
    let (r, e, parent, owner) =
      found-Linked codec sid id_text who new_sid users now original m creds
        (ground (arith, went, h)) in
    (
      ground (arith, h, e, lookup-insert sid new_sid r m.store),
      (r, ground (arith, h, e, lookup-insert new_sid new_sid r m.store), parent, owner),
    )
