-- ===== src/Manager/Submit/Gate.antt =====
-- What `submit` lets through, and what it leaves behind.
use Prim.Native.Char.{Char, code}
use Prim.Native.String.{String}
use gg_proxy.Base.{
  ℕ, ◌≡◌, refl, ◌⊎◌, inl, inr, false, none, some, if_both, Option-cases, Bool-cases, is_space,
  text_lookup,
}
use gg_proxy.Base.Dict.{lookup, lookup-insert_self}
use gg_proxy.Domain.{queued}
use gg_proxy.Store.{Sessions, Row, create_session}
use gg_proxy.Manager.State.{
  Manager, Result, ok, err, Error, shutting_down, id_exists, event_dropped,
}
use gg_proxy.Manager.Submit.{
  Credentials, Submission, UserStore, credential_gate, submit, new_session, enqueue, behind_gate,
}

-- A text with a character that is not white space.
pub data HasInk : String → Type 0 where
  here : (c : Char) (s : String) → is_space (code c) ≡ false → HasInk (String.◌∷◌ c s)
  later : (c : Char) (s : String) → HasInk s → HasInk (String.◌∷◌ c s)

-- The credentials hold a value under the name, and it is not blank.
abbrev pub Holds : String → Credentials → Type 0
Holds key creds = (v : String) × (text_lookup key creds ≡ some v) × HasInk v

-- An API key or an auth token.
abbrev pub HasBundle : Credentials → Type 0
HasBundle creds = Holds "ANTHROPIC_API_KEY" creds ⊎ Holds "ANTHROPIC_AUTH_TOKEN" creds

-- What a submission that goes through leaves behind.
abbrev pub Queued : ℕ → Manager → Manager → Type 0
Queued sid m m' =
    (lookup sid m.store ≡ none)
    × ((r : Row) × (lookup sid m'.store ≡ some r)
        × (r.status ≡ queued)
        × (r.version ≡ 0)
        × (r.started_at ≡ none))
    × (lookup sid m'.running_tasks ≡ some (record { acquired = false; cancelling = false }))
    × (m'.semaphore ≡ m.semaphore)
    × (m'.coordinator ≡ m.coordinator)

create_session-new :
    (sid : ℕ) (s : Submission) (now : ℕ) (db : Sessions)
    → (create_session sid (new_session s) now db ≡ none)
      ⊎ ((db' : Sessions) × (create_session sid (new_session s) now db ≡ some db')
          × (lookup sid db ≡ none)
          × ((r : Row) × (lookup sid db' ≡ some r)
              × (r.status ≡ queued)
              × (r.version ≡ 0)
              × (r.started_at ≡ none)))
unfolding create_session
create_session-new sid s now db = elim (Option-cases (lookup sid db)) [
  | inl missing ↦
      rw missing (inr (_, refl, refl, (_, lookup-insert_self sid _ db, refl, refl, refl)))
  | inr (r, h) ↦ rw h (inl refl)
]

-- What a submission whose event cannot be persisted leaves behind: a queued row that no task serves.
abbrev pub Stranded : ℕ → Manager → Manager → Type 0
Stranded sid m m' =
    (m.persists ≡ false)
    × (lookup sid m.store ≡ none)
    × ((r : Row) × (lookup sid m'.store ≡ some r)
        × (r.status ≡ queued)
        × (r.version ≡ 0)
        × (r.started_at ≡ none))
    × (m'.running_tasks ≡ m.running_tasks)
    × (m'.session_states ≡ m.session_states)
    × (m'.events ≡ m.events)

abbrev Outcome : ℕ → Manager → Result Credentials × Manager → Type 0
Outcome sid m out =
    ((e : Error) × (out ≡ (err e, m)))
    ⊎ (((out.0 ≡ err event_dropped) × Stranded sid m out.1)
        ⊎ ((creds : Credentials) × (out.0 ≡ ok creds) × Queued sid m out.1))

behind_gate-Outcome :
    (sid : ℕ) (s : Submission) (now : ℕ) (m : Manager) (g : Result Credentials)
    → Outcome sid m (behind_gate sid s now m g)
unfolding behind_gate enqueue
behind_gate-Outcome sid s now m (err e) = inl (e, refl)
behind_gate-Outcome sid s now m (ok creds) = elim (create_session-new sid s now m.store) [
  | inl exists ↦ rw (exists, behind_gate) (inl (id_exists, refl))
  | inr (db, new, free, row) ↦
      rw (new, behind_gate)
        (elim (Bool-cases m.persists) [
          | inl keeps ↦ rw keeps (
              inr (
                inr
                  (creds, refl, (free, row, lookup-insert_self sid _ m.running_tasks, refl, refl))))
          | inr lost ↦ rw lost (inr (inl (refl, (refl, free, row, refl, refl, refl))))
        ])
]

-- A submission is refused with an error, and then nothing at all has changed; or, where the event of its
-- creation cannot be persisted, it is answered with that error, though there now is a queued row under
-- its id, which had none, that no task serves; or it goes through under an id that had no row, and
-- then there is a queued row of it at version 0 that has not been started, its task waits for a slot,
-- and neither a slot nor a pending request has been touched.
pub submit_refused_or_Queued :
    (sid : ℕ) (s : Submission) (users : UserStore) (now : ℕ) (m : Manager)
    → ((e : Error) × (submit sid s users now m ≡ (err e, m)))
      ⊎ ((((submit sid s users now m).0 ≡ err event_dropped)
            × Stranded sid m (submit sid s users now m).1)
          ⊎ ((creds : Credentials) × ((submit sid s users now m).0 ≡ ok creds)
              × Queued sid m (submit sid s users now m).1))
unfolding submit
submit_refused_or_Queued sid s users now m =
    if_both (Outcome sid m) m.accepting_new
      (behind_gate-Outcome sid s now m
        (credential_gate users m.config.require_per_user_credentials s))
      (inl (shutting_down, refl))
