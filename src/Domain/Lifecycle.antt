-- ===== src/Domain/Lifecycle.antt =====
-- The edge table of core/domain.py against an independent description of a session's life.
use gg_proxy.Base.{◌≡◌, refl, ◌⊎◌, inl, inr, subst, true, false, arith}
use gg_proxy.Domain.{
  SessionState, queued, running, paused, completed, failed, cancelled, interrupted, state_in,
  terminal_states, is_legal_transition,
}

-- A life of a session: a run of edges of the table.
pub data Reach (s : SessionState) : SessionState → Type 0 where
  here : Reach s s
  next : {t u : SessionState} → Reach s t → is_legal_transition t u ≡ true → Reach s u

abbrev pub IsTerminal : SessionState → Type 0
IsTerminal s = state_in s terminal_states ≡ true

terminal_stuck : (s t : SessionState) → IsTerminal s → is_legal_transition s t ≡ false
unfolding terminal_states is_legal_transition
terminal_stuck queued t h = ground arith
terminal_stuck running t h = ground arith
terminal_stuck paused t h = ground arith
terminal_stuck completed t h = refl
terminal_stuck failed t h = refl
terminal_stuck cancelled t h = refl
terminal_stuck interrupted t h = refl

-- A session that has reached a terminal state stays in it: every run of edges that starts there is
-- empty.
pub terminal_final : {s t : SessionState} → IsTerminal s → Reach s t → t ≡ s
terminal_final h here = refl
terminal_final h (next {t = t} {u = u} r e) =
    let same = terminal_final h r in ground (arith, terminal_stuck t u)

-- A state is terminal exactly when the table gives it no way out, and from a state that is not
-- terminal the crash recovery's edge to `interrupted` and the operator's edge to `cancelled` are
-- always there.
pub IsTerminal-iff_stuck :
    (s : SessionState)
    → (IsTerminal s × ((t : SessionState) → is_legal_transition s t ≡ false))
      ⊎ ((state_in s terminal_states ≡ false)
          × (is_legal_transition s interrupted ≡ true)
          × (is_legal_transition s cancelled ≡ true))
unfolding terminal_states is_legal_transition
IsTerminal-iff_stuck queued = inr (refl, refl, refl)
IsTerminal-iff_stuck running = inr (refl, refl, refl)
IsTerminal-iff_stuck paused = inr (refl, refl, refl)
IsTerminal-iff_stuck completed = inl (refl, λ t. terminal_stuck completed t refl)
IsTerminal-iff_stuck failed = inl (refl, λ t. terminal_stuck failed t refl)
IsTerminal-iff_stuck cancelled = inl (refl, λ t. terminal_stuck cancelled t refl)
IsTerminal-iff_stuck interrupted = inl (refl, λ t. terminal_stuck interrupted t refl)

ended_from :
    (s t : SessionState)
    → (t ≡ completed) ⊎ (t ≡ failed)
    → is_legal_transition s t ≡ true
    → s ≡ running
unfolding is_legal_transition
ended_from queued t c h = ground arith
ended_from running t c h = refl
ended_from paused t c h = ground arith
ended_from completed t c h = ground arith
ended_from failed t c h = ground arith
ended_from cancelled t c h = ground arith
ended_from interrupted t c h = ground arith

-- No queued session comes to `completed` or `failed` by the table without having been in `running`
-- right before: a run that ends there splits into a run to `running` and that last edge.
pub ended_through_running :
    {t : SessionState}
    → (t ≡ completed) ⊎ (t ≡ failed)
    → Reach queued t
    → Reach queued running × (is_legal_transition running t ≡ true)
ended_through_running c here = elim c [ inl e ↦ absurd (cc) | inr e ↦ absurd (cc) ]
ended_through_running c (next {t = s} {u = t} r e) =
    let from_running = ended_from s t c e in
    (
      subst (λ x. Reach queued x) from_running r,
      subst (λ x. is_legal_transition x t ≡ true) from_running e,
    )
