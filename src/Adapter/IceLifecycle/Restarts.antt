-- ===== src/Adapter/IceLifecycle/Restarts.antt =====
-- How often an ICE peer of internal/adapter/icepeer.go asks for its own replacement.
use fafsturmudprelay.Prelude.{
  ℕ, suc, ◌+◌, ◌≤◌, ◌≡◌, refl, ◌∙◌, Bool, true, false, ◌||◌, List, [], ◌∷◌, ◌++◌, if◌then◌else◌,
  arith,
}
use fafsturmudprelay.Adapter.IceLifecycle.{
  Life, Effect, tell_connected, automatic_restart, manual_restart, remote_restart, new, checking,
  connected, completed, disconnected, failed, closed, Event, state_changed, delay_ended,
  dial_failed, forced, context_ended, credentials_failed, read_failed, new_credentials, handle,
  handle_all,
}

abbrev pub automatic : List Effect → ℕ
automatic [] = 0
automatic (automatic_restart ∷ es) = suc (automatic es)
automatic (tell_connected ∷ es) = automatic es
automatic (manual_restart ∷ es) = automatic es
automatic (remote_restart msg ∷ es) = automatic es

automatic-append : (xs ys : List Effect) → automatic (xs ++ ys) ≡ automatic xs + automatic ys
automatic-append [] ys = omega arith
automatic-append (automatic_restart ∷ xs) ys = omega (arith, automatic-append xs ys)
automatic-append (tell_connected ∷ xs) ys = automatic-append xs ys
automatic-append (manual_restart ∷ xs) ys = automatic-append xs ys
automatic-append (remote_restart msg ∷ xs) ys = automatic-append xs ys

-- One step asks for a restart only by using up restartOnce.
abbrev one : Bool → ℕ
one true = 1
one false = 0

step_counts :
    (p : Life) (e : Event) → automatic (handle p e).1 + one p.fired ≡ one (handle p e).0.fired
unfolding handle
step_counts p (state_changed new now) = ground arith
step_counts p (state_changed checking now) = ground arith
step_counts p (state_changed connected now) = ground arith
step_counts p (state_changed completed now) = ground arith
step_counts p (state_changed disconnected now) = ground arith
step_counts p (state_changed failed now) = ground arith
step_counts p (state_changed closed now) = ground arith
step_counts p delay_ended = ground arith
step_counts p dial_failed = ground arith
step_counts p forced = ground arith
step_counts p context_ended = ground arith
step_counts p credentials_failed = ground arith
step_counts p read_failed = ground arith
step_counts p (new_credentials msg) = ground arith

all_count :
    (p : Life) (es : List Event)
    → automatic (handle_all p es).1 + one p.fired ≡ one (handle_all p es).0.fired
unfolding handle_all
all_count p [] = omega arith
all_count p (e ∷ es) =
    let q = (handle p e).0 in
    omega
      (arith, step_counts p e, all_count q es, automatic-append (handle p e).1 (handle_all q es).1)

-- What a restart of an offerer follows: the state Failed, and a dial that fails.
abbrev pub calls_for_restart : Event → Bool
calls_for_restart (state_changed failed now) = true
calls_for_restart (state_changed new now) = false
calls_for_restart (state_changed checking now) = false
calls_for_restart (state_changed connected now) = false
calls_for_restart (state_changed completed now) = false
calls_for_restart (state_changed disconnected now) = false
calls_for_restart (state_changed closed now) = false
calls_for_restart dial_failed = true
calls_for_restart delay_ended = false
calls_for_restart forced = false
calls_for_restart context_ended = false
calls_for_restart credentials_failed = false
calls_for_restart read_failed = false
calls_for_restart (new_credentials msg) = false

abbrev pub any_call_for_restart : List Event → Bool
any_call_for_restart [] = false
any_call_for_restart (e ∷ es) = calls_for_restart e || any_call_for_restart es

-- An offerer with a restart callback, for which no goroutine waits.
abbrev pub IsOfferer : Life → Type 0
IsOfferer p = (p.offerer ≡ true) × (p.has_restart ≡ true) × (p.pending ≡ 0)

step-IsOfferer :
    (p : Life) (e : Event)
    → IsOfferer p
    → IsOfferer (handle p e).0 × ((handle p e).0.fired ≡ (p.fired || calls_for_restart e))
unfolding handle
step-IsOfferer p (state_changed new now) h = ground (arith, h)
step-IsOfferer p (state_changed checking now) h = ground (arith, h)
step-IsOfferer p (state_changed connected now) h = ground (arith, h)
step-IsOfferer p (state_changed completed now) h = ground (arith, h)
step-IsOfferer p (state_changed disconnected now) h = ground (arith, h)
step-IsOfferer p (state_changed failed now) h = ground (arith, h)
step-IsOfferer p (state_changed closed now) h = ground (arith, h)
step-IsOfferer p delay_ended h = rw (h.2, handle) ((h.0, h.1, refl), ground arith)
step-IsOfferer p dial_failed h = ground (arith, h)
step-IsOfferer p forced h = ground (arith, h)
step-IsOfferer p context_ended h = ground (arith, h)
step-IsOfferer p credentials_failed h = ground (arith, h)
step-IsOfferer p read_failed h = ground (arith, h)
step-IsOfferer p (new_credentials msg) h = ground (arith, h)

fired_at_end :
    (p : Life) (es : List Event)
    → IsOfferer p
    → (handle_all p es).0.fired ≡ (p.fired || any_call_for_restart es)
unfolding handle_all
fired_at_end p [] h = ground arith
fired_at_end p (e ∷ es) h =
    let step = step-IsOfferer p e h in
    fired_at_end (handle p e).0 es step.0 ∙ ground (arith, step.1)

-- Whatever happens to an offerer that has a restart callback, in any order - states that the agent reports,
-- a failed dial, missing local credentials, a failed read, restarts by hand or by the remote peer, a
-- cancelled context - it asks for its own replacement exactly once if the agent has reported the state
-- Failed or a dial has failed. If neither has happened it never does, though its credentials or a read
-- failed. No goroutine waits at the start, and restartOnce has not run.
pub offerer_restarts_once :
    (p : Life) (es : List Event)
    → IsOfferer p
    → p.fired ≡ false
    → automatic (handle_all p es).1 ≡ (if any_call_for_restart es then 1 else 0)
offerer_restarts_once p es h fresh = ground (arith, all_count p es, fired_at_end p es h, fresh)

-- And an answerer at most once.
pub restarts-le-one : (p : Life) (es : List Event) → automatic (handle_all p es).1 ≤ 1
restarts-le-one p es = ground (arith, all_count p es)
