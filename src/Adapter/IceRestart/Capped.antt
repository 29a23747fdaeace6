-- ===== src/Adapter/IceRestart/Capped.antt =====
-- How often iceRestartCallback of internal/adapter/rpchandler.go lets a restart through.
use fafsturmudprelay.Prelude.{
  ℕ, ◌+◌, ◌-◌, ◌≤◌, ◌<◌, ◌≡◌, refl, ap, ap₂, ◌∙◌, Option, none, some, Bool, true, false, List, [],
  ◌∷◌, length, ltb, leb, arith, All, if◌then◌else◌, not, ◌&&◌,
}
use fafsturmudprelay.Adapter.IceRestart.{
  Restarts, new_restarts, IceMsg, Waited, cancelled, peer_gone, peer_replaced, same_peer, Decision,
  give_up, abort, replace, second, stable_time, on_connected, count_restart, ice_restart_callback,
  decide, backoff, new_peer_with, self_initiated,
}

-- One round: the time of a connection that was made since the last restart, if one was, and the restart.
pub record Round : Type 0 where
  pub connected : Option ℕ
  pub restarted : ℕ
  pub msg : IceMsg
  pub waited : Waited

abbrev pub connect : Restarts → Option ℕ → Restarts
connect r none = r
connect r (some at) = on_connected r at

abbrev pub IsBrief : Option ℕ → ℕ → Type 0
IsBrief none now = Unit {0}
IsBrief (some at) now = now - at < stable_time

-- No restart by hand, and no connection that held for a minute.
abbrev pub IsShort : Round → Type 0
IsShort x = (x.msg.manual ≡ false) × IsBrief x.connected x.restarted

abbrev pub is_refused : Decision → Bool
is_refused give_up = true
is_refused (abort wait) = false
is_refused (replace wait initial_msg relay_only send_first) = false

-- How many of the decisions are not to give up.
abbrev pub let_through : List Decision → ℕ
let_through [] = 0
let_through (d ∷ ds) = if is_refused d then let_through ds else 1 + let_through ds

abbrev pub at_most : ℕ → ℕ → ℕ
at_most a b = if leb a b then a else b

module _ (offerer : Bool) where
  unfoldable pub rounds : Restarts → List Round → List Decision
  unfolding ice_restart_callback on_connected
  rounds r [] = []
  rounds r (x ∷ xs) =
      let (r', d) =
        ice_restart_callback (connect r x.connected) x.msg offerer x.restarted x.waited in
      d ∷ rounds r' xs

  count_short :
      (r : Restarts) (connected : Option ℕ) (manual : Bool) (now : ℕ)
      → r.last_connected_at ≡ none
      → r.since_connected_snapshot < stable_time
      → manual ≡ false
      → IsBrief connected now
      → let c = count_restart (connect r connected) manual now in
        (c.consecutive_failures ≡ r.consecutive_failures + 1)
        × (c.last_connected_at ≡ none)
        × (c.since_connected_snapshot < stable_time)
  unfolding count_restart on_connected
  count_short r none true now none_since short m brief = cc
  count_short r none false now none_since short m brief = rw (none_since) (ground (arith, short))
  count_short r (some at) true now none_since short m brief = cc
  count_short r (some at) false now none_since short m brief = ground (arith, brief)

  refused_iff :
      (failures snapshot : ℕ) (msg : IceMsg) (waited : Waited)
      → is_refused (decide failures snapshot msg offerer waited) ≡ ltb 5 failures
  unfolding decide
  refused_iff failures snapshot msg cancelled = ground arith
  refused_iff failures snapshot msg peer_gone = ground arith
  refused_iff failures snapshot msg peer_replaced = ground arith
  refused_iff failures snapshot msg same_peer = ground arith

  let_through_lem :
      (xs : List Round) (r : Restarts)
      → r.last_connected_at ≡ none
      → r.since_connected_snapshot < stable_time
      → All IsShort xs
      → let_through (rounds r xs) ≡ at_most (5 - r.consecutive_failures) (length xs)
  unfolding rounds ice_restart_callback count_restart
  let_through_lem [] r none_since short h = ground arith
  let_through_lem (x ∷ xs) r none_since short h =
      let c = count_restart (connect r x.connected) x.msg.manual x.restarted in
      let counted =
        count_short r x.connected x.msg.manual x.restarted none_since short h.0.0 h.0.1 in
      let rest = let_through_lem xs c counted.1 counted.2 h.1 in
      let refused = refused_iff c.consecutive_failures c.since_connected_snapshot x.msg x.waited in
      ap₂ (λ (b : Bool) (n : ℕ). if b then n else 1 + n) refused rest
      ∙ ap (λ f. if ltb 5 f then at_most (5 - f) (length xs) else 1 + at_most (5 - f) (length xs))
          counted.0
      ∙ ground arith

-- However the peer flaps, of the restarts after the first connection is set up only the first five go
-- ahead, and every later one is given up, as long as no connection holds for a minute and none is asked
-- for by hand.
pub flapping_is_capped :
    (offerer : Bool) (xs : List Round)
    → All IsShort xs
    → let_through (rounds offerer new_restarts xs) ≡ at_most 5 (length xs)
flapping_is_capped offerer xs h = let_through_lem offerer xs new_restarts refl (omega arith) h

if-apply :
    {A B : Type 0} (b : Bool) (f : A → B) (x y : A)
    → (if b then f x else f y) ≡ f (if b then x else y)
if-apply true f x y = refl
if-apply false f x y = refl

count_stable :
    (r : Restarts) (at now : ℕ) (manual : Bool)
    → leb stable_time (now - at) ≡ true
    → count_restart (on_connected r at) manual now
      ≡ record new_restarts { consecutive_failures = 1 }
unfolding count_restart on_connected
count_stable r at now true h = rw (h) refl
count_stable r at now false h = rw (h) refl

-- A connection that held for a minute or longer starts the count again: the restart after it is let
-- through with one failure counted, and if it is the peer's own it waits one second.
pub stable_connection_resets :
    (r : Restarts) (msg : IceMsg) (offerer : Bool) (at now : ℕ)
    → at + stable_time ≤ now
    → let (r', d) = ice_restart_callback (on_connected r at) msg offerer now same_peer in
      (r'.consecutive_failures ≡ 1)
      × (d
          ≡ new_peer_with 0 msg offerer
              (if self_initiated msg && not msg.manual then second else 0))
unfolding ice_restart_callback on_connected count_restart decide backoff
stable_connection_resets r msg offerer at now stable =
    let counted = count_stable r at now msg.manual (ground (arith, stable)) in
    (
      ap (λ (c : Restarts). c.consecutive_failures) counted,
      ap
            (λ (c : Restarts).
              decide c.consecutive_failures c.since_connected_snapshot msg offerer same_peer)
            counted
          ∙ if-apply (self_initiated msg && not msg.manual) (new_peer_with 0 msg offerer) second 0,
    )
