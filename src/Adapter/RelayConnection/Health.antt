-- ===== src/Adapter/RelayConnection/Health.antt =====
-- RunHealthMonitor of internal/adapter/relayconn.go over any ticks of its timer.
use fafsturmudprelay.Prelude.{ℕ, ◌≡◌, refl, Bool, true, false, not, List, [], ◌∷◌, if◌then◌else◌}
use fafsturmudprelay.Adapter.RelayConnection.{RelayConnection, is_healthy}

-- The connection at a tick, and the time of the tick.
pub record Tick : Type 0 where
  pub connection : RelayConnection
  pub now : ℕ

abbrev pub same : Bool → Bool → Bool
same true b = b
same false b = not b

-- What onStateChange is called with, after `was_reachable`.
unfoldable pub health_changes : Bool → List Tick → List Bool
unfolding is_healthy
health_changes was_reachable [] = []
health_changes was_reachable (t ∷ ticks) =
    let reachable = is_healthy t.connection t.now in
    let rest = health_changes reachable ticks in
    if same reachable was_reachable then rest else reachable ∷ rest

unfoldable pub run_health_monitor : List Tick → List Bool
unfolding health_changes
run_health_monitor ticks = health_changes false ticks

abbrev pub Alternates : Bool → List Bool → Type 0
Alternates b [] = Unit {0}
Alternates b (c ∷ cs) = (c ≡ not b) × Alternates c cs

abbrev pub last_of : Bool → List Bool → Bool
last_of b [] = b
last_of b (c ∷ cs) = last_of c cs

abbrev pub reachable_at : Bool → List Tick → Bool
reachable_at b [] = b
reachable_at b (t ∷ ticks) = reachable_at (is_healthy t.connection t.now) ticks

-- One tick, by what it finds and what was found before.
one_tick :
    (reachable was : Bool) (rest : List Bool) (end : Bool)
    → Alternates reachable rest
    → last_of reachable rest ≡ end
    → let changes = if same reachable was then rest else reachable ∷ rest in
      Alternates was changes × (last_of was changes ≡ end)
one_tick true true rest end h e = (h, e)
one_tick true false rest end h e = ((refl, h), e)
one_tick false true rest end h e = ((refl, h), e)
one_tick false false rest end h e = (h, e)

changes_lem :
    (ticks : List Tick) (was : Bool)
    → Alternates was (health_changes was ticks)
      × (last_of was (health_changes was ticks) ≡ reachable_at was ticks)
unfolding health_changes
changes_lem [] was = (tt, refl)
changes_lem (t ∷ ticks) was =
    let reachable = is_healthy t.connection t.now in
    let rest = changes_lem ticks reachable in
    one_tick reachable was (health_changes reachable ticks) (reachable_at reachable ticks) rest.0
      rest.1

-- The calls of onStateChange alternate, beginning with true, and the last one says whether the relay was
-- reachable at the last tick; if there is no call, it was not.
pub health_is_reported :
    (ticks : List Tick)
    → Alternates false (run_health_monitor ticks)
      × (last_of false (run_health_monitor ticks) ≡ reachable_at false ticks)
unfolding run_health_monitor
health_is_reported ticks = changes_lem ticks false
