-- ===== src/Adapter/IceRestart.antt =====
-- iceRestartCallback of internal/adapter/rpchandler.go. Times are nanoseconds of a clock that does not
-- run backwards; the zero time is none. What other goroutines do during the wait is the argument `waited`.
pub mod Capped
use fafsturmudprelay.Prelude.{
  ℕ, ◌+◌, ◌-◌, ◌*◌, ◌^◌, Option, none, some, Bool, true, false, not, ◌&&◌, List, [], ◌∷◌, Bytes,
  ltb, leb, length, ◌==◌, if◌then◌else◌,
}

abbrev pub second : ℕ
second = 10 ^ 9

abbrev pub stable_time : ℕ
stable_time = 60 * second

-- The variables that the closure shares, with the caller's lastConnectedAt.
pub record Restarts : Type 0 where
  pub consecutive_failures : ℕ
  pub since_connected_snapshot : ℕ
  pub last_connected_at : Option ℕ

abbrev pub new_restarts : Restarts
new_restarts = record {
  consecutive_failures = 0;
  since_connected_snapshot = 0;
  last_connected_at = none;
}

pub record IceMsg : Type 0 where
  pub ufrag : Bytes
  pub manual : Bool

pub data Waited : Type 0 where
  cancelled peer_gone peer_replaced same_peer : Waited

-- What becomes of the restart. `replace` says with which message the new peer starts, and whether it is
-- set to relay only and to send first.
pub data Decision : Type 0 where
  give_up : Decision
  abort : ℕ → Decision
  replace : (wait : ℕ) (initial_msg : Option IceMsg) (relay_only send_first : Bool) → Decision

unfoldable pub on_connected : Restarts → ℕ → Restarts
on_connected r now = record r { last_connected_at = some now }

abbrev pub on_manual : Restarts → Bool → Restarts
on_manual r true = record r { consecutive_failures = 0; since_connected_snapshot = 0 }
on_manual r false = r

-- time.Since of a connection, taken once.
abbrev pub take_snapshot : Restarts → Option ℕ → ℕ → Restarts
take_snapshot r none now = r
take_snapshot r (some at) now = record r {
  since_connected_snapshot = now - at;
  last_connected_at = none;
}

abbrev pub reset_if_stable : Restarts → Restarts
reset_if_stable r =
    if leb stable_time r.since_connected_snapshot
    then record r { consecutive_failures = 0; since_connected_snapshot = 0 }
    else r

-- The section under the lock.
unfoldable pub count_restart : Restarts → Bool → ℕ → Restarts
count_restart r manual now =
    let m = on_manual r manual in
    let counted = reset_if_stable (take_snapshot m m.last_connected_at now) in
    record counted { consecutive_failures = counted.consecutive_failures + 1 }

unfoldable pub backoff : ℕ → ℕ
backoff failures =
    let b = 2 ^ failures * (500 * 10 ^ 6) in if ltb (16 * second) b then 16 * second else b

abbrev pub self_initiated : IceMsg → Bool
self_initiated msg = length msg.ufrag == 0

abbrev pub short_lived : ℕ → Bool
short_lived snapshot = ltb 0 snapshot && ltb snapshot (45 * second)

abbrev pub new_peer_with : ℕ → IceMsg → Bool → ℕ → Decision
new_peer_with snapshot msg offerer wait =
    replace wait (if self_initiated msg then none else some msg) (short_lived snapshot)
      (self_initiated msg && not offerer)

abbrev pub after_wait : Waited → ℕ → Decision → Decision
after_wait same_peer wait go_on = go_on
after_wait _ wait go_on = abort wait

unfoldable pub decide : ℕ → ℕ → IceMsg → Bool → Waited → Decision
unfolding backoff
decide failures snapshot msg offerer waited =
    if ltb 5 failures
    then give_up
    else if self_initiated msg && not msg.manual
    then after_wait waited (backoff failures)
        (new_peer_with snapshot msg offerer (backoff failures))
    else new_peer_with snapshot msg offerer 0

unfoldable pub ice_restart_callback : Restarts → IceMsg → Bool → ℕ → Waited → Restarts × Decision
unfolding count_restart decide
ice_restart_callback r msg offerer now waited =
    let counted = count_restart r msg.manual now in
    (
      counted,
      decide counted.consecutive_failures counted.since_connected_snapshot msg offerer waited,
    )
