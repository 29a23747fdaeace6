-- ===== src/Adapter/RelayConnection/Backoff.antt =====
-- reconnectTCP of internal/adapter/relayconn.go. A dial gives a connection or none; the end of the list
-- of dials is a cancelled context. Times are nanoseconds.
use fafsturmudprelay.Prelude.{
  ℕ, zero, suc, ◌*◌, ◌^◌, ◌≤◌, ◌≡◌, refl, Option, none, some, Bool, true, false, List, [], ◌∷◌, ltb,
  arith, if◌then◌else◌,
}
use fafsturmudprelay.Outcome.{ok}
use fafsturmudprelay.Adapter.RelayConnection.{
  RelayConnection, Written, send_hello, build_packet, written_for, write_tcp_frame,
}
use fafsturmudprelay.Protocol.RelayWire.{encode_relay_header}

abbrev pub one_second : ℕ
one_second = 10 ^ 9

abbrev pub max_backoff : ℕ
max_backoff = 30 * one_second

abbrev pub next_backoff : ℕ → ℕ
next_backoff backoff = if ltb max_backoff (backoff * 2) then max_backoff else backoff * 2

pub record Reconnect : Type 0 where
  pub connection : RelayConnection
  pub waits : List ℕ
  pub connected : Bool

-- The hello after a reconnection; its failure is only logged.
unfoldable pub greet : (Written → Bool) → RelayConnection → ℕ → RelayConnection
greet net rc now = elim (send_hello net rc now) [ ok (rc', written, taken) ↦ rc' | _ ↦ rc ]

module _ (net : Written → Bool) (now : ℕ) where
  unfoldable pub reconnect_from : ℕ → RelayConnection → List (Option ℕ) → Reconnect
  unfolding greet
  reconnect_from backoff rc [] = record { connection = rc; waits = []; connected = false }
  reconnect_from backoff rc (some conn ∷ dials) = record {
    connection = greet net (record rc { tcp_conn = some conn }) now;
    waits = [];
    connected = true;
  }
  reconnect_from backoff rc (none ∷ dials) =
      let later = reconnect_from (next_backoff backoff) rc dials in
      record later { waits = backoff ∷ later.waits }

  unfoldable pub reconnect_tcp : RelayConnection → List (Option ℕ) → Reconnect
  unfolding reconnect_from
  reconnect_tcp rc dials = reconnect_from (2 * one_second) rc dials

-- `n` dials that fail.
abbrev pub failures : ℕ → List (Option ℕ) → List (Option ℕ)
failures zero dials = dials
failures (suc n) dials = none ∷ failures n dials

-- The waits that are meant: 2, 4, 8 and 16 seconds, and then 30 each time.
abbrev pub wait_number : ℕ → ℕ
wait_number zero = 2 * one_second
wait_number (suc zero) = 4 * one_second
wait_number (suc (suc zero)) = 8 * one_second
wait_number (suc (suc (suc zero))) = 16 * one_second
wait_number (suc (suc (suc (suc n)))) = 30 * one_second

abbrev pub waits_from : ℕ → ℕ → List ℕ
waits_from k zero = []
waits_from k (suc n) = wait_number k ∷ waits_from (suc k) n

next-wait_number : (k : ℕ) → next_backoff (wait_number k) ≡ wait_number (suc k)
next-wait_number zero = refl
next-wait_number (suc zero) = refl
next-wait_number (suc (suc zero)) = refl
next-wait_number (suc (suc (suc zero))) = refl
next-wait_number (suc (suc (suc (suc n)))) = refl

wait_number-le : (k : ℕ) → wait_number k ≤ max_backoff
wait_number-le zero = omega arith
wait_number-le (suc zero) = omega arith
wait_number-le (suc (suc zero)) = omega arith
wait_number-le (suc (suc (suc zero))) = omega arith
wait_number-le (suc (suc (suc (suc n)))) = omega arith

-- A hello leaves the connection itself as it is.
pub greet_keeps :
    (net : Written → Bool) (rc : RelayConnection) (now : ℕ)
    → ((greet net rc now).tcp_conn ≡ rc.tcp_conn) × ((greet net rc now).use_tcp ≡ rc.use_tcp)
unfolding greet send_hello build_packet written_for encode_relay_header write_tcp_frame
greet_keeps net rc now = ground arith

module _ (net : Written → Bool) (now conn : ℕ) (dials : List (Option ℕ)) where
  reconnect_from_lem :
      (k n : ℕ) (rc : RelayConnection)
      → let r = reconnect_from net now (wait_number k) rc (failures n (some conn ∷ dials)) in
        (r.connected ≡ true)
        × (r.waits ≡ waits_from k n)
        × (r.connection.tcp_conn ≡ some conn)
        × (r.connection.use_tcp ≡ rc.use_tcp)
  unfolding reconnect_from
  reconnect_from_lem k zero rc =
      let kept = greet_keeps net (record rc { tcp_conn = some conn }) now in
      (refl, refl, kept.0, kept.1)
  reconnect_from_lem k (suc n) rc =
      let later = reconnect_from_lem (suc k) n rc in
      let e = next-wait_number k in ground (arith, later, e)

-- After any number `n` of failed dials the first dial that succeeds restores the connection: it ends
-- connected, the new connection is in place in the same mode, and the waits before the dials that
-- failed were 2, 4, 8 and 16 seconds and then 30 each.
pub reconnects :
    (net : Written → Bool) (now conn : ℕ) (dials : List (Option ℕ)) (n : ℕ) (rc : RelayConnection)
    → let r = reconnect_tcp net now rc (failures n (some conn ∷ dials)) in
      (r.connected ≡ true)
      × (r.waits ≡ waits_from 0 n)
      × (r.connection.tcp_conn ≡ some conn)
      × (r.connection.use_tcp ≡ rc.use_tcp)
unfolding reconnect_tcp
reconnects net now conn dials n rc = reconnect_from_lem net now conn dials 0 n rc
