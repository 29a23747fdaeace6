-- ===== src/Registration/Lobby.antt =====
-- What registering with the relay server brings about, for the player and for the others of the game.
use fafsturmudprelay.Prelude.{
  ℕ, ◌<◌, ◌^◌, ◌≡◌, inl, inr, true, Bool-cases, ltb, Bytes, arith, get_elem?, is_some, some, nat_eq,
  bytes_eq,
}
use fafsturmudprelay.Prelude.Map.{lookup}
use fafsturmudprelay.Outcome.{Outcome, ok, err, panic}
use fafsturmudprelay.Relay.Session.{Session}
use fafsturmudprelay.Relay.SessionManager.{Manager, find_session_by_player}
use fafsturmudprelay.Relay.SessionManager.Placed.{PlacedIn}
use fafsturmudprelay.Relay.SessionManager.Join.{indexed_session}
use fafsturmudprelay.Relay.SessionManager.Consistency.{Consistent}
use fafsturmudprelay.Relay.SessionManager.Reach.{Reach, Reach-Consistent}
use fafsturmudprelay.Relay.HttpApi.Guards.{serve_http-Reach}
use fafsturmudprelay.Adapter.RelayHttp.{
  RelayConfig, Bodies, HttpRequest, session_id, register_with_relay, join_session, join_if_created,
  RegisterError, no_answer,
}
use fafsturmudprelay.Prelude.Int.{ℤ, pos, negsuc}
use fafsturmudprelay.Registration.{uint32_of, Server, Site, Agrees, serve, received}
use fafsturmudprelay.Registration.Join.{join_session-PlacedIn}

pub serve-Reach :
    (server : Server) (site : Site) (r : HttpRequest)
    → Reach site.api.manager
    → Reach (serve server site r).0.api.manager
unfolding serve
serve-Reach server site r h =
    serve_http-Reach server.decode_session server.decode_join server.decode_leave server.route
      site.api (received server r) (server.now site.requests) (server.unix site.requests) h

-- The player has a session, it is that of the game, and the player stands in it.
abbrev pub InSession : Manager → Bytes → ℕ → Type 0
InSession m sid pid =
    (ref : ℕ) × (s : Session) × (find_session_by_player m pid ≡ some ref)
    × (lookup sid m.sessions ≡ some ref)
    × (get_elem? m.heap ref ≡ some s)
    × (is_some (lookup pid s.players) ≡ true)

-- The same for a player id of the adapter's.
abbrev pub InSessionAs : Manager → Bytes → ℤ → Type 0
InSessionAs m sid player_id =
    (pid : ℕ) × (player_id ≡ pos pid) × (pid < 2 ^ 32) × InSession m sid pid

decoded_id :
    (player_id : ℤ) (pid : ℕ)
    → uint32_of player_id ≡ some pid
    → (player_id ≡ pos pid) × (pid < 2 ^ 32)
decoded_id (pos n) pid h = elim (Bool-cases (ltb n (2 ^ 32))) [
  | inl small ↦ ground (arith, h, small)
  | inr big ↦ ground (arith, h, big)
]
decoded_id (negsuc n) pid h = cc

placed-InSession :
    (m : Manager) (sid : Bytes) (pid : ℕ) → Consistent m → PlacedIn sid pid m → InSession m sid pid
unfolding find_session_by_player
placed-InSession m sid pid c (placed, here) =
    let (ref, s, at, stored, present) = indexed_session m sid pid c placed in
    (ref, s, ground (arith, placed, at), at, stored, present)

never_registered :
    (e : RegisterError) → ◌≡◌ {A = Outcome RegisterError (Unit {0})} (err e) (ok tt) → ⊥
never_registered e h = cc

module _ (server : Server) (json : Bodies) (cfg : RelayConfig)
    (agrees : Agrees server json cfg) where
  join-Reach :
      (site : Site)
      → Reach site.api.manager
      → Reach (join_session (serve server) json cfg site).0.api.manager
  unfolding join_session
  join-Reach site h = serve-Reach server site _ h

  joined-InSession :
      (site : Site) (created : Outcome RegisterError (Unit {0}))
      → Reach site.api.manager
      → (join_if_created (serve server) json cfg site created).1 ≡ ok tt
      → InSessionAs
          (join_if_created (serve server) json cfg site created).0.api.manager
          (session_id cfg.game_id)
          cfg.player_id
  joined-InSession site (ok u) reached h =
      let (pid, decoded, placed) = join_session-PlacedIn server json cfg agrees site h in
      let (same, word) = decoded_id cfg.player_id pid decoded in
      (
        pid,
        same,
        word,
        placed-InSession _ (session_id cfg.game_id) pid
            (Reach-Consistent _ (join-Reach site reached)) placed,
      )
  joined-InSession site (err e) reached h = absurd (never_registered e h)
  joined-InSession site panic reached h = absurd (never_registered no_answer (cc))

  pub registered-InSession :
      (site : Site)
      → Reach site.api.manager
      → (register_with_relay (serve server) json cfg site).1 ≡ ok tt
      → InSessionAs
          (register_with_relay (serve server) json cfg site).0.api.manager
          (session_id cfg.game_id)
          cfg.player_id
  unfolding register_with_relay
  registered-InSession site reached h = joined-InSession _ _ (serve-Reach server site _ reached) h
