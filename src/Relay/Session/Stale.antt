-- ===== src/Relay/Session/Stale.antt =====
-- The two looks at stale players in internal/relay/session.go, StalePlayers and
-- RemovePlayerIfStale, agree.
use fafsturmudprelay.Prelude.{
  ℕ, ◌≡◌, refl, Option, none, some, Bool, false, ◌&&◌, List, [], ◌∷◌, arith, ◌==◌, ==_iff, nat_eq,
  if◌then◌else◌, elem,
}
use fafsturmudprelay.Prelude.Map.{lookup, Unique, lookup-delete}
use fafsturmudprelay.Relay.Session.Player.{PlayerInfo}
use fafsturmudprelay.Relay.Session.{
  Session, is_stale, stale_from, stale_players, remove_player_if_stale, get_player,
}

abbrev stale_at : Session → ℕ → ℕ → Option PlayerInfo → Bool
stale_at s timeout now none = false
stale_at s timeout now (some p) = is_stale s p timeout now

elem-stale_from :
    (s : Session) (timeout now id : ℕ) (players : List (ℕ × PlayerInfo))
    → Unique players
    → elem id (stale_from s timeout now players) ≡ stale_at s timeout now (lookup id players)
unfolding stale_from lookup
elem-stale_from s timeout now id [] u = refl
elem-stale_from s timeout now id ((k, p) ∷ rest) u =
    ground (arith, elem-stale_from s timeout now id rest u.1, ==_iff k id)

-- At one and the same time a player is removed exactly if StalePlayers lists it; a player who is
-- not removed stays as it was, and so does every other player.
pub remove-iff-listed :
    (s : Session) (id timeout now other : ℕ)
    → Unique s.players
    → ((remove_player_if_stale s id timeout now).1 ≡ elem id (stale_players s timeout now))
      × (get_player (remove_player_if_stale s id timeout now).0 other ≡ (
          if id == other && elem id (stale_players s timeout now)
          then none
          else get_player s other))
unfolding remove_player_if_stale stale_players get_player
remove-iff-listed s id timeout now other u = (
  ground (arith, elem-stale_from s timeout now id s.players u),
  ground (
    arith,
    elem-stale_from s timeout now id s.players u,
    lookup-delete id other s.players,
    ==_iff id other,
  ),
)
