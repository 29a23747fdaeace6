-- ===== src/Adapter/Status/Listing.antt =====
-- How internal/adapter/status.go lists the peers.
use fafsturmudprelay.Prelude.{ℕ, ◌≤◌, List, [], ◌∷◌, All, leb, arith, inl, inr, Bool-cases, leb→le}
use mathlib.Core.List.{Perm}
use mathlib.Core.List.Perm
use fafsturmudprelay.Adapter.IcePeer.{IcePeer}
use fafsturmudprelay.Adapter.RelayConnection.{RelayConnection}
use fafsturmudprelay.Adapter.RpcHandler.{Adapter, Config}
use fafsturmudprelay.Adapter.Status.{
  StatusRelay, IceView, put_in_order, sort_relays, relay_entries, build_status,
}

abbrev pub IsSorted : List StatusRelay → Type 0
IsSorted [] = Unit {0}
IsSorted (r ∷ rest) = All (λ (s : StatusRelay). r.added_order ≤ s.added_order) rest × IsSorted rest

All-below :
    (a b : ℕ) (rs : List StatusRelay)
    → a ≤ b
    → All (λ (s : StatusRelay). b ≤ s.added_order) rs
    → All (λ (s : StatusRelay). a ≤ s.added_order) rs
All-below a b [] h k = tt
All-below a b (r ∷ rs) h k = (omega arith, All-below a b rs h k.1)

All-put :
    (a : ℕ) (r : StatusRelay) (rs : List StatusRelay)
    → a ≤ r.added_order
    → All (λ (s : StatusRelay). a ≤ s.added_order) rs
    → All (λ (s : StatusRelay). a ≤ s.added_order) (put_in_order r rs)
unfolding put_in_order
All-put a r [] h k = (h, tt)
All-put a r (s ∷ rs) h k = elim (Bool-cases (leb r.added_order s.added_order)) [
  | inl e ↦ rw e (h, k)
  | inr e ↦ rw e (k.0, All-put a r rs h k.1)
]

put-IsSorted :
    (r : StatusRelay) (rs : List StatusRelay) → IsSorted rs → IsSorted (put_in_order r rs)
unfolding put_in_order
put-IsSorted r [] h = (tt, tt)
put-IsSorted r (s ∷ rs) h = elim (Bool-cases (leb r.added_order s.added_order)) [
  | inl e ↦
      let le : r.added_order ≤ s.added_order = leb→le r.added_order s.added_order e in
      rw e ((le, All-below r.added_order s.added_order rs le h.0), h)
  | inr e ↦
      let le : s.added_order ≤ r.added_order = ground (arith, e) in
      rw e (All-put s.added_order r rs le h.0, put-IsSorted r rs h.1)
]

put-perm : (r : StatusRelay) (rs : List StatusRelay) → Perm (put_in_order r rs) (r ∷ rs)
unfolding put_in_order
put-perm r [] = Perm.refl (r ∷ [])
put-perm r (s ∷ rs) = elim (Bool-cases (leb r.added_order s.added_order)) [
  | inl e ↦ rw e (Perm.refl (r ∷ s ∷ rs))
  | inr e ↦ rw e (Perm.trans (Perm.cons s (put-perm r rs)) (Perm.swap r s rs))
]

sort_relays_lem : (rs : List StatusRelay) → IsSorted (sort_relays rs) × Perm (sort_relays rs) rs
unfolding sort_relays
sort_relays_lem [] = (tt, Perm.refl [])
sort_relays_lem (r ∷ rs) =
    let rest = sort_relays_lem rs in
    (
      put-IsSorted r (sort_relays rs) rest.0,
      Perm.trans (put-perm r (sort_relays rs)) (Perm.cons r rest.1),
    )

-- A status lists every relay peer and every ICE peer once, each as it is shown, in the order in which the
-- peers were added.
pub status_lists_peers :
    {Float : Type 0} (port_of : ℕ → ℕ) (view : IcePeer → IceView) (rc : RelayConnection) (now : ℕ)
    (cfg : Config) (rpc_port gpgnet_port : ℕ) (a : Adapter Float)
    → let relays = (build_status port_of view rc now cfg rpc_port gpgnet_port a).relays in
      IsSorted relays × Perm relays (relay_entries port_of view rc now a.peer_mgr)
unfolding build_status
status_lists_peers port_of view rc now cfg rpc_port gpgnet_port a =
    sort_relays_lem (relay_entries port_of view rc now a.peer_mgr)
