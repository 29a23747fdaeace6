-- ===== src/Adapter/PeerManager/Held.antt =====
-- Sockets of peers (internal/adapter/peermgr.go), told apart by the slot of the peer: its table and its id.
use fafsturmudprelay.Prelude.{
  ℕ, ◌≡◌, refl, sym, ap, ◌∙◌, Option, none, some, Bool, true, false, List, [], ◌∷◌, elem,
  if◌then◌else◌, ◌==◌, ==_iff, arith, Bool-cases, inl, inr, ◌↔◌,
}
use fafsturmudprelay.Adapter.IcePeer.{close_socket}

pub data Slot : Type 0 where
  relay ice : ℕ → Slot

abbrev pub slot_eq : Slot → Slot → Bool
slot_eq (relay a) (relay b) = a == b
slot_eq (ice a) (ice b) = a == b
slot_eq _ _ = false

pub slot_eq_iff : (s t : Slot) → (slot_eq s t ≡ true) ↔ (s ≡ t)
slot_eq_iff (relay a) (relay b) = ground (arith, ==_iff a b)
slot_eq_iff (relay a) (ice b) = ground arith
slot_eq_iff (ice a) (relay b) = ground arith
slot_eq_iff (ice a) (ice b) = ground (arith, ==_iff a b)

-- Each peer's socket is open, and no two peers have the same one.
abbrev pub HeldBy : (Slot → Option ℕ) → List ℕ → Type 0
HeldBy f open_sockets =
    ((s : Slot) (k : ℕ) → f s ≡ some k → elem k open_sockets ≡ true)
    × ((s t : Slot) (k : ℕ) → f s ≡ some k → f t ≡ some k → s ≡ t)

abbrev pub closed_at : Option ℕ → List ℕ → List ℕ
closed_at none open_sockets = open_sockets
closed_at (some k) open_sockets = close_socket k open_sockets

elem-close_socket :
    (k j : ℕ) (open_sockets : List ℕ)
    → elem j (close_socket k open_sockets) ≡ (if k == j then false else elem j open_sockets)
unfolding close_socket
elem-close_socket k j [] = ground arith
elem-close_socket k j (s ∷ open_sockets) = ground (arith, elem-close_socket k j open_sockets)

-- A slot that is given the socket it has.
pub slot-same :
    (f : Slot → Option ℕ) (at s : Slot) (v : Option ℕ)
    → f at ≡ v
    → (if slot_eq at s then v else f s) ≡ f s
slot-same f at s v e = elim (Bool-cases (slot_eq at s)) [
  | inl same ↦ rw (same) (sym e ∙ ap f ((slot_eq_iff at s).0 same))
  | inr other ↦ rw (other) refl
]

module _ (f g : Slot → Option ℕ) (open_sockets : List ℕ) where
  pub HeldBy-same : ((s : Slot) → g s ≡ f s) → HeldBy f open_sockets → HeldBy g open_sockets
  HeldBy-same e h = (
    λ s k there. h.0 s k (sym (e s) ∙ there),
    λ s t k a b. h.1 s t k (sym (e s) ∙ a) (sym (e t) ∙ b),
  )

  pub HeldBy-grow :
      (at : Slot) (k : ℕ)
      → ((s : Slot) → g s ≡ (if slot_eq at s then some k else f s))
      → elem k open_sockets ≡ false
      → HeldBy f open_sockets
      → HeldBy g (k ∷ open_sockets)
  HeldBy-grow at k e fresh h = (
    λ s j there. ground (arith, e s, there, h.0 s j, ==_iff k j),
    λ s t j a b. ground (
      arith,
      e s,
      e t,
      a,
      b,
      slot_eq_iff at s,
      slot_eq_iff at t,
      h.1 s t j,
      h.0 s j,
      h.0 t j,
      fresh,
    ),
  )

  pub HeldBy-drop :
      (at : Slot)
      → ((s : Slot) → g s ≡ (if slot_eq at s then none else f s))
      → HeldBy f open_sockets
      → HeldBy g open_sockets
  HeldBy-drop at e h = (
    λ s k there. ground (arith, e s, there, h.0 s k),
    λ s t k a b. ground (arith, e s, e t, a, b, h.1 s t k),
  )

  pub HeldBy-close :
      (at : Slot) (v : Option ℕ)
      → f at ≡ v
      → ((s : Slot) → g s ≡ (if slot_eq at s then none else f s))
      → HeldBy f open_sockets
      → HeldBy g (closed_at v open_sockets)
  HeldBy-close at none there e h = HeldBy-drop at e h
  HeldBy-close at (some k) there e h = (
    λ s j here. ground (
      arith,
      e s,
      here,
      elem-close_socket k j open_sockets,
      h.0 s j,
      h.1 at s j,
      there,
      slot_eq_iff at s,
      ==_iff k j,
    ),
    (HeldBy-drop at e h).1,
  )
