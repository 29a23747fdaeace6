-- ===== src/Relay/Session/Rate.antt =====
-- The rate limit of internal/relay/session.go (CheckRate and its two callers).
use fafsturmudprelay.Prelude.{
  ℕ, ◌+◌, ◌-◌, ◌^◌, ◌≤◌, ◌<◌, ◌≡◌, refl, ap, ◌∙◌, some, Bool, true, false, List, [], ◌∷◌, arith,
  ◌==◌, ==_iff, nat_eq, if◌then◌else◌, All, length, inl, inr, Bool-cases,
}
use fafsturmudprelay.Relay.Session.Player.{
  PlayerInfo, unix, max_packets_per_second, player_update_addr, player_update_tcp,
}
use fafsturmudprelay.Relay.Session.{Session, get_player}
use fafsturmudprelay.Relay.Session.Packets.{
  Packet, from_udp, from_tcp, sender, time_of, is_accepted, accepted, packet_step, player_step,
  get_player-step, verdict-step,
}

-- The packets that are counted for second `sec`.
abbrev used : PlayerInfo → ℕ → ℕ
used p sec = if p.rate_second == sec then p.rate_pkts else 0

abbrev weight : Bool → ℕ
weight b = if b then 1 else 0

-- One packet of second `sec`: an accepted one is counted and within the limit, and no packet
-- lowers the count.
player_step-used :
    (p : PlayerInfo) (x : Packet) (sec : ℕ)
    → unix (time_of x) ≡ sec
    → used p sec + 1 < 2 ^ 32
    → (used p sec + weight (is_accepted (player_step p x).1) ≤ used (player_step p x).0 sec)
      × (used (player_step p x).0 sec ≤ used p sec + 1)
      × (is_accepted (player_step p x).1 ≡ true
          → used (player_step p x).0 sec ≤ max_packets_per_second)
unfolding player_step player_update_addr player_update_tcp
player_step-used p (from_udp id addr now) sec t room = (ground arith, ground arith, ground arith)
player_step-used p (from_tcp id conn now) sec t room = (ground arith, ground arith, ground arith)

-- The budget that one packet leaves for the rest.
rate_step :
    (a u u' : ℕ) (b : Bool)
    → a ≤ max_packets_per_second - u'
    → u + weight b ≤ u'
    → (b ≡ true → u' ≤ max_packets_per_second)
    → weight b + a ≤ max_packets_per_second - u
rate_step a u u' true h l m = omega (arith, m refl)
rate_step a u u' false h l m = omega arith

accepted-budget :
    (s : Session) (id sec : ℕ) (p : PlayerInfo) (packets : List Packet)
    → get_player s id ≡ some p
    → All (λ x. unix (time_of x) ≡ sec) packets
    → used p sec + length packets < 2 ^ 32
    → accepted id s packets ≤ max_packets_per_second - used p sec
unfolding accepted
accepted-budget s id sec p [] h t room = omega arith
accepted-budget s id sec p (x ∷ xs) h t room = elim (Bool-cases (sender x == id)) [
  | inl mine ↦
      let (lower, upper, limit) = player_step-used p x sec t.0 (omega arith) in
      let q : PlayerInfo = (player_step p x).0 in
      let v : (packet_step s x).1 ≡ (player_step p x).1 =
        verdict-step s x p (rw ((==_iff (sender x) id).0 mine) h) in
      let found : get_player (packet_step s x).0 id ≡ some q =
        get_player-step s x id p h ∙ ap some (ground (arith, mine)) in
      rw (mine, v)
        (rate_step _ (used p sec) (used q sec) (is_accepted (player_step p x).1)
          (accepted-budget (packet_step s x).0 id sec q xs found t.1 (omega arith)) lower limit)
  | inr other ↦
      let found : get_player (packet_step s x).0 id ≡ some p =
        get_player-step s x id p h ∙ ap some (ground (arith, other)) in
      rw other
        (omega (arith, accepted-budget (packet_step s x).0 id sec p xs found t.1 (omega arith)))
]

-- Whatever packets arrive within one second of the clock, over UDP and TCP and for any players, at
-- most 2000 that claim a given player are accepted, as long as the player's 32-bit counter
-- does not wrap.
pub accepted-le-max :
    (s : Session) (id sec : ℕ) (p : PlayerInfo) (packets : List Packet)
    → get_player s id ≡ some p
    → All (λ x. unix (time_of x) ≡ sec) packets
    → p.rate_pkts + length packets < 2 ^ 32
    → accepted id s packets ≤ max_packets_per_second
accepted-le-max s id sec p packets h t room =
    omega (arith, accepted-budget s id sec p packets h t (ground arith))
