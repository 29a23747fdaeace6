-- ===== src/Adapter/IceTraffic/Early.antt =====
-- Game data that arrives over ICE before the game's address is known (internal/adapter/icepeer.go).
use mathlib.Core.List.{append_assoc, append-nil}
use fafsturmudprelay.Prelude.{
  ℕ, ◌≤◌, ◌≡◌, ◌≢◌, refl, sym, ap, ◌∙◌, Option, none, some, Bool, List, [], ◌∷◌, ◌++◌, Bytes,
  length, ltb, arith, All, take, take-all, take-append_full, length-append, Bool-cases, inl, inr,
  if◌then◌else◌,
}
use fafsturmudprelay.Relay.Session.Player.{AddrPort}
use fafsturmudprelay.Adapter.IceTraffic.{
  IceTraffic, Effect, write_game, writes, forward_data, ice_to_game, game_to_ice, faf_prefix_data,
  early_buf_cap, learn_addr,
}

-- What the loop writes for a list of payloads that arrive one after the other.
unfoldable pub receive_all : IceTraffic → List Bytes → ℕ → IceTraffic × List Effect
unfolding ice_to_game
receive_all p [] now = (p, [])
receive_all p (pkt ∷ pkts) now =
    let (p', sent) = ice_to_game p (faf_prefix_data ∷ pkt) now in
    let (p'', later) = receive_all p' pkts now in (p'', sent ++ later)

abbrev pub IsData : Bytes → Type 0
IsData pkt = pkt ≢ []

writes-append :
    (addr : AddrPort) (a b : List Bytes) → writes addr (a ++ b) ≡ writes addr a ++ writes addr b
writes-append addr [] b = refl
writes-append addr (x ∷ a) b =
    ap (λ (t : List Effect). write_game addr x ∷ t) (writes-append addr a b)

-- The rest of the loop after one packet.
abbrev and_then : List Bytes → ℕ → IceTraffic × List Effect → IceTraffic × List Effect
and_then pkts now (p, sent) = let r = receive_all p pkts now in (r.0, sent ++ r.1)

kept : IceTraffic → Bytes → List Bytes
kept p pkt =
    if ltb (length p.early_buf) early_buf_cap then p.early_buf ++ (pkt ∷ []) else p.early_buf

kept_lem :
    (p : IceTraffic) (pkt : Bytes)
    → p.game_addr ≡ none
    → pkt ≢ []
    → forward_data p pkt ≡ (record p { early_buf = kept p pkt }, [])
unfolding forward_data kept
kept_lem p [] unknown nonempty = elim (nonempty refl) [ ]
kept_lem p (b ∷ bs) unknown nonempty = ground (arith, unknown)

passed_lem :
    (p : IceTraffic) (addr : AddrPort) (pkt : Bytes)
    → p.game_addr ≡ some addr
    → pkt ≢ []
    → forward_data p pkt
      ≡ (record p { early_buf = [] }, writes addr p.early_buf ++ (write_game addr pkt ∷ []))
unfolding forward_data
passed_lem p addr [] known nonempty = elim (nonempty refl) [ ]
passed_lem p addr (b ∷ bs) known nonempty = ground (arith, known)

take-kept :
    (p : IceTraffic) (pkt : Bytes) (pkts : List Bytes)
    → length p.early_buf ≤ early_buf_cap
    → (length (kept p pkt) ≤ early_buf_cap)
      × (take early_buf_cap (kept p pkt ++ pkts) ≡ take early_buf_cap (p.early_buf ++ pkt ∷ pkts))
unfolding kept
take-kept p pkt pkts room = elim (Bool-cases (ltb (length p.early_buf) early_buf_cap)) [
  | inl e ↦ rw (e) (
    ground (arith, e, length-append p.early_buf (pkt ∷ [])),
    ap (take early_buf_cap) (append_assoc p.early_buf (pkt ∷ []) pkts),
  )
  | inr e ↦
      let full : length p.early_buf ≡ early_buf_cap = ground (arith, e, room) in
      rw (e) (
        room,
        take-append_full early_buf_cap p.early_buf pkts full
            ∙ sym (take-append_full early_buf_cap p.early_buf (pkt ∷ pkts) full),
      )
]

-- Before the address is known, nothing is written and the first 64 are kept.
keeps_early :
    (pkts : List Bytes) (p : IceTraffic) (now : ℕ)
    → p.game_addr ≡ none
    → length p.early_buf ≤ early_buf_cap
    → All IsData pkts
    → receive_all p pkts now
      ≡ (record p { early_buf = take early_buf_cap (p.early_buf ++ pkts) }, [])
unfolding receive_all
keeps_early [] p now unknown room h =
    ap (λ (q : List Bytes). (record p { early_buf = q }, []))
      (sym (
        ap (take early_buf_cap) (append-nil p.early_buf) ∙ take-all early_buf_cap p.early_buf room))
keeps_early (pkt ∷ pkts) p now unknown room h =
    let next = take-kept p pkt pkts room in
    ap (and_then pkts now) (kept_lem p pkt unknown h.0)
    ∙ keeps_early pkts (record p { early_buf = kept p pkt }) now unknown next.0 h.1
    ∙ ap (λ (q : List Bytes). (record p { early_buf = q }, [])) next.1

-- Once it is known and nothing is kept, each packet is written as it comes.
forwards :
    (pkts : List Bytes) (p : IceTraffic) (addr : AddrPort) (now : ℕ)
    → p.game_addr ≡ some addr
    → All IsData pkts
    → receive_all (record p { early_buf = [] }) pkts now
      ≡ (record p { early_buf = [] }, writes addr pkts)
unfolding receive_all
forwards [] p addr now known h = refl
forwards (pkt ∷ pkts) p addr now known h =
    ap (and_then pkts now) (passed_lem (record p { early_buf = [] }) addr pkt known h.0)
    ∙ ap (λ (r : IceTraffic × List Effect). (r.0, write_game addr pkt ∷ r.1))
        (forwards pkts p addr now known h.1)

-- The first packet then is written after all that is kept.
releases :
    (pkt : Bytes) (pkts : List Bytes) (p : IceTraffic) (addr : AddrPort) (now : ℕ)
    → p.game_addr ≡ some addr
    → All IsData (pkt ∷ pkts)
    → (receive_all p (pkt ∷ pkts) now).1 ≡ writes addr (p.early_buf ++ pkt ∷ pkts)
unfolding receive_all
releases pkt pkts p addr now known h =
    ap (λ (x : IceTraffic × List Effect). (and_then pkts now x).1) (passed_lem p addr pkt known h.0)
    ∙ ap
        (λ (r : IceTraffic × List Effect).
          (writes addr p.early_buf ++ (write_game addr pkt ∷ [])) ++ r.1)
        (forwards pkts p addr now known h.1)
    ∙ append_assoc (writes addr p.early_buf) (write_game addr pkt ∷ []) (writes addr pkts)
    ∙ sym (writes-append addr p.early_buf (pkt ∷ pkts))

-- A peer that has kept nothing yet and whose game has not sent a packet writes none of the game data
-- that arrives, `before`. When the game has sent its first packet from `addr`, the next game data,
-- `pkt` and `pkts`, makes it write to that address the first 64 of `before` and then the new ones,
-- each once and in order. No payload is empty.
pub early_data_in_order :
    (p : IceTraffic) (before : List Bytes) (now : ℕ) (addr : AddrPort) (packet : Bytes)
    (connected : Bool) (pkt : Bytes) (pkts : List Bytes) (later : ℕ)
    → p.game_addr ≡ none
    → p.early_buf ≡ []
    → All IsData before
    → All IsData (pkt ∷ pkts)
    → let (waiting, first) = receive_all p before now in
      let (known, out) = game_to_ice waiting addr packet connected in
      (first ≡ [])
      × ((receive_all known (pkt ∷ pkts) later).1
          ≡ writes addr (take early_buf_cap before ++ pkt ∷ pkts))
unfolding game_to_ice
early_data_in_order p before now addr packet connected pkt pkts later unknown empty hb ha =
    let kept_all =
      keeps_early before p now unknown (ground (arith, empty)) hb
      ∙ ap (λ (q : List Bytes). (record p { early_buf = take early_buf_cap (q ++ before) }, []))
          empty in
    (
      ap (λ (x : IceTraffic × List Effect). x.1) kept_all,
      ap
            (λ (x : IceTraffic × List Effect).
              (receive_all (game_to_ice x.0 addr packet connected).0 (pkt ∷ pkts) later).1)
            kept_all
          ∙ ap
              (λ (o : Option AddrPort).
                (receive_all
                  (record p {
                    early_buf = take early_buf_cap before;
                    game_addr = some (learn_addr o addr);
                  })
                  (pkt ∷ pkts) later).1)
              unknown
          ∙ releases pkt pkts
              (record p { early_buf = take early_buf_cap before; game_addr = some addr }) addr later
              refl ha,
    )
