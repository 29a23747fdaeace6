-- ===== src/Adapter/GpgnetServer/Order.antt =====
-- The order in which a game gets the messages for it (gpgnetserver.go of internal/adapter).
use mathlib.Core.List.{append_assoc, append-nil}
use fafsturmudprelay.Prelude.{
  ℕ, ◌≤◌, ◌≡◌, refl, sym, ap, ◌∙◌, some, Bool, true, false, List, [], ◌∷◌, ◌++◌, length, leb,
  leb→le, arith, All, All-append, if◌then◌else◌, Bool-cases, inl, inr, take, map, take-append_full,
  take-all, length-append,
}
use fafsturmudprelay.Prelude.Int.{ℤ}
use fafsturmudprelay.Protocol.Gpgnet.{text, max_string_length}
use fafsturmudprelay.Adapter.GpgnetServer.{
  GpgnetServer, QueuedMessage, Lobby, cmd_game_state, game_state_lobby, accept_game,
  max_queued_messages,
}
use fafsturmudprelay.Adapter.GpgnetServer.Mailbox.{
  Event, from_game, to_game, Mailbox, WritableEvent, post, post_all, serve, serve-Implements,
}
use fafsturmudprelay.Adapter.GpgnetServer.Sent.{Writable, forms}

module _ {Float : Type 0} (float_to_int32 : Float → ℤ) (lobby : Lobby) where
  post_all-append :
      (a b : List (Event Float)) (mb : Mailbox Float)
      → post_all float_to_int32 lobby mb (a ++ b)
        ≡ post_all float_to_int32 lobby (post_all float_to_int32 lobby mb a) b
  post_all-append [] b mb = refl
  post_all-append (e ∷ a) b mb = post_all-append a b (post float_to_int32 lobby mb e)

  passing :
      (ms passed : List (QueuedMessage Float))
      → post_all float_to_int32 lobby
          (record { opened = true; held = []; passed = passed })
          (map to_game ms)
        ≡ record { opened = true; held = []; passed = passed ++ ms }
  passing [] passed =
      ap (λ (p : List (QueuedMessage Float)). record { opened = true; held = []; passed = p })
        (sym (append-nil passed))
  passing (m ∷ ms) passed =
      passing ms (passed ++ m ∷ [])
      ∙ ap (λ (p : List (QueuedMessage Float)). record { opened = true; held = []; passed = p })
          (append_assoc passed (m ∷ []) ms)

  holding :
      (ms held passed : List (QueuedMessage Float))
      → length held ≤ max_queued_messages
      → post_all float_to_int32 lobby
          (record { opened = false; held = held; passed = passed })
          (map to_game ms)
        ≡ record { opened = false; held = take max_queued_messages (held ++ ms); passed = passed }
  holding [] held passed h =
      ap (λ (q : List (QueuedMessage Float)). record { opened = false; held = q; passed = passed })
        (sym
          (ap (take max_queued_messages) (append-nil held) ∙ take-all max_queued_messages held h))
  holding (m ∷ ms) held passed h =
      let with_held : List (QueuedMessage Float) → Mailbox Float =
        λ q. record { opened = false; held = q; passed = passed } in
      let after_one : Bool → Mailbox Float = λ full.
        post_all float_to_int32 lobby (if full then with_held held else with_held (held ++ m ∷ []))
          (map to_game ms) in
      elim (Bool-cases (leb max_queued_messages (length held))) [
        | inl full ↦
            let n : length held ≡ max_queued_messages =
              omega (arith, leb→le max_queued_messages (length held) full, h) in
            ap after_one full
            ∙ holding ms held passed h
            ∙ ap with_held (
                take-append_full max_queued_messages held ms n
                ∙ sym (take-append_full max_queued_messages held (m ∷ ms) n))
        | inr room ↦
            let n : length (held ++ m ∷ []) ≤ max_queued_messages =
              ground (arith, room, length-append held (m ∷ [])) in
            ap after_one room
            ∙ holding ms (held ++ m ∷ []) passed n
            ∙ ap (λ (q : List (QueuedMessage Float)). with_held (take max_queued_messages q))
                (append_assoc held (m ∷ []) ms)
      ]

  All-to_game :
      (ms : List (QueuedMessage Float))
      → All (Writable float_to_int32 lobby) ms
      → All (WritableEvent float_to_int32 lobby) (map to_game ms)
  All-to_game [] h = tt
  All-to_game (m ∷ ms) h = (h.0, All-to_game ms h.1)

  -- A game that connects, that is sent the messages `before` before its lobby and `after` once it is
  -- in it, gets the first hundred of `before`, then all of `after`, in order and nothing else, if
  -- the login and all the messages can be written.
  pub lobby_keeps_order :
      (g : GpgnetServer Float) (conn : ℕ) (before after : List (QueuedMessage Float))
      → length lobby.login ≤ max_string_length
      → All (Writable float_to_int32 lobby) before
      → All (Writable float_to_int32 lobby) after
      → let events =
          map to_game before
          ++ (from_game cmd_game_state (text game_state_lobby ∷ []) ∷ map to_game after) in
        (serve float_to_int32 lobby (accept_game g conn).0 events).writer
        ≡ some (forms float_to_int32 lobby (take max_queued_messages before ++ after))
  unfolding accept_game
  lobby_keeps_order g conn before after h hb ha =
      let closed : List (QueuedMessage Float) → Mailbox Float =
        λ q. record { opened = false; held = q; passed = [] } in
      let lobby_event : Event Float = from_game cmd_game_state (text game_state_lobby ∷ []) in
      let spec : post_all float_to_int32 lobby (closed [])
            (map to_game before ++ lobby_event ∷ map to_game after)
          ≡ record { opened = true; held = []; passed = take max_queued_messages before ++ after } =
        post_all-append (map to_game before) (lobby_event ∷ map to_game after) (closed [])
        ∙ ap
            (λ (mb : Mailbox Float).
              post_all float_to_int32 lobby mb (lobby_event ∷ map to_game after))
            (holding before [] [] (omega arith))
        ∙ passing after (take max_queued_messages before) in
      (serve-Implements float_to_int32 lobby []
        (map to_game before ++ lobby_event ∷ map to_game after) (accept_game g conn).0 (closed []) h
        (All-append (WritableEvent float_to_int32 lobby) (map to_game before)
          (lobby_event ∷ map to_game after) (All-to_game before hb) (tt, All-to_game after ha))
        (refl, refl, refl, tt)).0
      ∙ ap (λ (mb : Mailbox Float). some (forms float_to_int32 lobby mb.passed)) spec
