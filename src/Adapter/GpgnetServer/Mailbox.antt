-- ===== src/Adapter/GpgnetServer/Mailbox.antt =====
-- gpgnetserver.go of internal/adapter as a mailbox: what is queued for the game is held until the game
-- has its lobby, and passed on after that; what SendToGame sends does not wait. Calls are taken one after the other.
use mathlib.Core.List.{append-nil}
use fafsturmudprelay.Prelude.{
  ◌≤◌, ◌≡◌, refl, sym, ap, ◌∙◌, some, Bool, true, false, List, [], ◌∷◌, ◌++◌, Bytes, bytes_beq,
  length, leb, arith, All, All-append, if◌then◌else◌, Bool-cases, inl, inr,
}
use fafsturmudprelay.Prelude.Int.{ℤ}
use fafsturmudprelay.Protocol.Gpgnet.{Chunk, text, number, max_string_length}
use fafsturmudprelay.Protocol.Gpgnet.RoundTrip.{message_form}
use fafsturmudprelay.Adapter.GpgnetServer.{
  GpgnetServer, QueuedMessage, Lobby, max_queued_messages, cmd_game_state, cmd_create_lobby,
  game_state_idle, game_state_lobby, send_to_game, send_to_game_queued, send_all, flush_queue,
  open_lobby, on_game_state, process_message, on_first_chunk, create_lobby_args,
}
use fafsturmudprelay.Adapter.GpgnetServer.Sent.{
  Writable, forms, send_to_game_lem, send_all_lem, passed_lem,
}

-- A message of the game, and one for it, by SendToGameQueued or, `direct`, by SendToGame.
pub data Event (Float : Type 0) : Type 0 where
  from_game : Bytes → List Chunk → Event Float
  to_game direct : QueuedMessage Float → Event Float

pub record Mailbox (Float : Type 0) : Type 0 where
  pub opened : Bool
  pub held : List (QueuedMessage Float)
  pub passed : List (QueuedMessage Float)

module _ {Float : Type 0} (float_to_int32 : Float → ℤ) (lobby : Lobby) where
  abbrev pub WritableEvent : Event Float → Type 0
  WritableEvent (from_game header chunks) = Unit {0}
  WritableEvent (to_game m) = Writable float_to_int32 lobby m
  WritableEvent (direct m) = Writable float_to_int32 lobby m

  -- The server's calls for events that follow each other.
  unfoldable pub step : GpgnetServer Float → Event Float → GpgnetServer Float
  unfolding process_message send_to_game_queued
  step g (from_game header chunks) = (process_message float_to_int32 lobby g header chunks).0
  step g (to_game m) = send_to_game_queued float_to_int32 lobby g m.header m.args
  step g (direct m) = (send_to_game float_to_int32 lobby g m.header m.args).0

  unfoldable pub serve : GpgnetServer Float → List (Event Float) → GpgnetServer Float
  unfolding step
  serve g [] = g
  serve g (e ∷ events) = serve (step g e) events

  abbrev create_lobby : QueuedMessage Float
  create_lobby = record { header = cmd_create_lobby; args = create_lobby_args float_to_int32 lobby }

  abbrev on_state : Mailbox Float → Bytes → Mailbox Float
  on_state mb state =
      if bytes_beq state game_state_idle
      then record mb { passed = mb.passed ++ create_lobby ∷ [] }
      else if bytes_beq state game_state_lobby
      then record { opened = true; held = []; passed = mb.passed ++ mb.held }
      else mb

  abbrev on_chunks : Mailbox Float → List Chunk → Mailbox Float
  on_chunks mb [] = mb
  on_chunks mb (number v ∷ chunks) = mb
  on_chunks mb (text state ∷ chunks) = on_state mb state

  -- The mailbox: it holds the first hundred messages and drops later ones until the game is in its
  -- lobby; that passes on all it holds, and from then on every message at once. A direct message is passed
  -- on at once in any case, ahead of those that are held.
  abbrev pub post : Mailbox Float → Event Float → Mailbox Float
  post mb (from_game header chunks) =
      if bytes_beq header cmd_game_state then on_chunks mb chunks else mb
  post mb (to_game m) =
      if mb.opened
      then record mb { passed = mb.passed ++ m ∷ [] }
      else if leb max_queued_messages (length mb.held)
      then mb
      else record mb { held = mb.held ++ m ∷ [] }
  post mb (direct m) = record mb { passed = mb.passed ++ m ∷ [] }

  abbrev pub post_all : Mailbox Float → List (Event Float) → Mailbox Float
  post_all mb [] = mb
  post_all mb (e ∷ events) = post_all (post mb e) events

  -- The server implements the mailbox: the same messages are held, and those that were passed on are
  -- what the game was sent, after the bytes `out`.
  abbrev pub Implements : Bytes → GpgnetServer Float → Mailbox Float → Type 0
  Implements out g mb =
      (g.writer ≡ some (out ++ forms float_to_int32 lobby mb.passed))
      × (g.lobby_ready ≡ mb.opened)
      × (g.message_queue ≡ mb.held)
      × All (Writable float_to_int32 lobby) mb.held

  -- One message goes to the game.
  sent_one :
      (out : Bytes) (g : GpgnetServer Float) (mb : Mailbox Float) (m : QueuedMessage Float)
      → Implements out g mb
      → Writable float_to_int32 lobby m
      → Implements out
          (send_to_game float_to_int32 lobby g m.header m.args).0
          (record mb { passed = mb.passed ++ m ∷ [] })
  sent_one out g mb m (w, ready, queue, fits) h =
      let e =
        send_to_game_lem float_to_int32 lobby (out ++ forms float_to_int32 lobby mb.passed) g m w
          h in
      let f = message_form float_to_int32 m.header m.args in
      (
        ap (λ (x : GpgnetServer Float). x.writer) e
            ∙ ap (λ (t : Bytes). some ((out ++ forms float_to_int32 lobby mb.passed) ++ t))
                (sym (append-nil f))
            ∙ passed_lem float_to_int32 lobby out mb.passed (m ∷ []),
        ap (λ (x : GpgnetServer Float). x.lobby_ready) e ∙ ready,
        ap (λ (x : GpgnetServer Float). x.message_queue) e ∙ queue,
        fits,
      )

  -- All that is held goes to the game.
  flushed :
      (out : Bytes) (g : GpgnetServer Float) (mb : Mailbox Float)
      → Implements out g mb
      → Implements out
          (flush_queue float_to_int32 lobby (open_lobby float_to_int32 lobby g))
          (record { opened = true; held = []; passed = mb.passed ++ mb.held })
  unfolding flush_queue open_lobby
  flushed out g mb (w, ready, queue, fits) =
      let g' : GpgnetServer Float = record g { lobby_ready = true; message_queue = [] } in
      let e =
        ap (λ (q : List (QueuedMessage Float)). send_all float_to_int32 lobby g' q) queue
        ∙ send_all_lem float_to_int32 lobby mb.held (out ++ forms float_to_int32 lobby mb.passed) g'
            w fits in
      (
        ap (λ (x : GpgnetServer Float). x.writer) e
            ∙ passed_lem float_to_int32 lobby out mb.passed mb.held,
        ap (λ (x : GpgnetServer Float). x.lobby_ready) e,
        ap (λ (x : GpgnetServer Float). x.message_queue) e,
        tt,
      )

  state_step :
      (out : Bytes) (g : GpgnetServer Float) (mb : Mailbox Float) (state : Bytes)
      → Writable float_to_int32 lobby create_lobby
      → Implements out g mb
      → Implements out (on_game_state float_to_int32 lobby g state) (on_state mb state)
  unfolding on_game_state
  state_step out g mb state h i =
      let g' : GpgnetServer Float = record g { game_state = state } in
      elim (Bool-cases (bytes_beq state game_state_idle)) [
        | inl e ↦ rw (e) (sent_one out g' mb create_lobby i h)
        | inr e ↦ elim (Bool-cases (bytes_beq state game_state_lobby)) [
          | inl e' ↦ rw (e, e') (flushed out g' mb i)
          | inr e' ↦ rw (e, e') i
        ]
      ]

  chunk_step :
      (out : Bytes) (g : GpgnetServer Float) (mb : Mailbox Float) (chunks : List Chunk)
      → Writable float_to_int32 lobby create_lobby
      → Implements out g mb
      → Implements out (on_first_chunk float_to_int32 lobby g chunks) (on_chunks mb chunks)
  chunk_step out g mb [] h i = i
  chunk_step out g mb (number v ∷ chunks) h i = i
  chunk_step out g mb (text state ∷ chunks) h i = state_step out g mb state h i

  -- The two branch alike.
  Implements-if :
      (out : Bytes) (b c : Bool) (g1 g2 : GpgnetServer Float) (mb1 mb2 : Mailbox Float)
      → b ≡ c
      → (c ≡ true → Implements out g1 mb1)
      → (c ≡ false → Implements out g2 mb2)
      → Implements out (if b then g1 else g2) (if c then mb1 else mb2)
  Implements-if out true true g1 g2 mb1 mb2 e h1 h2 = h1 refl
  Implements-if out true false g1 g2 mb1 mb2 e h1 h2 = cc
  Implements-if out false true g1 g2 mb1 mb2 e h1 h2 = cc
  Implements-if out false false g1 g2 mb1 mb2 e h1 h2 = h2 refl

  queued_step :
      (out : Bytes) (g : GpgnetServer Float) (mb : Mailbox Float) (m : QueuedMessage Float)
      → Implements out g mb
      → Writable float_to_int32 lobby m
      → Implements out (step g (to_game m)) (post mb (to_game m))
  unfolding step send_to_game_queued
  queued_step out g mb m (w, ready, queue, fits) h =
      let i : Implements out g mb = (w, ready, queue, fits) in
      let full =
        ap (λ (q : List (QueuedMessage Float)). leb max_queued_messages (length q)) queue in
      Implements-if out g.lobby_ready mb.opened _ _ _ _ ready (λ e. sent_one out g mb m i h)
        (λ e.
          Implements-if out (leb max_queued_messages (length g.message_queue))
            (leb max_queued_messages (length mb.held)) _ _ _ _ full (λ e'. i)
            (λ e'. (
              w,
              ready,
              ap (λ (q : List (QueuedMessage Float)). q ++ m ∷ []) queue,
              All-append (Writable float_to_int32 lobby) mb.held (m ∷ []) fits (h, tt),
            )))

  one_step :
      (out : Bytes) (g : GpgnetServer Float) (mb : Mailbox Float) (e : Event Float)
      → Writable float_to_int32 lobby create_lobby
      → WritableEvent e
      → Implements out g mb
      → Implements out (step g e) (post mb e)
  unfolding step process_message
  one_step out g mb (from_game header chunks) h h' i =
      Implements-if out (bytes_beq header cmd_game_state) (bytes_beq header cmd_game_state) _ _ _ _
        refl (λ e. chunk_step out g mb chunks h i) (λ e. i)
  one_step out g mb (direct m) h h' i = sent_one out g mb m i h'
  one_step out g mb (to_game m) h h' i = queued_step out g mb m i h'

  -- Whatever a connected game sends, and whatever SendToGameQueued and SendToGame are called with for
  -- it, one call after the other, a server that implements the mailbox goes on implementing it: the
  -- game is sent exactly the messages that the mailbox passes on, each once and in that order, if the
  -- login and every message are short enough to be written and of supported types.
  pub serve-Implements :
      (out : Bytes) (events : List (Event Float)) (g : GpgnetServer Float) (mb : Mailbox Float)
      → length lobby.login ≤ max_string_length
      → All WritableEvent events
      → Implements out g mb
      → Implements out (serve g events) (post_all mb events)
  unfolding serve
  serve-Implements out [] g mb h hs i = i
  serve-Implements out (e ∷ events) g mb h hs i =
      serve-Implements out events (step g e) (post mb e) h hs.1
        (one_step out g mb e (omega arith, (tt, (tt, (h, (tt, (tt, tt)))))) hs.0 i)
