-- ===== src/Adapter/GpgnetServer.antt =====
-- internal/adapter/gpgnetserver.go: the server that the game connects to. `float_to_int32` is Go's
-- conversion of a float64; a writer holds the bytes that it was given so far, its sink does not fail.
-- Logging is left out, and so is the context's end.
pub mod Sent
pub mod Mailbox
pub mod Order
pub mod Overtaking
use fafsturmudprelay.Prelude.{
  ℕ, ◌+◌, Option, none, some, Bool, true, false, List, [], ◌∷◌, ◌++◌, Bytes, bytes_beq, length, leb,
  ◌==◌, if◌then◌else◌,
}
use fafsturmudprelay.Prelude.Int.{ℤ, pos}
use fafsturmudprelay.Outcome.{Outcome, ok, err, panic, map_err}
use fafsturmudprelay.Protocol.Gpgnet.{GpgError, Chunk, number, text}
use fafsturmudprelay.Protocol.Gpgnet.Writing.{Arg, int32, string, write_message}

abbrev pub max_queued_messages : ℕ
max_queued_messages = 100

-- "GameState", "CreateLobby".
abbrev pub cmd_game_state : Bytes
cmd_game_state = 71 ∷ 97 ∷ 109 ∷ 101 ∷ 83 ∷ 116 ∷ 97 ∷ 116 ∷ 101 ∷ []

abbrev pub cmd_create_lobby : Bytes
cmd_create_lobby = 67 ∷ 114 ∷ 101 ∷ 97 ∷ 116 ∷ 101 ∷ 76 ∷ 111 ∷ 98 ∷ 98 ∷ 121 ∷ []

-- "None", "Idle", "Lobby".
abbrev pub game_state_none : Bytes
game_state_none = 78 ∷ 111 ∷ 110 ∷ 101 ∷ []

abbrev pub game_state_idle : Bytes
game_state_idle = 73 ∷ 100 ∷ 108 ∷ 101 ∷ []

abbrev pub game_state_lobby : Bytes
game_state_lobby = 76 ∷ 111 ∷ 98 ∷ 98 ∷ 121 ∷ []

-- What the server asks the adapter for.
pub record Lobby : Type 0 where
  pub init_mode : ℕ
  pub port : ℕ
  pub login : Bytes
  pub player_id : ℕ

pub record QueuedMessage (Float : Type 0) : Type 0 where
  pub header : Bytes
  pub args : List (Arg Float)

-- `lobby_ready` says whether the channel of that name is closed.
pub record GpgnetServer (Float : Type 0) : Type 0 where
  pub conn : Option ℕ
  pub conn_epoch : ℕ
  pub writer : Option Bytes
  pub connected : Bool
  pub game_state : Bytes
  pub lobby_ready : Bool
  pub message_queue : List (QueuedMessage Float)

-- What the server tells the adapter.
pub data Notice : Type 0 where
  game_connected game_disconnected : Notice
  gpg_net_message : Bytes → List Chunk → Notice

pub data SendFailure : Type 0 where
  no_game : SendFailure
  write : GpgError → SendFailure

unfoldable pub new_gpgnet_server : {Float : Type 0} → GpgnetServer Float
new_gpgnet_server = record {
  conn = none;
  conn_epoch = 0;
  writer = none;
  connected = false;
  game_state = game_state_none;
  lobby_ready = false;
  message_queue = [];
}

-- The start of handleConnection, up to the read loop.
unfoldable pub accept_game :
    {Float : Type 0} → GpgnetServer Float → ℕ → GpgnetServer Float × List Notice
accept_game g conn = (
  record g {
    conn = some conn;
    writer = some [];
    connected = true;
    game_state = game_state_none;
    conn_epoch = g.conn_epoch + 1;
    lobby_ready = false;
    message_queue = [];
  },
  game_connected ∷ [],
)

-- Its end, after the read loop.
unfoldable pub release_game :
    {Float : Type 0} → GpgnetServer Float → ℕ → GpgnetServer Float × List Notice
release_game g my_epoch =
    if g.conn_epoch == my_epoch
    then (record g { connected = false; conn = none; writer = none }, game_disconnected ∷ [])
    else (g, [])

module _ {Float : Type 0} (float_to_int32 : Float → ℤ) (lobby : Lobby) where
  unfoldable pub send_to_game :
      GpgnetServer Float
      → Bytes
      → List (Arg Float)
      → GpgnetServer Float × Outcome SendFailure (Unit {0})
  send_to_game g header args = elim g.writer [
    | none ↦ (g, err no_game)
    | some out ↦
        let (r, out') = write_message float_to_int32 header args out in
        (record g { writer = some out' }, map_err write r)
  ]

  -- A failure is only logged.
  unfoldable pub send_to_game_queued :
      GpgnetServer Float → Bytes → List (Arg Float) → GpgnetServer Float
  unfolding send_to_game
  send_to_game_queued g header args =
      if g.lobby_ready
      then (send_to_game g header args).0
      else if leb max_queued_messages (length g.message_queue)
      then g
      else record g {
        message_queue = g.message_queue ++ record { header = header; args = args } ∷ [];
      }

  unfoldable pub send_all : GpgnetServer Float → List (QueuedMessage Float) → GpgnetServer Float
  unfolding send_to_game
  send_all g [] = g
  send_all g (msg ∷ queue) = send_all (send_to_game g msg.header msg.args).0 queue

  unfoldable pub flush_queue : GpgnetServer Float → GpgnetServer Float
  unfolding send_all
  flush_queue g = send_all (record g { message_queue = [] }) g.message_queue

  abbrev pub create_lobby_args : List (Arg Float)
  create_lobby_args =
      int32 (pos lobby.init_mode)
      ∷ int32 (pos lobby.port)
      ∷ string lobby.login
      ∷ int32 (pos lobby.player_id)
      ∷ int32 (pos 1)
      ∷ []

  -- The two parts of the Lobby case.
  unfoldable pub open_lobby : GpgnetServer Float → GpgnetServer Float
  open_lobby g = record g { lobby_ready = true }

  unfoldable pub on_game_state : GpgnetServer Float → Bytes → GpgnetServer Float
  unfolding send_to_game open_lobby flush_queue
  on_game_state g state =
      let g' : GpgnetServer Float = record g { game_state = state } in
      if bytes_beq state game_state_idle
      then (send_to_game g' cmd_create_lobby create_lobby_args).0
      else if bytes_beq state game_state_lobby
      then flush_queue (open_lobby g')
      else g'

  abbrev pub on_first_chunk : GpgnetServer Float → List Chunk → GpgnetServer Float
  on_first_chunk g [] = g
  on_first_chunk g (number v ∷ chunks) = g
  on_first_chunk g (text state ∷ chunks) = on_game_state g state

  unfoldable pub process_message :
      GpgnetServer Float → Bytes → List Chunk → GpgnetServer Float × List Notice
  unfolding on_game_state
  process_message g header chunks = (
    if bytes_beq header cmd_game_state then on_first_chunk g chunks else g,
    gpg_net_message header chunks ∷ [],
  )
