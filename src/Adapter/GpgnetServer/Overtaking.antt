-- ===== src/Adapter/GpgnetServer/Overtaking.antt =====
-- onGameState and SendToGameQueued of internal/adapter/gpgnetserver.go at the same time: the first closes
-- lobbyReady and flushes the queue after that, the second looks at lobbyReady.
use fafsturmudprelay.Prelude.{◌≡◌, refl, ap, ◌∙◌, some, [], ◌++◌, Bytes, All}
use fafsturmudprelay.Prelude.Int.{ℤ}
use fafsturmudprelay.Adapter.GpgnetServer.{
  GpgnetServer, QueuedMessage, Lobby, open_lobby, flush_queue, send_to_game_queued,
}
use fafsturmudprelay.Adapter.GpgnetServer.Sent.{Writable, forms, send_to_game_lem, send_all_lem}
use fafsturmudprelay.Protocol.Gpgnet.RoundTrip.{message_form}

-- A message that comes for a connected game between the two parts of the Lobby case is written
-- before every message that was queued earlier, if all of them can be written.
pub late_message_overtakes :
    {Float : Type 0} (float_to_int32 : Float → ℤ) (lobby : Lobby) (g : GpgnetServer Float)
    (m : QueuedMessage Float) (out : Bytes)
    → g.writer ≡ some out
    → Writable float_to_int32 lobby m
    → All (Writable float_to_int32 lobby) g.message_queue
    → let between =
        send_to_game_queued float_to_int32 lobby
          (open_lobby float_to_int32 lobby g)
          m.header
          m.args in
      (flush_queue float_to_int32 lobby between).writer
      ≡ some (
          (out ++ message_form float_to_int32 m.header m.args)
          ++ forms float_to_int32 lobby g.message_queue)
unfolding send_to_game_queued open_lobby flush_queue
late_message_overtakes float_to_int32 lobby g m out w h hs =
    let opened = open_lobby float_to_int32 lobby g in
    let f = message_form float_to_int32 m.header m.args in
    ap (λ (x : GpgnetServer _). (flush_queue float_to_int32 lobby x).writer)
      (send_to_game_lem float_to_int32 lobby out opened m w h)
    ∙ ap (λ (x : GpgnetServer _). x.writer)
        (send_all_lem float_to_int32 lobby g.message_queue (out ++ f)
          (record opened { writer = some (out ++ f); message_queue = [] }) refl hs)
