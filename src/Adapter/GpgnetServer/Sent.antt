-- ===== src/Adapter/GpgnetServer/Sent.antt =====
-- sendToGame and flushQueue of gpgnetserver.go of internal/adapter: the bytes that messages are sent as.
use mathlib.Core.List.{append_assoc, append-nil}
use fafsturmudprelay.Prelude.{
  ◌≤◌, ◌≡◌, refl, sym, ap, ◌∙◌, Option, some, List, [], ◌∷◌, ◌++◌, Bytes, length, All,
}
use fafsturmudprelay.Prelude.Int.{ℤ}
use fafsturmudprelay.Protocol.Gpgnet.{max_string_length}
use fafsturmudprelay.Protocol.Gpgnet.RoundTrip.{Fits, message_form, write_message-form}
use fafsturmudprelay.Adapter.GpgnetServer.{
  GpgnetServer, QueuedMessage, Lobby, send_to_game, send_all,
}

module _ {Float : Type 0} (float_to_int32 : Float → ℤ) (lobby : Lobby) where
  abbrev pub Writable : QueuedMessage Float → Type 0
  Writable m = (length m.header ≤ max_string_length) × All (Fits float_to_int32) m.args

  abbrev pub forms : List (QueuedMessage Float) → Bytes
  forms [] = []
  forms (m ∷ ms) = message_form float_to_int32 m.header m.args ++ forms ms

  forms-append : (a b : List (QueuedMessage Float)) → forms (a ++ b) ≡ forms a ++ forms b
  forms-append [] b = refl
  forms-append (m ∷ a) b =
      let f = message_form float_to_int32 m.header m.args in
      ap (λ (t : Bytes). f ++ t) (forms-append a b) ∙ sym (append_assoc f (forms a) (forms b))

  pub send_to_game_lem :
      (out : Bytes) (g : GpgnetServer Float) (m : QueuedMessage Float)
      → g.writer ≡ some out
      → Writable m
      → (send_to_game float_to_int32 lobby g m.header m.args).0
        ≡ record g { writer = some (out ++ message_form float_to_int32 m.header m.args) }
  unfolding send_to_game
  send_to_game_lem out g m w ok_m =
      rw (w, write_message-form float_to_int32 m.header m.args out ok_m.0 ok_m.1) refl

  pub send_all_lem :
      (ms : List (QueuedMessage Float)) (out : Bytes) (g : GpgnetServer Float)
      → g.writer ≡ some out
      → All Writable ms
      → send_all float_to_int32 lobby g ms ≡ record g { writer = some (out ++ forms ms) }
  unfolding send_all
  send_all_lem [] out g w h =
      ap (λ (o : Option Bytes). record g { writer = o }) (w ∙ ap some (sym (append-nil out)))
  send_all_lem (m ∷ ms) out g w h =
      let f = message_form float_to_int32 m.header m.args in
      ap (λ (x : GpgnetServer Float). send_all float_to_int32 lobby x ms)
        (send_to_game_lem out g m w h.0)
      ∙ send_all_lem ms (out ++ f) (record g { writer = some (out ++ f) }) refl h.1
      ∙ ap (λ (o : Bytes). record g { writer = some o }) (append_assoc out f (forms ms))

  pub passed_lem :
      (out : Bytes) (a b : List (QueuedMessage Float))
      → some ((out ++ forms a) ++ forms b) ≡ some (out ++ forms (a ++ b))
  passed_lem out a b =
      ap some (
        append_assoc out (forms a) (forms b)
        ∙ ap (λ (t : Bytes). out ++ t) (sym (forms-append a b)))
