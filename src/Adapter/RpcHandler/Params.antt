-- ===== src/Adapter/RpcHandler/Params.antt =====
-- The parameters of the calls in internal/adapter/rpchandler.go. A parameter is counted from 0.
use fafsturmudprelay.Prelude.{
  ℕ, zero, suc, Option, none, some, Bool, List, [], ◌∷◌, Bytes, ltb, length, if◌then◌else◌,
}
use fafsturmudprelay.Prelude.Int.{ℤ, pos, negsuc}
use fafsturmudprelay.Outcome.{Outcome, ok, err, ◌>>=◌}
use fafsturmudprelay.Protocol.Gpgnet.Writing.{Arg}
use fafsturmudprelay.Adapter.RpcHandler.{
  Decoder, RpcError, missing_params, bad_param, login_too_long, map_name_too_long,
  invalid_player_id,
}

abbrev pub max_login_len : ℕ
max_login_len = 64

abbrev pub max_map_name_len : ℕ
max_map_name_len = 256

abbrev pub decoded {ℓ} : {A : Type ℓ} → ℕ → Option A → Outcome RpcError A
decoded i none = err (bad_param i)
decoded i (some a) = ok a

-- `pid <= 0` is refused.
abbrev pub player_id_of : ℤ → Outcome RpcError ℕ
player_id_of (pos zero) = err (invalid_player_id (pos zero))
player_id_of (pos (suc n)) = ok (suc n)
player_id_of (negsuc n) = err (invalid_player_id (negsuc n))

module _ {Raw Float : Type 0} (json : Decoder Raw Float) where
  unfoldable pub host_params : List Raw → Outcome RpcError Bytes
  host_params [] = err missing_params
  host_params (map_name ∷ rest) = do
    name ← decoded 0 (json.as_string map_name)
    if ltb max_map_name_len (length name) then err map_name_too_long else ok name

  unfoldable pub join_params : List Raw → Outcome RpcError (Bytes × ℕ)
  join_params (login ∷ player_id ∷ rest) = do
    l ← decoded 0 (json.as_string login)
    v ← decoded 1 (json.as_number player_id)
    if ltb max_login_len (length l)
        then err login_too_long
        else (do pid ← player_id_of (json.int_of v); ok (l, pid))
  join_params _ = err missing_params

  unfoldable pub connect_params : List Raw → Outcome RpcError (Bytes × ℕ × Bool)
  connect_params (login ∷ player_id ∷ offer ∷ rest) = do
    l ← decoded 0 (json.as_string login)
    v ← decoded 1 (json.as_number player_id)
    o ← decoded 2 (json.as_bool offer)
    if ltb max_login_len (length l)
        then err login_too_long
        else (do pid ← player_id_of (json.int_of v); ok (l, pid, o))
  connect_params _ = err missing_params

  unfoldable pub disconnect_params : List Raw → Outcome RpcError ℤ
  disconnect_params [] = err missing_params
  disconnect_params (player_id ∷ rest) = do
    v ← decoded 0 (json.as_number player_id)
    ok (json.int_of v)

  unfoldable pub string_param : List Raw → Outcome RpcError Bytes
  string_param [] = err missing_params
  string_param (raw ∷ rest) = decoded 0 (json.as_string raw)

  -- The message may be a JSON string or any other value, which then stands for its own text.
  abbrev pub string_or_raw : Raw → Bytes
  string_or_raw raw = elim (json.as_string raw) [ none ↦ json.text_of raw | some s ↦ s ]

  unfoldable pub ice_msg_params : List Raw → Outcome RpcError (ℤ × Bytes)
  ice_msg_params (player_id ∷ msg ∷ rest) = do
    v ← decoded 0 (json.as_number player_id)
    ok (json.int_of v, string_or_raw msg)
  ice_msg_params _ = err missing_params

  unfoldable pub any_params : ℕ → List Raw → Outcome RpcError (List (Arg Float))
  any_params i [] = ok []
  any_params i (raw ∷ rest) = do
    v ← decoded i (json.as_any raw)
    vs ← any_params (suc i) rest
    ok (v ∷ vs)

  unfoldable pub send_params : List Raw → Outcome RpcError (Bytes × List (Arg Float))
  unfolding any_params
  send_params [] = err missing_params
  send_params (header ∷ rest) = do
    h ← decoded 0 (json.as_string header)
    args ← any_params 1 rest
    ok (h, args)
