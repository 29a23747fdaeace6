-- ===== src/Adapter/IceExchange.antt =====
-- The exchange of credentials in run of internal/adapter/icepeer.go, up to the call that connects. What the
-- gathering found, the agent's own credentials, and what the select sees while it waits are arguments; the
-- end of the list of waits is a cancelled context.
pub mod Meeting
use fafsturmudprelay.Prelude.{
  ℕ, zero, suc, Option, none, some, Bool, true, false, not, ◌&&◌, ◌||◌, List, [], ◌∷◌, ◌++◌, Bytes,
  if◌then◌else◌,
}
use fafsturmudprelay.Prelude.Int.{ℤ}
use fafsturmudprelay.Adapter.IceSignal.{FafIceCandidate, FafIceMsg}
use fafsturmudprelay.Adapter.IceCandidate.{
  Candidate, CandidateType, unspecified, host, server_reflexive, peer_reflexive, relay,
  ice_to_faf_cand, faf_cand_to_ice,
}

pub record IceSession : Type 0 where
  pub player_id : ℤ
  pub local_player_id : ℤ
  pub offerer : Bool
  pub relay_only : Bool
  pub send_first : Bool
  pub credentials : Option (Bytes × Bytes)
  pub gathered : List Candidate

pub data Wait : Type 0 where
  message : FafIceMsg → Wait
  timed_out : Wait

-- agent.Dial or agent.Accept, with the remote credentials.
pub data Connect : Type 0 where
  dial accept : (ufrag pwd : Bytes) → Connect

pub record Exchange : Type 0 where
  pub sent : List FafIceMsg
  pub remote_ufrag : Bytes
  pub added : List Candidate
  pub connect : Option Connect

abbrev pub is_relay : CandidateType → Bool
is_relay unspecified = false
is_relay host = false
is_relay server_reflexive = false
is_relay peer_reflexive = false
is_relay relay = true

-- The candidates of a message, each with its place among all that were gathered.
unfoldable pub advertised : Bool → ℕ → List Candidate → List FafIceCandidate
advertised relay_only i [] = []
advertised relay_only i (c ∷ cs) =
    let others = advertised relay_only (suc i) cs in
    if relay_only && not (is_relay c.cand_type) then others else ice_to_faf_cand c i ∷ others

-- What sendFafIceMsg sends.
unfoldable pub faf_ice_msg : IceSession → Bytes → Bytes → FafIceMsg
faf_ice_msg p ufrag pwd = record {
  src_id = p.local_player_id;
  dest_id = p.player_id;
  password = pwd;
  ufrag = ufrag;
  candidates = advertised p.relay_only 0 p.gathered;
}

-- The loop that waits: the own message goes out again at each timeout of a peer that sends first.
unfoldable pub await_remote : FafIceMsg → Bool → List Wait → List FafIceMsg × Option FafIceMsg
await_remote own first [] = ([], none)
await_remote own first (message msg ∷ waits) = ([], some msg)
await_remote own first (timed_out ∷ waits) =
    let (sent, got) = await_remote own first waits in (if first then own ∷ sent else sent, got)

module _ (unmarshal : Bytes → Option Candidate) where
  -- The candidates that are handed to AddRemoteCandidate.
  unfoldable pub add_remote : List FafIceCandidate → List Candidate
  add_remote [] = []
  add_remote (fc ∷ rest) =
      let others = add_remote rest in
      elim (faf_cand_to_ice unmarshal fc) [ none ↦ others | some c ↦ c ∷ others ]

  -- What the wait gave: a cancelled context ends it all, with a message the peer goes on.
  abbrev pub finish : Bool → Bool → FafIceMsg → List FafIceMsg → Option FafIceMsg → Exchange
  finish offerer send_first own sent none = record {
    sent = sent;
    remote_ufrag = [];
    added = [];
    connect = none;
  }
  finish offerer send_first own sent (some msg) = record {
    sent = if not offerer && not send_first then sent ++ (own ∷ []) else sent;
    remote_ufrag = msg.ufrag;
    added = add_remote msg.candidates;
    connect = some (if offerer then dial msg.ufrag msg.password else accept msg.ufrag msg.password);
  }

  -- With the own message: it is sent at once by a peer that sends first.
  unfoldable pub run_with : Bool → Bool → FafIceMsg → List Wait → Exchange
  unfolding await_remote
  run_with offerer send_first own waits =
      let first = offerer || send_first in
      let (again, got) = await_remote own first waits in
      finish offerer send_first own (if first then own ∷ again else again) got

  abbrev pub run_as : IceSession → Option (Bytes × Bytes) → List Wait → Exchange
  run_as p none waits = record { sent = []; remote_ufrag = []; added = []; connect = none }
  run_as p (some (ufrag, pwd)) waits =
      run_with p.offerer p.send_first (faf_ice_msg p ufrag pwd) waits

  unfoldable pub run_exchange : IceSession → List Wait → Exchange
  unfolding run_with
  run_exchange p waits = run_as p p.credentials waits
