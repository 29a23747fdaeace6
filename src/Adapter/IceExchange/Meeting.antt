-- ===== src/Adapter/IceExchange/Meeting.antt =====
-- Two peers of internal/adapter/icepeer.go that exchange their credentials.
use fafsturmudprelay.Prelude.{
  ℕ, zero, suc, ◌≡◌, refl, ◌∙◌, ap, Option, some, Bool, true, false, not, ◌&&◌, List, [], ◌∷◌,
  Bytes, if◌then◌else◌, All, Bool-cases, inl, inr,
}
use fafsturmudprelay.Adapter.IceSignal.{FafIceMsg}
use fafsturmudprelay.Adapter.IceCandidate.{Candidate, IsReadBack, candidate_survives}
use fafsturmudprelay.Adapter.IceExchange.{
  IceSession, Wait, message, timed_out, Connect, dial, accept, Exchange, is_relay, advertised,
  faf_ice_msg, await_remote, add_remote, finish, run_with, run_as, run_exchange,
}

-- The candidates that a peer lets the other know.
abbrev pub offered : Bool → List Candidate → List Candidate
offered relay_only [] = []
offered relay_only (c ∷ cs) =
    if relay_only && not (is_relay c.cand_type)
    then offered relay_only cs
    else c ∷ offered relay_only cs

abbrev pub timeouts : ℕ → List Wait → List Wait
timeouts zero waits = waits
timeouts (suc n) waits = timed_out ∷ timeouts n waits

abbrev pub repeated : ℕ → FafIceMsg → List FafIceMsg
repeated zero msg = []
repeated (suc n) msg = msg ∷ repeated n msg

abbrev connected : List FafIceMsg → Bytes → List Candidate → Connect → Exchange
connected sent remote_ufrag added connect = record {
  sent = sent;
  remote_ufrag = remote_ufrag;
  added = added;
  connect = some connect;
}

module _ (unmarshal : Bytes → Option Candidate) where
  added-advertised :
      (relay_only : Bool) (i : ℕ) (cs : List Candidate)
      → All (IsReadBack unmarshal) cs
      → add_remote unmarshal (advertised relay_only i cs) ≡ offered relay_only cs
  unfolding add_remote advertised
  added-advertised relay_only i [] h = refl
  added-advertised relay_only i (c ∷ cs) h =
      elim (Bool-cases (relay_only && not (is_relay c.cand_type))) [
        | inl e ↦ rw e (added-advertised relay_only (suc i) cs h.1)
        | inr e ↦
            rw (e, add_remote, candidate_survives unmarshal c i h.0)
              (ap (◌∷◌ c) (added-advertised relay_only (suc i) cs h.1))
      ]

  waits_first :
      (own msg : FafIceMsg) (n : ℕ) (waits : List Wait)
      → await_remote own true (timeouts n (message msg ∷ waits)) ≡ (repeated n own, some msg)
  unfolding await_remote
  waits_first own msg zero waits = refl
  waits_first own msg (suc n) waits = rw (waits_first own msg n waits) refl

  waits_second :
      (own msg : FafIceMsg) (n : ℕ) (waits : List Wait)
      → await_remote own false (timeouts n (message msg ∷ waits)) ≡ ([], some msg)
  unfolding await_remote
  waits_second own msg zero waits = refl
  waits_second own msg (suc n) waits = rw (waits_second own msg n waits) refl

  offerer_runs :
      (send_first : Bool) (own msg : FafIceMsg) (n : ℕ) (waits : List Wait)
      → run_with unmarshal true send_first own (timeouts n (message msg ∷ waits)) ≡ record {
        sent = repeated (suc n) own;
        remote_ufrag = msg.ufrag;
        added = add_remote unmarshal msg.candidates;
        connect = some (dial msg.ufrag msg.password);
      }
  unfolding run_with
  offerer_runs send_first own msg n waits =
      ap
        (λ (x : List FafIceMsg × Option FafIceMsg).
          finish unmarshal true send_first own (own ∷ x.0) x.1)
        (waits_first own msg n waits)

  answerer_runs :
      (own msg : FafIceMsg) (n : ℕ) (waits : List Wait)
      → run_with unmarshal false false own (timeouts n (message msg ∷ waits)) ≡ record {
        sent = own ∷ [];
        remote_ufrag = msg.ufrag;
        added = add_remote unmarshal msg.candidates;
        connect = some (accept msg.ufrag msg.password);
      }
  unfolding run_with
  answerer_runs own msg n waits =
      ap (λ (x : List FafIceMsg × Option FafIceMsg). finish unmarshal false false own x.0 x.1)
        (waits_second own msg n waits)

  as_run :
      (p : IceSession) (ufrag pwd : Bytes) (waits : List Wait)
      → p.credentials ≡ some (ufrag, pwd)
      → run_exchange unmarshal p waits
        ≡ run_with unmarshal p.offerer p.send_first (faf_ice_msg p ufrag pwd) waits
  unfolding run_exchange
  as_run p ufrag pwd waits known = ap (λ c. run_as unmarshal p c waits) known

  -- An offerer and an answerer that does not send first, each of which in the end hears the other: however
  -- long either has to wait, each connects with the other's credentials and is handed exactly the
  -- candidates that the other lets it know, only relayed ones from a peer that is set to relay only. The
  -- offerer sends its message at the start and at each timeout, the answerer once, after it has heard.
  pub credentials_meet :
      (o a : IceSession) (uo po ua pa : Bytes) (j k : ℕ) (later later' : List Wait)
      → o.offerer ≡ true
      → a.offerer ≡ false
      → a.send_first ≡ false
      → o.credentials ≡ some (uo, po)
      → a.credentials ≡ some (ua, pa)
      → All (IsReadBack unmarshal) o.gathered
      → All (IsReadBack unmarshal) a.gathered
      → (run_exchange unmarshal o (timeouts j (message (faf_ice_msg a ua pa) ∷ later)) ≡ record {
        sent = repeated (suc j) (faf_ice_msg o uo po);
        remote_ufrag = ua;
        added = offered a.relay_only a.gathered;
        connect = some (dial ua pa);
      })
        × (run_exchange unmarshal a (timeouts k (message (faf_ice_msg o uo po) ∷ later')) ≡ record {
          sent = faf_ice_msg a ua pa ∷ [];
          remote_ufrag = uo;
          added = offered o.relay_only o.gathered;
          connect = some (accept uo po);
        })
  unfolding faf_ice_msg
  credentials_meet o a uo po ua pa j k later later' offers answers normal ko ka ro ra =
      let own = faf_ice_msg o uo po in
      let reply = faf_ice_msg a ua pa in
      (
        as_run o uo po (timeouts j (message reply ∷ later)) ko
            ∙ (ap (λ b. run_with unmarshal b o.send_first own (timeouts j (message reply ∷ later)))
                  offers
                ∙ (offerer_runs o.send_first own reply j later
                    ∙ ap
                        (λ (cs : List Candidate).
                          connected (repeated (suc j) own) ua cs (dial ua pa))
                        (added-advertised a.relay_only 0 a.gathered ra))),
        as_run a ua pa (timeouts k (message own ∷ later')) ka
            ∙ (ap (λ b. run_with unmarshal b a.send_first reply (timeouts k (message own ∷ later')))
                  answers
                ∙ (ap (λ b. run_with unmarshal false b reply (timeouts k (message own ∷ later')))
                      normal
                    ∙ (answerer_runs reply own k later'
                        ∙ ap (λ (cs : List Candidate). connected (reply ∷ []) uo cs (accept uo po))
                            (added-advertised o.relay_only 0 o.gathered ro)))),
      )
