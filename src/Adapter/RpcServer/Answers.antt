-- ===== src/Adapter/RpcServer/Answers.antt =====
-- The answers of handleConnection in internal/adapter/rpcserver.go.
use fafsturmudprelay.Prelude.{
  ◌≡◌, refl, sym, ap, ap₂, ◌∙◌, Option, none, some, Bool, true, false, List, [], ◌∷◌, ◌++◌, map,
  if◌then◌else◌, Bool-cases, inl, inr,
}
use mathlib.Core.List.{append_assoc}
use fafsturmudprelay.Outcome.{Outcome, ok, err, panic}
use fafsturmudprelay.Adapter.RpcHandler.{
  Decoder, Surroundings, Config, Adapter, Action, IceServer, Reply, RpcError,
}
use fafsturmudprelay.Adapter.RpcHandler.Dispatch.{handle_request}
use fafsturmudprelay.Adapter.RpcServer.{
  Call, Response, result, internal_error, respond, serve_calls,
}

abbrev pub answered : {Key : Type 0} → Response Key → Key
answered (result id r) = id
answered (internal_error id e) = id

abbrev pub id_list : {Key : Type 0} → Option Key → List Key
id_list none = []
id_list (some id) = id ∷ []

-- The ids of the calls that have one.
abbrev pub ids_of : {Key Raw : Type 0} → List (Call Key Raw) → List Key
ids_of [] = []
ids_of (c ∷ calls) = id_list c.id ++ ids_of calls

map-answered :
    {Key : Type 0} (a b : List (Response Key))
    → map answered (a ++ b) ≡ map answered a ++ map answered b
map-answered [] b = refl
map-answered (x ∷ a) b = ap (λ (t : List _). answered x ∷ t) (map-answered a b)

picked :
    {Key Float : Type 0} (go_on : Bool) (a : Adapter Float) (xs ys : List Action)
    (us vs : List (Response Key)) (b : Adapter Float)
    → map answered (if go_on then us else vs)
      ≡ map answered
          (if◌then◌else◌ {A = Adapter Float × List Action × List (Response Key)} go_on
            (b, xs, us)
            (a, ys, vs)).2
picked true a xs ys us vs b = refl
picked false a xs ys us vs b = refl

module _ {Key Raw Float : Type 0} (json : Decoder Raw Float) (parse : Raw → Option (List IceServer))
    (cfg : Config) (env : Surroundings) (net : Response Key → Bool) where
  -- A call that the loop goes on from is answered if it has an id; another at most once.
  one_answer :
      (id : Option Key) (r : Outcome RpcError Reply)
      → let (go_on, written) = respond json parse cfg env net id r in
        (go_on ≡ true → map answered written ≡ id_list id)
        × ((rest : List Key) × (id_list id ≡ map answered written ++ rest))
  one_answer none (ok r) = (λ e. refl, ([], refl))
  one_answer (some id) (ok r) = (λ e. refl, ([], refl))
  one_answer none (err x) = (λ e. refl, ([], refl))
  one_answer (some id) (err x) = (λ e. refl, ([], refl))
  one_answer none panic = (λ e. cc, ([], refl))
  one_answer (some id) panic = (λ e. cc, (id ∷ [], refl))

  -- Whatever the calls and whichever writes fail, the responses of a connection answer the calls that
  -- have an id in their order, each once, up to some call: their ids, and those of the calls that are
  -- left unanswered, are the ids of the calls.
  pub answered_in_order :
      (calls : List (Call Key Raw)) (a : Adapter Float)
      → (rest : List Key) × (ids_of calls
          ≡ map answered (serve_calls json parse cfg env net a calls).2 ++ rest)
  unfolding serve_calls
  answered_in_order [] a = ([], refl)
  answered_in_order (c ∷ calls) a =
      let h = handle_request json parse cfg env a c.method c.params in
      let one = one_answer c.id h.1 in
      let (rest, more) = answered_in_order calls h.0.0 in
      let step = respond json parse cfg env net c.id h.1 in
      let later = serve_calls json parse cfg env net h.0.0 calls in
      let written = map answered step.1 in
      let pick : Bool → List Key =
        λ go_on. map answered (if go_on then step.1 ++ later.2 else step.1) in
      elim (Bool-cases step.0) [
        | inl e ↦ (
          rest,
          ap₂ (λ (x y : List Key). x ++ y) (sym (one.0 e)) more
              ∙ sym (append_assoc written (map answered later.2) rest)
              ∙ ap (λ (x : List Key). x ++ rest) (sym (map-answered step.1 later.2))
              ∙ ap (λ go_on. pick go_on ++ rest) (sym e)
              ∙ ap (λ (x : List Key). x ++ rest)
                  (picked step.0 h.0.0 (h.0.1 ++ later.1) h.0.1 (step.1 ++ later.2) step.1 later.0),
        )
        | inr e ↦ (
          one.1.0 ++ ids_of calls,
          ap (λ (x : List Key). x ++ ids_of calls) one.1.1
              ∙ append_assoc written one.1.0 (ids_of calls)
              ∙ ap (λ go_on. pick go_on ++ (one.1.0 ++ ids_of calls)) (sym e)
              ∙ ap (λ (x : List Key). x ++ (one.1.0 ++ ids_of calls))
                  (picked step.0 h.0.0 (h.0.1 ++ later.1) h.0.1 (step.1 ++ later.2) step.1 later.0),
        )
      ]
