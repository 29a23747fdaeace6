-- ===== src/Relay/HttpApi/Handlers.antt =====
-- The handlers of internal/relay/httpapi.go: each leaves the sessions alone or makes a change that is allowed.
use fafsturmudprelay.Prelude.{
  ℕ, ◌≡◌, ◌≢◌, refl, sym, ap, subst, inl, inr, ◌⊎◌, Option, none, some, true, false, Bytes,
  Bool-cases, Option-cases, ◌==◌, length, [], bytes_beq, bytes_eq, bytes_beq_iff, get_elem?, arith,
}
use fafsturmudprelay.Prelude.Int.{ℤ}
use fafsturmudprelay.Outcome.{Outcome, ok, err, panic}
use fafsturmudprelay.Relay.SessionManager.{
  Manager, ManagerError, create_session, get_session, delete_session, add_player_to_session,
  remove_player_from_session,
}
use fafsturmudprelay.Relay.HttpApi.{
  Method, get, post, delete_method, other_method, Request, Response, Reply, answer, is_get,
  valid_session_id, session_size, split_path, trim_prefix, sessions_prefix, show_created,
  no_content, joined, join, leave, handle_health, handle_sessions, handle_session_root,
  handle_session_join, handle_session_leave, handle_session_by_id, Route, health, sessions,
  session_by_id, answered, dispatch,
}
use fafsturmudprelay.Relay.HttpApi.Changes.{
  IsSessionId, valid-IsSessionId, session_size-bounds, Names, Change, makes, drops, admits, removes,
}

Method-cases : (x : Method) → (x ≡ get) ⊎ ((x ≡ post) ⊎ ((x ≡ delete_method) ⊎ (x ≡ other_method)))
Method-cases get = inl refl
Method-cases post = inr (inl refl)
Method-cases delete_method = inr (inr (inl refl))
Method-cases other_method = inr (inr (inr refl))

not_zero : (n : ℕ) → (n == 0) ≡ false → n ≢ 0
not_zero n h = ground (arith, h)

post_no_get : {x : Method} → x ≡ post → is_get x ≡ true → ⊥
post_no_get e g = ground (arith, e, g)

delete_no_get : {x : Method} → x ≡ delete_method → is_get x ≡ true → ⊥
delete_no_get e g = ground (arith, e, g)

module _ (decode_session : Bytes → Option (Bytes × ℤ)) (decode_join : Bytes → Option (ℕ × Bytes))
    (decode_leave : Bytes → Option ℕ) (route : Bytes → Route) (r : Request) (now : ℕ)
    (m : Manager) where
  -- These are the states that a handler may leave.
  abbrev pub FineAt : Manager → Type 0
  FineAt n = (n ≡ m) ⊎ Change decode_session decode_join decode_leave route r now m n

  abbrev Fine : Reply → Type 0
  Fine x = FineAt x.0

  by : (x y : Reply) → x ≡ y → Fine y → Fine x
  by x y e h = subst Fine (sym e) h

  Fine-answer :
      (success : Response) (status : ℕ) (x : Manager × Outcome ManagerError (Unit {0}))
      → FineAt x.0
      → Fine (answer success status x)
  Fine-answer success status (n, ok u) h = h
  Fine-answer success status (n, err e) h = h
  Fine-answer success status (n, panic) h = h

  get-Fine :
      (id : Bytes) (o : Option ℕ)
      → get_session m id ≡ o
      → r.method ≡ get
      → Fine (handle_session_root decode_session decode_join decode_leave m r id)
  unfolding handle_session_root
  get-Fine id none e g = rw (g, handle_session_root, e) (inl refl)
  get-Fine id (some ref) e g = elim (Option-cases (get_elem? m.heap ref)) [
    | inl at ↦ rw (g, handle_session_root, e, at) (inl refl)
    | inr (s, at) ↦ rw (g, handle_session_root, e, at) (inl refl)
  ]

  root-Fine :
      (id : Bytes)
      → route r.path ≡ session_by_id
      → Names r id []
      → IsSessionId id
      → Fine (handle_session_root decode_session decode_join decode_leave m r id)
  unfolding handle_session_root
  root-Fine id at named v = elim (Method-cases r.method) [
    | inl g ↦ get-Fine id (get_session m id) refl g
    | inr (inl e) ↦ rw e (inl refl)
    | inr (inr (inl e)) ↦
        by (handle_session_root decode_session decode_join decode_leave m r id)
          (answer no_content 404 (delete_session m id)) (rw (e, handle_session_root) refl)
          (Fine-answer _ _ _ (inr (drops id at e named v)))
    | inr (inr (inr e)) ↦ rw e (inl refl)
  ]

  join-Fine :
      (id : Bytes)
      → route r.path ≡ session_by_id
      → Names r id join
      → IsSessionId id
      → Fine (handle_session_join decode_session decode_join decode_leave m r id)
  unfolding handle_session_join
  join-Fine id at named v = elim (Method-cases r.method) [
    | inl e ↦ rw e (inl refl)
    | inr (inr (inl e)) ↦ rw e (inl refl)
    | inr (inr (inr e)) ↦ rw e (inl refl)
    | inr (inl e) ↦ elim (Option-cases (decode_join r.body)) [
      | inl d ↦ rw (e, handle_session_join, d) (inl refl)
      | inr ((player_id, login), d) ↦ elim (Bool-cases (player_id == 0)) [
        | inl z ↦ rw (e, handle_session_join, d, z) (inl refl)
        | inr z ↦
            by (handle_session_join decode_session decode_join decode_leave m r id)
              (answer (joined id player_id) 409 (add_player_to_session m id player_id login))
              (rw (e, handle_session_join, d, z) refl)
              (Fine-answer _ _ _
                (inr (admits id player_id login at e named v d (not_zero player_id z))))
      ]
    ]
  ]

  leave-Fine :
      (id : Bytes)
      → route r.path ≡ session_by_id
      → Names r id leave
      → IsSessionId id
      → Fine (handle_session_leave decode_session decode_join decode_leave m r id)
  unfolding handle_session_leave
  leave-Fine id at named v = elim (Method-cases r.method) [
    | inl e ↦ rw e (inl refl)
    | inr (inr (inl e)) ↦ rw e (inl refl)
    | inr (inr (inr e)) ↦ rw e (inl refl)
    | inr (inl e) ↦ elim (Option-cases (decode_leave r.body)) [
      | inl d ↦ rw (e, handle_session_leave, d) (inl refl)
      | inr (player_id, d) ↦ elim (Bool-cases (player_id == 0)) [
        | inl z ↦ rw (e, handle_session_leave, d, z) (inl refl)
        | inr z ↦
            by (handle_session_leave decode_session decode_join decode_leave m r id)
              (answer no_content 404 (remove_player_from_session m id player_id))
              (rw (e, handle_session_leave, d, z) refl)
              (Fine-answer _ _ _ (inr (removes id player_id at e named v d (not_zero player_id z))))
      ]
    ]
  ]

  created_at : (n : Manager) (ref : ℕ) → FineAt n → Fine (show_created (n, ok ref))
  created_at n ref h = elim (Option-cases (get_elem? n.heap ref)) [
    | inl e ↦ rw (e, show_created) h
    | inr (s, e) ↦ rw (e, show_created) h
  ]

  Fine-created : (x : Manager × Outcome ManagerError ℕ) → FineAt x.0 → Fine (show_created x)
  Fine-created (n, ok ref) h = created_at n ref h
  Fine-created (n, err e) h = h
  Fine-created (n, panic) h = h

  made :
      (id : Bytes) (n : ℤ)
      → route r.path ≡ sessions
      → r.method ≡ post
      → decode_session r.body ≡ some (id, n)
      → IsSessionId id
      → Change decode_session decode_join decode_leave route r now m
          (create_session m id (session_size n) now).0
  made id n at p d v =
      let (size, e, low, high) = session_size-bounds n in rw e (makes id n size at p d v low high)

  create-Fine :
      route r.path ≡ sessions
      → Fine (handle_sessions decode_session decode_join decode_leave m r now)
  unfolding handle_sessions
  create-Fine at = elim (Method-cases r.method) [
    | inl e ↦ rw e (inl refl)
    | inr (inr (inl e)) ↦ rw e (inl refl)
    | inr (inr (inr e)) ↦ rw e (inl refl)
    | inr (inl e) ↦ elim (Option-cases (decode_session r.body)) [
      | inl d ↦ rw (e, handle_sessions, d) (inl refl)
      | inr ((id, max_players), d) ↦ elim (Bool-cases (length id == 0)) [
        | inl z ↦ rw (e, handle_sessions, d, z) (inl refl)
        | inr z ↦ elim (Bool-cases (valid_session_id id)) [
          | inr v ↦ rw (e, handle_sessions, d, z, v) (inl refl)
          | inl v ↦
              by (handle_sessions decode_session decode_join decode_leave m r now)
                (show_created (create_session m id (session_size max_players) now))
                (rw (e, handle_sessions, d, z, v) refl)
                (Fine-created (create_session m id (session_size max_players) now)
                  (inr (made id max_players at e d (valid-IsSessionId id v))))
        ]
      ]
    ]
  ]

  health-Fine : Fine (handle_health m r)
  unfolding handle_health
  health-Fine = elim (Method-cases r.method) [
    | inl e ↦ rw e (inl refl)
    | inr (inl e) ↦ rw e (inl refl)
    | inr (inr (inl e)) ↦ rw e (inl refl)
    | inr (inr (inr e)) ↦ rw e (inl refl)
  ]

  by_id-Fine :
      route r.path ≡ session_by_id
      → Fine (handle_session_by_id decode_session decode_join decode_leave m r)
  unfolding handle_session_by_id
  by_id-Fine at =
      let parts = split_path (trim_prefix sessions_prefix r.path) in
      let named_as : (action : Bytes) → bytes_beq parts.1 action ≡ true → Names r parts.0 action =
        λ action e. ap (λ (x : Bytes). (parts.0, x)) ((bytes_beq_iff parts.1 action).0 e) in
      elim (Bool-cases (length parts.0 == 0)) [
        | inl z ↦ rw z (inl refl)
        | inr z ↦ elim (Bool-cases (valid_session_id parts.0)) [
          | inr v ↦ rw (z, v) (inl refl)
          | inl v ↦ elim (Bool-cases (bytes_beq parts.1 [])) [
            | inl a ↦
                rw (z, v, a) (root-Fine parts.0 at (named_as [] a) (valid-IsSessionId parts.0 v))
            | inr a ↦ elim (Bool-cases (bytes_beq parts.1 join)) [
              | inl b ↦
                  rw (z, v, a, b)
                    (join-Fine parts.0 at (named_as join b) (valid-IsSessionId parts.0 v))
              | inr b ↦ elim (Bool-cases (bytes_beq parts.1 leave)) [
                | inl c ↦
                    rw (z, v, a, b, c)
                      (leave-Fine parts.0 at (named_as leave c) (valid-IsSessionId parts.0 v))
                | inr c ↦ rw (z, v, a, b, c) (inl refl)
              ]
            ]
          ]
        ]
      ]

  pub dispatch-Fine :
      (choice : Route)
      → route r.path ≡ choice
      → Fine (dispatch decode_session decode_join decode_leave route m r now)
  unfolding dispatch
  dispatch-Fine health e = rw (e, dispatch) health-Fine
  dispatch-Fine sessions e = rw (e, dispatch) (create-Fine e)
  dispatch-Fine session_by_id e = rw (e, dispatch) (by_id-Fine e)
  dispatch-Fine (answered status) e = rw (e, dispatch) (inl refl)

  -- No change is made by a GET.
  read-FineAt :
      {n : Manager}
      → Change decode_session decode_join decode_leave route r now m n
      → is_get r.method ≡ true
      → n ≡ m
  read-FineAt (makes id n size at p d v low high) g = absurd (post_no_get p g)
  read-FineAt (drops id at p e v) g = absurd (delete_no_get p g)
  read-FineAt (admits id player_id login at p e v d nonzero) g = absurd (post_no_get p g)
  read-FineAt (removes id player_id at p e v d nonzero) g = absurd (post_no_get p g)

  pub read_only : (n : Manager) → FineAt n → is_get r.method ≡ true → n ≡ m
  read_only n (inl same) g = same
  read_only n (inr change) g = read-FineAt change g
