-- ===== src/Adapter/RpcHandler/IceServers.antt =====
-- normalizeICEServerURL and setIceServers of internal/adapter/rpchandler.go. `parse` is json.Unmarshal on
-- the list of servers. A scheme is a byte string that ends in its colon.
use fafsturmudprelay.Prelude.{
  Option, none, some, Bool, true, false, ◌||◌, List, [], ◌∷◌, ◌++◌, Bytes, ◌==◌, map, if◌then◌else◌,
}
use fafsturmudprelay.Outcome.{ok, err}
use fafsturmudprelay.Adapter.RpcHandler.{
  Adapter, IceServer, Handled, nil, missing_params, bad_param,
}

-- "stun:", "stuns:", "turn:", "turns:".
abbrev pub stun : Bytes
stun = 115 ∷ 116 ∷ 117 ∷ 110 ∷ 58 ∷ []

abbrev pub stuns : Bytes
stuns = 115 ∷ 116 ∷ 117 ∷ 110 ∷ 115 ∷ 58 ∷ []

abbrev pub turn : Bytes
turn = 116 ∷ 117 ∷ 114 ∷ 110 ∷ 58 ∷ []

abbrev pub turns : Bytes
turns = 116 ∷ 117 ∷ 114 ∷ 110 ∷ 115 ∷ 58 ∷ []

-- "//", what a hierarchical URL has after its colon.
abbrev pub slashes : Bytes
slashes = 47 ∷ 47 ∷ []

-- strings.HasPrefix, with the rest of the string.
abbrev pub after_prefix : Bytes → Bytes → Option Bytes
after_prefix [] s = some s
after_prefix (p ∷ ps) [] = none
after_prefix (p ∷ ps) (c ∷ cs) = let rest = after_prefix ps cs in if p == c then rest else none

-- The first "://" of a URL that starts with scheme and slashes is the one of its scheme.
abbrev pub opaque_form : List Bytes → Bytes → Bytes
opaque_form [] url = url
opaque_form (scheme ∷ schemes) url =
    let others = opaque_form schemes url in
    elim (after_prefix (scheme ++ slashes) url) [ none ↦ others | some rest ↦ scheme ++ rest ]

-- 63 is "?".
abbrev pub before_query : Bytes → Bytes
before_query [] = []
before_query (c ∷ cs) = let rest = before_query cs in if c == 63 then [] else c ∷ rest

abbrev has_prefix : Bytes → Bytes → Bool
has_prefix prefix s = elim (after_prefix prefix s) [ none ↦ false | some rest ↦ true ]

unfoldable pub normalize_ice_server_url : Bytes → Bytes
normalize_ice_server_url raw_url =
    let url = opaque_form (stun ∷ stuns ∷ turn ∷ turns ∷ []) raw_url in
    if has_prefix stun url || has_prefix stuns url then before_query url else url

abbrev normalized : IceServer → IceServer
normalized s = record s { urls = map normalize_ice_server_url s.urls }

module _ {Raw Float : Type 0} (parse : Raw → Option (List IceServer)) where
  unfoldable pub set_ice_servers : Adapter Float → List Raw → Handled Float
  unfolding normalize_ice_server_url
  set_ice_servers a [] = ((a, []), err missing_params)
  set_ice_servers a (raw ∷ rest) = elim (parse raw) [
    | none ↦ ((a, []), err (bad_param 0))
    | some servers ↦ ((record a { ice_servers = map normalized servers }, []), ok nil)
  ]
