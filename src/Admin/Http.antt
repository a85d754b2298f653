-- ===== src/Admin/Http.antt =====
-- What the code reads of an HTTP request, and `presented_token` of admin.rs. hyper is not the program's:
-- what it delivers is in the request.
use rust_tunnel.Base.{
  ℕ, Bool, true, false, ◌&&◌, Option, none, some, List, [], ◌∷◌, ◌==◌, if◌then◌else◌, Text, codes,
}
use rust_tunnel.Config.Token.{trim}

pub data Method : Type 0 where
  get post patch delete other : Method

-- `size_upper` is the upper bound that the body states, and `bytes` is `none` where reading it fails.
pub record Body : Type 0 where
  pub size_upper : Option ℕ
  pub bytes : Option (List ℕ)

-- `authorization` is the header where it is there, with `none` inside where it is no visible ASCII.
pub record Request : Type 0 where
  pub method : Method
  pub path : Text
  pub query : Option Text
  pub authorization : Option (Option Text)
  pub body : Body

-- `a == b` on texts.
abbrev pub same_text : Text → Text → Bool
same_text [] [] = true
same_text (a ∷ as') (b ∷ bs) = a == b && same_text as' bs
same_text _ _ = false

-- `str::strip_prefix`
unfoldable pub strip_prefix : Text → Text → Option Text
strip_prefix [] s = some s
strip_prefix (p ∷ ps) [] = none
strip_prefix (p ∷ ps) (c ∷ cs) = let rest = strip_prefix ps cs in if p == c then rest else none

-- `str::split(sep)`
abbrev onto_first : ℕ → List Text → List Text
onto_first c [] = (c ∷ []) ∷ []
onto_first c (w ∷ ws) = (c ∷ w) ∷ ws

unfoldable pub split : ℕ → Text → List Text
split sep [] = [] ∷ []
split sep (c ∷ cs) = let rest = split sep cs in if c == sep then [] ∷ rest else onto_first c rest

-- `str::split_once(sep)`
abbrev onto_left : ℕ → Option (Text × Text) → Option (Text × Text)
onto_left c none = none
onto_left c (some (l, r)) = some (c ∷ l, r)

unfoldable pub split_once : ℕ → Text → Option (Text × Text)
split_once sep [] = none
split_once sep (c ∷ cs) =
    let rest = split_once sep cs in if c == sep then some ([], cs) else onto_left c rest

-- `filter_map(split_once('=')).find(|(k, _)| k == "t")`
unfoldable pub find_t : List Text → Option Text
find_t [] = none
find_t (kv ∷ kvs) =
    let rest = find_t kvs in
    elim (split_once b'=' kv) [
      | none ↦ rest
      | some (k, v) ↦ if same_text k (codes "t") then some v else rest
    ]

unfoldable pub query_token : Option Text → Option Text
query_token none = none
query_token (some q) = find_t (split b'&' q)

-- What `Authorization: Bearer` carries, if the header is there in that form.
unfoldable pub bearer_token : Option (Option Text) → Option Text
bearer_token none = none
bearer_token (some none) = none
bearer_token (some (some s)) = elim (strip_prefix (codes "Bearer ") s) [
  | none ↦ none
  | some rest ↦ some (trim rest)
]

unfoldable pub presented_token : Request → Option Text
presented_token req = elim (bearer_token req.authorization) [
  | some t ↦ some t
  | none ↦ query_token req.query
]

abbrev pub is_get : Method → Bool
is_get get = true
is_get _ = false
