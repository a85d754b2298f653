-- ===== src/Admin/Handlers.antt =====
-- The request bodies and the handlers of admin.rs. The handlers share the parameters of `Env`.
pub mod Accepted
use rust_tunnel.Base.{ℕ, Bool, Option, List, map, Text}
use rust_tunnel.Errors.{Result}
use rust_tunnel.Exec.{Exec, pure, lift, ◌>>=◌, ◌>>◌}
use rust_tunnel.Config.Types.{Proto, Name, Offer, Peer, Binding, Config}
use rust_tunnel.Config.Persist.{Os, Toml}
use rust_tunnel.State.{
  Role, BindState, PeerLive, Shared, mutate, uptime_secs, live_peers, bind_state,
}
use rust_tunnel.Admin.Edits.{
  add_peer_edit, patch_peer_edit, del_peer_edit, parse_id, add_offer_edit, patch_offer_edit,
  del_offer_edit, add_binding_edit, patch_binding_edit, del_binding_edit,
}

pub record PeerAdd : Type 0 where
  pub id : Text
  pub name : Name

pub record PeerPatch : Type 0 where
  pub id : Text
  pub name : Option Name
  pub enabled : Option Bool

pub record IdRef : Type 0 where
  pub id : Text

-- `peer` is absent for the shared list.
pub record OfferRef : Type 0 where
  pub peer : Option Text
  pub proto : Proto
  pub port : ℕ

pub record OfferAdd : Type 0 where
  pub peer : Option Text
  pub proto : Proto
  pub port : ℕ
  pub name : Name

pub record OfferPatch : Type 0 where
  pub peer : Option Text
  pub proto : Proto
  pub port : ℕ
  pub name : Option Name
  pub enabled : Option Bool

pub record BindingAdd : Type 0 where
  pub proto : Proto
  pub local : ℕ
  pub remote : ℕ
  pub name : Name

pub record BindingPatch : Type 0 where
  pub proto : Proto
  pub local : ℕ
  pub remote : Option ℕ
  pub name : Option Name
  pub enabled : Option Bool

pub record BindingRef : Type 0 where
  pub proto : Proto
  pub local : ℕ

-- The answer of `get_state`. The printed forms of ids and the path of the file are left out.
pub record BindingView : Type 0 where
  pub binding : Binding
  pub runtime : Option BindState

pub record StateView (Key : Type 0) : Type 0 where
  pub role : Role
  pub id : Key
  pub uptime_secs : ℕ
  pub shared_offers : List Offer
  pub peers : List (Peer Key)
  pub bindings : List BindingView
  pub live_peers : List (PeerLive Key)

-- What a response carries: the page, `{"ok": true}`, an error message, or the state.
pub data Reply (Key : Type 0) : Type 0 where
  page accepted message : Reply Key
  state : StateView Key → Reply Key

-- Code that the admin surface calls and that is not the program's: the toml crate, and iroh's parser of
-- endpoint ids. `admin_id` and `token` are the fields of `Admin`.
pub record Env (Key : Type 0) : Type 0 where
  pub toml : Toml Key
  pub parse_key : Text → Option Key
  pub admin_id : Key
  pub token : Text

unfoldable pub get_state : {Key : Type 0} → Env Key → ℕ → Shared Key → StateView Key
get_state env now sh = record {
  role = sh.role;
  id = env.admin_id;
  uptime_secs = uptime_secs sh now;
  shared_offers = sh.config.serve.shared;
  peers = sh.config.serve.peers;
  bindings =
      map (λ (b : Binding). record { binding = b; runtime = bind_state sh b })
        sh.config.connect.bindings;
  live_peers = live_peers sh now;
}

module _ {Key : Type 0} (id_eq : Discrete Key) (env : Env Key) (os : Os) where
  abbrev pub Handler : Type 0
  Handler = Exec (Shared Key) (Reply Key)

  abbrev pub edit : (Config Key → Result (Unit {0} × Config Key)) → Handler
  edit f = do mutate id_eq env.toml os f; pure accepted

  unfoldable pub add_peer : PeerAdd → Handler
  add_peer b = do id ← lift (parse_id env.parse_key b.id); edit (add_peer_edit id_eq id b.name)

  unfoldable pub patch_peer : PeerPatch → Handler
  patch_peer b = do
    id ← lift (parse_id env.parse_key b.id)
    edit (patch_peer_edit id_eq id b.name b.enabled)

  unfoldable pub del_peer : IdRef → Handler
  del_peer b = do id ← lift (parse_id env.parse_key b.id); edit (del_peer_edit id_eq id)

  unfoldable pub add_offer : OfferAdd → Handler
  add_offer b = edit (add_offer_edit id_eq env.parse_key b.peer b.proto b.port b.name)

  unfoldable pub patch_offer : OfferPatch → Handler
  patch_offer b = edit (patch_offer_edit id_eq env.parse_key b.peer b.proto b.port b.name b.enabled)

  unfoldable pub del_offer : OfferRef → Handler
  del_offer b = edit (del_offer_edit id_eq env.parse_key b.peer b.proto b.port)

  unfoldable pub add_binding : BindingAdd → Handler
  add_binding b = edit (add_binding_edit b.proto b.local b.remote b.name)

  unfoldable pub patch_binding : BindingPatch → Handler
  patch_binding b = edit (patch_binding_edit b.proto b.local b.remote b.name b.enabled)

  unfoldable pub del_binding : BindingRef → Handler
  del_binding b = edit (del_binding_edit b.proto b.local)
