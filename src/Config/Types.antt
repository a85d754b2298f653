-- ===== src/Config/Types.antt =====
-- The data of config.rs. An endpoint id is iroh's: the type `Key` is a parameter, with a decidable
-- equality where the code compares ids. A port is a number below 2 ^ 16; a name is the list of its
-- characters' code points.
use mathlib.Core.List.{List, []}
use rust_tunnel.Base.{ℕ, Bool, true, false, ℕ_discrete}

pub data Proto : Type 0 where
  tcp udp : Proto

-- `proto == proto`
abbrev pub same_proto : Proto → Proto → Bool
same_proto tcp tcp = true
same_proto udp udp = true
same_proto _ _ = false

Proto-discrete : Discrete Proto
Proto-discrete = hlevel

-- The key of an offer, and of a local listener: `(Proto, u16)`.
abbrev pub PortKey : Type 0
PortKey = Proto × ℕ

unfoldable pub port_key_eq : Discrete PortKey
unfolding ℕ_discrete Proto-discrete
port_key_eq = hlevel ℕ_discrete

abbrev pub Name : Type 0
Name = List ℕ

-- main.rs: a `local:remote` mapping of the connecting side.
pub record PortMap : Type 0 where
  pub local : ℕ
  pub remote : ℕ

pub record Offer : Type 0 where
  pub proto : Proto
  pub port : ℕ
  pub name : Name
  pub enabled : Bool

pub record Peer (Key : Type 0) : Type 0 where
  pub id : Key
  pub name : Name
  pub enabled : Bool
  pub offers : List Offer

pub record Binding : Type 0 where
  pub proto : Proto
  pub local : ℕ
  pub remote : ℕ
  pub name : Name
  pub enabled : Bool

pub record ServeConfig (Key : Type 0) : Type 0 where
  pub shared : List Offer
  pub peers : List (Peer Key)

pub record ConnectConfig : Type 0 where
  pub bindings : List Binding

pub record Config (Key : Type 0) : Type 0 where
  pub serve : ServeConfig Key
  pub connect : ConnectConfig

-- `Config::default()`
abbrev pub default : {Key : Type 0} → Config Key
default = record { serve = record { shared = []; peers = [] }; connect = record { bindings = [] } }

abbrev pub offer_key : Offer → PortKey
offer_key o = (o.proto, o.port)

abbrev pub binding_key : Binding → PortKey
binding_key b = (b.proto, b.local)

-- `Binding::map`
abbrev pub binding_map : Binding → PortMap
binding_map b = record { local = b.local; remote = b.remote }
