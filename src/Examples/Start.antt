-- ===== src/Examples/Start.antt =====
-- Starts of both commands at concrete inputs.
use rust_tunnel.Base.{
  ℕ, ◌⊎◌, inl, inr, true, none, some, any, ◌==◌, ◌≤◌, if◌then◌else◌, Bool-cases, codes, All, ◌≡◌,
  refl, false, [], ◌∷◌, arith,
}
use rust_tunnel.Errors.{ok, is_ok}
use rust_tunnel.Config.Types.{PortMap}
use rust_tunnel.Start.Flags.Show.{show_port_map, port_map-show_port_map}
use rust_tunnel.Start.Address.{Sockets, SocketsLaws, admin_addr, admin_addr-ok}
use rust_tunnel.Config.Validate.{check_port}
use rust_tunnel.Start.Flags.{port_map, parse_port, parse_u16, parse_digits}
use rust_tunnel.Config.ProtoName.{same_text_sound}
use rust_tunnel.Admin.Http.{split_once, same_text}

abbrev ssh_map : PortMap
ssh_map = record { local = 2222; remote = 22 }

parsed : port_map (codes "2222:22") ≡ ok ssh_map
unfolding port_map parse_port parse_u16 parse_digits split_once
parsed = refl

-- The texts that the unit test of the source rejects.
junk_rejected :
    All
      (λ s. is_ok (port_map s) ≡ false)
      (codes "2222"
        ∷ codes "2222:"
        ∷ codes ":22"
        ∷ codes "0:22"
        ∷ codes "2222:0"
        ∷ codes "a:22"
        ∷ codes "70000:22"
        ∷ codes "2222:22:22"
        ∷ [])
unfolding port_map parse_port parse_u16 parse_digits split_once
junk_rejected = (refl, (refl, (refl, (refl, (refl, (refl, (refl, (refl, tt))))))))

port_map-show_port_map_example : port_map (show_port_map ssh_map) ≡ ok ssh_map
port_map-show_port_map_example =
    port_map-show_port_map ssh_map (record { local = ground arith; remote = ground arith })
      (omega arith) (omega arith)

-- Addresses are numbers; the parser knows one text.
abbrev pub one_address : Sockets ℕ
one_address = record {
  localhost = 1;
  parse_addr = λ s. if same_text s (codes "0.0.0.0:7000") then some (0, 7000) else none;
}

pub one_address-SocketsLaws : SocketsLaws one_address
one_address-SocketsLaws = record {
  port_fits = λ s ip port h. ground arith;
  has_colon = λ s a h. elim (Bool-cases (same_text s (codes "0.0.0.0:7000"))) [
    | inl e ↦ rw (same_text_sound s (codes "0.0.0.0:7000") e) refl
    | inr e ↦ absurd (ground arith)
  ];
}

bare_port : admin_addr one_address (codes "7000") ≡ ok (1, 7000)
unfolding admin_addr parse_u16 parse_digits check_port
bare_port = refl

admin_addr-ok_example :
    (1 ≤ 7000) × (7000 ≤ 65535) × ((any (λ c. c == b':') (codes "7000") ≡ true) ⊎ (◌≡◌ {A = ℕ} 1 1))
admin_addr-ok_example =
    admin_addr-ok one_address (codes "7000") 1 7000 one_address-SocketsLaws bare_port
