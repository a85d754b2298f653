-- ===== src/Config/ProtoName.antt =====
-- `Proto::as_str` and `Proto::from_str` of config.rs.
use rust_tunnel.Base.{
  ◌≡◌, ◌↔◌, refl, ◌+◌, true, false, ◌&&◌, [], ◌∷◌, leb, if◌then◌else◌, Bool-cases, inl, inr, arith,
  Text, codes,
}
use rust_tunnel.Errors.{Result, ok, err, bad_proto}
use rust_tunnel.Config.Types.{Proto, tcp, udp}
use rust_tunnel.Admin.Http.{same_text}

unfoldable pub as_str : Proto → Text
as_str tcp = codes "tcp"
as_str udp = codes "udp"

-- `str::to_ascii_lowercase`
unfoldable pub to_ascii_lowercase : Text → Text
to_ascii_lowercase [] = []
to_ascii_lowercase (c ∷ cs) = (if leb 65 c && leb c 90 then c + 32 else c) ∷ to_ascii_lowercase cs

unfoldable pub from_str : Text → Result Proto
from_str s =
    let name = to_ascii_lowercase s in
    if same_text name (codes "tcp")
    then ok tcp
    else if same_text name (codes "udp")
    then ok udp
    else err bad_proto

pub same_text_sound : (s t : Text) → same_text s t ≡ true → s ≡ t
same_text_sound [] [] h = refl
same_text_sound [] (b ∷ t) h = absurd (cc)
same_text_sound (a ∷ s) [] h = absurd (cc)
same_text_sound (a ∷ s) (b ∷ t) h = ground (arith, same_text_sound s t)

-- A text is read as a protocol exactly if it is the printed name of the protocol, up to the case of
-- ASCII letters.
pub from_str_iff : (s : Text) (p : Proto) → (from_str s ≡ ok p) ↔ (to_ascii_lowercase s ≡ as_str p)
unfolding from_str as_str
from_str_iff s tcp = (
  λ h. elim (Bool-cases (same_text (to_ascii_lowercase s) (codes "tcp"))) [
    | inl is ↦ same_text_sound (to_ascii_lowercase s) (codes "tcp") is
    | inr other ↦ elim (Bool-cases (same_text (to_ascii_lowercase s) (codes "udp"))) [
      | inl is ↦ absurd (ground arith)
      | inr unknown ↦ absurd (ground arith)
    ]
  ],
  λ e. let is : same_text (to_ascii_lowercase s) (codes "tcp") ≡ true = rw e refl in ground arith,
)
from_str_iff s udp = (
  λ h. elim (Bool-cases (same_text (to_ascii_lowercase s) (codes "tcp"))) [
    | inl is ↦ absurd (ground arith)
    | inr other ↦ elim (Bool-cases (same_text (to_ascii_lowercase s) (codes "udp"))) [
      | inl is ↦ same_text_sound (to_ascii_lowercase s) (codes "udp") is
      | inr unknown ↦ absurd (ground arith)
    ]
  ],
  λ e.
      let other : same_text (to_ascii_lowercase s) (codes "tcp") ≡ false = rw e refl in
      let is : same_text (to_ascii_lowercase s) (codes "udp") ≡ true = rw e refl in ground arith,
)
