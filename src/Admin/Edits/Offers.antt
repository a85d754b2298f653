-- ===== src/Admin/Edits/Offers.antt =====
-- What the edits of one list of offers do to a question about it.
use rust_tunnel.Base.{
  ◌≡◌, refl, subst, inl, inr, ◌≢◌, Bool-cases, Option-cases, ℕ, Bool, true, false, not, ◌&&◌,
  Option, some, List, [], ◌∷◌, ◌==◌, filter, any, arith, if◌then◌else◌, update_first, or_keep, All,
  Distinct,
}
use rust_tunnel.Config.Types.{offer_key, Proto, tcp, udp, same_proto, Name, Offer}
use rust_tunnel.Config.Grants.Reach.{same_proto_iff, offers_test}
use rust_tunnel.Admin.Edits.{is_offer}

-- The offer that an edit is about.
abbrev pub same_offer : Proto → ℕ → Proto → ℕ → Bool
same_offer proto port q n = same_proto proto q && port == n

-- Two offers of one protocol and port are alike for every question.
pub same_offer_trans :
    (p proto q : Proto) (k port n : ℕ)
    → (same_proto p proto && k == port) ≡ true
    → (same_proto p q && k == n) ≡ same_offer proto port q n
same_offer_trans tcp tcp q k port n h = ground arith
same_offer_trans udp udp q k port n h = ground arith
same_offer_trans tcp udp q k port n h = absurd (cc)
same_offer_trans udp tcp q k port n h = absurd (cc)

pub any-drop :
    (proto q : Proto) (port n : ℕ) (os : List Offer)
    → any (offers_test q n) (filter (λ o. not (is_offer proto port o)) os)
      ≡ (any (offers_test q n) os && not (same_offer proto port q n))
any-drop proto q port n [] = refl
any-drop proto q port n (o ∷ os) =
    ground (arith, any-drop proto q port n os, same_offer_trans o.proto proto q o.port port n)

-- `|o| { o.name = ..; o.enabled = .. }`, each field if the request has it.
abbrev pub patched : Option Name → Option Bool → Offer → Offer
patched name enabled o = record o {
  name = or_keep o.name name;
  enabled = or_keep o.enabled enabled;
}

-- A question about the offer of an edit is the edit's own.
same_question :
    (p proto q : Proto) (k port n : ℕ)
    → same_offer proto port q n ≡ true
    → (same_proto p proto && k == port) ≡ (same_proto p q && k == n)
same_question p tcp tcp k port n h = ground arith
same_question p udp udp k port n h = ground arith
same_question p tcp udp k port n h = absurd (cc)
same_question p udp tcp k port n h = absurd (cc)

same_key :
    (proto q : Proto) (port n : ℕ) (o x : Offer)
    → is_offer proto port o ≡ true
    → same_offer proto port q n ≡ true
    → offers_test q n x ≡ true
    → offer_key o ≡ offer_key x
same_key proto q port n o x is hit found =
    let mine : o.proto ≡ proto = (same_proto_iff o.proto proto).0 (ground arith) in
    let asked : proto ≡ q = (same_proto_iff proto q).0 (ground arith) in
    let other : x.proto ≡ q = (same_proto_iff x.proto q).0 (ground arith) in
    ground (arith, mine, asked, other)

-- No other offer answers to the same protocol and port.
nobody_else :
    (proto q : Proto) (port n : ℕ) (o : Offer) (os : List Offer)
    → is_offer proto port o ≡ true
    → same_offer proto port q n ≡ true
    → All (λ x. offer_key o ≢ offer_key x) os
    → any (offers_test q n) os ≡ false
nobody_else proto q port n o [] is hit alone = refl
nobody_else proto q port n o (x ∷ os) is hit alone = elim (Bool-cases (offers_test q n x)) [
  | inl found ↦ absurd (alone.0 (same_key proto q port n o x is hit found))
  | inr other ↦ ground (arith, nobody_else proto q port n o os is hit alone.1)
]

-- The cell of a patched list.
abbrev pub IsPatched : Proto → ℕ → Option Bool → Proto → ℕ → List Offer → List Offer → Type 0
IsPatched proto port enabled q n os os' = any (offers_test q n) os' ≡ (
    if same_offer proto port q n
    then or_keep (any (offers_test q n) os) enabled
    else any (offers_test q n) os)

pub any-patched :
    (proto q : Proto) (port n : ℕ) (name : Option Name) (enabled : Option Bool)
    (os os' : List Offer)
    → Distinct offer_key os
    → update_first (is_offer proto port) (patched name enabled) os ≡ some os'
    → IsPatched proto port enabled q n os os'
unfolding update_first
any-patched proto q port n name enabled [] os' distinct updated = absurd (cc)
any-patched proto q port n name enabled (o ∷ os) os' distinct updated =
    elim (Bool-cases (is_offer proto port o)) [
      | inl is ↦
          let shape : patched name enabled o ∷ os ≡ os' = ground arith in
          subst (IsPatched proto port enabled q n (o ∷ os)) shape
            (elim (Bool-cases (same_offer proto port q n)) [
              | inl hit ↦ ground (
                arith,
                nobody_else proto q port n o os is hit distinct.0,
                same_offer_trans o.proto proto q o.port port n is,
              )
              | inr miss ↦ ground (arith, same_offer_trans o.proto proto q o.port port n is)
            ])
      | inr other ↦
          elim (Option-cases (update_first (is_offer proto port) (patched name enabled) os)) [
            | inl nobody ↦ absurd (ground arith)
            | inr (ys, rest) ↦
                let shape : o ∷ ys ≡ os' = ground arith in
                let ih = any-patched proto q port n name enabled os ys distinct.1 rest in
                subst (IsPatched proto port enabled q n (o ∷ os)) shape
                  (elim (Bool-cases (same_offer proto port q n)) [
                    | inl hit ↦ ground (arith, ih, same_question o.proto proto q o.port port n hit)
                    | inr miss ↦ ground (arith, ih)
                  ])
          ]
    ]
