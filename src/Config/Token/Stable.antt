-- ===== src/Config/Token/Stable.antt =====
-- The token across restarts.
use rust_tunnel.Errors.{ok, err, io}
use rust_tunnel.Base.{
  Bool-cases, none, ◌≢◌, List-cases, Option, some, inl, inr, Option-cases, ℕ, ◌*◌, ◌<◌, ◌/◌, ◌%◌,
  ◌≡◌, refl, false, List, [], ◌∷◌, arith, All, length, Text,
}
use rust_tunnel.Config.Token.{
  write_secret, trim, TokenOs, stored_token, load_or_create_token, is_whitespace, trim_start,
  trim_end, hex_digit, mint_token,
}

hex_digit_visible : (n : ℕ) → n < 16 → is_whitespace (hex_digit n) ≡ false
hex_digit_visible n h = ground arith

abbrev IsVisible : ℕ → Type 0
IsVisible c = is_whitespace c ≡ false

mint_token-IsVisible : (random : List ℕ) → All IsVisible (mint_token random)
unfolding mint_token
mint_token-IsVisible [] = tt
mint_token-IsVisible (b ∷ bs) = (
  hex_digit_visible (b / 16 % 16) (omega arith),
  (hex_digit_visible (b % 16) (omega arith), mint_token-IsVisible bs),
)

trim_start_visible : (s : Text) → All IsVisible s → trim_start s ≡ s
unfolding trim_start
trim_start_visible [] v = refl
trim_start_visible (c ∷ cs) v = ground arith

trim_end_visible : (s : Text) → All IsVisible s → trim_end s ≡ s
unfolding trim_end
trim_end_visible [] v = refl
trim_end_visible (c ∷ []) v = ground arith
trim_end_visible (c ∷ d ∷ ds) v = rw (trim_end_visible (d ∷ ds) v.1, trim_end)

-- A minted token has two characters for each random byte.
length-mint_token : (random : List ℕ) → length (mint_token random) ≡ 2 * length random
unfolding mint_token
length-mint_token [] = refl
length-mint_token (b ∷ bs) = omega (arith, length-mint_token bs)

-- A minted token is read back whole.
stored-mint_token :
    (random : List ℕ)
    → length random ≡ 16
    → stored_token (some (mint_token random)) ≡ some (mint_token random)
unfolding stored_token trim mint_token
stored-mint_token [] h = absurd (omega arith)
stored-mint_token (b ∷ bs) h =
    let v = mint_token-IsVisible (b ∷ bs) in
    ground
      (arith, trim_start_visible (mint_token (b ∷ bs)) v, trim_end_visible (mint_token (b ∷ bs)) v)

-- The token that one start uses is the token of every later start, whatever the generator and the
-- operating system answer then, and the later start leaves the file alone.
pub load_or_create_token_again :
    (os os' : TokenOs) (random random' : List ℕ) (file : Option Text) (t : Text)
    (file' : Option Text)
    → length random ≡ 16
    → load_or_create_token os random file ≡ (ok t, file')
    → load_or_create_token os' random' file' ≡ (ok t, file')
unfolding load_or_create_token write_secret
load_or_create_token_again os os' random random' file t file' h e =
    elim (Option-cases (stored_token file)) [
      | inl blank ↦ elim (Bool-cases os.open_fails) [
        | inl closed ↦ absurd (ground arith)
        | inr opens ↦ elim (Option-cases os.partial_write) [
          | inl whole ↦ ground (arith, stored-mint_token random h)
          | inr (part, broke) ↦ absurd (ground arith)
        ]
      ]
      | inr (s, kept) ↦ ground arith
    ]

-- A start that has to write a new token and whose write breaks off fails, and what it left in the
-- file, where that is not blank, is the token of every later start, however short it is.
pub truncated_token :
    (os os' : TokenOs) (random random' : List ℕ) (file : Option Text) (part : Text)
    → stored_token file ≡ none
    → os.create_dir_fails ≡ false
    → os.open_fails ≡ false
    → os.partial_write ≡ some part
    → trim part ≢ []
    → load_or_create_token os random file ≡ (err io, some part)
      × (load_or_create_token os' random' (some part) ≡ (ok (trim part), some part))
unfolding load_or_create_token write_secret stored_token
truncated_token os os' random random' file part blank dir opens broke visible =
    elim (List-cases (trim part)) [
      | inl e ↦ absurd (visible e)
      | inr (c, cs, e) ↦ (ground arith, ground arith)
    ]
