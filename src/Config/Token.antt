-- ===== src/Config/Token.antt =====
-- The admin token of config.rs: `load_or_create_token`, `mint_token` and `token_eq`.
pub mod Compare
pub mod Stable
use Prim.Native.Nat.{bit_or, bit_xor}
use rust_tunnel.Base.{
  ℕ, ◌+◌, ◌/◌, ◌%◌, Bool, true, false, ◌&&◌, ◌||◌, Option, none, some, List, [], ◌∷◌, ltb, leb,
  ◌==◌, if◌then◌else◌, length, Text,
}
use rust_tunnel.Errors.{Result, ok, err, io, in_context, creating}

-- The fold over the zipped bytes: `acc | (x ^ y)`.
unfoldable pub diff_bits : ℕ → List ℕ → List ℕ → ℕ
diff_bits acc (x ∷ xs) (y ∷ ys) = diff_bits (bit_or acc (bit_xor x y)) xs ys
diff_bits acc _ _ = acc

-- `token_eq`, on the bytes of the two tokens.
unfoldable pub token_eq : List ℕ → List ℕ → Bool
token_eq a b = if length a == length b then diff_bits 0 a b == 0 else false

-- `char::is_whitespace`: the code points with the property White_Space.
abbrev pub is_whitespace : ℕ → Bool
is_whitespace c =
    leb 9 c && leb c 13
    || c == 32
    || c == 0x85
    || c == 0xa0
    || c == 0x1680
    || leb 0x2000 c && leb c 0x200a
    || c == 0x2028
    || c == 0x2029
    || c == 0x202f
    || c == 0x205f
    || c == 0x3000

unfoldable pub trim_start : Text → Text
trim_start [] = []
trim_start (c ∷ cs) = let rest = trim_start cs in if is_whitespace c then rest else c ∷ cs

-- Drops `c` where it is white space and nothing but white space follows.
abbrev keep_end : ℕ → Text → Text
keep_end c [] = if is_whitespace c then [] else c ∷ []
keep_end c (d ∷ ds) = c ∷ d ∷ ds

unfoldable pub trim_end : Text → Text
trim_end [] = []
trim_end (c ∷ cs) = keep_end c (trim_end cs)

-- `str::trim`
unfoldable pub trim : Text → Text
trim s = trim_end (trim_start s)

-- A hexadecimal digit, in lower case.
abbrev pub hex_digit : ℕ → ℕ
hex_digit n = if ltb n 10 then n + b'0' else n + 87

-- `mint_token`, from the random bytes: `format!("{b:02x}")` for each.
unfoldable pub mint_token : List ℕ → Text
mint_token [] = []
mint_token (b ∷ bs) = hex_digit (b / 16 % 16) ∷ hex_digit (b % 16) ∷ mint_token bs

-- How the operating system answers. A write that fails, or a crash in the middle of it, leaves some text
-- in the file, which was truncated before.
pub record TokenOs : Type 0 where
  pub create_dir_fails : Bool
  pub open_fails : Bool
  pub partial_write : Option Text

-- The token that `admin.token` holds, if it is there and not blank.
unfoldable pub stored_token : Option Text → Option Text
stored_token none = none
stored_token (some s) = elim (trim s) [ [] ↦ none | c ∷ cs ↦ some (trim s) ]

-- `write_secret`: `admin.token` holds what `file` says, `none` where it cannot be read as text.
unfoldable pub write_secret : TokenOs → Text → Option Text → Result (Unit {0}) × Option Text
write_secret os text file =
    if os.open_fails
    then (err (in_context creating io), file)
    else elim os.partial_write [ none ↦ (ok tt, some text) | some part ↦ (err io, some part) ]

-- `load_or_create_token`: the token, and what `admin.token` holds then. `random` are the sixteen bytes
-- of the generator.
unfoldable pub load_or_create_token : TokenOs → List ℕ → Option Text → Result Text × Option Text
load_or_create_token os random file = elim (stored_token file) [
  | some t ↦ (ok t, file)
  | none ↦
      if os.create_dir_fails
      then (err (in_context creating io), file)
      else let (written, after) = write_secret os (mint_token random) file in
        (elim written [ ok _ ↦ ok (mint_token random) | err e ↦ err e ], after)
]
