-- ===== src/Identity.antt =====
-- Where the program keeps its state, and the endpoint's identity: `state_dir`, `load_or_create_key` and
-- `write_key` (the Unix version) of main.rs, and `config_path` of config.rs. iroh's secret keys are a
-- parameter. What `secret.key` holds is the state; the operating system's answers are an argument.
pub mod Turns
pub mod Stable
use rust_tunnel.Base.{
  ◌≡◌, ℕ, ◌==◌, ◌++◌, Bool, true, false, Option, none, some, List, [], ◌∷◌, if◌then◌else◌, length,
  Text, codes,
}
use rust_tunnel.Errors.{
  Result, ok, err, io, bad_key, no_state_dir, in_context, reading, creating, or_fail,
}
use rust_tunnel.Exec.{Exec, pure, lift, ◌>>=◌, ◌>>◌}

-- `env::var`: `none` where the variable is not set, or not Unicode.
abbrev pub Env : Type 0
Env = Text → Option Text

-- `PathBuf::join` with a relative path that is not empty.
unfoldable pub join : Text → Text → Text
join [] part = part
join (c ∷ []) part = if c == b'/' then c ∷ part else c ∷ b'/' ∷ part
join (c ∷ d ∷ ds) part = c ∷ join (d ∷ ds) part

-- The variables that name the directory itself, in order: the first that is set and not empty.
unfoldable pub first_set : Env → List Text → Option Text
first_set env [] = none
first_set env (k ∷ ks) = elim (env k) [
  | none ↦ first_set env ks
  | some [] ↦ first_set env ks
  | some (c ∷ cs) ↦ some (c ∷ cs)
]

-- `state_dir`, on a system that is not Windows.
unfoldable pub state_dir : Env → Result Text
state_dir env = elim (first_set env (codes "RTUN_STATE_DIR" ∷ codes "STATE_DIRECTORY" ∷ [])) [
  | some d ↦ ok d
  | none ↦ elim (env (codes "HOME")) [
    | none ↦ err no_state_dir
    | some home ↦ ok (join (join home (codes ".local/state")) (codes "rtun"))
  ]
]

-- `config_path`
unfoldable pub config_path : Env → Result Text
config_path env = elim (state_dir env) [
  | err e ↦ err e
  | ok dir ↦ ok (join dir (codes "config.toml"))
]

-- `SecretKey::from_bytes` and `to_bytes`.
pub record Keys (Secret : Type 0) : Type 0 where
  pub from_bytes : List ℕ → Secret
  pub to_bytes : Secret → List ℕ

-- What the program relies on: a key is 32 bytes and is made of them again.
pub record KeysRoundTrip {Secret : Type 0} (keys : Keys Secret) : Type 0 where
  pub length-to_bytes : (k : Secret) → length (keys.to_bytes k) ≡ 32
  pub from_bytes-to_bytes : (k : Secret) → keys.from_bytes (keys.to_bytes k) ≡ k

-- How the operating system answers. A read fails for a reason other than that the file is not there; a
-- write that fails, or a crash in the middle of it, leaves some bytes in the file.
pub record KeyOs : Type 0 where
  pub read_fails : Bool
  pub create_dir_fails : Bool
  pub open_fails : Bool
  pub partial_write : Option (List ℕ)

abbrev pub KeyFile : Type 0
KeyFile = Option (List ℕ)

module _ {Secret : Type 0} (keys : Keys Secret) where
  unfoldable pub parse_key : List ℕ → Result Secret
  parse_key bytes = if length bytes == 32 then ok (keys.from_bytes bytes) else err bad_key

  -- `fs::read(&path)`, and what is made of the bytes; `none` where the file is not there.
  unfoldable pub read_key : KeyOs → KeyFile → Result (Option Secret)
  read_key os file = if os.read_fails then err (in_context reading io) else elim file [
    | none ↦ ok none
    | some bytes ↦ elim (parse_key bytes) [ ok k ↦ ok (some k) | err e ↦ err e ]
  ]

-- `fs::create_dir_all`
abbrev pub create_dir : KeyOs → Result (Unit {0})
create_dir os = if os.create_dir_fails then err (in_context creating io) else ok tt

-- `OpenOptions::create_new`: a file that is there is an error.
unfoldable pub create_new : KeyOs → Exec KeyFile (Unit {0})
create_new os (some bytes) = (err (in_context creating io), some bytes)
create_new os none =
    if os.open_fails then (err (in_context creating io), none) else (ok tt, some [])

-- `write_all` on the file that was created.
unfoldable pub write_all : KeyOs → List ℕ → Exec KeyFile (Unit {0})
write_all os bytes file = elim os.partial_write [
  | none ↦ (ok tt, some bytes)
  | some part ↦ (err io, some part)
]

module _ {Secret : Type 0} (keys : Keys Secret) where
  -- The permissions that it sets are left out.
  unfoldable pub write_key : KeyOs → Secret → Exec KeyFile (Unit {0})
  write_key os k = do create_new os; write_all os (keys.to_bytes k)

  -- `fresh` is what `SecretKey::generate` gives.
  unfoldable pub load_or_create_key : KeyOs → Secret → Exec KeyFile Secret
  load_or_create_key os fresh = do
    had ← λ file. (read_key keys os file, file)
    elim had [ some k ↦ pure k | none ↦ do lift (create_dir os); write_key os fresh; pure fresh ]
