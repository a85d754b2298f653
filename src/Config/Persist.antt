-- ===== src/Config/Persist.antt =====
-- `load` and `save` of config.rs, on one configuration file and its temporary sibling. The toml crate
-- is a parameter; what the operating system answers is an argument of each call.
pub mod Atomic
use rust_tunnel.Base.{◌≡◌, ◌++◌, Bool, true, false, Option, none, some, if◌then◌else◌, Text, codes}
use rust_tunnel.Errors.{
  Result, ok, err, Error, io, bad_toml, no_parent, in_context, parsing, in_file, reading,
  refusing_invalid, creating, serialising, writing, replacing, with_context, or_fail,
}
use rust_tunnel.Exec.{Exec, pure, lift, modify, ◌>>=◌, ◌>>◌}
use rust_tunnel.Config.Types.{Config, default}
use rust_tunnel.Config.Validate.{validate}

-- What is on disk: `config.toml` and `config.toml.tmp`.
pub record Disk : Type 0 where
  pub file : Option Text
  pub temp : Option Text

-- How the operating system answers the calls of one `load` or `save`. A write that fails, or a crash
-- in the middle of it, leaves any text in the temporary file.
pub record Os : Type 0 where
  pub read_fails : Bool
  pub has_parent : Bool
  pub create_dir_fails : Bool
  pub partial_write : Option Text
  pub rename_fails : Bool

-- The lines that `save` puts in front of the configuration.
unfoldable pub banner : Text
banner =
    codes
      "# rtun configuration. Managed by the admin UI; safe to hand-edit while\n# rtun is not running, and re-read on the next start.\n\n"

-- The toml crate: `to_string_pretty`, which may fail, and `from_str`.
pub record Toml (Key : Type 0) : Type 0 where
  pub print : Config Key → Option Text
  pub parse : Text → Option (Config Key)

-- What the program relies on: a printed configuration, behind comment lines, parses to itself.
pub record RoundTrips {Key : Type 0} (toml : Toml Key) : Type 0 where
  pub parse-print :
      (c : Config Key) (t : Text) → toml.print c ≡ some t → toml.parse (banner ++ t) ≡ some c

-- `fs::create_dir_all`: the directory itself is not modelled.
abbrev create_dir : Os → Exec Disk (Unit {0})
create_dir os d = (if os.create_dir_fails then err (in_context creating io) else ok tt, d)

abbrev write_temp : Os → Text → Exec Disk (Unit {0})
write_temp os body d = elim os.partial_write [
  | none ↦ (ok tt, record d { temp = some body })
  | some part ↦ (err (in_context writing io), record d { temp = some part })
]

-- `fs::rename` replaces the file in one step.
abbrev rename_temp : Os → Exec Disk (Unit {0})
rename_temp os d =
    if os.rename_fails
    then (err (in_context replacing io), d)
    else (ok tt, record { file = d.temp; temp = none })

module _ {Key : Type 0} (id_eq : Discrete Key) (toml : Toml Key) where
  -- The text of the file, checked.
  unfoldable pub load_text : Text → Result (Config Key)
  load_text s = elim (toml.parse s) [
    | none ↦ err (in_context parsing bad_toml)
    | some c ↦ elim (with_context in_file (validate id_eq c)) [ ok _ ↦ ok c | err e ↦ err e ]
  ]

  unfoldable pub load : Os → Disk → Result (Config Key)
  unfolding load_text
  load os d = elim d.file [
    | none ↦ if os.read_fails then err (in_context reading io) else ok default
    | some s ↦ if os.read_fails then err (in_context reading io) else load_text s
  ]

  unfoldable pub save : Os → Config Key → Exec Disk (Unit {0})
  save os c = do
    lift (with_context refusing_invalid (validate id_eq c))
    lift (if os.has_parent then ok tt else err no_parent)
    create_dir os
    t ← lift (or_fail (in_context serialising bad_toml) (toml.print c))
    write_temp os (banner ++ t)
    rename_temp os
