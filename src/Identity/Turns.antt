-- ===== src/Identity/Turns.antt =====
-- Several processes that run `load_or_create_key` on one state directory at once. Each call to the
-- operating system is one turn of its process: the read, the creation of the file, the write.
pub mod Agreed
use rust_tunnel.Base.{ℕ, List, [], ◌∷◌, Option, none, some, ite, ℕ_discrete}
use rust_tunnel.Errors.{Error, ok, err}
use rust_tunnel.Identity.{Keys, KeyOs, KeyFile, read_key, create_dir, create_new, write_all}

pub data Stage (Secret : Type 0) : Type 0 where
  starting missing opened : Stage Secret
  has_key : Secret → Stage Secret
  gave_up : Error → Stage Secret

pub record World (Secret : Type 0) : Type 0 where
  pub file : KeyFile
  pub stage : ℕ → Stage Secret

module _ {Secret : Type 0} (keys : Keys Secret) where
  -- One turn of a process at the given stage.
  unfoldable pub turn : KeyOs → Secret → Stage Secret → KeyFile → Stage Secret × KeyFile
  turn os fresh starting file = elim (read_key keys os file) [
    | err e ↦ (gave_up e, file)
    | ok none ↦ (missing, file)
    | ok (some k) ↦ (has_key k, file)
  ]
  turn os fresh missing file = elim (create_dir os) [
    | err e ↦ (gave_up e, file)
    | ok _ ↦
        let (answer, after) = create_new os file in
        (elim answer [ err e ↦ gave_up e | ok _ ↦ opened ], after)
  ]
  turn os fresh opened file =
      let (answer, after) = write_all os (keys.to_bytes fresh) file in
      (elim answer [ err e ↦ gave_up e | ok _ ↦ has_key fresh ], after)
  turn os fresh (has_key k) file = (has_key k, file)
  turn os fresh (gave_up e) file = (gave_up e, file)

  unfoldable pub advance : KeyOs → Secret → ℕ → World Secret → World Secret
  advance os fresh i w =
      let (next, file) = turn os fresh (w.stage i) w.file in
      record { file = file; stage = λ j. ite (ℕ_discrete i j) next (w.stage j) }

  pub data Turns (w : World Secret) : World Secret → Type 0 where
    start : Turns w w
    turned :
        {v : World Secret} (os : KeyOs) (fresh : Secret) (i : ℕ)
        → Turns w v
        → Turns w (advance os fresh i v)
