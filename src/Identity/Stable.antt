-- ===== src/Identity/Stable.antt =====
-- The endpoint's key across starts: `load_or_create_key` alone, and as three turns of one process.
use rust_tunnel.Base.{
  ◌≡◌, ℕ, false, List, Option, none, some, arith, inl, inr, Option-cases, Bool-cases,
}
use rust_tunnel.Errors.{Result, ok, err, Result-cases}
use rust_tunnel.Identity.{
  Keys, KeysRoundTrip, KeyOs, KeyFile, parse_key, read_key, create_new, write_all,
  load_or_create_key, write_key,
}
use rust_tunnel.Identity.Turns.{Stage, starting, has_key, gave_up, turn}
use rust_tunnel.Identity.Turns.Agreed.{Holds, parse_key-to_bytes}

module _ {Secret : Type 0} (keys : Keys Secret) where
  -- A file that is there is left as it is.
  pub load_or_create_key-kept :
      (os : KeyOs) (fresh : Secret) (bytes : List ℕ)
      → (load_or_create_key keys os fresh (some bytes)).1 ≡ some bytes
  unfolding load_or_create_key read_key
  load_or_create_key-kept os fresh bytes = ground arith

  load_or_create_key-Holds :
      (os : KeyOs) (fresh : Secret) (f : KeyFile) (k : Secret)
      → KeysRoundTrip keys
      → (load_or_create_key keys os fresh f).0 ≡ ok k
      → Holds keys (load_or_create_key keys os fresh f).1 k
  unfolding load_or_create_key read_key write_key create_new write_all
  load_or_create_key-Holds os fresh (some bytes) k r got = elim (Bool-cases os.read_fails) [
    | inl e ↦ absurd (ground arith)
    | inr e ↦ elim (Result-cases (parse_key keys bytes)) [
      | inl (j, p) ↦ (bytes, load_or_create_key-kept os fresh bytes, ground arith)
      | inr (x, p) ↦ absurd (ground arith)
    ]
  ]
  load_or_create_key-Holds os fresh none k r got = elim (Bool-cases os.read_fails) [
    | inl e ↦ absurd (ground arith)
    | inr e ↦ elim (Bool-cases os.create_dir_fails) [
      | inl c ↦ absurd (ground arith)
      | inr c ↦ elim (Bool-cases os.open_fails) [
        | inl o ↦ absurd (ground arith)
        | inr o ↦ elim (Option-cases os.partial_write) [
          | inl w ↦
              (keys.to_bytes fresh, ground arith, ground (arith, parse_key-to_bytes keys r fresh))
          | inr (part, w) ↦ absurd (ground arith)
        ]
      ]
    ]
  ]

  load_or_create_key-whole :
      (os : KeyOs) (fresh : Secret) (bytes : List ℕ) (k : Secret)
      → os.read_fails ≡ false
      → parse_key keys bytes ≡ ok k
      → load_or_create_key keys os fresh (some bytes) ≡ (ok k, some bytes)
  unfolding load_or_create_key read_key
  load_or_create_key-whole os fresh bytes k reads parsed = ground arith

  -- Given that keys round-trip: a start that gets a key leaves a file with which every later start
  -- that can read it gets the same key, whatever the generator gives then, and leaves the file
  -- alone.
  pub load_or_create_key_again :
      (os again : KeyOs) (fresh fresh' : Secret) (f : KeyFile) (k : Secret)
      → KeysRoundTrip keys
      → again.read_fails ≡ false
      → (load_or_create_key keys os fresh f).0 ≡ ok k
      → load_or_create_key keys again fresh' (load_or_create_key keys os fresh f).1
        ≡ (ok k, (load_or_create_key keys os fresh f).1)
  load_or_create_key_again os again fresh fresh' f k r reads got =
      let (bytes, there, parsed) = load_or_create_key-Holds os fresh f k r got in
      rw there (load_or_create_key-whole again fresh' bytes k reads parsed)

  -- What a process that takes its turns alone ends up with.
  abbrev pub answer_of : Stage Secret → Option (Result Secret)
  answer_of (has_key k) = some (ok k)
  answer_of (gave_up e) = some (err e)
  answer_of _ = none

  abbrev pub alone : KeyOs → Secret → KeyFile → Stage Secret × KeyFile
  alone os fresh f =
      let (p, g) = turn keys os fresh starting f in
      let (q, h) = turn keys os fresh p g in turn keys os fresh q h

  -- `load_or_create_key` ends with the answer and the file of a process that takes its turns with
  -- nothing between them, however the operating system answers.
  pub alone_lem :
      (os : KeyOs) (fresh : Secret) (f : KeyFile)
      → (answer_of (alone os fresh f).0 ≡ some (load_or_create_key keys os fresh f).0)
        × ((alone os fresh f).1 ≡ (load_or_create_key keys os fresh f).1)
  unfolding turn load_or_create_key read_key write_key create_new write_all
  alone_lem os fresh (some bytes) = elim (Bool-cases os.read_fails) [
    | inl e ↦ (ground arith, ground arith)
    | inr e ↦ elim (Result-cases (parse_key keys bytes)) [
      | inl (j, p) ↦ (ground arith, ground arith)
      | inr (x, p) ↦ (ground arith, ground arith)
    ]
  ]
  alone_lem os fresh none = elim (Bool-cases os.read_fails) [
    | inl e ↦ (ground arith, ground arith)
    | inr e ↦ elim (Bool-cases os.create_dir_fails) [
      | inl c ↦ (ground arith, ground arith)
      | inr c ↦ elim (Bool-cases os.open_fails) [
        | inl o ↦ (ground arith, ground arith)
        | inr o ↦ elim (Option-cases os.partial_write) [
          | inl w ↦ (ground arith, ground arith)
          | inr (part, w) ↦ (ground arith, ground arith)
        ]
      ]
    ]
  ]
