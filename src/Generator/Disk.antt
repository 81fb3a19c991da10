-- ===== src/Generator/Disk.antt =====
-- Package os, as far as generator.go calls it: a state of the disk `S` and the operations on it,
-- which the model takes as they are. A file holds a text, whose bytes are its UTF-8.
use griffino_go.Base.{String, ◌==◌, Option, none, some, if◌then◌else◌, ◌≡◌, ◌≢◌}
use griffino_go.Errors.{Error, Result, ok, err}

-- The error of `os.Stat`: none, one for which `os.IsNotExist` holds, another one.
pub data Stat : Type 0 where
  found : Stat
  missing : Stat
  unreadable : Error → Stat

-- What `os.Rename` and `os.WriteFile` leave behind goes with their error.
pub record Os (S : Type 0) : Type 0 where
  pub stat : S → String → Stat
  pub rename : (from to : String) → S → Result (Unit {0}) × S
  pub write_file : (path content : String) → S → Result (Unit {0}) × S

-- What the documentation of package os promises: `content` is what a file holds, `none` where there
-- is no file. Nothing is said of an operation that fails.
pub record IsDisk {S : Type 0} (os : Os S) (content : S → String → Option String) : Type 0 where
  pub stat_missing : (s : S) (path : String) → os.stat s path ≡ missing → content s path ≡ none
  pub renamed :
      (from to : String) (s t : S)
      → os.rename from to s ≡ (ok tt, t)
      → (path : String)
      → content t path
        ≡ (if to == path then content s from else if from == path then none else content s path)
  pub written :
      (at text : String) (s t : S)
      → os.write_file at text s ≡ (ok tt, t)
      → (path : String) → content t path ≡ (if at == path then some text else content s path)
  pub undisturbed :
      (at text : String) (s t : S)
      → os.write_file at text s ≡ (ok tt, t)
      → (path : String) → at ≢ path
      → os.stat t path ≡ os.stat s path

-- Steps on a disk that may fail, and that may run out of fuel, which is `none`.
abbrev pub Io : Type 0 → Type 0 → Type 0
Io S A = S → Option (Result A × S)

abbrev pub after : {S A B : Type 0} → Option (Result A × S) → (A → Io S B) → Option (Result B × S)
after none next = none
after (some (err e, s)) next = some (err e, s)
after (some (ok a, s)) next = next a s

infixl 5 ◌>>=◌ ◌>>◌
abbrev pub ◌>>=◌ : {S A B : Type 0} → Io S A → (A → Io S B) → Io S B
◌>>=◌ step next s = after (step s) next

abbrev pub ◌>>◌ : {S B : Type 0} → Io S Unit → Io S B → Io S B
step >> next = step >>= λ u. next

abbrev pub pure : {S A : Type 0} → A → Io S A
pure a s = some (ok a, s)

abbrev pub fail : {S A : Type 0} → Error → Io S A
fail e s = some (err e, s)

-- a computation that leaves the disk alone
abbrev pub lift : {S A : Type 0} → Result A → Io S A
lift r s = some (r, s)

-- `if err := …; err != nil { return configError(…) }`
abbrev pub or_error :
    {S : Type 0} → Result (Unit {0}) × S → (Error → Error) → Option (Result (Unit {0}) × S)
or_error (ok u, s) wrap = some (ok u, s)
or_error (err e, s) wrap = some (err (wrap e), s)
