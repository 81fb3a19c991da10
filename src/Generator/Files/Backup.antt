-- ===== src/Generator/Files/Backup.antt =====
-- What `backupExistingFile` does: that it ends, which name it takes, and that nothing is lost.
use Prim.Native.Nat.{ℕ, zero, suc, ◌+◌, ◌≤◌, ◌<◌}
use text.Mathlib.TextLemmas.{append_cancel_left, append-nil, append-eq-nil_iff}
use native.Mathlib.Decide.{dec_le}
use griffino_go.Base.{String, some, ◌≡◌, ◌≢◌, ◌⊎◌, inl, inr, refl, sym, ◌∙◌, subst, arith}
use griffino_go.Base.Number.{itoa}
use griffino_go.Base.Int.{pos}
use griffino_go.Base.Text.{◌<>◌}
use griffino_go.Errors.{Error, Result, ok, err}
use griffino_go.Generator.Disk.{Stat, found, missing, unreadable, Os, Io, or_error}
use griffino_go.Generator.Files.{
  backup_path, backup_loop, backup_existing_file, backup_round, backup_found,
}

pub backup_path-ne : (path : String) (index : ℕ) → backup_path path index ≢ path
unfolding backup_path
backup_path-ne path index e =
    let none_left =
      append_cancel_left path ("." <> itoa (pos index)) "" (e ∙ sym (append-nil path)) in
    cc ((append-eq-nil_iff.0 none_left).0)

module _ {S : Type 0} where
  pub or_error-some :
      (done : Result Unit × S) (wrap : Error → Error)
      → (r : Result Unit × S) × (or_error done wrap ≡ some r)
  or_error-some (ok u, s) wrap = ((ok u, s), refl)
  or_error-some (err e, s) wrap = ((err (wrap e), s), refl)

  pub or_error-eq-ok :
      (done : Result Unit × S) (wrap : Error → Error) {t : S}
      → or_error done wrap ≡ some (ok tt, t)
      → done ≡ (ok tt, t)
  or_error-eq-ok (ok u, s) wrap e = cc
  or_error-eq-ok (err f, s) wrap e = cc

module _ {S : Type 0} (os : Os S) (path : String) where
  -- The first name from `index` on that is not taken, and the disk after the file went there.
  pub record IsMoved (index : ℕ) (s t : S) : Type 0 where
    pub chosen : ℕ
    pub not_before : index ≤ chosen
    pub taken : (j : ℕ) → index ≤ j → j < chosen → os.stat s (backup_path path j) ≡ found
    pub free : os.stat s (backup_path path chosen) ≡ missing
    pub renamed : os.rename path (backup_path path chosen) s ≡ (ok tt, t)

  IsMoved-later :
      (index : ℕ) (s t : S)
      → os.stat s (backup_path path index) ≡ found
      → IsMoved (index + 1) s t
      → IsMoved index s t
  IsMoved-later index s t first m = record {
    chosen = m.chosen;
    not_before = omega (arith, m.not_before);
    taken = λ j from below. elim (dec_le (index + 1) j) [
      | yes after ↦ m.taken j after below
      | no other ↦
          let same : index ≡ j = omega arith in
          subst (λ (k : ℕ). os.stat s (backup_path path k) ≡ found) same first
    ];
    free = m.free;
    renamed = m.renamed;
  }

  -- There was no file, or it was moved to the first free name.
  abbrev pub IsBackedUp : S → S → Type 0
  IsBackedUp s t = ((os.stat s path ≡ missing) × (s ≡ t)) ⊎ IsMoved 1 s t

module _ {S : Type 0} (os : Os S) (text : Error → String) (path : String) where
  round-ends :
      (backup : String) (x : Stat) (rest : Io S Unit) (s : S)
      → (x ≡ found → (r : Result Unit × S) × (rest s ≡ some r))
      → (r : Result Unit × S) × (backup_round os text path backup x rest s ≡ some r)
  round-ends backup found rest s h = h refl
  round-ends backup missing rest s h = or_error-some (os.rename path backup s) _
  round-ends backup (unreadable e) rest s h = ((err _, s), refl)

  -- A name within reach of the fuel is enough: one that is free, or that cannot be read.
  backup_loop-ends :
      (fuel index n : ℕ) (s : S)
      → os.stat s (backup_path path (index + n)) ≢ found
      → n < fuel
      → (r : Result Unit × S) × (backup_loop os text fuel index path s ≡ some r)
  unfolding backup_loop
  backup_loop-ends zero index n s free h = absurd (omega arith)
  backup_loop-ends (suc fuel) index zero s free h =
      let here : index + 0 ≡ index = omega arith in
      round-ends (backup_path path index) (os.stat s (backup_path path index)) _ s
        (λ taken. absurd ((rw here at free) taken))
  backup_loop-ends (suc fuel) index (suc n) s free h =
      let later : index + suc n ≡ (index + 1) + n = omega arith in
      round-ends (backup_path path index) (os.stat s (backup_path path index)) _ s
        (λ taken. backup_loop-ends fuel (index + 1) n s (rw later at free) (omega arith))

  found-ends :
      (fuel n : ℕ) (x : Stat) (s : S)
      → os.stat s (backup_path path (1 + n)) ≢ found
      → n < fuel
      → (r : Result Unit × S) × (backup_found os text fuel path x s ≡ some r)
  found-ends fuel n found s free h = backup_loop-ends fuel 1 n s free h
  found-ends fuel n missing s free h = ((ok tt, s), refl)
  found-ends fuel n (unreadable e) s free h = ((err _, s), refl)

  -- backupExistingFile ends, with success or with an error, if one of the numbered names is not
  -- taken on the disk that it is called on: fuel for the numbers up to that one is enough.
  pub backup_existing_file-ends :
      (fuel n : ℕ) (s : S)
      → os.stat s (backup_path path (1 + n)) ≢ found
      → n < fuel
      → (r : Result Unit × S) × (backup_existing_file os text fuel path s ≡ some r)
  unfolding backup_existing_file
  backup_existing_file-ends fuel n s free h = found-ends fuel n (os.stat s path) s free h

  IsMoved-round :
      (index : ℕ) (x : Stat) (rest : Io S Unit) (s : S) {t : S}
      → os.stat s (backup_path path index) ≡ x
      → (rest s ≡ some (ok tt, t) → IsMoved os path (index + 1) s t)
      → backup_round os text path (backup_path path index) x rest s ≡ some (ok tt, t)
      → IsMoved os path index s t
  IsMoved-round index found rest s {t} is h e = IsMoved-later os path index s t is (h e)
  IsMoved-round index missing rest s is h e = record {
    chosen = index;
    not_before = omega arith;
    taken = λ j from below. absurd (omega arith);
    free = is;
    renamed = or_error-eq-ok (os.rename path (backup_path path index) s) _ e;
  }
  IsMoved-round index (unreadable u) rest s is h e = cc

  IsMoved-backup_loop :
      (fuel index : ℕ) (s : S) {t : S}
      → backup_loop os text fuel index path s ≡ some (ok tt, t)
      → IsMoved os path index s t
  unfolding backup_loop
  IsMoved-backup_loop zero index s e = cc
  IsMoved-backup_loop (suc fuel) index s e =
      IsMoved-round index (os.stat s (backup_path path index)) _ s refl
        (λ more. IsMoved-backup_loop fuel (index + 1) s more) e

  IsBackedUp-found :
      (fuel : ℕ) (x : Stat) (s : S) {t : S}
      → os.stat s path ≡ x
      → backup_found os text fuel path x s ≡ some (ok tt, t)
      → IsBackedUp os path s t
  IsBackedUp-found fuel found s is e = inr (IsMoved-backup_loop fuel 1 s e)
  IsBackedUp-found fuel missing s is e = inl (is, cc e)
  IsBackedUp-found fuel (unreadable u) s is e = cc

  pub IsBackedUp-backup_existing_file :
      (fuel : ℕ) (s : S) {t : S}
      → backup_existing_file os text fuel path s ≡ some (ok tt, t)
      → IsBackedUp os path s t
  unfolding backup_existing_file
  IsBackedUp-backup_existing_file fuel s e = IsBackedUp-found fuel (os.stat s path) s refl e
