-- ===== src/Generator/Files/Contents.antt =====
-- What is on the disk after a file was backed up and written.
use Prim.Native.Nat.{ℕ}
use griffino_go.Base.{
  String, Option, none, some, ◌≡◌, ◌≢◌, inl, inr, refl, sym, ◌∙◌, subst, test_of_ne, eq_refl,
}
use griffino_go.Json.{Json}
use griffino_go.Errors.{Error, Result, ok, err}
use griffino_go.Generator.Disk.{Os, IsDisk, Io, after}
use griffino_go.Generator.Files.{
  backup_path, backup_existing_file, write_file, write_json_file, encoded,
}
use griffino_go.Generator.Files.Backup.{
  backup_path-ne, IsMoved, IsBackedUp, IsBackedUp-backup_existing_file, or_error-eq-ok,
}

-- A step that succeeds consists of two that do.
pub after-eq-ok :
    {S A B : Type 0} (first : Option (Result A × S)) (next : A → Io S B) {b : B} {u : S}
    → after first next ≡ some (ok b, u)
    → (a : A) × (t : S) × (first ≡ some (ok a, t)) × (next a t ≡ some (ok b, u))
after-eq-ok none next e = cc
after-eq-ok (some (err f, s)) next e = cc
after-eq-ok (some (ok a, s)) next e = (a, s, refl, e)

module _ {S : Type 0} (content : S → String → Option String) (path : String) where
  -- Every file but the one at `path` keeps its content, which goes to a name behind a number.
  pub record IsKept (s t : S) : Type 0 where
    pub others :
        (at body : String) → at ≢ path → content s at ≡ some body → content t at ≡ some body
    pub moved :
        (body : String)
        → content s path ≡ some body
        → (index : ℕ) × (content t (backup_path path index) ≡ some body)

  module _ (os : Os S) (disk : IsDisk os content) where
    IsKept-IsMoved : (s t : S) → IsMoved os path 1 s t → IsKept s t
    IsKept-IsMoved s t m = record {
      others = λ at body away held.
          let not_there : backup_path path m.chosen ≢ at =
            λ e. cc (rw e at (disk.stat_missing s (backup_path path m.chosen) m.free), held) in
          disk.renamed path (backup_path path m.chosen) s t m.renamed at
          ∙ rw
              (
                test_of_ne (backup_path path m.chosen) at not_there,
                test_of_ne path at (λ e. away (sym e)),
              )
              held;
      moved = λ body held. (
        m.chosen,
        disk.renamed path (backup_path path m.chosen) s t m.renamed (backup_path path m.chosen)
            ∙ rw (eq_refl (backup_path path m.chosen)) held,
      );
    }

    IsKept-IsBackedUp : (s t : S) → IsBackedUp os path s t → IsKept s t
    IsKept-IsBackedUp s t (inl (absent, same)) = record {
      others = λ at body away held. rw (← same) held;
      moved = λ body held. absurd (cc (disk.stat_missing s path absent, held));
    }
    IsKept-IsBackedUp s t (inr m) = IsKept-IsMoved s t m

    IsKept-write :
        (s t u : S) (body : String)
        → IsKept s t
        → os.write_file path body t ≡ (ok tt, u)
        → IsKept s u
    IsKept-write s t u body k e = record {
      others = λ at text away held.
          disk.written path body t u e at
          ∙ rw (test_of_ne path at (λ e. away (sym e))) (k.others at text away held);
      moved = λ text held.
          let (index, there) = k.moved text held in
          (
            index,
            disk.written path body t u e (backup_path path index)
                ∙ rw
                    (test_of_ne path (backup_path path index)
                      (λ e. backup_path-ne path index (sym e)))
                    there,
          );
    }

    module _ (text : Error → String) where
      pub IsKept-backup_existing_file :
          (fuel : ℕ) (s : S) {t : S}
          → backup_existing_file os text fuel path s ≡ some (ok tt, t)
          → IsKept s t
      IsKept-backup_existing_file fuel s {t} e =
          IsKept-IsBackedUp s t (IsBackedUp-backup_existing_file os text path fuel s e)

      pub IsKept-write_file :
          (s t u : S) (body : String)
          → IsKept s t
          → write_file os text path body t ≡ some (ok tt, u)
          → IsKept s u × (content u path ≡ some body)
      unfolding write_file
      IsKept-write_file s t u body k e =
          let done = or_error-eq-ok (os.write_file path body t) _ e in
          (IsKept-write s t u body k done, disk.written path body t u done path ∙ rw (eq_refl path))

      module _ (encode : Json → Result String) where
        pub encoded-eq-ok :
            (r : Result String) (s t : S) {body : String}
            → encoded os text encode path r s ≡ some (ok body, t)
            → (r ≡ ok body) × (s ≡ t)
        encoded-eq-ok (ok b) s t e = (cc e, cc e)
        encoded-eq-ok (err f) s t e = cc

        -- After a WriteJSONFile that succeeded the file holds what the encoder gave; every other
        -- file keeps its content, and what the file held before is in a file whose name has a
        -- number behind it. The disk has to keep what package os promises of a rename and a write
        -- that succeed.
        pub write_json_file-IsKept :
            (fuel : ℕ) (value : Json) (s u : S)
            → write_json_file os text encode fuel path value s ≡ some (ok tt, u)
            → (body : String) × (encode value ≡ ok body) × (content u path ≡ some body) × IsKept s u
        unfolding write_json_file
        write_json_file-IsKept fuel value s u e =
            let (x, t, backed, e₁) = after-eq-ok (backup_existing_file os text fuel path s) _ e in
            let (body, t', shown, e₂) =
              after-eq-ok (encoded os text encode path (encode value) t) _ e₁ in
            let (is, same) = encoded-eq-ok (encode value) t t' shown in
            let (kept, there) =
              IsKept-write_file s t' u body
                (subst (IsKept s) same (IsKept-backup_existing_file fuel s backed)) e₂ in
            (body, is, there, kept)
