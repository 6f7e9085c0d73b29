-- ===== src/Rotate/Probe.antt =====
-- cmd/rotate-key/main.go: the probe and BEGIN leave the tables as they are.
use storage_gateway.Prelude.{
  ◌≡◌, refl, ap, ◌∙◌, Bool, true, false, List, [], ◌∷◌, Result, ok, err, Exec, lift, continue, ◌>>◌,
}
use storage_gateway.Registry.Db.{Db}
use storage_gateway.Rotate.{
  Keys, RotateError, querying, beginning, attempt, statement, sanity_probe, probe_row, store_column,
}

-- The tables are those of another state; the schedule of faults may be shorter.
abbrev pub SameTables : Db → Db → Type 0
SameTables db db' = db' ≡ record db { faults = db'.faults }

pub attempt-SameTables :
    {A : Type 0} (e : RotateError) (fs : List Bool) (f : Db → A) (db : Db)
    → SameTables db (attempt e fs (λ d. (f d, d)) db).1
attempt-SameTables e [] f db = refl
attempt-SameTables e (true ∷ fs) f db = refl
attempt-SameTables e (false ∷ fs) f db = refl

same_trans : (a b c : Db) → SameTables a b → SameTables b c → SameTables a c
same_trans a b c p q = q ∙ ap (λ (d : Db). record d { faults = c.faults }) p

continue-SameTables :
    {A B : Type 0} (res : Result RotateError A) (f : A → Exec Db RotateError B) (db mid : Db)
    → SameTables db mid
    → ((a : A) → SameTables mid (f a mid).1)
    → SameTables db (continue res f mid).1
continue-SameTables (ok a) f db mid h g = same_trans db mid (f a mid).1 h (g a)
continue-SameTables (err e) f db mid h g = h

module _ (k : Keys) where
  sanity_probe-SameTables : (db : Db) → SameTables db (sanity_probe k db).1
  unfolding sanity_probe
  sanity_probe-SameTables db =
      let first = statement querying (λ d. (store_column d, d)) db in
      continue-SameTables first.0 (λ rows. lift (probe_row k rows)) db first.1
        (attempt-SameTables querying db.faults store_column db) (λ rows. refl)

  pub probed :
      (db : Db) → SameTables db ((sanity_probe k >> statement beginning (λ d. (tt, d))) db).1
  probed db =
      continue-SameTables (sanity_probe k db).0 (λ _. statement beginning (λ d. (tt, d))) db
        (sanity_probe k db).1 (sanity_probe-SameTables db)
        (λ _.
          attempt-SameTables beginning (sanity_probe k db).1.faults (λ _. tt {0})
            (sanity_probe k db).1)
