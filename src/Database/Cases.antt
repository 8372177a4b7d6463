-- ===== src/Database/Cases.antt =====
-- How a statement fares: it runs, or it fails and has done nothing.
use padma.Base.{◌≡◌, refl, ◌⊎◌, inl, inr, Option, none, some, List, [], ◌∷◌, Text}
use padma.Errors.{Result, err, reported}
use padma.Database.{Db, World, commit, statement, attempt}

module _ {A : Type 0} (f : Db → Result A × Db) where
  -- the world once a statement has run in it, or failed
  abbrev pub Fares : World → Result A × World → Type 0
  Fares w r =
      (rest : List (Option Text)) × ((r ≡ commit (record w { faults = rest }) (f w.db))
        ⊎ ((m : Text) × (r ≡ (err (reported m), record w { faults = rest }))))

  attempt_cases :
      (faults : List (Option Text)) (w : World) → w.faults ≡ faults → Fares w (attempt faults f w)
  unfolding attempt
  attempt_cases [] w h = ([], inl (rw h refl))
  attempt_cases (none ∷ rest) w h = (rest, inl refl)
  attempt_cases (some e ∷ rest) w h = (rest, inr (e, refl))

  pub statement_cases : (w : World) → Fares w (statement f w)
  unfolding statement
  statement_cases w = attempt_cases w.faults w refl
