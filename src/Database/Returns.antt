-- ===== src/Database/Returns.antt =====
-- Inversion: how an action that returned has run.
use padma.Base.{◌≡◌, refl, ap, sym, ◌∙◌, inl, inr, Option, List, Text}
use padma.Errors.{Error, Result, ok, err}
use padma.Database.{Db, World, Action, continue, rewrap, commit, statement, lift, exec, wrap, ◌>>=◌}
use padma.Database.Cases.{statement_cases}

module _ {A B : Type 0} (g : A → Action B) (b : B) (w' : World) where
  -- the first part returned, and the rest went on from there
  abbrev pub Passed : Result A × World → Type 0
  Passed r = (a : A) × (v : World) × (r ≡ (ok a, v)) × (g a v ≡ (ok b, w'))

  continue-Passed : (r : Result A × World) → continue r g ≡ (ok b, w') → Passed r
  continue-Passed (ok a, v) h = (a, v, refl, h)
  continue-Passed (err e, v) h = absurd (cc)

  pub bind-Passed : (m : Action A) (w : World) → (m >>= g) w ≡ (ok b, w') → Passed (m w)
  unfolding ◌>>=◌
  bind-Passed m w h = continue-Passed (m w) h

module _ {A : Type 0} where
  rewrap_returned :
      (f : Error → Error) (a : A) (w' : World) (r : Result A × World)
      → rewrap f r ≡ (ok a, w')
      → r ≡ (ok a, w')
  rewrap_returned f a w' (ok b, v) h = h
  rewrap_returned f a w' (err e, v) h = absurd (cc)

  pub wrap_returned :
      (f : Error → Error) (m : Action A) (a : A) (w w' : World)
      → wrap f m w ≡ (ok a, w')
      → m w ≡ (ok a, w')
  unfolding wrap
  wrap_returned f m a w w' h = rewrap_returned f a w' (m w) h

  pub lift_returned :
      (r : Result A) (a : A) (w w' : World) → lift r w ≡ (ok a, w') → (r ≡ ok a) × (w' ≡ w)
  unfolding lift
  lift_returned r a w w' h =
      (ap (λ (p : Result A × World). p.0) h, sym (ap (λ (p : Result A × World). p.1) h))

  committed :
      (a : A) (v w' : World) (r : Result A × Db)
      → commit v r ≡ (ok a, w')
      → (r ≡ (ok a, w'.db)) × (w' ≡ record v { db = w'.db })
  committed a v w' (q, db) h = (cc, cc)

  -- a statement that returned has run: it has taken the database on, and nothing else
  pub statement_returned :
      (f : Db → Result A × Db) (a : A) (w w' : World)
      → statement f w ≡ (ok a, w')
      → (f w.db ≡ (ok a, w'.db))
        × ((rest : List (Option Text)) × (w' ≡ record w { faults = rest; db = w'.db }))
  statement_returned f a w w' h =
      let (rest, fared) = statement_cases f w in
      elim fared [
        | inl e ↦
            let (same, kept) = committed a (record w { faults = rest }) w' (f w.db) (sym e ∙ h) in
            (same, (rest, kept))
        | inr (m, e) ↦ absurd (cc (e, h))
      ]

pub exec_returned :
    (f : Db → Db) (u : Unit {0}) (w w' : World) → exec f w ≡ (ok u, w') → w'.db ≡ f w.db
unfolding exec
exec_returned f u w w' h =
    let (same, _) = statement_returned (λ db. (ok tt, f db)) u w w' h in
    sym (ap (λ (p : Result (Unit {0}) × Db). p.1) same)
