-- ===== src/Database/Preserves.antt =====
-- Actions that keep what holds of the database, whatever fails.
use padma.Base.{inl, inr, Bool, true, false, Option, if◌then◌else◌}
use padma.Errors.{Error, Result, ok, err}
use padma.Database.{
  Db, World, Action, pure, raise, lift, statement, query, query_row, exec, wrap, try, new_id,
  read_now, ◌>>=◌, continue, row_or_none, rewrap, commit,
}
use padma.Database.Cases.{statement_cases}

-- what holds of the database before `m` holds of it after
pub record Preserves {κ} {A : Type 0} (P : Db → Type κ) (m : Action A) : Type κ where
  pub at : (w : World) → P w.db → P (m w).1.db

module _ {κ} {A : Type 0} (P : Db → Type κ) where
  pub Preserves-pure : (a : A) → Preserves P (pure a)
  unfolding pure
  Preserves-pure a = record { at = λ w h. h }

  pub Preserves-raise : (e : Error) → Preserves P (raise {A = A} e)
  unfolding raise
  Preserves-raise e = record { at = λ w h. h }

  pub Preserves-lift : (r : Result A) → Preserves P (lift r)
  unfolding lift
  Preserves-lift r = record { at = λ w h. h }

  -- an `if` between two actions
  pub either-Preserves :
      (b : Bool) (m n : Action A) → Preserves P m → Preserves P n → Preserves P (if b then m else n)
  either-Preserves true m n hm hn = hm
  either-Preserves false m n hm hn = hn

  rewrapped : (f : Error → Error) (r : Result A × World) → P r.1.db → P (rewrap f r).1.db
  rewrapped f (ok a, w) h = h
  rewrapped f (err e, w) h = h

  pub Preserves-wrap : (f : Error → Error) (m : Action A) → Preserves P m → Preserves P (wrap f m)
  unfolding wrap
  Preserves-wrap f m k = record { at = λ w h. rewrapped f (m w) (k.at w h) }

  pub Preserves-try : (m : Action A) → Preserves P m → Preserves P (try m)
  unfolding try
  Preserves-try m k = record { at = λ w h. k.at w h }

  committed : (w : World) (r : Result A × Db) → P r.1 → P (commit w r).1.db
  committed w (q, db) h = h

  pub Preserves-statement :
      (f : Db → Result A × Db) → ((db : Db) → P db → P (f db).1) → Preserves P (statement f)
  Preserves-statement f keeps = record { at = fared }
    where
      fared : (w : World) → P w.db → P (statement f w).1.db
      fared w h =
          let (rest, cases) = statement_cases f w in
          elim cases [
            | inl e ↦ rw e (committed (record w { faults = rest }) (f w.db) (keeps w.db h))
            | inr (m, e) ↦ rw e h
          ]

  pub Preserves-query : (f : Db → A) → Preserves P (query f)
  unfolding query
  Preserves-query f = Preserves-statement (λ db. (ok (f db), db)) (λ db h. h)

  pub Preserves-query_row : (f : Db → Option A) → Preserves P (query_row f)
  unfolding query_row
  Preserves-query_row f = Preserves-statement (λ db. (row_or_none (f db), db)) (λ db h. h)

module _ {κ} {A B : Type 0} (P : Db → Type κ) where
  continued :
      (g : A → Action B) (r : Result A × World)
      → ((a : A) → Preserves P (g a))
      → P r.1.db
      → P (continue r g).1.db
  continued g (ok a, w) k h = (k a).at w h
  continued g (err e, w) k h = h

  pub Preserves-bind :
      (m : Action A) (g : A → Action B)
      → Preserves P m
      → ((a : A) → Preserves P (g a))
      → Preserves P (m >>= g)
  unfolding ◌>>=◌
  Preserves-bind m g km kg = record { at = λ w h. continued g (m w) kg (km.at w h) }

module _ {κ} (P : Db → Type κ) where
  pub Preserves-new_id : Preserves P new_id
  unfolding new_id
  Preserves-new_id = record { at = λ w h. h }

  pub Preserves-read_now : Preserves P read_now
  unfolding read_now
  Preserves-read_now = record { at = λ w h. h }

  pub Preserves-exec : (f : Db → Db) → ((db : Db) → P db → P (f db)) → Preserves P (exec f)
  unfolding exec
  Preserves-exec f keeps = Preserves-statement P (λ db. (ok tt, f db)) keeps

pub ruleset preserves_rules = (
  Preserves-pure, Preserves-raise, Preserves-lift, Preserves-wrap, Preserves-try,
  Preserves-statement, Preserves-query, Preserves-query_row, Preserves-bind, Preserves-new_id,
  Preserves-read_now, Preserves-exec, either-Preserves,
)
