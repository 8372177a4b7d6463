-- ===== src/Database/Meets.antt =====
-- Actions without a result of their own, where no statement fails, against what they should make of
-- the database.
use padma.Base.{◌≡◌, refl, sym, subst, ap}
use padma.Errors.{Error, Result, ok, err, or_wrap}
use padma.Errors
use padma.Database.{Db, World, Action, pure, exec, wrap, attempt, statement, ◌>>=◌, continue}
use padma.Database.Outcome.{calm}

-- the outcome is the database `d`, or the error `e`
abbrev pub Meets : World → Result (Unit {0}) × World → Result Db → Type 0
Meets w r (ok d) = r ≡ (ok tt, calm (record w { db = d }))
Meets w r (err e) = r.0 ≡ err e

pub Meets-pure : (w : World) → Meets w (pure tt (calm w)) (ok w.db)
unfolding pure
Meets-pure w = refl

pub Meets-exec : (w : World) (f : Db → Db) → Meets w (exec f (calm w)) (ok (f w.db))
unfolding exec statement attempt
Meets-exec w f = refl

pub Meets-wrap :
    (w : World) (f : Error → Error) (m : Action (Unit {0})) (d : Db)
    → Meets w (m (calm w)) (ok d)
    → Meets w (wrap f m (calm w)) (ok d)
unfolding wrap
Meets-wrap w f m d h = rw h

-- only the rest of the world is read
pub forget_db :
    (w : World) (d : Db) (r : Result (Unit {0}) × World) (s : Result Db)
    → Meets (record w { db = d }) r s
    → Meets w r s
forget_db w d r (ok d') h = h
forget_db w d r (err e) h = h

module _ (w : World) (m n : Action (Unit {0})) where
  continue-Meets :
      (t : Db → Result Db) (r : Result (Unit {0}) × World) (s : Result Db)
      → Meets w r s
      → ((d : Db) → s ≡ ok d → Meets (record w { db = d }) (n (calm (record w { db = d }))) (t d))
      → Meets w (continue r (λ _. n)) (Errors.◌>>=◌ s t)
  continue-Meets t (ok u, v) (ok d) h k =
      subst (λ x. Meets w (n x) (t d)) (sym (ap (λ (p : Result (Unit {0}) × World). p.1) h))
        (forget_db w d _ (t d) (k d refl))
  continue-Meets t (err x, v) (ok d) h k = absurd (cc)
  continue-Meets t (ok u, v) (err e) h k = cc
  continue-Meets t (err x, v) (err e) h k = h

  pub Meets-seq :
      (s : Result Db) (t : Db → Result Db)
      → Meets w (m (calm w)) s
      → ((d : Db) → s ≡ ok d → Meets (record w { db = d }) (n (calm (record w { db = d }))) (t d))
      → Meets w ((m >>= λ _. n) (calm w)) (Errors.◌>>=◌ s t)
  unfolding ◌>>=◌
  Meets-seq s t h k = continue-Meets t (m (calm w)) s h k
