-- ===== src/Database/Outcome.antt =====
-- What an action that returned has done: the run without faults has the same outcome.
use padma.Base.{
  Text, ◌≡◌, refl, ap, if◌then◌else◌, Bool, true, false, Option, none, some, List, [], ◌∷◌,
}
use padma.Errors.{Error, Result, ok, err}
use padma.Database.{
  Db, World, Action, pure, raise, lift, attempt, query, query_row, exec, wrap, read_now, ◌>>=◌,
  continue, rewrap,
}

-- the same world, with nothing that fails
abbrev pub calm : World → World
calm w = record w { faults = [] }

-- if `m` returns, it returns the same where no statement fails, and leaves the same world
pub record IsSteady {A : Type 0} (m : Action A) : Type 0 where
  pub at : (w : World) (a : A) (w' : World) → m w ≡ (ok a, w') → m (calm w) ≡ (ok a, calm w')

-- how the outcome of a run reads where nothing fails
abbrev calmed {ℓ} : {A : Type ℓ} → Result A × World → Result A × World
calmed (r, w) = (r, calm w)

module _ {A : Type 0} where
  pub IsSteady-pure : (a : A) → IsSteady (pure a)
  unfolding pure
  IsSteady-pure a = record { at = λ w b w' h. ap calmed h }

  pub IsSteady-raise : (e : Error) → IsSteady (raise {A = A} e)
  unfolding raise
  IsSteady-raise e = record { at = λ w b w' h. ap calmed h }

  pub IsSteady-lift : (r : Result A) → IsSteady (lift r)
  unfolding lift
  IsSteady-lift r = record { at = λ w b w' h. ap calmed h }

  attempt-calm :
      (faults : List (Option Text)) (f : Db → Result A × Db) (w : World) (a : A) (w' : World)
      → attempt faults f w ≡ (ok a, w')
      → attempt [] f (calm w) ≡ (ok a, calm w')
  unfolding attempt
  attempt-calm [] f w a w' h = ap calmed h
  attempt-calm (none ∷ rest) f w a w' h = ap calmed h
  attempt-calm (some e ∷ rest) f w a w' h = cc

  pub IsSteady-query : (f : Db → A) → IsSteady (query f)
  unfolding query
  IsSteady-query f = record { at = λ w a w' h. attempt-calm w.faults _ w a w' h }

  pub IsSteady-query_row : (f : Db → Option A) → IsSteady (query_row f)
  unfolding query_row
  IsSteady-query_row f = record { at = λ w a w' h. attempt-calm w.faults _ w a w' h }

  rewrap-calm :
      (f : Error → Error) (m : Action A)
      → IsSteady m
      → (w : World) (r : Result A × World) (a : A) (w' : World) → m w ≡ r
      → rewrap f r ≡ (ok a, w')
      → rewrap f (m (calm w)) ≡ (ok a, calm w')
  rewrap-calm f m s w (ok b, v) a w' e h = rw (s.at w b v e) (ap calmed h)
  rewrap-calm f m s w (err x, v) a w' e h = cc

  pub IsSteady-wrap : (f : Error → Error) (m : Action A) → IsSteady m → IsSteady (wrap f m)
  unfolding wrap
  IsSteady-wrap f m s = record { at = λ w a w' h. rewrap-calm f m s w (m w) a w' refl h }

  pub IsSteady-if :
      (b : Bool) (m n : Action A) → IsSteady m → IsSteady n → IsSteady (if b then m else n)
  IsSteady-if true m n sm sn = sm
  IsSteady-if false m n sm sn = sn

pub IsSteady-exec : (f : Db → Db) → IsSteady (exec f)
unfolding exec
IsSteady-exec f = record { at = λ w a w' h. attempt-calm w.faults _ w a w' h }

pub IsSteady-now : IsSteady read_now
unfolding read_now
IsSteady-now = record { at = λ w a w' h. ap calmed h }

module _ {A B : Type 0} (m : Action A) (f : A → Action B) where
  continue-calm :
      IsSteady m
      → ((a : A) → IsSteady (f a))
      → (w : World) (r : Result A × World) (b : B) (w' : World) → m w ≡ r
      → continue r f ≡ (ok b, w')
      → continue (m (calm w)) f ≡ (ok b, calm w')
  continue-calm sm sf w (ok a, v) b w' e h = rw (sm.at w a v e) ((sf a).at v b w' h)
  continue-calm sm sf w (err x, v) b w' e h = cc

  pub IsSteady-bind : IsSteady m → ((a : A) → IsSteady (f a)) → IsSteady (m >>= f)
  unfolding ◌>>=◌
  IsSteady-bind sm sf = record { at = λ w b w' h. continue-calm sm sf w (m w) b w' refl h }

pub ruleset steady_rules = (
  IsSteady-pure, IsSteady-raise, IsSteady-lift, IsSteady-query, IsSteady-query_row, IsSteady-wrap,
  IsSteady-if, IsSteady-exec, IsSteady-now, IsSteady-bind,
)
