-- ===== src/Database/Keeps.antt =====
-- Actions that leave a part of the world as it is, whatever fails.
use padma.Base.{◌≡◌, refl, ◌∙◌, inl, inr, List}
use padma.Errors.{Error, Result, ok, err}
use padma.Database.{
  Db, World, Action, Call, pure, statement, exec, wrap, new_id, ◌>>=◌, continue, rewrap,
}
use padma.Database.Cases.{statement_cases}

-- `part` of the world is after `m` what it was before
pub record Keeps {X A : Type 0} (part : World → X) (m : Action A) : Type 0 where
  pub at : (w : World) → part (m w).1 ≡ part w

abbrev pub calls_of : World → List Call
calls_of w = w.calls

module _ {X A : Type 0} (part : World → X) where
  pub Keeps-pure : (a : A) → Keeps part (pure a)
  unfolding pure
  Keeps-pure a = record { at = λ w. refl }

  rewrapped : (f : Error → Error) (r : Result A × World) → part (rewrap f r).1 ≡ part r.1
  rewrapped f (ok a, w) = refl
  rewrapped f (err e, w) = refl

  pub Keeps-wrap : (f : Error → Error) (m : Action A) → Keeps part m → Keeps part (wrap f m)
  unfolding wrap
  Keeps-wrap f m k = record { at = λ w. rewrapped f (m w) ∙ k.at w }

module _ {X A B : Type 0} (part : World → X) where
  continued :
      (g : A → Action B) (r : Result A × World)
      → ((a : A) → Keeps part (g a))
      → part (continue r g).1 ≡ part r.1
  continued g (ok a, w) k = (k a).at w
  continued g (err e, w) k = refl

  pub Keeps-bind :
      (m : Action A) (g : A → Action B)
      → Keeps part m
      → ((a : A) → Keeps part (g a))
      → Keeps part (m >>= g)
  unfolding ◌>>=◌
  Keeps-bind m g km kg = record { at = λ w. continued g (m w) kg ∙ km.at w }

pub Keeps-new_id : Keeps calls_of new_id
unfolding new_id
Keeps-new_id = record { at = λ w. refl }

module _ {A : Type 0} where
  pub Keeps-statement : (f : Db → Result A × Db) → Keeps calls_of (statement f)
  Keeps-statement f = record { at = fared }
    where
      fared : (w : World) → calls_of (statement f w).1 ≡ calls_of w
      fared w =
          let (rest, cases) = statement_cases f w in
          elim cases [ inl e ↦ rw e refl | inr (m, e) ↦ rw e refl ]

pub Keeps-exec : (f : Db → Db) → Keeps calls_of (exec f)
unfolding exec
Keeps-exec f = Keeps-statement (λ db. (ok tt, f db))

pub ruleset keeps_rules =
    (Keeps-pure, Keeps-wrap, Keeps-bind, Keeps-new_id, Keeps-statement, Keeps-exec)
