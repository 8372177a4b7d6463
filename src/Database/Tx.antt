-- ===== src/Database/Tx.antt =====
-- db.InTx (internal/platform/db/tx.go): begin, the function, commit; on an error, roll back.
use padma.Base.{Text, ◌≡◌, refl, ap, Option, none, some, List, [], ◌∷◌}
use padma.Errors.{Error, Result, ok, err, wrapped}
use padma.Database.Outcome.{calm, IsSteady}
use padma.Database.Preserves.{Preserves, Preserves-bind, Preserves-wrap, Preserves-exec}
use padma.Database.{
  Db, World, Action, continue, rewrap, statement, attempt, exec, wrap, ◌>>=◌, ◌>>◌,
}

-- the error of the rollback itself is dropped, and the server discards the transaction anyway
abbrev rollback : Db → World → World
rollback before w = record w { db = before; faults = rest w.faults }
  where
    rest : List (Option Text) → List (Option Text)
    rest [] = []
    rest (f ∷ fs) = fs

abbrev settle : Db → Result (Unit {0}) × World → Result (Unit {0}) × World
settle before (ok u, w) = (ok u, w)
settle before (err e, w) = (err e, rollback before w)

-- what runs between begin and rollback; a commit that fails is taken to have done nothing
abbrev body : Action (Unit {0}) → Action (Unit {0})
body fn = fn >> wrap (wrapped "db: commit: %w" []) (exec (λ db. db))

unfoldable pub in_tx : Action (Unit {0}) → Action (Unit {0})
unfolding ◌>>=◌ wrap exec
in_tx fn = wrap (wrapped "db: begin: %w" []) (exec (λ db. db)) >> λ w. settle w.db (body fn w)

settle_restores :
    (before : Db) (r : Result (Unit {0}) × World) (e : Error)
    → (settle before r).0 ≡ err e
    → (settle before r).1.db ≡ before
settle_restores before (ok u, w) e h = cc
settle_restores before (err e', w) e h = refl

module _ (fn : Action (Unit {0})) where
  -- the whole call, from how its first statement fares
  begun : List (Option Text) → World → Result (Unit {0}) × World
  unfolding attempt
  begun faults w =
      continue (rewrap (wrapped "db: begin: %w" []) (attempt faults (λ db. (ok tt, db)) w))
        (λ _ v. settle v.db (body fn v))

  begun_restores :
      (faults : List (Option Text)) (w : World) (e : Error)
      → (begun faults w).0 ≡ err e
      → (begun faults w).1.db ≡ w.db
  unfolding begun
  begun_restores [] w e h = settle_restores w.db (body fn w) e h
  begun_restores (none ∷ rest) w e h =
      settle_restores w.db (body fn (record w { faults = rest })) e h
  begun_restores (some f ∷ rest) w e h = refl

  -- A transaction that fails, whatever fails and wherever, leaves the database as it was.
  pub in_tx_restores : (w : World) (e : Error) → (in_tx fn w).0 ≡ err e → (in_tx fn w).1.db ≡ w.db
  unfolding in_tx begun
  in_tx_restores w e h = begun_restores w.faults w e h

settled_ok :
    (before : Db) (r : Result (Unit {0}) × World) (w' : World)
    → settle before r ≡ (ok tt, w')
    → r ≡ (ok tt, w')
settled_ok before (ok u, w) w' h = h
settled_ok before (err e, w) w' h = cc

module _ (fn : Action (Unit {0})) (steady : IsSteady fn) where
  commit_keeps :
      (faults : List (Option Text)) (v w' : World)
      → rewrap (wrapped "db: commit: %w" []) (attempt faults (λ db. (ok tt, db)) v) ≡ (ok tt, w')
      → calm v ≡ calm w'
  unfolding attempt
  commit_keeps [] v w' h = ap (λ (p : Result (Unit {0}) × World). calm p.1) h
  commit_keeps (none ∷ rest) v w' h = ap (λ (p : Result (Unit {0}) × World). calm p.1) h
  commit_keeps (some e ∷ rest) v w' h = cc

  settled :
      (before : Db) (w w' : World) (r : Result (Unit {0}) × World)
      → fn w ≡ r
      → settle before (continue r (λ _. wrap (wrapped "db: commit: %w" []) (exec (λ db. db))))
        ≡ (ok tt, w')
      → fn (calm w) ≡ (ok tt, calm w')
  unfolding wrap exec statement
  settled before w w' (ok u, v) e h =
      rw (steady.at w u v e)
        (ap (λ (x : World). (ok tt, x)) (commit_keeps v.faults v w' (settled_ok before _ w' h)))
  settled before w w' (err x, v) e h = cc

  begun_commits :
      (faults : List (Option Text)) (w w' : World)
      → begun fn faults w ≡ (ok tt, w')
      → fn (calm w) ≡ (ok tt, calm w')
  unfolding begun ◌>>=◌
  begun_commits [] w w' h = settled w.db w w' (fn w) refl h
  begun_commits (none ∷ rest) w w' h =
      let v = record w { faults = rest } in settled w.db v w' (fn v) refl h
  begun_commits (some e ∷ rest) w w' h = cc

  -- A transaction that returns has run its whole function: it leaves what the function leaves where
  -- no statement fails.
  pub in_tx_commits : (w w' : World) → in_tx fn w ≡ (ok tt, w') → fn (calm w) ≡ (ok tt, calm w')
  unfolding in_tx begun
  in_tx_commits w w' h = begun_commits w.faults w w' h

-- Where no statement fails and the function returns, the transaction returns with what it left.
pub in_tx-calm :
    (fn : Action (Unit {0})) (w v : World)
    → fn (calm w) ≡ (ok tt, calm v)
    → in_tx fn (calm w) ≡ (ok tt, calm v)
unfolding in_tx ◌>>=◌ wrap exec statement attempt
in_tx-calm fn w v h = rw h refl

module _ {κ} (P : Db → Type κ) (fn : Action (Unit {0})) (keeps : Preserves P fn) where
  settle-Preserves :
      (before : Db) (r : Result (Unit {0}) × World) → P before → P r.1.db → P (settle before r).1.db
  settle-Preserves before (ok u, w) h k = k
  settle-Preserves before (err e, w) h k = h

  idle : (f : Error → Error) → Preserves P (wrap f (exec (λ db. db)))
  idle f = Preserves-wrap P f _ (Preserves-exec P (λ db. db) (λ db h. h))

  body-Preserves : Preserves P (body fn)
  body-Preserves = Preserves-bind P fn _ keeps (λ _. idle (wrapped "db: commit: %w" []))

  -- A transaction keeps what its function keeps, whether it commits or not.
  pub in_tx-Preserves : Preserves P (in_tx fn)
  unfolding in_tx
  in_tx-Preserves =
      Preserves-bind P _ _ (idle (wrapped "db: begin: %w" []))
        λ _. record { at = λ w h. settle-Preserves w.db (body fn w) h (body-Preserves.at w h) }
