-- ===== src/Indexer/Recovery.antt =====
-- A raw change that is saved once more, after a crash that lost the answer of the commit.
use padma.Base.{ℕ, ◌≡◌, ◌⊎◌, inl, inr, some, sym, ap, ◌∙◌, subst, [], ◌∷◌, Text}
use padma.Errors.{ok, ok_injective, bind-eq-ok}
use padma.Database.{Db, World}
use padma.Indexer.Events.{Event, Codec}
use padma.Indexer.Projector.{Projector}
use padma.Indexer.Projections.{advance}
use padma.Indexer.Effect.{applied, applied_all, flushed}
use padma.Indexer.Idempotent.{applied_again}
use padma.Indexer.Save.{saved, save_returned, save_atomic}

module _ (codec : Codec) (digest : Text → Text) where
  -- the specification of a raw change of one event
  flushed_one :
      (seq : ℕ) (now : ℕ) (e : Event) (db d : Db)
      → flushed codec digest seq now (e ∷ []) db ≡ ok d
      → (d₁ : Db) × (applied codec digest seq now e db ≡ ok d₁) × (d ≡ advance seq now d₁)
  unfolding flushed applied_all
  flushed_one seq now e db d h =
      let (d₂, all, stored) = bind-eq-ok (applied_all codec digest seq now (e ∷ []) db) _ h in
      let (d₁, one, rest) = bind-eq-ok (applied codec digest seq now e db) (λ (y : Db). ok y) all in
      (d₁, one, sym (ok_injective stored) ∙ ap (advance seq now) (sym (ok_injective rest)))

  flushed_again :
      (seq seq' now now' : ℕ) (e : Event) (db d₁ d d' : Db)
      → applied codec digest seq now e db ≡ ok d₁
      → d ≡ advance seq now d₁
      → flushed codec digest seq' now' (e ∷ []) d ≡ ok d'
      → d' ≡ advance seq' now' d
  flushed_again seq seq' now now' e db d₁ d d' one stored h =
      let (d₂, one', stored') = flushed_one seq' now' e d d' h in
      let fixed : applied codec digest seq' now' e d ≡ ok d =
        subst (λ (y : Db). applied codec digest seq' now' e y ≡ ok y) (sym stored)
          (applied_again codec digest seq seq' now now' e db d₁
            (some (record { last_seq = seq; updated_at = now })) one) in
      stored' ∙ ap (advance seq' now') (ok_injective (sym one' ∙ fixed))

  -- Saving a raw change of one event again, with any later checkpoint, at any later time and with
  -- whatever failures, changes no table but the checkpoint: a Save that returns leaves the database
  -- that the first one committed, with its own sequence number, and one that fails changes nothing.
  pub save_again :
      (seq seq' : ℕ) (e : Event) (w w' : World)
      → (saved codec digest seq (record { buf = e ∷ [] }) w).0 ≡ ok tt
      → w'.db ≡ (saved codec digest seq (record { buf = e ∷ [] }) w).1.db
      → ((saved codec digest seq' (record { buf = e ∷ [] }) w').1.db ≡ w'.db)
        ⊎ ((saved codec digest seq' (record { buf = e ∷ [] }) w').1.db ≡ advance seq' w'.now w'.db)
  save_again seq seq' e w w' done same = elim (save_atomic codec digest seq' p w') [
    | inl (_, spec) ↦
        let (d₁, one, stored) =
          flushed_one seq w.now e w.db _ (save_returned codec digest seq p w done) in
        inr (flushed_again seq seq' w.now w'.now e w.db d₁ w'.db _ one (same ∙ stored) spec)
    | inr (_, _, kept) ↦ inl kept
  ]
    where
      p : Projector
      p = record { buf = e ∷ [] }
