-- ===== src/App/Steps.antt =====
-- What a run of the program does beside the database: handles of Postgres that it opens and closes,
-- and what it prints.
use padma.Base.{ℕ, zero, suc, ◌≡◌, refl, ◌∙◌, Option, none, some, List, [], ◌∷◌, ◌++◌, Text}

pub data Step : Type 0 where
  -- a pgx pool or a database/sql handle is made, and closed
  opened closed : Step
  -- a line of the standard output, and of the standard error
  printed complained : Text → Step

-- how many handles are open after the steps, from so many on; none where one is closed too often
unfoldable pub outstanding : ℕ → List Step → Option ℕ
outstanding n [] = some n
outstanding n (opened ∷ steps) = outstanding (suc n) steps
outstanding zero (closed ∷ steps) = none
outstanding (suc n) (closed ∷ steps) = outstanding n steps
outstanding n (printed line ∷ steps) = outstanding n steps
outstanding n (complained line ∷ steps) = outstanding n steps

-- nothing that was open is closed, and all that was opened is closed
pub record IsBalanced (steps : List Step) : Type 0 where
  pub settles : (n : ℕ) → outstanding n steps ≡ some n

outstanding-append :
    (s t : List Step) (n m : ℕ)
    → outstanding n s ≡ some m
    → outstanding n (s ++ t) ≡ outstanding m t
unfolding outstanding
outstanding-append [] t n m h = cc
outstanding-append (opened ∷ s) t n m h = outstanding-append s t (suc n) m h
outstanding-append (closed ∷ s) t zero m h = absurd (cc)
outstanding-append (closed ∷ s) t (suc n) m h = outstanding-append s t n m h
outstanding-append (printed line ∷ s) t n m h = outstanding-append s t n m h
outstanding-append (complained line ∷ s) t n m h = outstanding-append s t n m h

pub IsBalanced-append : (s t : List Step) → IsBalanced s → IsBalanced t → IsBalanced (s ++ t)
IsBalanced-append s t hs ht = record {
  settles = λ n. outstanding-append s t n n (hs.settles n) ∙ ht.settles n;
}

pub IsBalanced-none : IsBalanced []
unfolding outstanding
IsBalanced-none = record { settles = λ n. refl }

pub IsBalanced-printed : (line : Text) → IsBalanced (printed line ∷ [])
unfolding outstanding
IsBalanced-printed line = record { settles = λ n. refl }

pub IsBalanced-complained : (line : Text) → IsBalanced (complained line ∷ [])
unfolding outstanding
IsBalanced-complained line = record { settles = λ n. refl }

-- a handle around steps
pub IsBalanced-handle :
    (steps : List Step) → IsBalanced steps → IsBalanced (opened ∷ (steps ++ closed ∷ []))
unfolding outstanding
IsBalanced-handle steps h = record {
  settles = λ n. outstanding-append steps (closed ∷ []) (suc n) (suc n) (h.settles (suc n));
}
