-- ===== src/Platform/Ids.antt =====
-- internal/platform/id/id.go: ids derived from input parts. SHA-256 and the ULID text of its first
-- 16 bytes are the parameter `digest`.
use padma.Base.{ℕ, ◌≡◌, ◌≢◌, refl, List, [], ◌∷◌, ◌++◌, Text, All}

-- what Derive writes into the hash behind the namespace: a zero byte and the part, for every part
unfoldable pub framed : List Text → Text
framed [] = []
framed (p ∷ parts) = 0 ∷ (p ++ framed parts)

unfoldable pub derive_input : Text → List Text → Text
unfolding framed
derive_input namespace parts = namespace ++ framed parts

module _ (digest : Text → Text) where
  -- Derive
  unfoldable pub derive : Text → List Text → Text
  derive namespace parts = digest (derive_input namespace parts)

  -- DeriveWithPrefix
  unfoldable pub derive_with_prefix : Text → Text → List Text → Text
  derive_with_prefix prefix namespace parts = prefix ++ derive namespace parts

-- a text of a Postgres column holds no zero byte
abbrev pub HasNoZero : Text → Type 0
HasNoZero = All (λ (c : ℕ). c ≢ 0)

framed_split :
    (a b : Text) (ps qs : List Text)
    → HasNoZero a
    → HasNoZero b
    → All HasNoZero ps
    → All HasNoZero qs
    → a ++ framed ps ≡ b ++ framed qs
    → (a ≡ b) × (ps ≡ qs)
unfolding framed
framed_split [] [] [] [] ha hb hp hq e = (refl, refl)
framed_split [] [] [] (q ∷ qs) ha hb hp hq e = cc
framed_split [] [] (p ∷ ps) [] ha hb hp hq e = cc
framed_split [] [] (p ∷ ps) (q ∷ qs) ha hb hp hq e =
    let (same_part, same_rest) = framed_split p q ps qs hp.0 hq.0 hp.1 hq.1 (cc) in (refl, cc)
framed_split [] (y ∷ b) [] qs ha hb hp hq e = cc
framed_split [] (y ∷ b) (p ∷ ps) qs ha hb hp hq e = absurd (hb.0 (cc))
framed_split (x ∷ a) [] ps [] ha hb hp hq e = cc
framed_split (x ∷ a) [] ps (q ∷ qs) ha hb hp hq e = absurd (ha.0 (cc))
framed_split (x ∷ a) (y ∷ b) ps qs ha hb hp hq e =
    let (same_part, same_rest) = framed_split a b ps qs ha.1 hb.1 hp hq (cc) in (cc, same_rest)

append_cancel : (p a b : Text) → p ++ a ≡ p ++ b → a ≡ b
append_cancel [] a b e = e
append_cancel (x ∷ p) a b e = append_cancel p a b (cc)

-- Two lists of texts without a zero byte, whose hashed inputs do not collide, have the same derived
-- id under a prefix only if they are the same namespace and the same parts.
pub derive_with_prefix_injective :
    (digest : Text → Text) (prefix namespace namespace' : Text) (parts parts' : List Text)
    → (digest (derive_input namespace parts) ≡ digest (derive_input namespace' parts')
        → derive_input namespace parts ≡ derive_input namespace' parts')
    → HasNoZero namespace
    → HasNoZero namespace'
    → All HasNoZero parts
    → All HasNoZero parts'
    → derive_with_prefix digest prefix namespace parts
      ≡ derive_with_prefix digest prefix namespace' parts'
    → (namespace ≡ namespace') × (parts ≡ parts')
unfolding derive_with_prefix derive derive_input
derive_with_prefix_injective digest prefix namespace namespace' parts parts' inj hn hn' hp hp' e =
    framed_split namespace namespace' parts parts' hn hn' hp hp' (inj (append_cancel prefix _ _ e))
