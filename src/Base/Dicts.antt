-- ===== src/Base/Dicts.antt =====
-- Python's `dict` with number keys, as an association list in insertion order: an assignment to a
-- present key keeps its place, one to a new key goes to the end.
use Prim.Native.Nat.{ℕ}
use mathlib.Core.Path.{◌≡◌, refl, subst₂}
use mathlib.Core.Logic.{◌≢◌, inl, inr}
use mathlib.Core.Bool.{Bool, true, false}
use mathlib.Core.Option.{Option, none, some}
use mathlib.Core.List.{List, [], ◌∷◌}
use native.Mathlib.Omega.{arith}
use skeino.Base.Tests.{if◌then◌else◌, ◌==◌, ==_iff, Bool-cases}

abbrev pub Dict {ℓ} : Type ℓ → Type ℓ
Dict V = List (ℕ × V)

module _ {ℓ} {V : Type ℓ} where
  -- d.get(k)
  abbrev pub get : Dict V → ℕ → Option V
  get [] k = none
  get ((j, v) ∷ d) k = if j == k then some v else get d k

  -- k in d
  abbrev pub contains : Dict V → ℕ → Bool
  contains [] k = false
  contains ((j, v) ∷ d) k = if j == k then true else contains d k

  abbrev pub keys : Dict V → List ℕ
  keys [] = []
  keys ((j, v) ∷ d) = j ∷ keys d

  abbrev pub values : Dict V → List V
  values [] = []
  values ((j, v) ∷ d) = v ∷ values d

  -- d[k] = v
  unfoldable pub put : Dict V → ℕ → V → Dict V
  put [] k v = (k, v) ∷ []
  put ((j, w) ∷ d) k v = if j == k then (k, v) ∷ d else (j, w) ∷ put d k v

  -- d.pop(k, None), del d[k]
  unfoldable pub remove : Dict V → ℕ → Dict V
  remove [] k = []
  remove ((j, w) ∷ d) k = let rest = remove d k in if j == k then rest else (j, w) ∷ rest

module _ {ℓ} {V : Type ℓ} where
  pub get-put_self : (d : Dict V) (k : ℕ) (v : V) → get (put d k v) k ≡ some v
  unfolding put
  get-put_self [] k v = ground arith
  get-put_self ((j, w) ∷ d) k v = ground (arith, get-put_self d k v)

  pub get-put_ne : (d : Dict V) (k : ℕ) (v : V) (j : ℕ) → k ≢ j → get (put d k v) j ≡ get d j
  unfolding put
  get-put_ne [] k v j h = ground arith
  get-put_ne ((i, w) ∷ d) k v j h = ground (arith, get-put_ne d k v j)

  pub get-remove_self : (d : Dict V) (k : ℕ) → get (remove d k) k ≡ none
  unfolding remove
  get-remove_self [] k = refl
  get-remove_self ((j, w) ∷ d) k = ground (arith, get-remove_self d k)

  pub get-remove_ne : (d : Dict V) (k j : ℕ) → k ≢ j → get (remove d k) j ≡ get d j
  unfolding remove
  get-remove_ne [] k j h = refl
  get-remove_ne ((i, w) ∷ d) k j h = ground (arith, get-remove_ne d k j)

-- Each key stands once.
abbrev pub Unique {ℓ} : {V : Type ℓ} → Dict V → Type 0
Unique [] = Unit
Unique ((j, v) ∷ d) = (contains d j ≡ false) × Unique d

-- Every entry satisfies `P`.
abbrev pub Entries {ℓ κ} : {V : Type ℓ} → (ℕ → V → Type κ) → Dict V → Type κ
Entries P [] = Unit
Entries P ((j, v) ∷ d) = P j v × Entries P d

module _ {ℓ} {V : Type ℓ} where
  pub contains-put :
      (d : Dict V) (k : ℕ) (v : V) (j : ℕ)
      → contains (put d k v) j ≡ (if k == j then true else contains d j)
  unfolding put
  contains-put [] k v j = ground arith
  contains-put ((i, w) ∷ d) k v j = ground (arith, contains-put d k v j)

  pub contains-remove :
      (d : Dict V) (k j : ℕ) → contains (remove d k) j ≡ (if k == j then false else contains d j)
  unfolding remove
  contains-remove [] k j = ground arith
  contains-remove ((i, w) ∷ d) k j = ground (arith, contains-remove d k j)

  pub put-Unique : (d : Dict V) (k : ℕ) (v : V) → Unique d → Unique (put d k v)
  unfolding put
  put-Unique [] k v u = (refl, tt)
  put-Unique ((i, w) ∷ d) k v u = ground (arith, put-Unique d k v u.1, contains-put d k v i)

  pub remove-Unique : (d : Dict V) (k : ℕ) → Unique d → Unique (remove d k)
  unfolding remove
  remove-Unique [] k u = tt
  remove-Unique ((i, w) ∷ d) k u = ground (arith, remove-Unique d k u.1, contains-remove d k i)

  pub contains-get-none : (d : Dict V) (k : ℕ) → get d k ≡ none → contains d k ≡ false
  contains-get-none [] k e = refl
  contains-get-none ((i, w) ∷ d) k e = ground (arith, contains-get-none d k)

  pub get-none-contains : (d : Dict V) (k : ℕ) → contains d k ≡ false → get d k ≡ none
  get-none-contains [] k e = refl
  get-none-contains ((i, w) ∷ d) k e = ground (arith, get-none-contains d k)

  pub put-Entries {κ} :
      (P : ℕ → V → Type κ) (d : Dict V) (k : ℕ) (v : V)
      → Entries P d
      → P k v
      → Entries P (put d k v)
  unfolding put
  put-Entries P [] k v h p = (p, tt)
  put-Entries P ((i, w) ∷ d) k v h p = ground (arith, put-Entries P d k v h.1 p)

  pub remove-Entries {κ} :
      (P : ℕ → V → Type κ) (d : Dict V) (k : ℕ) → Entries P d → Entries P (remove d k)
  unfolding remove
  remove-Entries P [] k h = tt
  remove-Entries P ((i, w) ∷ d) k h = ground (arith, remove-Entries P d k h.1)

module _ {ℓ} {V : Type ℓ} where
  pub get-Entries {κ} :
      (P : ℕ → V → Type κ) (d : Dict V) (k : ℕ) (v : V) → Entries P d → get d k ≡ some v → P k v
  get-Entries P [] k v h e = absurd (cc)
  get-Entries P ((i, w) ∷ d) k v h e = elim (Bool-cases (i == k)) [
    | inl hit ↦ let same : w ≡ v = ground arith in subst₂ P ((==_iff i k).0 hit) same h.0
    | inr miss ↦ get-Entries P d k v h.1 (rw miss at e)
  ]
