-- ===== src/Common/Maps.antt =====
-- `std::map`: the entries in the order of their keys, each key once; the laws need no sortedness.
use bdtrace.Common.{◌≡◌, refl, List, [], ◌∷◌, Option, none, some, arith, Ord, if◌then◌else◌, map}

abbrev pub Map {ℓ κ} : Type ℓ → Type κ → Type (ℓ ⊔ κ)
Map K V = List (K × V)

module _ {ℓ κ} {K : Type ℓ} {V : Type κ} ⦃o : Ord K⦄ where
  unfoldable pub find : K → Map K V → Option V
  find k [] = none
  find k ((j, v) ∷ m) = if o.beq k j then some v else find k m

  -- `m[k] = v`
  unfoldable pub put : K → V → Map K V → Map K V
  put k v [] = (k, v) ∷ []
  put k v ((j, w) ∷ m) =
      if o.beq k j
      then (j, v) ∷ m
      else if o.blt k j
      then (k, v) ∷ (j, w) ∷ m
      else (j, w) ∷ put k v m

  -- `m.erase(k)`
  unfoldable pub erase : K → Map K V → Map K V
  erase k [] = []
  erase k ((j, w) ∷ m) = if o.beq k j then erase k m else (j, w) ∷ erase k m

  -- `m[k]` for reading, with the value that `operator[]` would create.
  unfoldable pub find_or : V → K → Map K V → V
  find_or d k m = elim (find k m) [ none ↦ d | some v ↦ v ]

  pub find-put :
      (j k : K) (v : V) (m : Map K V)
      → find j (put k v m) ≡ (if o.beq j k then some v else find j m)
  unfolding find put
  find-put j k v [] = refl
  find-put j k v ((i, w) ∷ m) =
      ground (arith, find-put j k v m, o.beq_iff k i, o.beq_iff j i, o.beq_iff j k)

  pub find-erase :
      (j k : K) (m : Map K V) → find j (erase k m) ≡ (if o.beq j k then none else find j m)
  unfolding find erase
  find-erase j k [] = ground arith
  find-erase j k ((i, w) ∷ m) =
      ground (arith, find-erase j k m, o.beq_iff k i, o.beq_iff j i, o.beq_iff j k)

  pub find_or-put :
      (d : V) (j k : K) (v : V) (m : Map K V)
      → find_or d j (put k v m) ≡ (if o.beq j k then v else find_or d j m)
  unfolding find_or
  find_or-put d j k v m = ground (arith, find-put j k v m)

  -- The keys, in order.
  abbrev pub keys : Map K V → List K
  keys = map (λ e. e.0)
