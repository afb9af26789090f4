-- ===== src/Cache/Laws.antt =====
-- The parameter cache is a finite map on operation keys.
use hy_link.Prelude.{
  ◌+◌, ◌≡◌, refl, sym, ◌∙◌, true, false, [], ◌∷◌, if◌then◌else◌, arith, Bool-cases, inl, inr,
}
use hy_link.Keys.{OpKey, op_key_eq}
use hy_link.Keys.Laws.{op_key_eq_iff}
use hy_link.Cache.{
  ParamValue, ParamTable, contains, lookup_or, update, set_from, size, default_param, lookup,
  Double,
}

module _ {F : Type 0} where
  -- A lookup after an update finds the new value under every key that the table takes for equal,
  -- and under any other key what was there before.
  pub lookup_or-update :
      (default : ParamValue F) (t : ParamTable F) (k j : OpKey) (v : ParamValue F)
      → lookup_or default (update t k v) j ≡ (if op_key_eq k j then v else lookup_or default t j)
  unfolding lookup_or update
  lookup_or-update default [] k j v = refl
  lookup_or-update default ((i, w) ∷ t) k j v = ground (
    arith,
    op_key_eq_iff i k,
    op_key_eq_iff i j,
    op_key_eq_iff k j,
    lookup_or-update default t k j v,
  )

  pub contains-update :
      (t : ParamTable F) (k j : OpKey) (v : ParamValue F)
      → contains (update t k v) j ≡ (if op_key_eq k j then true else contains t j)
  unfolding contains update
  contains-update [] k j v = refl
  contains-update ((i, w) ∷ t) k j v =
      ground
        (arith, op_key_eq_iff i k, op_key_eq_iff i j, op_key_eq_iff k j, contains-update t k j v)

  -- An update adds an entry exactly when no equal key is stored, and otherwise keeps the size.
  pub size-update :
      (t : ParamTable F) (k : OpKey) (v : ParamValue F)
      → size (update t k v) ≡ (if contains t k then size t else size t + 1)
  unfolding contains update size
  size-update [] k v = omega arith
  size-update ((i, w) ∷ t) k v = ground (arith, size-update t k v)

  -- No two entries have equal keys.
  abbrev pub Distinct : ParamTable F → Type 0
  Distinct [] = Unit
  Distinct ((k, v) ∷ t) = (contains t k ≡ false) × Distinct t

  -- If the stored keys are distinct, they are after an update.
  pub update-Distinct :
      (t : ParamTable F) (k : OpKey) (v : ParamValue F) → Distinct t → Distinct (update t k v)
  unfolding update contains
  update-Distinct [] k v h = (refl, tt)
  update-Distinct ((i, w) ∷ t) k v h = ground (
    arith,
    contains-update t k i v,
    op_key_eq_iff i k,
    op_key_eq_iff k i,
    update-Distinct t k v h.1,
  )

  lookup_or-absent :
      (default : ParamValue F) (t : ParamTable F) (j : OpKey)
      → contains t j ≡ false
      → lookup_or default t j ≡ default
  unfolding contains lookup_or
  lookup_or-absent default [] j h = refl
  lookup_or-absent default ((i, w) ∷ t) j h = ground (arith, lookup_or-absent default t j)

  contains-eq :
      (t : ParamTable F) (i j : OpKey) → op_key_eq i j ≡ true → contains {F = F} t i ≡ contains t j
  unfolding contains
  contains-eq [] i j h = refl
  contains-eq ((k, w) ∷ t) i j h =
      ground (arith, op_key_eq_iff i j, op_key_eq_iff k i, op_key_eq_iff k j, contains-eq t i j h)

  -- After a snapshot with distinct keys is loaded, a lookup finds the snapshot's entry, where it
  -- has one, and the table's otherwise.
  pub lookup_or-set_from :
      (default : ParamValue F) (t entries : ParamTable F) (j : OpKey)
      → Distinct entries
      → lookup_or default (set_from t entries) j ≡ lookup_or (lookup_or default t j) entries j
  unfolding set_from lookup_or
  lookup_or-set_from default t [] j h = refl
  lookup_or-set_from default t ((k, v) ∷ entries) j h = elim (Bool-cases (op_key_eq k j)) [
    | inl e ↦
        lookup_or-set_from default (update t k v) entries j h.1
        ∙ rw (lookup_or-update default t k j v, e)
            (lookup_or-absent v entries j (sym (contains-eq entries k j e) ∙ h.0))
    | inr e ↦
        lookup_or-set_from default (update t k v) entries j h.1
        ∙ rw (lookup_or-update default t k j v, e) refl
  ]

pub lookup-update :
    (d : Double) (t : ParamTable d.F) (k j : OpKey) (v : ParamValue d.F)
    → lookup d (update t k v) j ≡ (if op_key_eq k j then v else lookup d t j)
unfolding lookup
lookup-update d t k j v = lookup_or-update (default_param d) t k j v

-- An update stores its value under every key that the tables take for equal and under no other, adds
-- an entry exactly when no equal key is stored, and keeps stored keys that are distinct distinct.
pub lookup-update_lem :
    (d : Double) (t : ParamTable d.F) (k j : OpKey) (v : ParamValue d.F)
    → (lookup d (update t k v) j ≡ (if op_key_eq k j then v else lookup d t j))
      × (size (update t k v) ≡ (if contains t k then size t else size t + 1))
      × (Distinct t → Distinct (update t k v))
lookup-update_lem d t k j v = (lookup-update d t k j v, size-update t k v, update-Distinct t k v)
