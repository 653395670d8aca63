-- ===== src/Audit/Chain.antt =====
-- `Verify` against what a chain is, and `Append` against both.
use sentinellog.Prelude.{
  ℕ, ◌≡◌, refl, sym, ap, ◌∙◌, ◌↔◌, ◌⊎◌, inl, inr, Text, true, List, [], ◌∷◌, ◌++◌, none, some,
  arith, ◌==◌, text_eq, text_beq_iff, Bool-cases,
}
use sentinellog.Prelude.Strings.{Runtime}
use sentinellog.Audit.{Record, Log, genesis, hash_record, verify_from, verify}

-- The hash after the records of a chain that starts from `prev`.
abbrev pub last_hash_from : Text → List Record → Text
last_hash_from prev [] = prev
last_hash_from prev (r ∷ rest) = last_hash_from r.hash rest

module _ ⦃rt : Runtime⦄ where
  -- One link: the record names the hash before it and carries its own.
  pub record IsLink (prev : Text) (r : Record) : Type 0 where
    pub follows : r.prev_hash ≡ prev
    pub sealed : r.hash ≡ hash_record r

  abbrev pub IsChain : Text → List Record → Type 0
  IsChain prev [] = Unit
  IsChain prev (r ∷ rest) = IsLink prev r × IsChain r.hash rest

  -- The first record that is no link, with the chain before it.
  pub data Corrupt (prev : Text) (rs : List Record) (seq : ℕ) : Type 0 where
    at_record :
        (good : List Record) (r : Record) (rest : List Record)
        → rs ≡ good ++ r ∷ rest
        → IsChain prev good
        → ¬ IsLink (last_hash_from prev good) r
        → r.seq ≡ seq
        → Corrupt prev rs seq

  verify_from_link :
      (prev : Text) (r : Record) (rest : List Record)
      → IsLink prev r
      → verify_from prev (r ∷ rest) ≡ verify_from r.hash rest
  unfolding verify_from
  verify_from_link prev r rest k =
      let a : (r.prev_hash == prev) ≡ true = (text_beq_iff _ _).1 k.follows in
      let b : (r.hash == hash_record r) ≡ true = (text_beq_iff _ _).1 k.sealed in simp (a, b)

  verify_from_cases :
      (prev : Text) (r : Record) (rest : List Record)
      → IsLink prev r ⊎ ((¬ IsLink prev r) × (verify_from prev (r ∷ rest) ≡ some r.seq))
  unfolding verify_from
  verify_from_cases prev r rest = elim (Bool-cases (r.prev_hash == prev)) [
    | inr other ↦ inr (λ k. ground (arith, text_beq_iff r.prev_hash prev, k.follows), simp other)
    | inl same ↦ elim (Bool-cases (r.hash == hash_record r)) [
      | inr broken ↦
          inr (
            λ k. ground (arith, text_beq_iff r.hash (hash_record r), k.sealed),
            simp (same, broken),
          )
      | inl sealed ↦
          inl (record { follows = (text_beq_iff _ _).0 same; sealed = (text_beq_iff _ _).0 sealed })
    ]
  ]

  verify_from_sound :
      (prev : Text) (rs : List Record) → verify_from prev rs ≡ none → IsChain prev rs
  verify_from_sound prev [] h = tt
  verify_from_sound prev (r ∷ rest) h = elim (verify_from_cases prev r rest) [
    | inl k ↦ (k, verify_from_sound r.hash rest (sym (verify_from_link prev r rest k) ∙ h))
    | inr (_, bad) ↦ absurd (cc bad)
  ]

  verify_from_complete :
      (prev : Text) (rs : List Record) → IsChain prev rs → verify_from prev rs ≡ none
  unfolding verify_from
  verify_from_complete prev [] h = refl
  verify_from_complete prev (r ∷ rest) h =
      verify_from_link prev r rest h.0 ∙ verify_from_complete r.hash rest h.1

  Corrupt-cons :
      {prev : Text} {r : Record} {rest : List Record} {seq : ℕ}
      → IsLink prev r
      → Corrupt r.hash rest seq
      → Corrupt prev (r ∷ rest) seq
  Corrupt-cons {r = r} k (at_record good bad tail split chain broken named) =
      at_record (r ∷ good) bad tail (ap (◌∷◌ r) split) (k, chain) broken named

  verify_from-Corrupt :
      (prev : Text) (rs : List Record) (seq : ℕ)
      → verify_from prev rs ≡ some seq
      → Corrupt prev rs seq
  unfolding verify_from
  verify_from-Corrupt prev [] seq h = absurd (cc)
  verify_from-Corrupt prev (r ∷ rest) seq h = elim (verify_from_cases prev r rest) [
    | inl k ↦
        Corrupt-cons k
          (verify_from-Corrupt r.hash rest seq (sym (verify_from_link prev r rest k) ∙ h))
    | inr (broken, bad) ↦ at_record [] r rest refl tt broken (cc bad)
  ]

  -- `Verify` says that the log is intact exactly when its records form a chain from the genesis.
  pub verify_iff : (l : Log) → (verify l ≡ none) ↔ IsChain genesis l.records
  unfolding verify
  verify_iff l = (verify_from_sound genesis l.records, verify_from_complete genesis l.records)

  -- When `Verify` answers `(false, seq)`, the first record that breaks the chain has that number.
  pub verify-Corrupt : (l : Log) (seq : ℕ) → verify l ≡ some seq → Corrupt genesis l.records seq
  unfolding verify
  verify-Corrupt l seq h = verify_from-Corrupt genesis l.records seq h
