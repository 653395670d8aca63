-- ===== src/Audit/Append.antt =====
-- `Append` keeps the chain.
use sentinellog.Prelude.{
  ℕ, ℤ, suc, ◌+◌, ◌^◌, ◌<◌, ◌≡◌, refl, sym, subst, Text, List, [], ◌∷◌, ◌++◌, none, arith, length,
  length-append,
}
use sentinellog.Prelude.Strings.{Runtime}
use sentinellog.Audit.{Record, Log, genesis, hash_record, new, next_record, append, verify, payload}
use sentinellog.Audit.Chain.{last_hash_from, IsLink, IsChain, verify_iff}

-- The numbers of `Append` count up from `seq`.
abbrev pub Sequenced : ℕ → List Record → Type 0
Sequenced seq [] = Unit
Sequenced seq (r ∷ rest) = (r.seq ≡ seq) × Sequenced (suc seq) rest

last_hash_from-snoc :
    (prev : Text) (rs : List Record) (r : Record) → last_hash_from prev (rs ++ r ∷ []) ≡ r.hash
last_hash_from-snoc prev [] r = refl
last_hash_from-snoc prev (q ∷ rs) r = last_hash_from-snoc q.hash rs r

Sequenced-snoc :
    (n : ℕ) (rs : List Record) (r : Record)
    → Sequenced n rs
    → r.seq ≡ n + length rs
    → Sequenced n (rs ++ r ∷ [])
Sequenced-snoc n [] r s e = (omega arith, tt)
Sequenced-snoc n (q ∷ rs) r s e = (s.0, Sequenced-snoc (suc n) rs r s.1 (omega arith))

module _ ⦃rt : Runtime⦄ where
  -- What holds of a log that only `Append` has touched.
  pub record IsIntact (l : Log) : Type 0 where
    pub chain : IsChain genesis l.records
    pub linked : l.last_hash ≡ last_hash_from genesis l.records
    pub counted : l.seq ≡ length l.records
    pub numbered : Sequenced 1 l.records

  pub new-IsIntact : IsIntact new
  unfolding new
  new-IsIntact = record { chain = tt; linked = refl; counted = refl; numbered = tt }

  IsChain-snoc :
      (prev : Text) (rs : List Record) (r : Record)
      → IsChain prev rs
      → IsLink (last_hash_from prev rs) r
      → IsChain prev (rs ++ r ∷ [])
  IsChain-snoc prev [] r c k = (k, tt)
  IsChain-snoc prev (q ∷ rs) r c k = (c.0, IsChain-snoc q.hash rs r c.1 k)

  module _ (now : ℤ) (tenant_id actor action resource : Text) where
    abbrev made : Log → Record
    made l = next_record l now tenant_id actor action resource

    IsLink-next_record : (l : Log) → IsLink l.last_hash (made l)
    unfolding next_record hash_record payload
    IsLink-next_record l = record { follows = refl; sealed = refl }

    seq-next_record : (l : Log) → l.seq + 1 < 2 ^ 64 → (made l).seq ≡ l.seq + 1
    unfolding next_record
    seq-next_record l room = omega arith

    -- `Append` keeps a log intact, so that `Verify` accepts it, and gives the record the number of
    -- its place; the log's head is the hash of the new record.
    pub append-IsIntact :
        (l : Log)
        → IsIntact l
        → length l.records + 1 < 2 ^ 64
        → IsIntact (append l now tenant_id actor action resource).0
          × (verify (append l now tenant_id actor action resource).0 ≡ none)
          × (length (append l now tenant_id actor action resource).0.records ≡ length l.records + 1)
    unfolding append
    append-IsIntact l v room =
        let r : Record = made l in
        let link : IsLink (last_hash_from genesis l.records) r =
          subst (λ h. IsLink h r) v.linked (IsLink-next_record l) in
        let chain : IsChain genesis (l.records ++ r ∷ []) =
          IsChain-snoc genesis l.records r v.chain link in
        let number : r.seq ≡ l.seq + 1 = seq-next_record l (omega (arith, v.counted)) in
        (
          record {
            chain = chain;
            linked = sym (last_hash_from-snoc genesis l.records r);
            counted = omega (arith, length-append l.records (r ∷ []), v.counted);
            numbered = Sequenced-snoc 1 l.records r v.numbered (omega (arith, v.counted));
          },
          (verify_iff (append l now tenant_id actor action resource).0).1 chain,
          length-append l.records (r ∷ []),
        )
