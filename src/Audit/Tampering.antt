-- ===== src/Audit/Tampering.antt =====
-- How far the chain is tamper-evident.
use sentinellog.Prelude.{
  ℕ, ◌*◌, ◌≡◌, ◌≢◌, refl, sym, ap, subst, ◌∙◌, ◌⊎◌, inl, inr, Text, codes, List, [], ◌∷◌, ◌++◌, map,
  reverse, none, arith, length, length-append, text_beq, text_beq_iff, Bool-cases, append_assoc,
  Bool, true, any, nat_beq, map-reverse, reverse_inj, append-nil,
}
use mathlib.Core.List.{reverse-cons}
use sentinellog.Prelude.Strings.{Runtime, hex_encode, hex_digest}
use sentinellog.Model.Decimal.{format_uint, format_int}
use sentinellog.Audit.{Record, Log, genesis, payload, hash_record, verify, bar}
use sentinellog.Audit.Chain.{last_hash_from, IsLink, IsChain, verify_iff}

append_inj_right : (a b s t : Text) → length s ≡ length t → a ++ s ≡ b ++ t → s ≡ t
append_inj_right [] [] s t n e = e
append_inj_right [] (y ∷ b) s t n e = absurd (omega (arith, ap length e, length-append b t, n))
append_inj_right (x ∷ a) [] s t n e = absurd (omega (arith, ap length e, length-append a s, n))
append_inj_right (x ∷ a) (y ∷ b) s t n e = append_inj_right a b s t n (cc e)

length-hex_encode : (s : Text) → length (hex_encode s) ≡ 2 * length s
unfolding hex_encode
length-hex_encode [] = refl
length-hex_encode (b ∷ s) = omega (arith, length-hex_encode s)

any-append_middle :
    (p : ℕ → Bool) (s : Text) (x : ℕ) (t : Text) → p x ≡ true → any p (s ++ x ∷ t) ≡ true
any-append_middle p [] x t h = ground arith
any-append_middle p (y ∷ s) x t h = ground (arith, any-append_middle p s x t h)

-- The payload before its last field.
front : Record → Text
front r =
    format_uint r.seq
    ++ (bar ∷ r.tenant_id
        ++ (bar ∷ r.actor
            ++ (bar ∷ r.action ++ (bar ∷ r.resource ++ (bar ∷ format_int r.at ++ (bar ∷ []))))))

payload-front : (r : Record) → payload r ≡ front r ++ r.prev_hash
unfolding payload front
payload-front r = simp append_assoc

module _ ⦃rt : Runtime⦄ where
  -- Two different texts with one digest.
  pub Collision : Type 0
  Collision = (s t : Text) × (s ≢ t) × (hex_digest s ≡ hex_digest t)

  -- A chain read from its newest record back; `head` is the hash that it ends in.
  abbrev Ends : Text → List Record → Type 0
  Ends head [] = head ≡ genesis
  Ends head (r ∷ older) = (head ≡ r.hash) × (r.hash ≡ hash_record r) × Ends r.prev_hash older

  same_or_collision : (s t : Text) → hex_digest s ≡ hex_digest t → (s ≡ t) ⊎ Collision
  unfolding Collision
  same_or_collision s t e = elim (Bool-cases (text_beq s t)) [
    | inl same ↦ inl ((text_beq_iff s t).0 same)
    | inr other ↦ inr (s, t, (λ p. ground (arith, text_beq_iff s t, p)), e)
  ]

  genesis_text : Text
  genesis_text = codes "sentinellog-audit-genesis"

  genesis_text-ne-payload : (r : Record) → genesis_text ≢ payload r
  unfolding genesis_text payload
  genesis_text-ne-payload r e = cc (
      ap (any (λ c. nat_beq c bar)) e
      ∙ any-append_middle (λ c. nat_beq c bar) (format_uint r.seq) bar _ refl)

  -- The digests are 32 bytes long, as the standard library says.
  module _ (sum_length : (s : Text) → length (rt.sha256 s) ≡ 32) where
    length-hex_digest : (s : Text) → length (hex_digest s) ≡ 64
    unfolding hex_digest
    length-hex_digest s = length-hex_encode (rt.sha256 s) ∙ ap (λ (n : ℕ). 2 * n) (sum_length s)

    length_head : (head : Text) (rs : List Record) → Ends head rs → length head ≡ 64
    unfolding genesis hash_record
    length_head head [] e = ap length e ∙ length-hex_digest _
    length_head head (r ∷ older) (e, sealed, _) =
        ap length (e ∙ sealed) ∙ length-hex_digest (payload r)

    Ends-unique :
        (head : Text) (rs qs : List Record)
        → Ends head rs
        → Ends head qs
        → (map payload rs ≡ map payload qs) ⊎ Collision
    unfolding Collision genesis genesis_text hash_record
    Ends-unique head [] [] e f = inl refl
    Ends-unique head [] (q ∷ qs) e (f, sealed, _) =
        inr (genesis_text, payload q, genesis_text-ne-payload q, sym e ∙ f ∙ sealed)
    Ends-unique head (r ∷ rs) [] (e, sealed, _) f =
        inr (genesis_text, payload r, genesis_text-ne-payload r, sym f ∙ e ∙ sealed)
    Ends-unique head (r ∷ rs) (q ∷ qs) (e, r_sealed, r_older) (f, q_sealed, q_older) =
        elim (same_or_collision (payload r) (payload q) (sym r_sealed ∙ sym e ∙ f ∙ q_sealed)) [
          | inr c ↦ inr c
          | inl same ↦
              let sizes : length r.prev_hash ≡ length q.prev_hash =
                length_head r.prev_hash rs r_older ∙ sym (length_head q.prev_hash qs q_older) in
              let prev : r.prev_hash ≡ q.prev_hash =
                append_inj_right (front r) (front q) r.prev_hash q.prev_hash sizes
                  (sym (payload-front r) ∙ same ∙ payload-front q) in
              elim (Ends-unique r.prev_hash rs qs r_older
                (subst (λ h. Ends h qs) (sym prev) q_older)) [ inl rest ↦ inl (cc) | inr c ↦ inr c ]
        ]

    IsChain-Ends :
        (prev : Text) (rs older : List Record)
        → Ends prev older
        → IsChain prev rs
        → Ends (last_hash_from prev rs) (reverse rs ++ older)
    IsChain-Ends prev [] older e c = e
    IsChain-Ends prev (r ∷ rs) older e c =
        subst (Ends (last_hash_from r.hash rs))
          (sym
            (ap (λ l. l ++ older) (reverse-cons r rs) ∙ append_assoc (reverse rs) (r ∷ []) older))
          (IsChain-Ends r.hash rs (r ∷ older)
            (refl, c.0.sealed, subst (λ h. Ends h older) (sym c.0.follows) e) c.1)

    Ends-log :
        (l : Log) → verify l ≡ none → Ends (last_hash_from genesis l.records) (reverse l.records)
    Ends-log l h =
        subst (Ends (last_hash_from genesis l.records)) (append-nil (reverse l.records))
          (IsChain-Ends genesis l.records [] refl ((verify_iff l).0 h))

    -- Two logs that `Verify` accepts and that end in the same head hash agree on the hashed text of
    -- every record, in number and order, unless the digest has a collision.
    pub tamper_evident :
        (l k : Log)
        → verify l ≡ none
        → verify k ≡ none
        → last_hash_from genesis l.records ≡ last_hash_from genesis k.records
        → (map payload l.records ≡ map payload k.records) ⊎ Collision
    tamper_evident l k p q same =
        elim (Ends-unique (last_hash_from genesis l.records) (reverse l.records) (reverse k.records)
          (Ends-log l p) (subst (λ h. Ends h (reverse k.records)) (sym same) (Ends-log k q))) [
            | inl agree ↦ inl (
                reverse_inj _ _
                  (sym (map-reverse payload l.records) ∙ agree ∙ map-reverse payload k.records))
            | inr c ↦ inr c
          ]

-- The separator is not escaped: a bar inside a resource moves the fields before it.
pub shift_fields : Record → Text → Text → Record
shift_fields r a b = record r { actor = r.actor ++ (bar ∷ r.action); action = a; resource = b }

payload-shift_fields :
    (r : Record) (a b : Text)
    → r.resource ≡ a ++ (bar ∷ b)
    → payload (shift_fields r a b) ≡ payload r
unfolding payload shift_fields
payload-shift_fields r a b e = simp (e, append_assoc)

module _ ⦃rt : Runtime⦄ where
  shift_fields-IsLink :
      (prev : Text) (r : Record) (a b : Text)
      → r.resource ≡ a ++ (bar ∷ b)
      → IsLink prev r
      → IsLink prev (shift_fields r a b)
  unfolding shift_fields hash_record
  shift_fields-IsLink prev r a b e k = record {
    follows = k.follows;
    sealed = k.sealed ∙ ap hex_digest (sym (payload-shift_fields r a b e));
  }

  IsChain-shifted :
      (prev : Text) (good : List Record) (r : Record) (rest : List Record) (a b : Text)
      → r.resource ≡ a ++ (bar ∷ b)
      → IsChain prev (good ++ r ∷ rest)
      → IsChain prev (good ++ shift_fields r a b ∷ rest)
  unfolding shift_fields
  IsChain-shifted prev [] r rest a b e c = (shift_fields-IsLink prev r a b e c.0, c.1)
  IsChain-shifted prev (q ∷ good) r rest a b e c =
      (c.0, IsChain-shifted q.hash good r rest a b e c.1)

  shift_fields-ne : (r : Record) (a b : Text) → shift_fields r a b ≢ r
  unfolding shift_fields
  shift_fields-ne r a b e =
      absurd (
        omega
          (arith, ap (λ (q : Record). length q.actor) e, length-append r.actor (bar ∷ r.action)))

  -- A record whose resource has a bar can be replaced by another one, with its actor, action and
  -- resource changed, and `Verify` still says that the log is intact.
  pub tampering_undetected :
      (l : Log) (good : List Record) (r : Record) (rest : List Record) (a b : Text)
      → l.records ≡ good ++ r ∷ rest
      → r.resource ≡ a ++ (bar ∷ b)
      → verify l ≡ none
      → (verify (record l { records = good ++ shift_fields r a b ∷ rest }) ≡ none)
        × (shift_fields r a b ≢ r)
  tampering_undetected l good r rest a b split e h = (
    (verify_iff (record l { records = good ++ shift_fields r a b ∷ rest })).1 (
        IsChain-shifted genesis good r rest a b e
          (subst (IsChain genesis) split ((verify_iff l).0 h))),
    shift_fields-ne r a b,
  )
