-- ===== src/Embed/Hash.antt =====
-- `HashEmbedder`, which hashes each token into one dimension.
use sentinellog.Prelude.{
  ℕ, zero, suc, ◌<◌, ◌%◌, ◌^◌, ◌≡◌, refl, ap, ◌∙◌, inl, inr, ℤ, pos, negsuc, Text, codes, List, [],
  ◌∷◌, if◌then◌else◌, leb, length, map, replicate, filter, arith, length-map, Bool-cases,
}
use native.Mathlib.Nat.{mod-lt}
use sentinellog.Prelude.Strings.{Runtime}
use sentinellog.Prelude.Float.{Float}
use sentinellog.Embed.{Embedder}

-- What the embedder calls of the standard library: the fields that strings.FieldsFunc finds between
-- the runes that are neither letters nor digits, and the 32 bits of FNV-1a.
pub record Tokens : Type 0 where
  pub fields_func : Text → List Text
  pub fnv32a : Text → ℕ

-- float64 beside float32, and the conversions.
pub record Double (fl : Float) : Type 1 where
  pub d : Float
  pub widen : fl.F → d.F
  pub narrow : d.F → fl.F

pub record HashEmbedder : Type 0 where
  pub dim : ℕ

pub new_hash : ℤ → HashEmbedder
new_hash (pos zero) = record { dim = 256 }
new_hash (pos (suc n)) = record { dim = suc n }
new_hash (negsuc n) = record { dim = 256 }

new_hash-positive : (n : ℤ) → 0 < (new_hash n).dim
unfolding new_hash
new_hash-positive (pos zero) = omega arith
new_hash-positive (pos (suc n)) = omega arith
new_hash-positive (negsuc n) = omega arith

bucket_index-lt : (a dim : ℕ) → 0 < dim → dim < 2 ^ 32 → a % (dim % 2 ^ 32) < dim
bucket_index-lt a dim p small = let same : dim % 2 ^ 32 ≡ dim = omega arith in rw same (mod-lt a p)

module _ ⦃rt : Runtime⦄ (tokens : Tokens) where
  pub tokenize : Text → List Text
  tokenize s = filter (λ f. leb 2 (length f)) (tokens.fields_func (rt.to_lower s))

  -- `int(sum % uint32(dim))`
  pub bucket_index : Text → ℕ → ℕ
  bucket_index tok dim = tokens.fnv32a tok % (dim % 2 ^ 32)

  module _ ⦃fl : Float⦄ (double : Double fl) where
    open double use {d, widen, narrow}

    -- The sign is negative if the top bit of the sum is set.
    bucket : Text → ℕ → ℕ × fl.F
    unfolding bucket_index
    bucket tok dim = (
      bucket_index tok dim,
      if leb (2 ^ 31) (tokens.fnv32a tok) then fl.neg (fl.of_nat 1) else fl.of_nat 1,
    )

    -- `v[idx] += sign`; out of range the vector stays, where Go would panic.
    add_at : List fl.F → ℕ → fl.F → List fl.F
    add_at [] i x = []
    add_at (y ∷ v) zero x = fl.add y x ∷ v
    add_at (y ∷ v) (suc i) x = y ∷ add_at v i x

    add_tokens : List Text → ℕ → List fl.F → List fl.F
    unfolding bucket add_at
    add_tokens [] dim v = v
    add_tokens (tok ∷ toks) dim v =
        let (idx, sign) = bucket tok dim in add_tokens toks dim (add_at v idx sign)

    sum_of_squares : List fl.F → d.F → d.F
    sum_of_squares [] s = s
    sum_of_squares (x ∷ v) s = sum_of_squares v (d.add s (d.mul (widen x) (widen x)))

    l2normalize : List fl.F → List fl.F
    unfolding sum_of_squares
    l2normalize v =
        let s = sum_of_squares v (d.of_nat 0) in
        if d.eq s (d.of_nat 0)
        then v
        else let inv = narrow (d.div (d.of_nat 1) (d.sqrt s)) in map (λ x. fl.mul x inv) v

    pub hash_embed : HashEmbedder → Text → List fl.F
    unfolding add_tokens l2normalize
    hash_embed h text =
        l2normalize (add_tokens (tokenize text) h.dim (replicate h.dim (fl.of_nat 0)))

    pub embedder : HashEmbedder → Embedder
    embedder h = record { embed = hash_embed h; dim = h.dim; version = codes "hash-v1" }

    length-add_at : (v : List fl.F) (i : ℕ) (x : fl.F) → length (add_at v i x) ≡ length v
    unfolding add_at
    length-add_at [] i x = refl
    length-add_at (y ∷ v) zero x = refl
    length-add_at (y ∷ v) (suc i) x = ap suc (length-add_at v i x)

    length-add_tokens :
        (toks : List Text) (dim : ℕ) (v : List fl.F) → length (add_tokens toks dim v) ≡ length v
    unfolding add_tokens
    length-add_tokens [] dim v = refl
    length-add_tokens (tok ∷ toks) dim v =
        length-add_tokens toks dim (add_at v (bucket tok dim).0 (bucket tok dim).1)
        ∙ length-add_at v (bucket tok dim).0 (bucket tok dim).1

    length-replicate : (n : ℕ) (x : fl.F) → length (replicate n x) ≡ n
    length-replicate zero x = refl
    length-replicate (suc n) x = ap suc (length-replicate n x)

    length-l2normalize : (v : List fl.F) → length (l2normalize v) ≡ length v
    unfolding l2normalize
    length-l2normalize v = elim (Bool-cases (d.eq (sum_of_squares v (d.of_nat 0)) (d.of_nat 0))) [
      | inl e ↦ simp e
      | inr e ↦ simp e (length-map _ v)
    ]

    -- Every vector has the embedder's dimension, so two of them always have a dot product, and no
    -- token falls out of range, for a dimension that a uint32 holds.
    pub hash_embed-length :
        (n : ℤ) (text : Text)
        → (new_hash n).dim < 2 ^ 32
        → (length (hash_embed (new_hash n) text) ≡ (new_hash n).dim)
          × ((tok : Text) → bucket_index tok (new_hash n).dim < (new_hash n).dim)
    unfolding hash_embed bucket_index
    hash_embed-length n text small =
        let pad = replicate (new_hash n).dim (fl.of_nat 0) in
        (
          length-l2normalize (add_tokens (tokenize text) (new_hash n).dim pad)
              ∙ length-add_tokens (tokenize text) (new_hash n).dim pad
              ∙ length-replicate (new_hash n).dim (fl.of_nat 0),
          λ tok. bucket_index-lt (tokens.fnv32a tok) (new_hash n).dim (new_hash-positive n) small,
        )
