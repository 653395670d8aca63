-- ===== src/Embed.antt =====
-- internal/embed: vectors for texts, and their similarity.
pub mod Hash
use sentinellog.Prelude.{
  ℕ, Bool, true, false, not, Text, List, [], ◌∷◌, if◌then◌else◌, ◌==◌, nat_eq, length,
}
use sentinellog.Prelude.Float.{Float}

-- The floats of this file are Go's float32.
module _ ⦃fl : Float⦄ where
  -- The interface `Embedder`.
  pub record Embedder : Type 0 where
    pub embed : Text → List fl.F
    pub dim : ℕ
    pub version : Text

  -- The loop of `Cosine`, over two vectors of one length.
  dot : List fl.F → List fl.F → fl.F → fl.F
  dot [] ys acc = acc
  dot (x ∷ xs) [] acc = acc
  dot (x ∷ xs) (y ∷ ys) acc = dot xs ys (fl.add acc (fl.mul x y))

  pub cosine : List fl.F → List fl.F → fl.F
  unfolding dot
  cosine a b = if not (length a == length b) then fl.of_nat 0 else dot a b (fl.of_nat 0)
