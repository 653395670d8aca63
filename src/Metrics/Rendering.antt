-- ===== src/Metrics/Rendering.antt =====
-- The text of a histogram, against the values that it has seen.
use sentinellog.Prelude.{
  ℕ, suc, ◌+◌, ◌≡◌, refl, ap, ◌∙◌, Text, codes, List, [], ◌∷◌, ◌++◌, some, length, get_elem?, u64,
  arith,
}
use sentinellog.Prelude.Float.{Float}
use sentinellog.Model.Decimal.{format_uint}
use sentinellog.Metrics.{
  new_histogram, count_at, newline, bucket_line, bucket_lines, type_line, render_histogram,
}
use sentinellog.Metrics.Sums.{sum_below, sum_below-suc, sum_below-zero}
use sentinellog.Metrics.Buckets.{IsLinear, at_most, observed, observed-Counted}

module _ ⦃fl : Float⦄ (format_g : fl.F → Text) where
  -- The lines that the values call for.
  pub exact_lines : Text → List fl.F → List fl.F → Text
  exact_lines name vs [] = bucket_line name (codes "+Inf") (u64 (length vs))
  exact_lines name vs (b ∷ bounds) =
      bucket_line name (format_g b) (u64 (at_most b vs)) ++ exact_lines name vs bounds

  next_count :
      (counts : List ℕ) (i cum : ℕ)
      → cum ≡ u64 (sum_below i counts)
      → u64 (cum + count_at counts i) ≡ u64 (sum_below (suc i) counts)
  next_count counts i cum h = omega (arith, h, sum_below-suc counts i)

  bucket_lines-eq :
      (name : Text) (vs : List fl.F) (counts : List ℕ) (i cum : ℕ) (bounds : List fl.F)
      → cum ≡ u64 (sum_below i counts)
      → ((j : ℕ) (b : fl.F)
          → get_elem? bounds j ≡ some b
          → u64 (sum_below (suc (i + j)) counts) ≡ u64 (at_most b vs))
      → u64 (sum_below (suc (i + length bounds)) counts) ≡ u64 (length vs)
      → bucket_lines format_g name counts i cum bounds ≡ exact_lines name vs bounds
  unfolding bucket_lines exact_lines
  bucket_lines-eq name vs counts i cum [] h below all =
      let here : suc (i + 0) ≡ suc i = omega arith in
      let e : u64 (cum + count_at counts i) ≡ u64 (length vs) =
        next_count counts i cum h ∙ (rw here at all) in
      ap (bucket_line name (codes "+Inf")) e
  bucket_lines-eq name vs counts i cum (b ∷ bounds) h below all =
      let here : suc (i + 0) ≡ suc i = omega arith in
      let e : u64 (cum + count_at counts i) ≡ u64 (at_most b vs) =
        next_count counts i cum h ∙ (rw here at (below 0 b refl)) in
      let rest =
        bucket_lines-eq name vs counts (suc i) (u64 (cum + count_at counts i)) bounds
          (next_count counts i cum h)
          (λ j c p.
            let q : suc (i + suc j) ≡ suc (suc i + j) = omega arith in rw q at (below (suc j) c p))
          (let q : suc (i + suc (length bounds)) ≡ suc (suc i + length bounds) = omega arith in
            rw q at all) in
      ap
        (λ n.
          bucket_line name (format_g b) n
          ++ bucket_lines format_g name counts (suc i) (u64 (cum + count_at counts i)) bounds)
        e
      ∙ ap (λ t. bucket_line name (format_g b) (u64 (at_most b vs)) ++ t) rest

  -- What `render` prints of a histogram is, for each bound, the number of values seen so far that
  -- are at most the bound, and for +Inf and for the count the number of all of them, each modulo
  -- 2 ^ 64; the order of the floats is taken to be that of IEEE 754.
  pub render_observed :
      (name : Text) (vs : List fl.F)
      → IsLinear
      → render_histogram format_g name (observed vs)
        ≡ type_line name " histogram"
          ++ (exact_lines name vs new_histogram.bounds
              ++ (name
                  ++ (codes "_sum "
                      ++ (format_g (observed vs).sum
                          ++ (newline
                              ++ (name
                                  ++ (codes "_count "
                                      ++ (format_uint (u64 (length vs)) ++ newline))))))))
  unfolding render_histogram
  render_observed name vs linear =
      let c = observed-Counted linear vs in
      let lines =
        ap (bucket_lines format_g name (observed vs).counts 0 0) c.same_bounds
        ∙ bucket_lines-eq name vs (observed vs).counts 0 0 new_histogram.bounds
            (omega (arith, sum_below-zero (observed vs).counts))
            (λ j b p. let e : suc (0 + j) ≡ suc j = omega arith in rw e (c.below j b p))
            (let e : suc (0 + length new_histogram.bounds) ≡ length new_histogram.bounds + 1 =
                omega arith in
              rw e c.all) in
      cc (lines, c.counted)
