-- ===== src/Metrics.antt =====
-- internal/metrics/metrics.go: counters, gauges and latency histograms in Prometheus' text format.
pub mod Sums
pub mod Buckets
pub mod Rendering
use Prim.Native.String.{String}
use sentinellog.Prelude.{
  ℕ, zero, suc, ◌+◌, Bool, true, false, Text, codes, List, [], ◌∷◌, ◌++◌, map, Option, none, some,
  if◌then◌else◌, ltb, text_eq, length, replicate, get_elem?, u64,
}
use sentinellog.Prelude.Float.{Float}
use sentinellog.Prelude.Map.{lookup, insert}
use sentinellog.Prelude.Sorting.{Sorting}
use sentinellog.Model.Decimal.{format_uint}
use sentinellog.Store.BinarySearch.{sort_search}

-- The order of Go's strings, byte by byte.
pub text_less : Text → Text → Bool
text_less s [] = false
text_less [] (d ∷ t) = true
text_less (c ∷ s) (d ∷ t) =
    let rest = text_less s t in if ltb c d then true else if ltb d c then false else rest

-- `counts[i]++`
unfoldable pub bump : List ℕ → ℕ → List ℕ
bump [] i = []
bump (n ∷ counts) zero = u64 (n + 1) ∷ counts
bump (n ∷ counts) (suc i) = n ∷ bump counts i

-- `counts[i]`; the loops never read out of range.
pub count_at : List ℕ → ℕ → ℕ
count_at counts i = elim (get_elem? counts i) [ none ↦ 0 | some n ↦ n ]

-- `LoadOrStore(name, new(atomic.Uint64))`
or_new : Option ℕ → ℕ
or_new none = 0
or_new (some n) = n

abbrev pub newline : Text
newline = 10 ∷ []

pub bucket_line : Text → Text → ℕ → Text
bucket_line name le cum =
    name ++ (codes "_bucket{le=\"" ++ (le ++ (codes "\"} " ++ (format_uint cum ++ newline))))

pub type_line : Text → String → Text
type_line name kind = codes "# TYPE " ++ (name ++ (codes kind ++ newline))

counter_text : Text → ℕ → Text
unfolding type_line
counter_text name n = type_line name " counter" ++ (name ++ (b' ' ∷ format_uint n ++ newline))

-- The keys of a map, sorted.
abbrev sorted_keys {ℓ} : {V : Type ℓ} → Sorting Text → List (Text × V) → List Text
sorted_keys sorting m = sorting.sort_slice text_less (map (λ p. p.0) m)

module _ ⦃fl : Float⦄ where
  pub record Histogram : Type 0 where
    pub bounds : List fl.F
    pub counts : List ℕ
    pub sum : fl.F
    pub total : ℕ

  unfoldable pub bounds_ms : List ℕ
  bounds_ms = 1 ∷ 5 ∷ 10 ∷ 25 ∷ 50 ∷ 100 ∷ 250 ∷ 500 ∷ 1000 ∷ 2500 ∷ 5000 ∷ []

  unfoldable pub new_histogram : Histogram
  unfolding bounds_ms
  new_histogram =
      let bounds = map fl.of_nat bounds_ms in
      record {
        bounds = bounds;
        counts = replicate (length bounds + 1) 0;
        sum = fl.of_nat 0;
        total = 0;
      }

  -- The test that `sort.SearchFloat64s` hands to `sort.Search`, `a[i] >= x`.
  pub at_least : List fl.F → fl.F → ℕ → Bool
  at_least bounds v i = elim (get_elem? bounds i) [ none ↦ false | some b ↦ fl.le v b ]

  unfoldable pub observe_value : Histogram → fl.F → Histogram
  unfolding at_least bump
  observe_value h v =
      let i = sort_search (length h.bounds) (at_least h.bounds v) in
      record h { sum = fl.add h.sum v; total = u64 (h.total + 1); counts = bump h.counts i }

  -- `format_g` is the verb `%g` of the package fmt.
  module _ (format_g : fl.F → Text) where
    -- The loop over the bounds and the line after it; `cum` is the count so far.
    pub bucket_lines : Text → List ℕ → ℕ → ℕ → List fl.F → Text
    unfolding count_at
    bucket_lines name counts i cum [] =
        bucket_line name (codes "+Inf") (u64 (cum + count_at counts i))
    bucket_lines name counts i cum (bound ∷ bounds) =
        let cum' = u64 (cum + count_at counts i) in
        bucket_line name (format_g bound) cum' ++ bucket_lines name counts (suc i) cum' bounds

    unfoldable pub render_histogram : Text → Histogram → Text
    unfolding bucket_lines type_line
    render_histogram name h =
        type_line name " histogram"
        ++ (bucket_lines name h.counts 0 0 h.bounds
            ++ (name
                ++ (codes "_sum "
                    ++ (format_g h.sum
                        ++ (newline
                            ++ (name ++ (codes "_count " ++ (format_uint h.total ++ newline))))))))

  -- `h, ok := r.hist[name]`, and a new histogram if there is none.
  pub histogram : Option Histogram → Histogram
  unfolding new_histogram
  histogram none = new_histogram
  histogram (some h) = h

  -- A gauge reads the state `S` of the program when it is rendered.
  pub record Registry (S : Type 0) : Type 0 where
    pub counters : List (Text × ℕ)
    pub gauges : List (Text × (S → fl.F))
    pub hist : List (Text × Histogram)

  module _ {S : Type 0} where
    unfoldable pub new_registry : Registry S
    new_registry = record { counters = []; gauges = []; hist = [] }

    -- `r.counter(name).Load()`
    pub counter : Registry S → Text → ℕ
    unfolding or_new
    counter r name = or_new (lookup name r.counters)

    pub add_count : Registry S → Text → ℕ → Registry S
    unfolding counter
    add_count r name n = record r { counters = insert name (u64 (counter r name + n)) r.counters }

    pub inc : Registry S → Text → Registry S
    unfolding add_count
    inc r name = add_count r name 1

    pub set_gauge : Registry S → Text → (S → fl.F) → Registry S
    set_gauge r name f = record r { gauges = insert name f r.gauges }

    pub observe : Registry S → Text → fl.F → Registry S
    unfolding observe_value histogram
    observe r name ms = record r {
      hist = insert name (observe_value (histogram (lookup name r.hist)) ms) r.hist;
    }

    module _ (sorting : Sorting Text) (format_g : fl.F → Text) where
      render_counters : Registry S → List Text → Text
      unfolding counter_text
      render_counters r [] = []
      render_counters r (name ∷ names) =
          counter_text name (counter r name) ++ render_counters r names

      -- The names come from the map, so the lookup finds the gauge.
      gauge_text : S → Text → Option (S → fl.F) → Text
      unfolding type_line
      gauge_text s name none = []
      gauge_text s name (some f) =
          type_line name " gauge" ++ (name ++ (b' ' ∷ format_g (f s) ++ newline))

      render_gauges : S → Registry S → List Text → Text
      unfolding gauge_text
      render_gauges s r [] = []
      render_gauges s r (name ∷ names) =
          gauge_text s name (lookup name r.gauges) ++ render_gauges s r names

      render_histograms : Registry S → List Text → Text
      unfolding render_histogram histogram
      render_histograms r [] = []
      render_histograms r (name ∷ names) =
          render_histogram format_g name (histogram (lookup name r.hist))
          ++ render_histograms r names

      pub render : S → Registry S → Text
      unfolding render_counters render_gauges render_histograms
      render s r =
          render_counters r (sorted_keys sorting r.counters)
          ++ (render_gauges s r (sorted_keys sorting r.gauges)
              ++ render_histograms r (sorted_keys sorting r.hist))
