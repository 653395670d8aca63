-- ===== src/Worker/Anomaly.antt =====
-- internal/worker/anomalyworker.go: the worker that samples the errors of each service.
pub mod Alerts
pub mod Counts
use sentinellog.Prelude.{
  ℕ, ◌+◌, ◌≡◌, ◌↔◌, ℤ, pos, refl, subst, ==_refl, Bool, true, false, ◌&&◌, ◌||◌, Text, codes, List,
  [], ◌∷◌, Option, none, some, if◌then◌else◌, ◌==◌, text_eq, Comparable, get_last?, arith,
  text_beq_iff,
}
use sentinellog.Prelude.Float.{Float}
use sentinellog.Prelude.Map.{lookup, insert}
use sentinellog.Model.{Time, StoredEntry}
use sentinellog.Store.{MemStore, since}
use sentinellog.Anomaly.{Event, Detector, observe}
use sentinellog.Anomaly.Feed.{Feed, push}

pub record Key : Type 0 where
  pub tenant : Text
  pub service : Text

-- Go compares structs field by field.
abbrev pub key_beq : Key → Key → Bool
key_beq a b = (a.tenant == b.tenant) && (a.service == b.service)

key_ext : (a b : Key) → a.tenant ≡ b.tenant → a.service ≡ b.service → a ≡ b
key_ext a b p q = λ i. record { tenant = p i; service = q i }

pub key_beq_iff : (a b : Key) → (key_beq a b ≡ true) ↔ (a ≡ b)
key_beq_iff a b = (
  λ h.
      key_ext a b ((text_beq_iff a.tenant b.tenant).0 (ground arith))
        ((text_beq_iff a.service b.service).0 (ground arith)),
  λ e. subst (λ c. key_beq a c ≡ true) e (rw (==_refl a.tenant, ==_refl a.service) refl),
)

instance abbrev pub key_eq : Comparable Key
key_eq = record { agree = key_beq; agree_iff = key_beq_iff }

abbrev pub key_of : StoredEntry → Key
key_of e = record { tenant = e.entry.tenant_id; service = e.entry.service }

-- The test of the loop of `tick`.
abbrev pub is_failure : StoredEntry → Bool
is_failure e = (e.entry.level == codes "error") || (e.entry.level == codes "fatal")

module _ ⦃fl : Float⦄ where
  open fl use {F, of_nat, add}

  -- The maps `counts` and `seen` of `tick`.
  pub record Window : Type 0 where
    pub counts : List (Key × F)
    pub seen : List (Key × Bool)

  -- A missing count is 0.
  abbrev or_zero : Option F → F
  or_zero none = of_nat 0
  or_zero (some n) = n

  abbrev pub count_of : Key → Window → F
  count_of k w = or_zero (lookup k w.counts)

  -- One round of the loop over the entries.
  unfoldable pub count_entry : Window → StoredEntry → Window
  count_entry w e =
      let k = key_of e in
      record {
        counts =
            if is_failure e then insert k (add (count_of k w) (of_nat 1)) w.counts else w.counts;
        seen = insert k true w.seen;
      }

  unfoldable pub count_entries : Window → List StoredEntry → Window
  count_entries w [] = w
  count_entries w (e ∷ es) = count_entries (count_entry w e) es

  abbrev pub empty : Window
  empty = record { counts = []; seen = [] }

  -- What the loop does with the answer of `Observe`: the push, and the call of `onEvent`.
  note : Feed → Option Event → Feed
  note feed none = feed
  note feed (some event) = push feed event

  reported : ℕ → Option Event → ℕ
  reported calls none = calls
  reported calls (some event) = calls + 1

  -- The loop over the keys, with the reading of the clock of each round.
  unfoldable pub observe_keys :
      (Key → Time) → Window → List Key → Detector → Feed → ℕ → Detector × Feed × ℕ
  unfolding note reported
  observe_keys clock w [] det feed calls = (det, feed, calls)
  observe_keys clock w (k ∷ ks) det feed calls =
      let (det', event) =
        observe det k.tenant k.service (codes "error_volume") (count_of k w) (clock k) in
      observe_keys clock w ks det' (note feed event) (reported calls event)

  -- The detector and the feed that the source's record points to stand beside its checkpoint.
  pub record Sampler : Type 0 where
    pub det : Detector
    pub feed : Feed
    pub last_id : ℕ
    pub calls : ℕ  -- of `onEvent`

  last_or : ℕ → Option StoredEntry → ℕ
  last_or id none = id
  last_or id (some e) = e.id

  tick_entries :
      (List (Key × Bool) → List Key) → (Key → Time) → List StoredEntry → Sampler → Sampler
  unfolding last_or
  tick_entries order clock [] s = s
  tick_entries order clock (e ∷ es) s =
      let w = count_entries empty (e ∷ es) in
      let (det, feed, calls) = observe_keys clock w (order w.seen) s.det s.feed s.calls in
      record {
        det = det;
        feed = feed;
        last_id = last_or s.last_id (get_last? (e ∷ es));
        calls = calls;
      }

  -- `order` is the order in which `range` visits the keys of `seen`; `Since` never fails here.
  unfoldable pub tick : (List (Key × Bool) → List Key) → (Key → Time) → MemStore → Sampler → Sampler
  unfolding tick_entries
  tick order clock store s = tick_entries order clock (since store s.last_id (pos 100000)) s
