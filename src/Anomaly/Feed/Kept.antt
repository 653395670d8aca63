-- ===== src/Anomaly/Feed/Kept.antt =====
-- What a push keeps of the feed.
use sentinellog.Prelude.{
  ℕ, zero, suc, List, [], ◌∷◌, inl, inr, ltb, length, drop, All, All-append, Bool-cases,
}
use sentinellog.Prelude.Float.{Float}
use sentinellog.Anomaly.{Event}
use sentinellog.Anomaly.Feed.{Feed, push, trim}

All-drop {ℓ κ} : {A : Type ℓ} (P : A → Type κ) (n : ℕ) (xs : List A) → All P xs → All P (drop n xs)
All-drop P zero xs h = h
All-drop P (suc n) [] h = tt
All-drop P (suc n) (x ∷ xs) h = All-drop P n xs h.1

module _ ⦃fl : Float⦄ (P : Event → Type 0) where
  trim-All : (cap : ℕ) (events : List Event) → All P events → All P (trim cap events)
  unfolding trim
  trim-All cap events h = elim (Bool-cases (ltb cap (length events))) [
    | inl over ↦ simp over (All-drop P _ events h)
    | inr under ↦ simp under h
  ]

  -- What holds of the events of a feed and of a pushed event holds of the events after the push.
  pub push-All : (f : Feed) (e : Event) → All P f.events → P e → All P (push f e).events
  unfolding push
  push-All f e old new = trim-All f.cap _ (All-append P f.events _ old (new, tt))
