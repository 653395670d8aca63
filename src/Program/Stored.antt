-- ===== src/Program/Stored.antt =====
-- The store of the program, which is what the writer has handed over.
use mathlib.Core.List.{flatten}
use sentinellog.Prelude.{
  ℕ, zero, suc, ◌^◌, ◌<◌, ◌≤◌, ◌≡◌, refl, sym, ap, subst, ◌∙◌, true, List, [], ◌∷◌, ◌++◌, foldl,
  map, filter_of_All, All, All-append, take, length, length-append, length-map, arith,
}
use sentinellog.Prelude.Strings.{Runtime}
use sentinellog.Prelude.Float.{Float}
use sentinellog.Model.{LogEntry, StoredEntry, content_hash}
use sentinellog.Store.{MemStore, new_mem, write_batch}
use sentinellog.Store.Writes.{IsValid, new_mem-IsValid, stored_entry}
use sentinellog.Store.Batches.{
  Extends, batches-Extends, batches-contents, batches-IsValid, foldl-append,
}
use sentinellog.Writer.Batches.{IsBatch, is_redacted}
use sentinellog.Writer.Machine.{System}
use sentinellog.Writer.Machine.Growth.{Grown}
use sentinellog.Writer.Machine.Invariant.{Inv}
use sentinellog.Worker.Embed.{EmbedWorker, has_seen}
use sentinellog.Worker.Embed.Checkpoint.{Covers}
use sentinellog.Program.{store_of}

take-append_left :
    {A : Type 0} (n : ℕ) (xs ys : List A) → n ≤ length xs → take n (xs ++ ys) ≡ take n xs
take-append_left zero xs ys h = refl
take-append_left (suc n) [] ys h = absurd (omega (arith, h))
take-append_left (suc n) (x ∷ xs) ys h = ap (◌∷◌ x) (take-append_left n xs ys (omega (arith, h)))

abbrev pub Clean : LogEntry → Type 0
Clean e = e.redacted ≡ true

flatten-Clean :
    (size : ℕ) (bs : List (List LogEntry)) → All (IsBatch size) bs → All Clean (flatten bs)
unfolding flatten
flatten-Clean size [] h = tt
flatten-Clean size (b ∷ bs) h =
    All-append Clean b (flatten bs) h.0.clean (flatten-Clean size bs h.1)

module _ ⦃rt : Runtime⦄ where
  pub Covers-Extends : (s t : MemStore) (w : EmbedWorker) → Extends s t → Covers s w → Covers t w
  Covers-Extends s t w (more, e) c =
      let longer = ap length e ∙ length-append s.entries more in
      record {
        inside = omega (arith, longer, c.inside);
        done =
            subst (All (λ (x : StoredEntry). has_seen w (content_hash x.entry) ≡ true))
              (sym (ap (take w.last_id) e ∙ take-append_left w.last_id s.entries more c.inside))
              c.done;
      }

module _ ⦃fl : Float⦄ where
  pub store_of-Extends : (s t : System) → Grown s t → Extends (store_of s) (store_of t)
  unfolding store_of
  store_of-Extends s t g =
      subst (Extends (store_of s))
        (sym
          (ap (foldl write_batch new_mem) g.handed ∙ foldl-append new_mem s.writer.flushed g.extra))
        (batches-Extends (store_of s) g.extra)

  -- The store holds the entries of the batches, in order.
  pub store_of-contents :
      {n : ℕ} (s : System)
      → Inv n s
      → map stored_entry (store_of s).entries ≡ flatten s.writer.flushed
  unfolding store_of new_mem
  store_of-contents {n} s v =
      batches-contents new_mem s.writer.flushed
      ∙ filter_of_All is_redacted (flatten s.writer.flushed)
          (flatten-Clean (suc n) s.writer.flushed v.writer.batches)

  pub store_of-IsValid :
      {n : ℕ} (s : System) → Inv n s → length (store_of s).entries < 2 ^ 64 → IsValid (store_of s)
  unfolding store_of new_mem
  store_of-IsValid s v room = batches-IsValid new_mem s.writer.flushed new_mem-IsValid (
      omega
        (arith, ap length (store_of-contents s v), length-map stored_entry (store_of s).entries))
