-- ===== src/Tests/Stores.antt =====
-- The store, the roles and the numbers of references.
use sentinellog.Prelude.{
  ◌≡◌, ◌↔◌, refl, pos, codes, Mem, List, [], ◌∷◌, ◌++◌, map, filter, reverse, take, true, some,
  if◌then◌else◌, ◌==◌, text_eq, text_beq,
}
use sentinellog.Model.{LogEntry, StoredEntry}
use sentinellog.Store.{Query, MemStore, new_mem, write_batch, search, matches, since, get, limit_or}
use sentinellog.Store.Writes.{IsValid, write_batch-contents, stored_entry, is_redacted}
use sentinellog.Store.Search.{search_noninterference, search-eq, matches_iff, Satisfies, accepted}
use sentinellog.Store.Since.{since-eq, newer}
use sentinellog.Store.Get.{get_iff}
use sentinellog.Tests.Fixtures.{plain_runtime, tenant_a, failed, foreign, raw}

abbrev batch : List LogEntry
batch = failed ∷ raw ∷ foreign ∷ []

-- A store with an entry of each tenant; the raw one was skipped.
abbrev two : MemStore
two = record {
  entries = record { id = 1; entry = failed } ∷ record { id = 2; entry = foreign } ∷ [];
  next_id = 2;
  written = 2;
}

abbrev one : MemStore
one = record { entries = record { id = 1; entry = failed } ∷ []; next_id = 1; written = 1 }

two_written : write_batch new_mem batch ≡ two
unfolding write_batch new_mem
two_written = refl

two-IsValid : IsValid two
two-IsValid = record {
  dense = (refl, (refl, tt));
  counted = refl;
  written_all = refl;
  redacted_all = (refl, (refl, tt));
}

abbrev query_a : Query
query_a = record {
  tenant_id = tenant_a;
  service = [];
  level = [];
  contains = codes "CARD";
  since = 0;
  until = 0;
  limit = pos 0;
}

search_noninterference_example : search two query_a ≡ search one query_a
unfolding text_beq
search_noninterference_example = search_noninterference two one query_a refl

search_example : search two query_a ≡ (
    if query_a.tenant_id == codes ""
    then []
    else take (limit_or 100 (pos 0)) (accepted query_a (reverse two.entries)))
search_example = search-eq two query_a

matches_example :
    (matches (record { id = 1; entry = failed }) query_a ≡ true)
    ↔ Satisfies (record { id = 1; entry = failed }) query_a
matches_example = matches_iff (record { id = 1; entry = failed }) query_a

write_batch-contents_example :
    map stored_entry (write_batch one batch).entries
    ≡ map stored_entry one.entries ++ filter is_redacted batch
write_batch-contents_example = write_batch-contents one batch

since_example : since two 1 (pos 10) ≡ take (limit_or 500 (pos 10)) (filter (newer 1) two.entries)
since_example = since-eq two 1 (pos 10) two-IsValid

abbrev one_entry : StoredEntry
one_entry = record { id = 1; entry = failed }

get_example :
    (get two tenant_a 1 ≡ some one_entry)
    ↔ (Mem one_entry two.entries × (one_entry.id ≡ 1) × (one_entry.tenant_id ≡ tenant_a))
get_example = get_iff two tenant_a 1 one_entry two-IsValid
