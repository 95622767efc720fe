-- ===== src/Attachment/Collector/Safety.antt =====
-- internal/attachment/service.go: what CollectOrphans leaves alone.
use task_api.Common.{
  ℕ, ◌+◌, ◌-◌, ◌≤◌, String, ◌≡◌, refl, ◌≢◌, ◌⊎◌, inl, inr, Bool, true, none, some, List, [], ◌∷◌,
  arith, In, In-select→, All, any, not, select,
}
use task_api.Common.Dict.{values}
use task_api.Common.Failure.{Context, Result-cases, ok}
use task_api.Attachment.Entity.{BlobRef}
use task_api.Attachment.Repository.{BlobStore, TaskOwnership}
use task_api.Attachment.Memory.{Store, memory_repository, has_key, unreferenced_keys}
use task_api.Attachment.Collector.{candidates, delete_orphans, collect_orphans}

-- No blob of that name is older than the cutoff.
abbrev pub IsYoung : String → ℕ → List BlobRef → Type 0
IsYoung j cutoff refs = All (λ ref. (ref.key ≢ j) ⊎ (cutoff ≤ ref.mod_time)) refs

young_candidate :
    (j : String) (cutoff : ℕ) (refs : List BlobRef)
    → IsYoung j cutoff refs
    → In j (candidates cutoff refs)
    → ⊥
unfolding candidates
young_candidate j cutoff [] h i = i
young_candidate j cutoff (ref ∷ refs) (h, hs) i = ground (arith, young_candidate j cutoff refs hs)

module _ {Bl : Type 0} (blobs : BlobStore Bl) (present : Bl → String → Bool) where
  -- A deletion touches no other blob, and a listing none.
  abbrev pub TouchesOnly : Type 0
  TouchesOnly =
      ((c : Context) (k j : String) (b : Bl)
        → j ≢ k
        → present (blobs.delete c k b).1 j ≡ present b j)
      × ((c : Context) (j : String) (b : Bl) → present (blobs.list c b).1 j ≡ present b j)

  module _ (owns_task : TaskOwnership) (law : TouchesOnly) where
    delete_orphans_keeps :
        (c : Context) (n : ℕ) (keys : List String) (b : Bl) (j : String)
        → ¬ In j keys
        → present (delete_orphans blobs c n keys b).1 j ≡ present b j
    unfolding delete_orphans
    delete_orphans_keeps c n [] b j h = refl
    delete_orphans_keeps c n (k ∷ keys) b j h =
        let one = law.0 c k j b (λ e. h (inl e)) in
        let rest = delete_orphans_keeps c (n + 1) keys (blobs.delete c k b).1 j (λ i. h (inr i)) in
        elim (Result-cases (blobs.delete c k b).0) [
          | inl (_, e) ↦ ground (arith, one, rest)
          | inr (x, e) ↦ ground (arith, one)
        ]

    not_orphan :
        (s : Store) (j : String) (cutoff : ℕ) (refs : List BlobRef)
        → (any (has_key j) (values s) ≡ true) ⊎ IsYoung j cutoff refs
        → ¬ In j (select (λ key. not (any (has_key key) (values s))) (candidates cutoff refs))
    not_orphan s j cutoff refs (inl row) i =
        ground (
          arith,
          In-select→ (λ key. not (any (has_key key) (values s))) j (candidates cutoff refs) i,
        )
    not_orphan s j cutoff refs (inr young) i =
        young_candidate j cutoff refs young
          (In-select→ (λ key. not (any (has_key key) (values s))) j (candidates cutoff refs) i).0

    -- Over the in-memory repository, and a store of blobs where a deletion touches no other blob and
    -- a listing touches none: the collector never removes a blob that a row refers to, nor one that
    -- the listing shows as younger than the age that was asked for, whatever it answers, and it
    -- changes no row.
    pub collect_orphans_keeps :
        (c : Context) (now min_age : ℕ) (s : Store) (b : Bl) (refs : List BlobRef) (j : String)
        → (blobs.list c b).0 ≡ ok refs
        → (any (has_key j) (values s) ≡ true) ⊎ IsYoung j (now - min_age) refs
        → let (s', b') =
            (collect_orphans (memory_repository owns_task) blobs c now min_age (s, b)).1 in
          (present b' j ≡ present b j) × (s' ≡ s)
    unfolding collect_orphans memory_repository unreferenced_keys
    collect_orphans_keeps none now min_age s b refs j listed safe =
        let old = candidates (now - min_age) refs in
        let orphans = select (λ key. not (any (has_key key) (values s))) old in
        ground (
          arith,
          law.1 none j b,
          delete_orphans_keeps none 0 orphans (blobs.list none b).1 j
              (not_orphan s j (now - min_age) refs safe),
        )
    collect_orphans_keeps (some e) now min_age s b refs j listed safe =
        ground (arith, law.1 (some e) j b)
