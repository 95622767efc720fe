-- ===== src/Attachment/Storage/Leftovers.antt =====
-- internal/attachment/storage.go: what is supposed of the directory, and what a removal leaves.
use task_api.Common.{
  ℕ, String, ◌≡◌, ◌⊎◌, refl, inl, inr, Option, none, some, List, [], length, Option-cases, ap,
  subst,
}
use task_api.Common.Failure.{Foreign, ok, err, foreign}
use task_api.Attachment.Entity.{AttachmentResult}
use task_api.Attachment.Repository.{Stream}
use task_api.Attachment.Storage.{
  Disk, Removal, removed, not_there, refused, removal, remove, cleanup,
}

-- What the directory does with the file of a name, as `content` sees it: a file that was opened is
-- empty, a copy that succeeds has written all that its reader gives, and a file whose removal is not
-- refused is gone.
pub record IsDisk {D : Type 0} (disk : Disk D) (content : D → String → Option (List ℕ))
    : Type 0 where
  pub create_ok :
      (k : String) (d : D) → (disk.create k d).0 ≡ none → content (disk.create k d).1 k ≡ some []
  pub create_err :
      (k : String) (d : D) (e : Foreign)
      → (disk.create k d).0 ≡ some e
      → content (disk.create k d).1 k ≡ content d k
  pub copy_ok :
      (k : String) (r : Stream) (d : D)
      → content d k ≡ some []
      → (disk.copy k r d).0.1 ≡ none
      → (content (disk.copy k r d).1 k ≡ some r.bytes) × ((disk.copy k r d).0.0 ≡ length r.bytes)
  pub close_keeps : (k : String) (d : D) → content (disk.close k d).1 k ≡ content d k
  pub read_is : (k : String) (d : D) → disk.read k d ≡ content d k
  pub unresolved : (k : String) (d : D) → disk.resolve k d ≡ none → content d k ≡ none
  pub removes :
      (k path : String) (d : D)
      → disk.resolve k d ≡ some path
      → (content (disk.remove path d).1 k ≡ none)
        ⊎ ((e : Foreign) × ((disk.remove path d).0 ≡ refused e))

module _ {D : Type 0} (disk : Disk D) (content : D → String → Option (List ℕ)) where
  -- The directory is as a removal of the file left it that os.Remove refused.
  abbrev pub IsRefused : String → D → Type 0
  IsRefused k after =
      (path : String) × (e : Foreign) × (d : D) × (disk.resolve k d ≡ some path)
      × (disk.remove path d ≡ (refused e, after))

  -- What `Put` leaves under its key: after a success, the bytes; after an error, nothing, or what was
  -- there before, or what a refused removal has left.
  abbrev pub IsKept : String → Stream → Option (List ℕ) → AttachmentResult ℕ × D → Type 0
  IsKept k r before (ok n, d) = content d k ≡ some r.bytes
  IsKept k r before (err e, d) = (content d k ≡ none) ⊎ (content d k ≡ before) ⊎ IsRefused k d

module _ {D : Type 0} {disk : Disk D} {content : D → String → Option (List ℕ)}
    (law : IsDisk disk content) where
  removal_state : (x : Removal × D) → (removal disk x).1 ≡ x.1
  removal_state (removed, d) = refl
  removal_state (not_there, d) = refl
  removal_state (refused e, d) = refl

  removal_of :
      (k path : String) (d : D)
      → disk.resolve k d ≡ some path
      → (x : Removal × D) → disk.remove path d ≡ x
      → (content (removal disk x).1 k ≡ none)
        ⊎ (IsRefused disk content k (removal disk x).1
            × ((e : Foreign) × ((removal disk x).0 ≡ err (foreign e))))
  removal_of k path d h (removed, d') e = elim (law.removes k path d h) [
    | inl gone ↦ inl (subst (λ (o : Removal × D). content o.1 k ≡ none) e gone)
    | inr (f, bad) ↦ absurd (cc (bad, ap (λ o. o.0) e))
  ]
  removal_of k path d h (not_there, d') e = elim (law.removes k path d h) [
    | inl gone ↦ inl (subst (λ (o : Removal × D). content o.1 k ≡ none) e gone)
    | inr (f, bad) ↦ absurd (cc (bad, ap (λ o. o.0) e))
  ]
  removal_of k path d h (refused x, d') e = inr ((path, x, d, h, e), (x, refl))

  pub remove_outcome :
      (k : String) (d : D)
      → (content (remove disk k d).1 k ≡ none)
        ⊎ (IsRefused disk content k (remove disk k d).1
            × ((e : Foreign) × ((remove disk k d).0 ≡ err (foreign e))))
  unfolding remove
  remove_outcome k d = elim (Option-cases (disk.resolve k d)) [
    | inl e ↦ rw e (inl (law.unresolved k d e))
    | inr (path, e) ↦ rw e (removal_of k path d e (disk.remove path d) refl)
  ]

  pub remove_gone :
      (k : String) (d : D)
      → (content (remove disk k d).1 k ≡ none) ⊎ IsRefused disk content k (remove disk k d).1
  remove_gone k d = elim (remove_outcome k d) [ inl gone ↦ inl gone | inr (bad, f) ↦ inr bad ]

  pub cleanup_gone :
      (k : String) (d : D)
      → (content (cleanup disk k d) k ≡ none) ⊎ IsRefused disk content k (cleanup disk k d)
  unfolding cleanup
  cleanup_gone k d = remove_gone k (disk.close k d).1
