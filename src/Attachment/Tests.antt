-- ===== src/Attachment/Tests.antt =====
-- Runs of internal/attachment on concrete data, and the theorems at inputs that meet their hypotheses.
mod Files
use task_api.Common.{
  ℕ, if◌then◌else◌, some, ◌⊎◌, str_eq_refl, ◌≡◌, length, refl, ◌≢◌, inl, Bool, true, false, none,
  List, [], ◌∷◌, String, str_eq, str_eq_iff, any, arith, not, select,
}
use task_api.Common.Dict.{values, lookup}
use task_api.Common.Failure.{ok, err, sentinel}
use task_api.Attachment.Entity.{AttachmentError, Attachment, BlobRef, not_found}
use task_api.Attachment.Repository.{Stream, BlobStore, TaskOwnership}
use task_api.Attachment.Memory.{
  Store, memory_repository, has_key, create, find_by_storage_key, delete,
}
use task_api.Attachment.Memory.Ownership.{find_by_storage_key-create}
use task_api.Attachment.Upload.{Settings, store_attachment}
use task_api.Attachment.Upload.Rollback.{StoresBlobs, store_attachment_lem}
use task_api.Attachment.Collector.{collect_orphans}
use task_api.Attachment.Collector.Safety.{TouchesOnly, collect_orphans_keeps}

abbrev report : Attachment
report = record {
  id = "a1";
  task_id = "t1";
  original_filename = "report.pdf";
  storage_key = "k1";
  content_type = "application/pdf";
  size_bytes = 10;
  created_at = 5;
}

abbrev store : Store
store = ("a1", report) ∷ []

-- Only Ann owns tasks.
abbrev owns_task : TaskOwnership
owns_task c task_id user_id = ok (str_eq user_id "ann")

created : (create owns_task none report "ann" []).0 ≡ ok tt
unfolding create lookup str_eq
created = refl

not_owner : owns_task none "t1" "bob" ≡ ok false
unfolding str_eq
not_owner = refl

-- A store of blobs as the list of their names and times.
keep_others : String → List BlobRef → List BlobRef
keep_others k bs = select (λ ref. not (str_eq ref.key k)) bs

holds : List BlobRef → String → Bool
holds bs j = any (λ ref. str_eq ref.key j) bs

abbrev list_blobs : BlobStore (List BlobRef)
list_blobs = record {
  open_blob = λ c k bs. if holds bs k then (ok [], bs) else (err (sentinel not_found), bs);
  put = λ c k stream limit bs. (ok (length stream.bytes), record { key = k; mod_time = 0 } ∷ bs);
  list = λ c bs. (ok bs, bs);
  delete = λ c k bs. (ok tt, keep_others k bs);
}

holds-keep_others :
    (k j : String) (bs : List BlobRef) → j ≢ k → holds (keep_others k bs) j ≡ holds bs j
unfolding holds keep_others
holds-keep_others k j [] h = refl
holds-keep_others k j (ref ∷ bs) h =
    ground (arith, str_eq_iff ref.key k, str_eq_iff ref.key j, holds-keep_others k j bs)

list_blobs-TouchesOnly : TouchesOnly list_blobs holds
list_blobs-TouchesOnly = (λ c k j b h. holds-keep_others k j b h, λ c j b. refl)

abbrev blobs : List BlobRef
blobs = record { key = "k1"; mod_time = 5 } ∷ record { key = "k2"; mod_time = 6 } ∷ []

referred : any (has_key "k1") (values store) ≡ true
unfolding str_eq
referred = refl

collect_orphans_keeps_example :
    let (s', b') =
      (collect_orphans (memory_repository owns_task) list_blobs none 100 10 (store, blobs)).1 in
    (holds b' "k1" ≡ holds blobs "k1") × (s' ≡ store)
collect_orphans_keeps_example =
    collect_orphans_keeps list_blobs holds owns_task list_blobs-TouchesOnly none 100 10 store blobs
      blobs "k1" refl (inl referred)

holds-deleted : (k : String) (bs : List BlobRef) → holds (keep_others k bs) k ≡ false
unfolding holds keep_others
holds-deleted k [] = refl
holds-deleted k (ref ∷ bs) = ground (arith, holds-deleted k bs)

holds-written :
    (k : String) (bs : List BlobRef) → holds (record { key = k; mod_time = 0 } ∷ bs) k ≡ true
unfolding holds
holds-written k bs = ground (arith, str_eq_refl k)

list_blobs-StoresBlobs : StoresBlobs list_blobs holds
list_blobs-StoresBlobs = record {
  put_ok = λ c k r n size b h. holds-written k b;
  delete_gone = λ c k b h. holds-deleted k b;
}

abbrev settings : Settings
settings = record {
  max_bytes = 100;
  max_bytes_per_user = 1000;
  detect = λ head. "application/pdf";
  plain_text = λ s. s;
  lower = λ c. c;
}

abbrev stream : Stream
stream = record { bytes = 37 ∷ 80 ∷ []; broken = none }

store_attachment_lem_example :
    let (r, (s', b')) =
      store_attachment settings
        (memory_repository owns_task)
        list_blobs
        none
        "ann"
        stream
        report
        ([], []) in
    let (written, after) = list_blobs.put none report.storage_key stream 100 [] in
    let (undone, restored) = list_blobs.delete none report.storage_key after in
    ((stored : Attachment) × (r ≡ ok stored)
      × (stored.storage_key ≡ report.storage_key)
      × (owns_task none report.task_id "ann" ≡ ok true)
      × (any (has_key report.storage_key) (values {V = Attachment} []) ≡ false)
      × (lookup report.id s' ≡ some stored)
      × (holds b' report.storage_key ≡ true))
    ⊎ ((e : AttachmentError) × (r ≡ err e)
        × (s' ≡ [])
        × (((x : AttachmentError) × (written ≡ err x) × (b' ≡ after))
            ⊎ ((x : AttachmentError) × (size : ℕ) × (written ≡ ok size)
                × ((create owns_task none (record report { size_bytes = size }) "ann" []).0 ≡ err x)
                × (b' ≡ restored)
                × ((holds b' report.storage_key ≡ false)
                    ⊎ ((y : AttachmentError) × (undone ≡ err y))))))
store_attachment_lem_example =
    store_attachment_lem list_blobs holds settings owns_task list_blobs-StoresBlobs none "ann"
      stream report [] []
