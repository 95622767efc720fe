-- ===== src/Attachment/Tests/Files.antt =====
-- The theorems on the files of attachments at inputs that meet their hypotheses.
use task_api.Common.{
  ℕ, String, ◌≡◌, refl, inl, inr, true, false, Option, none, some, List, [], ◌∷◌, length, arith,
  if◌then◌else◌, str_eq, str_eq_refl, str_eq_iff,
}
use task_api.Common.Dict.{lookup}
use task_api.Common.Failure.{ok, Context}
use task_api.Common.Uuid.{is_valid_id}
use task_api.Attachment.Entity.{Attachment}
use task_api.Attachment.Repository.{Stream, TaskOwnership}
use task_api.Attachment.Memory.{Store, memory_repository, create, find_key}
use task_api.Attachment.Upload.{Settings, store_attachment}
use task_api.Attachment.Upload.Rollback.{StoresBlobs}
use task_api.Attachment.Service.{download}
use task_api.Attachment.Service.Files.{ReadsBack, download-store_attachment}
use task_api.Attachment.Storage.{Disk, removed, fs_blob_store}
use task_api.Attachment.Storage.Leftovers.{IsDisk, IsKept}
use task_api.Attachment.Storage.Promise.{is_there, fs_blob_store-StoresBlobs}
use task_api.Attachment.Handler.{handle_download, handle_delete}
use task_api.Attachment.Handler.Hidden.{no_attachment, handle_download_hidden}
use task_api.Web.{Request}

-- A directory as a function from names to contents.
abbrev Files : Type 0
Files = String → Option (List ℕ)

abbrev with_file : String → Option (List ℕ) → Files → Files
with_file k content d j = if str_eq j k then content else d j

abbrev disk : Disk Files
disk = record {
  create = λ k d. (none, with_file k (some []) d);
  copy = λ k r d. ((length r.bytes, r.broken), with_file k (some r.bytes) d);
  close = λ k d. (none, d);
  read = λ k d. d k;
  resolve = λ k d. elim (d k) [ none ↦ none | some _ ↦ some k ];
  remove = λ path d. (removed, with_file path none d);
  read_dir = λ d. (none, []);
}

with_file_self : (k : String) (c : Option (List ℕ)) (d : Files) → with_file k c d k ≡ c
with_file_self k c d = ground (arith, str_eq_refl k)

removed_self :
    (k path : String) (d : Files) → disk.resolve k d ≡ some path → with_file path none d k ≡ none
removed_self k path d h = ground (arith, str_eq_iff k path)

disk-IsDisk : IsDisk disk (λ d k. d k)
disk-IsDisk = record {
  create_ok = λ k d h. with_file_self k (some []) d;
  create_err = λ k d e h. cc;
  copy_ok = λ k r d empty h. (with_file_self k (some r.bytes) d, refl);
  close_keeps = λ k d. refl;
  read_is = λ k d. refl;
  unresolved = λ k d h. ground arith;
  removes = λ k path d h. inl (removed_self k path d h);
}

fs_blob_store-StoresBlobs_example :
    StoresBlobs (fs_blob_store disk) (λ d k. is_there (d k))
    × ReadsBack (fs_blob_store disk)
    × ((c : Context) (k : String) (r : Stream) (n : ℕ) (d : Files)
        → IsKept disk (λ d k. d k) k r (d k) ((fs_blob_store disk).put c k r n d))
fs_blob_store-StoresBlobs_example = fs_blob_store-StoresBlobs disk-IsDisk

disk-ReadsBack : ReadsBack (fs_blob_store disk)
disk-ReadsBack = (fs_blob_store-StoresBlobs disk-IsDisk).1

abbrev photo : Attachment
photo = record {
  id = "a1";
  task_id = "t1";
  original_filename = "photo.png";
  storage_key = "abababab-abab-4bab-abab-abababababab";
  content_type = "image/png";
  size_bytes = 0;
  created_at = 5;
}

abbrev stored_photo : Attachment
stored_photo = record photo { size_bytes = 2 }

abbrev stream : Stream
stream = record { bytes = 137 ∷ 80 ∷ []; broken = none }

abbrev settings : Settings
settings = record {
  max_bytes = 100;
  max_bytes_per_user = 1000;
  detect = λ head. "image/png";
  plain_text = λ s. s;
  lower = λ c. c;
}

-- Only Ann owns tasks.
abbrev owns_task : TaskOwnership
owns_task c task_id user_id = ok (str_eq user_id "ann")

abbrev no_files : Files
no_files k = none

key_valid : is_valid_id photo.storage_key ≡ true
unfolding is_valid_id
key_valid = refl

photo_stored :
    (store_attachment settings
      (memory_repository owns_task)
      (fs_blob_store disk)
      none
      "ann"
      stream
      photo
      ([], no_files)).0
    ≡ ok stored_photo
unfolding store_attachment memory_repository fs_blob_store create str_eq lookup
photo_stored = refl

download-store_attachment_example :
    let after =
      (store_attachment settings
        (memory_repository owns_task)
        (fs_blob_store disk)
        none
        "ann"
        stream
        photo
        ([], no_files)).1 in
    download (memory_repository owns_task) (fs_blob_store disk) none "ann" photo.storage_key after
    ≡ (ok (stored_photo, stream.bytes), after)
download-store_attachment_example =
    download-store_attachment (fs_blob_store disk) settings owns_task disk-ReadsBack "ann" stream
      photo stored_photo [] no_files key_valid photo_stored

abbrev request : Request
request = record {
  method = "GET";
  path = "/v1/files/k";
  header = λ name. "";
  request_id = none;
  real_ip = none;
  user_id = some "bob";
  session_token = none;
}

abbrev rows : Store
rows = ("a1", stored_photo) ∷ []

photo_there : find_key stored_photo.storage_key rows ≡ some ("a1", stored_photo)
unfolding find_key str_eq
photo_there = refl

not_owner : owns_task none "t1" "bob" ≡ ok false
unfolding str_eq
not_owner = refl

handle_download_hidden_example :
    (handle_download
        (memory_repository owns_task)
        (fs_blob_store disk)
        none
        (λ name. "")
        stored_photo.storage_key
        request
        (rows, no_files)
      ≡ (no_attachment, (rows, no_files)))
    × (handle_delete
          (memory_repository owns_task)
          (fs_blob_store disk)
          none
          stored_photo.storage_key
          request
          (rows, no_files)
        ≡ (no_attachment, (rows, no_files)))
handle_download_hidden_example =
    handle_download_hidden (fs_blob_store disk) owns_task (λ name. "") stored_photo.storage_key
      "bob" request rows no_files refl (inr (("a1", stored_photo), photo_there, not_owner))
