-- ===== src/Attachment/Upload.antt =====
-- internal/attachment/service.go: Upload, over any repository and any store of blobs. The limits, the
-- clock, the bytes of the random source, `http.DetectContentType`, and the sanitize library's
-- PlainText are arguments.
pub mod Rollback
use Prim.Native.Char.{Char, code}
use Prim.Native.String.{String, [] as empty, ◌∷◌ as chars, count}
use task_api.Common.{
  ℕ, Bool, true, false, not, ◌||◌, Option, none, some, List, [], ◌∷◌, any, take, length, ltb, leb,
  ◌==◌, if◌then◌else◌, str_eq,
}
use task_api.Common.Text.{trim_space, to_lower}
use task_api.Common.Uuid.{is_valid_id, new_id}
use task_api.Common.Failure.{
  Action, Context, ok, err, sentinel, wrapped, foreign, entropy, is, pure, fail, wrap, lift,
  fail_if, ◌>>=◌, ◌>>◌,
}
use task_api.Attachment.Entity.{
  Attachment, AttachmentResult, Sentinel, task_not_found, invalid_input, too_large,
  attachment_sentinels,
}
use task_api.Attachment.Repository.{Repository, BlobStore, RepoAction, Stream, rows}

abbrev pub max_original_filename_len : ℕ
max_original_filename_len = 255

abbrev pub max_attachments_per_task : ℕ
max_attachments_per_task = 50

abbrev pub sniff_len : ℕ
sniff_len = 512

abbrev pub allowed_content_types : List String
allowed_content_types =
    "image/jpeg" ∷ "image/png" ∷ "image/gif" ∷ "image/webp" ∷ "application/pdf" ∷ "text/plain" ∷ []

pub record Settings : Type 0 where
  pub max_bytes : ℕ
  pub max_bytes_per_user : ℕ
  pub detect : List ℕ → String
  pub plain_text : String → String
  pub lower : Char → Char

abbrev pub is_separator : Char → Bool
is_separator c = code c == b'/' || code c == 92

unfoldable pub has_separator : String → Bool
has_separator empty = false
has_separator (chars c s) = is_separator c || has_separator s

-- The part after the last separator.
unfoldable pub last_component : String → String
last_component empty = empty
last_component (chars c s) =
    let rest = last_component s in
    if has_separator s then rest else if is_separator c then s else chars c s

-- `filepath.Base` of a name without separators.
abbrev pub base : String → String
base name = if str_eq name "" then "." else name

unfoldable pub normalize_filename : Settings → String → AttachmentResult String
unfolding last_component has_separator
normalize_filename settings declared =
    let name = settings.plain_text (base (last_component declared)) in
    if str_eq name "" || str_eq name "." || str_eq name ".." || str_eq name "/"
    then err (wrapped (sentinel invalid_input))
    else if ltb max_original_filename_len (count name)
    then err (wrapped (sentinel invalid_input))
    else ok name

-- The text before the first semicolon.
unfoldable pub before_semicolon : String → String
before_semicolon empty = empty
before_semicolon (chars c s) = if code c == b';' then empty else chars c (before_semicolon s)

unfoldable pub detect_content_type : Settings → List ℕ → String
unfolding before_semicolon
detect_content_type settings head =
    trim_space (to_lower settings.lower (before_semicolon (settings.detect head)))

-- `io.ReadFull` of the first bytes.
unfoldable pub read_head : Stream → AttachmentResult (List ℕ)
read_head stream =
    let head = take sniff_len stream.bytes in
    if ltb (length stream.bytes) sniff_len
    then elim stream.broken [ none ↦ ok head | some e ↦ err (wrapped (foreign e)) ]
    else ok head

module _ {St Bl : Type 0} (settings : Settings) (repo : Repository St) (blobs : BlobStore Bl) where
  -- From the write of the bytes on.
  unfoldable pub store_attachment :
      Context → String → Stream → Attachment → RepoAction (St × Bl) Attachment
  store_attachment ctx user_id stream a (s, b) =
      let (written, c) = blobs.put ctx a.storage_key stream settings.max_bytes b in
      elim written [
        | err e ↦ (
          if is e too_large then err (wrapped (sentinel invalid_input)) else err (wrapped e),
          (s, c),
        )
        | ok size ↦
            let stored : Attachment = record a { size_bytes = size } in
            let (r, t) = repo.create ctx stored user_id s in
            elim r [
              | err e ↦ (err (wrapped e), (t, (blobs.delete ctx a.storage_key c).1))
              | ok _ ↦ (ok stored, (t, c))
            ]
      ]

  unfoldable pub upload :
      Context
      → ℕ
      → Option (ℕ → ℕ)
      → Option (ℕ → ℕ)
      → String
      → String
      → String
      → Stream
      → RepoAction (St × Bl) Attachment
  unfolding store_attachment normalize_filename detect_content_type read_head
  upload ctx now random random' user_id task_id declared stream = do
    fail_if (not (is_valid_id task_id)) (sentinel task_not_found)
    total ← wrap (rows (repo.total_bytes_for_user ctx user_id))
    fail_if (leb settings.max_bytes_per_user total) (wrapped (sentinel invalid_input))
    n ← wrap (rows (repo.count_by_task ctx task_id user_id))
    fail_if (leb max_attachments_per_task n) (wrapped (sentinel invalid_input))
    filename ← lift (normalize_filename settings declared)
    head ← lift (read_head stream)
    let content_type = detect_content_type settings head
    fail_if (not (any (str_eq content_type) allowed_content_types))
        (wrapped (sentinel invalid_input))
    id ← elim (new_id random) [
      | none ↦ fail (wrapped (wrapped (foreign entropy)))
      | some id ↦ pure id
    ]
    storage_key ← elim (new_id random') [
      | none ↦ fail (wrapped (wrapped (foreign entropy)))
      | some key ↦ pure key
    ]
    store_attachment ctx user_id stream (record {
      id = id;
      task_id = task_id;
      original_filename = filename;
      storage_key = storage_key;
      content_type = content_type;
      size_bytes = 0;
      created_at = now;
    })
