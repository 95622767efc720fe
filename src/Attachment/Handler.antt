-- ===== src/Attachment/Handler.antt =====
-- internal/attachment/handler.go over any repository and any store of blobs. A multipart body is the
-- list of what `NextPart` gives, with what MaxBytesReader cuts off. Failures to encode an answer are left out.
pub mod Hidden
use task_api.Common.{
  ℕ, String, Bool, Option, none, some, List, [], ◌∷◌, ◌++◌, not, if◌then◌else◌, str_eq,
}
use task_api.Common.Failure.{Context, Result, ok, err, is, retry_after}
use task_api.Common.Log.{warn, error}
use task_api.Attachment.Entity.{
  Attachment, AttachmentError, not_found, task_not_found, already_exists, invalid_input,
  dependency_unavailable, unavailable, attachment_sentinels,
}
use task_api.Attachment.Repository.{Repository, BlobStore, Stream}
use task_api.Attachment.Service.{download, delete_attachment, list_by_task}
use task_api.Attachment.Upload
use task_api.Attachment.Upload.{upload}
use task_api.Web.{Op, set_header, write_header, write, log, Reply, Request, Handler}
use task_api.Web.Json.{json, retry_header, reply, answered}

-- The message of an error answer: a constant of the source, or the text of an error.
pub data Message : Type 0 where
  text : String → Message
  text_of : AttachmentError → Message

-- What is written as a body. `file_body` is what http.ServeContent makes of the time of creation and
-- the bytes, with the ranges and conditions of the request.
pub data Body : Type 0 where
  attachment_body : Attachment → Body
  attachments_body : List Attachment → Body
  file_body : ℕ → List ℕ → Body
  error_body : Message → Body

abbrev pub Ops : Type 0
Ops = List (Op Body)

-- `writeError`
unfoldable pub write_error : ℕ → Message → Ops
write_error status message = json status (error_body message)

abbrev internal_error : Ops
internal_error = write_error 500 (text "internal server error")

-- `handleServiceError`
unfoldable pub handle_service_error : AttachmentError → Ops
unfolding is retry_after write_error
handle_service_error e =
    if is e not_found
    then write_error 404 (text "attachment not found")
    else if is e task_not_found
    then write_error 404 (text "task not found")
    else if is e invalid_input
    then write_error 400 (text_of e)
    else if is e already_exists
    then log error "attachment identifier collision" ∷ internal_error
    else if is e dependency_unavailable
    then log error "dependency unavailable"
      ∷ write_error 503 (text "service temporarily unavailable, please retry")
    else if is e unavailable
    then log warn "attachment store circuit open, call rejected"
      ∷ (retry_header (retry_after e)
          ++ write_error 503 (text "attachment storage temporarily unavailable, please retry"))
    else log error "unexpected service error" ∷ internal_error

-- What `NextPart` gives: a part with its form name, its file name and its bytes, or an error. The
-- list ends where it gives io.EOF.
pub data Part : Type 0 where
  part : String → String → Stream → Part
  malformed : Part

abbrev pub file_form_field : String
file_form_field = "file"

module _ {St Bl : Type 0} (repo : Repository St) (blobs : BlobStore Bl) (ctx : Context) where
  -- `UserIDFromContext`, and 401 without one.
  abbrev pub as_user : (String → Handler Body (St × Bl)) → Handler Body (St × Bl)
  as_user handler r s = elim r.user_id [
    | none ↦ (reply (write_error 401 (text "unauthorized")), s)
    | some user_id ↦ handler user_id r s
  ]

  -- The loop over the parts, from what is left of them.
  unfoldable pub upload_part :
      Upload.Settings
      → ℕ
      → Option (ℕ → ℕ)
      → Option (ℕ → ℕ)
      → String
      → String
      → List Part
      → Handler Body (St × Bl)
  unfolding handle_service_error write_error
  upload_part settings now random random' task_id user_id [] r s =
      (reply (write_error 400 (text "multipart body must contain a \"file\" part")), s)
  upload_part settings now random random' task_id user_id (malformed ∷ parts) r s =
      (reply (write_error 400 (text "malformed multipart body")), s)
  upload_part settings now random random' task_id user_id (part name file stream ∷ parts) r s =
      let rest = upload_part settings now random random' task_id user_id parts r s in
      if not (str_eq name file_form_field)
      then rest
      else answered (λ att. json 201 (attachment_body att)) handle_service_error
          (upload settings repo blobs ctx now random random' user_id task_id file stream s)

  -- `upload`, with the path value; `none` for a body that is not multipart/form-data
  unfoldable pub handle_upload :
      Upload.Settings
      → ℕ
      → Option (ℕ → ℕ)
      → Option (ℕ → ℕ)
      → String
      → Option (List Part)
      → Handler Body (St × Bl)
  unfolding upload_part write_error
  handle_upload settings now random random' task_id none =
      as_user λ user_id r s.
        (reply (write_error 400 (text "request body must be multipart/form-data")), s)
  handle_upload settings now random random' task_id (some parts) =
      as_user λ user_id. upload_part settings now random random' task_id user_id parts

  -- `list`, with the path value
  unfoldable pub handle_list : String → Handler Body (St × Bl)
  unfolding handle_service_error write_error
  handle_list task_id = as_user λ user_id r s.
      answered (λ attachments. json 200 (attachments_body attachments)) handle_service_error
        (list_by_task repo blobs ctx user_id task_id s)

  -- `delete`, with the path value
  unfoldable pub handle_delete : String → Handler Body (St × Bl)
  unfolding handle_service_error write_error
  handle_delete key = as_user λ user_id r s.
      answered (λ _. write_header 204 ∷ []) handle_service_error
        (delete_attachment repo blobs ctx user_id key s)

  -- `mime.FormatMediaType` at the name of a file, "" if it has no such form
  abbrev pub disposition_of : (String → String) → String → String
  disposition_of format name = if str_eq (format name) "" then "attachment" else format name

  -- `download`, with the path value
  unfoldable pub handle_download : (String → String) → String → Handler Body (St × Bl)
  unfolding handle_service_error write_error
  handle_download format key = as_user λ user_id r s.
      answered
        (λ (att, blob).
          set_header "Content-Type" att.content_type
          ∷ set_header "Content-Disposition" (disposition_of format att.original_filename)
          ∷ write (file_body att.created_at blob)
          ∷ [])
        handle_service_error (download repo blobs ctx user_id key s)
