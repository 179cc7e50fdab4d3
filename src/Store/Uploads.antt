-- ===== src/Store/Uploads.antt =====
-- internal/store/uploads.go: the resolvers of the uploads that a send names, and what the send makes of
-- their rows. A resolver says none for an upload that it does not find.
use catenary.Prelude.{
  ℕ, suc, Bool, true, false, not, ◌&&◌, Option, none, some, List, [], ◌∷◌, ◌==◌, is_some, keep, has,
  if◌then◌else◌,
}
use catenary.Store.Tables.{Uuid, Time}
use catenary.Store.Log.{Kind, voice, image, link, is_same_kind, UploadRow, AttachmentRow}

pub record NewAttachment : Type 0 where
  pub kind : Kind
  pub upload_id : Uuid

-- UploadResolver: the clock, the uploader, what is wanted, and the table.
abbrev pub Resolver : Type 0
Resolver =
    Time → Uuid → List NewAttachment → List UploadRow → Option (List AttachmentRow × List UploadRow)

-- RefuseUploads.
unfoldable pub refuse_uploads : Resolver
refuse_uploads now uploader want uploads = none

abbrev pub upload_ids : List NewAttachment → List Uuid
upload_ids [] = []
upload_ids (w ∷ ws) = w.upload_id ∷ upload_ids ws

-- The columns that its kind needs are there.
unfoldable pub is_ready : UploadRow → Bool
is_ready u = elim u.kind [
  | voice ↦ is_some u.peaks && is_some u.duration_ms
  | image ↦ is_some u.width && is_some u.height && is_some u.filename
  | link ↦ is_some u.link_url
]

-- The rows that PostgresUploads consumes.
unfoldable pub is_wanted : Uuid → List Uuid → UploadRow → Bool
unfolding is_ready
is_wanted uploader wanted u =
    has u.id wanted && u.uploader == uploader && not (is_some u.consumed_at) && is_ready u

-- SET consumed_at = now().
unfoldable pub consume : Time → Uuid → List Uuid → List UploadRow → List UploadRow
unfolding is_wanted
consume now uploader wanted [] = []
consume now uploader wanted (u ∷ us) =
    (if is_wanted uploader wanted u then record u { consumed_at = some now } else u)
    ∷ consume now uploader wanted us

-- An upload as an attachment: only a link has no size, and a voice note's transcript is pending.
unfoldable pub attachment_of : UploadRow → AttachmentRow
attachment_of u = record {
  kind = u.kind;
  position = 0;
  storage_key = u.storage_key;
  bytes = elim u.kind [ link ↦ none | _ ↦ some u.bytes ];
  width = u.width;
  height = u.height;
  filename = u.filename;
  duration_ms = elim u.kind [ voice ↦ u.duration_ms | _ ↦ none ];
  peaks = elim u.kind [ voice ↦ u.peaks | _ ↦ none ];
  is_pending = elim u.kind [ voice ↦ true | _ ↦ false ];
  link_url = u.link_url;
}

-- RETURNING, looked up by id.
unfoldable pub returned : Uuid → List UploadRow → Option UploadRow
returned i [] = none
returned i (u ∷ us) = if u.id == i then some u else returned i us

unfoldable prepend : UploadRow → Option (List AttachmentRow) → Option (List AttachmentRow)
unfolding attachment_of
prepend u none = none
prepend u (some rows) = some (attachment_of u ∷ rows)

-- The rows in the order of the request: an upload that was not consumed, or that is named twice, is
-- not found.
unfoldable pub collect : List UploadRow → List Uuid → List Uuid → Option (List AttachmentRow)
unfolding returned prepend
collect rows seen [] = some []
collect rows seen (i ∷ is) =
    let rest = collect rows (i ∷ seen) is in
    if has i seen then none else elim (returned i rows) [ none ↦ none | some u ↦ prepend u rest ]

-- PostgresUploads.Resolve.
unfoldable pub postgres_uploads : Resolver
unfolding collect consume is_wanted
postgres_uploads now uploader want uploads =
    let wanted = upload_ids want in
    elim (collect (keep (is_wanted uploader wanted) uploads) [] wanted) [
      | none ↦ none
      | some rows ↦ some (rows, consume now uploader wanted uploads)
    ]

unfoldable add_row : AttachmentRow → Option (List AttachmentRow) → Option (List AttachmentRow)
add_row row none = none
add_row row (some rows) = some (row ∷ rows)

-- The kind that the sender named, at the send's own position.
unfoldable pub place : ℕ → List NewAttachment → List AttachmentRow → Option (List AttachmentRow)
unfolding add_row is_same_kind
place i (w ∷ ws) (row ∷ rows) =
    let rest = place (suc i) ws rows in
    if is_same_kind row.kind w.kind then add_row (record row { position = i }) rest else none
place i ws rows = some []
