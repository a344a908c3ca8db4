-- ===== src/Domain/Attachment/Vocabulary.antt =====
-- crates/domain/src/attachment.rs: the closed vocabularies of an attachment. A value is written to the database by
-- `as_database_value` and read back by `from_database_value`.
use safe_cameroon.Common.{
  Eq, eq_of, String, List, [], ◌∷◌, Option, some, ◌≡◌, refl, match_arms, IsExact,
  match_arms-IsExact,
}

pub data StorageProvider : Type 0 where
  r2 : StorageProvider

unfoldable pub StorageProvider-discrete : Discrete StorageProvider
StorageProvider-discrete = hlevel

instance abbrev pub StorageProvider_eq : Eq StorageProvider
StorageProvider_eq = eq_of StorageProvider-discrete

unfoldable pub storage_provider_as_database_value : StorageProvider → String
storage_provider_as_database_value StorageProvider.r2 = "R2"

abbrev pub storage_provider_arms : List (String × StorageProvider)
storage_provider_arms = ("R2", StorageProvider.r2) ∷ []

unfoldable pub storage_provider_from_database_value : String → Option StorageProvider
storage_provider_from_database_value s = match_arms s storage_provider_arms

storage_provider_from_database_value-storage_provider_as_database_value :
    (v : StorageProvider)
    → storage_provider_from_database_value (storage_provider_as_database_value v) ≡ some v
unfolding storage_provider_from_database_value storage_provider_as_database_value
storage_provider_from_database_value-storage_provider_as_database_value StorageProvider.r2 = refl

pub storage_provider-IsExact :
    IsExact storage_provider_as_database_value storage_provider_from_database_value
unfolding storage_provider_from_database_value storage_provider_as_database_value
storage_provider-IsExact =
    match_arms-IsExact storage_provider_as_database_value storage_provider_from_database_value
      storage_provider_arms (λ s. refl) (refl, tt)
      storage_provider_from_database_value-storage_provider_as_database_value

pub data AttachmentContentType : Type 0 where
  image_jpeg image_png image_webp application_pdf audio_mpeg audio_ogg video_mp4 :
      AttachmentContentType

unfoldable pub AttachmentContentType-discrete : Discrete AttachmentContentType
AttachmentContentType-discrete = hlevel

instance abbrev pub AttachmentContentType_eq : Eq AttachmentContentType
AttachmentContentType_eq = eq_of AttachmentContentType-discrete

unfoldable pub attachment_content_type_as_database_value : AttachmentContentType → String
attachment_content_type_as_database_value AttachmentContentType.image_jpeg = "IMAGE_JPEG"
attachment_content_type_as_database_value AttachmentContentType.image_png = "IMAGE_PNG"
attachment_content_type_as_database_value AttachmentContentType.image_webp = "IMAGE_WEBP"
attachment_content_type_as_database_value AttachmentContentType.application_pdf = "APPLICATION_PDF"
attachment_content_type_as_database_value AttachmentContentType.audio_mpeg = "AUDIO_MPEG"
attachment_content_type_as_database_value AttachmentContentType.audio_ogg = "AUDIO_OGG"
attachment_content_type_as_database_value AttachmentContentType.video_mp4 = "VIDEO_MP4"

abbrev pub attachment_content_type_arms : List (String × AttachmentContentType)
attachment_content_type_arms =
    ("IMAGE_JPEG", AttachmentContentType.image_jpeg)
    ∷ ("IMAGE_PNG", AttachmentContentType.image_png)
    ∷ ("IMAGE_WEBP", AttachmentContentType.image_webp)
    ∷ ("APPLICATION_PDF", AttachmentContentType.application_pdf)
    ∷ ("AUDIO_MPEG", AttachmentContentType.audio_mpeg)
    ∷ ("AUDIO_OGG", AttachmentContentType.audio_ogg)
    ∷ ("VIDEO_MP4", AttachmentContentType.video_mp4)
    ∷ []

unfoldable pub attachment_content_type_from_database_value : String → Option AttachmentContentType
attachment_content_type_from_database_value s = match_arms s attachment_content_type_arms

attachment_content_type_from_database_value-attachment_content_type_as_database_value :
    (v : AttachmentContentType)
    → attachment_content_type_from_database_value (attachment_content_type_as_database_value v)
      ≡ some v
unfolding attachment_content_type_from_database_value attachment_content_type_as_database_value
attachment_content_type_from_database_value-attachment_content_type_as_database_value
      AttachmentContentType.image_jpeg =
    refl
attachment_content_type_from_database_value-attachment_content_type_as_database_value
      AttachmentContentType.image_png =
    refl
attachment_content_type_from_database_value-attachment_content_type_as_database_value
      AttachmentContentType.image_webp =
    refl
attachment_content_type_from_database_value-attachment_content_type_as_database_value
      AttachmentContentType.application_pdf =
    refl
attachment_content_type_from_database_value-attachment_content_type_as_database_value
      AttachmentContentType.audio_mpeg =
    refl
attachment_content_type_from_database_value-attachment_content_type_as_database_value
      AttachmentContentType.audio_ogg =
    refl
attachment_content_type_from_database_value-attachment_content_type_as_database_value
      AttachmentContentType.video_mp4 =
    refl

pub attachment_content_type-IsExact :
    IsExact attachment_content_type_as_database_value attachment_content_type_from_database_value
unfolding attachment_content_type_from_database_value attachment_content_type_as_database_value
attachment_content_type-IsExact =
    match_arms-IsExact attachment_content_type_as_database_value
      attachment_content_type_from_database_value attachment_content_type_arms (λ s. refl)
      (refl, (refl, (refl, (refl, (refl, (refl, (refl, tt)))))))
      attachment_content_type_from_database_value-attachment_content_type_as_database_value

unfoldable pub attachment_content_type_as_mime_type : AttachmentContentType → String
attachment_content_type_as_mime_type AttachmentContentType.image_jpeg = "image/jpeg"
attachment_content_type_as_mime_type AttachmentContentType.image_png = "image/png"
attachment_content_type_as_mime_type AttachmentContentType.image_webp = "image/webp"
attachment_content_type_as_mime_type AttachmentContentType.application_pdf = "application/pdf"
attachment_content_type_as_mime_type AttachmentContentType.audio_mpeg = "audio/mpeg"
attachment_content_type_as_mime_type AttachmentContentType.audio_ogg = "audio/ogg"
attachment_content_type_as_mime_type AttachmentContentType.video_mp4 = "video/mp4"

abbrev pub attachment_content_type_mime_arms : List (String × AttachmentContentType)
attachment_content_type_mime_arms =
    ("image/jpeg", AttachmentContentType.image_jpeg)
    ∷ ("image/png", AttachmentContentType.image_png)
    ∷ ("image/webp", AttachmentContentType.image_webp)
    ∷ ("application/pdf", AttachmentContentType.application_pdf)
    ∷ ("audio/mpeg", AttachmentContentType.audio_mpeg)
    ∷ ("audio/ogg", AttachmentContentType.audio_ogg)
    ∷ ("video/mp4", AttachmentContentType.video_mp4)
    ∷ []

unfoldable pub attachment_content_type_from_mime_type : String → Option AttachmentContentType
attachment_content_type_from_mime_type s = match_arms s attachment_content_type_mime_arms

attachment_content_type_from_mime_type-attachment_content_type_as_mime_type :
    (v : AttachmentContentType)
    → attachment_content_type_from_mime_type (attachment_content_type_as_mime_type v) ≡ some v
unfolding attachment_content_type_from_mime_type attachment_content_type_as_mime_type
attachment_content_type_from_mime_type-attachment_content_type_as_mime_type
      AttachmentContentType.image_jpeg =
    refl
attachment_content_type_from_mime_type-attachment_content_type_as_mime_type
      AttachmentContentType.image_png =
    refl
attachment_content_type_from_mime_type-attachment_content_type_as_mime_type
      AttachmentContentType.image_webp =
    refl
attachment_content_type_from_mime_type-attachment_content_type_as_mime_type
      AttachmentContentType.application_pdf =
    refl
attachment_content_type_from_mime_type-attachment_content_type_as_mime_type
      AttachmentContentType.audio_mpeg =
    refl
attachment_content_type_from_mime_type-attachment_content_type_as_mime_type
      AttachmentContentType.audio_ogg =
    refl
attachment_content_type_from_mime_type-attachment_content_type_as_mime_type
      AttachmentContentType.video_mp4 =
    refl

pub attachment_content_type_mime-IsExact :
    IsExact attachment_content_type_as_mime_type attachment_content_type_from_mime_type
unfolding attachment_content_type_from_mime_type attachment_content_type_as_mime_type
attachment_content_type_mime-IsExact =
    match_arms-IsExact attachment_content_type_as_mime_type attachment_content_type_from_mime_type
      attachment_content_type_mime_arms (λ s. refl)
      (refl, (refl, (refl, (refl, (refl, (refl, (refl, tt)))))))
      attachment_content_type_from_mime_type-attachment_content_type_as_mime_type
