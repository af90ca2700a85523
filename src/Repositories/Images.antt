-- ===== src/Repositories/Images.antt =====
-- TemplateImageRepository (repositories/template_images.py), without its reads.
use coder_manager.Base.{
  ℕ, Bool, not, ◌&&◌, String, ◌==◌, nat_eq, string_eq, find, add, delete, exists_where,
}
use coder_manager.Model.{TemplateImage, Db}
use coder_manager.Repositories.Reply.{Reply, accepted, ◌>>=◌, ◌>>◌, refuse_if, found_or}

pub data ImageError : Type 0 where
  template_not_found image_not_found already_exists in_use : ImageError

pub record ImageCreate : Type 0 where
  pub registry : String
  pub name : String
  pub version : String

abbrev pub new_image : ℕ → ImageCreate → TemplateImage
new_image template_id payload = record {
  template_id = template_id;
  registry_name = payload.registry;
  name = payload.name;
  version = payload.version;
}

abbrev pub is_same_image : TemplateImage → ℕ → TemplateImage → Bool
is_same_image image _ other =
    other.template_id == image.template_id
    && other.registry_name == image.registry_name
    && other.name == image.name
    && other.version == image.version

-- `create`, under the identifier of `uuid4`. The unique constraint is tested at the commit.
unfoldable pub create : ℕ → ℕ → ImageCreate → Db → Reply ImageError Db
create image_id template_id payload db = do
  t ← found_or (find template_id db.templates) template_not_found
  refuse_if (exists_where (is_same_image (new_image template_id payload)) db.images) already_exists
  accepted (record db { images = add image_id (new_image template_id payload) db.images })

-- `delete`
unfoldable pub remove : ℕ → ℕ → Db → Reply ImageError Db
remove template_id image_id db = do
  t ← found_or (find template_id db.templates) template_not_found
  image ← found_or (find image_id db.images) image_not_found
  refuse_if (not (image.template_id == template_id)) image_not_found
  refuse_if (exists_where (λ _ w. w.image_id == image_id) db.workspaces) in_use
  accepted (record db { images = delete image_id db.images })
