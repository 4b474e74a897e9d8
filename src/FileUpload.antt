-- ===== src/FileUpload.antt =====
-- server/src/shared/file-upload/file-upload.service.ts. The storage, the functions of Node's path
-- module and the detection of a file's type are parameters; what is drawn at random is an argument.
use bid_battle.Prelude.{
  ◌==◌, not, ◌*◌, ◌||◌, false, ltb, none, Bool, [], if◌then◌else◌, some, List, Option, get_or, ◌∷◌,
  String, ℕ,
}
use bid_battle.Platform.Effects.{
  try_catch, current_time, pure, throw, Eff, Exception, Platform, ◌>>=◌, ◌>>◌,
}
use Prim.Native.Char.{code}
use Prim.Native.String.{◌++◌ as str_append}
use text.Mathlib.Text.{◌==◌ as str_eq, starts_with}

-- Express.Multer.File
pub record MulterFile : Type 0 where
  pub original_name : String
  pub mimetype : String
  pub size : ℕ
  pub buffer : String

-- IUploadOptions
pub record UploadOptions : Type 0 where
  pub max_size_mb : ℕ
  pub allowed_types : List String
  pub sub_dir : String

-- IUploadedFile
pub record UploadedFile : Type 0 where
  pub filename : String
  pub path : String
  pub url : String
  pub size : ℕ
  pub mimetype : String

-- IConfigFile
pub record FileConfig : Type 0 where
  pub uploads_dir : String
  pub auction_image_max_size_mb : ℕ
  pub avatar_max_size_mb : ℕ
  pub allowed_image_types : List String

pub record FileLibrary (P : Platform) : Type 0 where
  -- the path and the URL of the stored file
  pub upload : MulterFile → String → Eff P (String × String)
  pub delete : String → Eff P (Unit {0})
  pub join : List String → String
  -- an absolute path; `resolve_in base path`
  pub resolve : String → String
  pub resolve_in : String → String → String
  pub extname : String → String
  pub sep : String
  -- the year and the two digits of the month at a time
  pub year : ℕ → String
  pub month : ℕ → String
  pub basename : String → String
  pub file_type : String → Option String

-- `replace(/\\/g, '/')`
unfoldable pub slashes : String → String
slashes String.[] = ""
slashes (String.◌∷◌ c s) =
    if code c == 92 then str_append "/" (slashes s) else String.◌∷◌ c (slashes s)

-- what follows a prefix
unfoldable pub after_prefix : String → String → Option String
after_prefix String.[] s = some s
after_prefix (String.◌∷◌ c p) String.[] = none
after_prefix (String.◌∷◌ c p) (String.◌∷◌ d s) = if code c == code d then after_prefix p s else none

abbrev cut : String → String → String
cut p s = get_or (after_prefix p s) s

-- the folder of the uploads, with or without a slash before it, and then a leading `./` are cut off
abbrev pub clean_url : String → String → String
clean_url folder url =
    let t = slashes url in
    let rest = cut (str_append folder "/") t in
    cut "./" (get_or (after_prefix (str_append "/" (str_append folder "/")) t) rest)

abbrev includes : List String → String → Bool
includes [] t = false
includes (u ∷ us) t = str_eq u t || includes us t

module _ (P : Platform) (config : FileConfig) (lib : FileLibrary P) where
  open lib use {
    upload, delete, join, resolve, resolve_in, extname, sep, year, month, basename, file_type,
  }

  abbrev invalid_type : Exception
  invalid_type = Exception.bad_request "error.validation.file.invalid_file_type_#allowedTypes"

  abbrev check_detected : List String → Option String → Eff P (Unit {0})
  check_detected allowed none = throw invalid_type
  check_detected allowed (some mime) = if includes allowed mime then pure tt else throw invalid_type

  unfoldable pub validate_file : Option MulterFile → UploadOptions → Eff P MulterFile
  validate_file none options =
      throw (Exception.bad_request "error.validation.file.no_file_provided")
  validate_file (some file) options =
      if ltb (options.max_size_mb * 1024 * 1024) file.size
      then throw (Exception.bad_request "error.validation.file.file_too_large_#maxSize")
      else if not (includes options.allowed_types file.mimetype)
      then throw invalid_type
      else (do check_detected options.allowed_types (file_type file.buffer); pure file)

  abbrev generate_upload_path : String → ℕ → String
  generate_upload_path sub_dir now = join (config.uploads_dir ∷ year now ∷ month now ∷ sub_dir ∷ [])

  abbrev generate_filename : String → String → String
  generate_filename random original_name = str_append random (extname original_name)

  unfoldable pub upload_single : String → Option MulterFile → UploadOptions → Eff P UploadedFile
  upload_single random given options = do
    file ← validate_file given options
    now ← current_time
    let filename = generate_filename random file.original_name
    stored ←
        try_catch (upload file (join (generate_upload_path options.sub_dir now ∷ filename ∷ [])))
          (λ _. throw (Exception.internal_error "error.validation.file.upload_failed"))
    pure (record {
      filename = filename;
      path = stored.0;
      url = clean_url (basename config.uploads_dir) stored.1;
      size = file.size;
      mimetype = file.mimetype;
    })

  -- a path that leaves the uploads is blocked without an exception, and a failure is logged
  unfoldable pub delete_file : String → Eff P (Unit {0})
  delete_file relative_path =
      let base = resolve config.uploads_dir in
      let resolved = resolve_in base relative_path in
      if starts_with resolved (str_append base sep)
      then try_catch (delete resolved) (λ _. pure tt)
      else pure tt

  -- `Promise.all` of deletions that never throw
  unfoldable pub delete_files : List String → Eff P (Unit {0})
  delete_files [] = pure tt
  delete_files (path ∷ paths) = do delete_file path; delete_files paths

  abbrev pub auction_image_upload_options : UploadOptions
  auction_image_upload_options = record {
    max_size_mb = config.auction_image_max_size_mb;
    allowed_types = config.allowed_image_types;
    sub_dir = "auctions";
  }

  abbrev pub avatar_upload_options : UploadOptions
  avatar_upload_options = record {
    max_size_mb = config.avatar_max_size_mb;
    allowed_types = config.allowed_image_types;
    sub_dir = "avatars";
  }
