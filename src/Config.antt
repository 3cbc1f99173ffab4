-- ===== src/Config.antt =====
-- invenio_files_rest/config.py: the values that the application is configured with by default.
use invenio_files_rest.Prelude.{String, Bool, ◌*◌, none, [], ◌∷◌}
use invenio_files_rest.Schema.{Config}
use invenio_files_rest.Limiters.{file_size_limiters}

-- Times are in seconds: the expiry of a multipart upload is four days.
abbrev pub default_config : (String → String → Bool) → Config
default_config key_before = record {
  key_before = key_before;
  size_limiters = file_size_limiters;
  storage_class_list = "S" ∷ "A" ∷ [];
  default_storage_class = "S";
  default_quota_size = none;
  default_max_file_size = none;
  min_file_size = 1;
  object_key_max_len = 255;
  file_uri_max_len = 255;
  path_split_length = 2;
  path_dimensions = 2;
  multipart_max_parts = 10000;
  multipart_chunksize_min = 5 * 1024 * 1024;
  multipart_chunksize_max = 5 * 1024 * 1024 * 1024;
  multipart_expires = 4 * 24 * 3600;
}
