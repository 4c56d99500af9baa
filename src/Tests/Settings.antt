-- ===== src/Tests/Settings.antt =====
-- The configuration of a small environment.
use photo_server.Base.{
  refl, false, Option, none, some, [], ◌++◌, Text, bytes, text_eq, ℤ, pos, atoi, unsigned, decimal,
  if◌then◌else◌,
}
use photo_server.Config.{Config, System, pos_int_env, default_workers, default_data_dir, load}
use photo_server.Config.Bounds.{InBounds, load_bounds}

abbrev lookup : Text → Option Text
lookup key = if text_eq key (bytes "PHOTO_SERVER_JPEG_QUALITY") then some (bytes "90") else none

abbrev no_number : Text → Option ℤ
no_number v = none

abbrev system : System
system = record {
  env = lookup;
  cpus = 8;
  level = no_number;
  duration = no_number;
  has_https = λ url. false;
  abs = λ dir. some (bytes "/srv/" ++ dir);
}

abbrev config : Config
config = record {
  addr = bytes ":8080";
  data_dir = bytes "/srv/data";
  log_level = pos 0;
  log_file = [];
  shutdown_timeout = pos 15000000000;
  max_upload_bytes = 67108864;
  convert_workers = 4;
  gallery_max_px = 2560;
  jpeg_quality = 90;
  thumb_px = 400;
  thumb_quality = 80;
  vips_thumbnail_bin = bytes "vipsthumbnail";
  session_max_age = 2592000000000000;
  admin_password = [];
  base_url = bytes "http://photos.wedding/";
  is_https = false;
  access_password = [];
}

load_bounds_example : InBounds config
unfolding load pos_int_env default_workers default_data_dir text_eq atoi unsigned decimal
load_bounds_example = load_bounds system config refl
