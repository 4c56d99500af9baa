-- ===== src/Exif.antt =====
-- internal/exif: the date on which a photo was taken.
pub mod Slices
pub mod Ifd
pub mod Extract
pub mod Dates
