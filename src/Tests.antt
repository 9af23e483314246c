-- ===== src/Tests.antt =====
-- The theorems at concrete inputs: forks and bitmaps, B-trees, volumes, files, catalogs and links.
mod Forks
mod Trees
mod Volumes
mod Catalog
mod Links
