-- ===== src/Archive.antt =====
-- The archive data of babel_api/src/engine.rs: chunks of compressed data and the parts of files
-- that they map to. A path is its components, each a list of bytes, as `Path` compares them.
use Prim.Native.String.{String}
use blockvisor.Common.{ℕ, Option, List}
pub mod Bytes
pub mod Files

abbrev pub FilePath : Type 0
FilePath = List (List ℕ)

pub record FileLocation : Type 0 where
  pub path : FilePath
  pub pos : ℕ  -- u64
  pub size : ℕ  -- u64

pub data Checksum : Type 0 where
  sha1 : List ℕ → Checksum
  sha256 : List ℕ → Checksum
  blake3 : List ℕ → Checksum

pub record Chunk : Type 0 where
  pub index : ℕ  -- u32
  pub key : String
  pub url : Option String
  pub checksum : Checksum
  pub size : ℕ  -- u64
  pub destinations : List FileLocation

-- The level of the compression, an i32, is passed on to the compressor and not looked at.
pub data Compression : Type 0 where
  zstd : ℕ → Compression

pub record DownloadManifest : Type 0 where
  pub total_size : ℕ  -- u64
  pub compression : Option Compression
  pub chunks : List Chunk

pub record DownloadMetadata : Type 0 where
  pub total_size : ℕ  -- u64
  pub compression : Option Compression
  pub chunks : ℕ  -- u32
  pub data_version : ℕ  -- u64

pub record Slot : Type 0 where
  pub index : ℕ  -- u32
  pub key : String
  pub url : String
