-- ===== src/DioFile/Granting.antt =====
-- `DioFile::open` of dio_file.rs as a whole, where it is polled to its end: when it succeeds.
use io.Prelude.{ℕ, ◌≡◌}
use io.IoError.{IoError, Result, done}
use io.File.{Open}
use io.DioFile.{DioFile}
use io.DioFile.Handle.{Opened}
use io.DioFile.Opening.{IsPower}

-- What `open` needs of its path, of the kernel's answer and of `statx`, to give this file.
pub record Granted (how : Result Open) (opened : Result ℕ) (stat : Result (ℕ × ℕ)) (dio : Opened)
    : Type 0 where
  pub path_taken : (o : Open) × (how ≡ done o)
  pub descriptor : opened ≡ done dio.file.fd
  pub read : stat ≡ done (dio.alignments.dio_mem_align, dio.alignments.dio_offset_align)
  pub mem_power : IsPower dio.alignments.dio_mem_align
  pub offset_power : IsPower dio.alignments.dio_offset_align
