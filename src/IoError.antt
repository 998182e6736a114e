-- ===== src/IoError.antt =====
-- `std::io::Error` and `std::io::Result`, as far as io2/src/fs tells errors apart.
use io.Prelude.{ℕ, ◌==◌, Bool, false, ◌≡◌, ◌⊎◌, inl, inr, refl}

-- An error number of the kernel, `ErrorKind::UnexpectedEof`, the two messages of `DioFile::open`, and
-- `ErrorKind::InvalidData` of a path.
pub data IoError : Type 0 where
  os : ℕ → IoError
  unexpected_eof unsupported not_power_of_two invalid_data : IoError

pub data Result {ℓ} (A : Type ℓ) : Type ℓ where
  done : A → Result A
  failed : IoError → Result A

pub Result-cases {ℓ} :
    {A : Type ℓ} (r : Result A) → ((a : A) × (r ≡ done a)) ⊎ ((e : IoError) × (r ≡ failed e))
Result-cases (done a) = inl (a, refl)
Result-cases (failed e) = inr (e, refl)

-- `EINTR`, the error number of an interrupted call
abbrev pub eintr : ℕ
eintr = 4

-- `e.kind() == ErrorKind::Interrupted`
abbrev pub is_interrupted : IoError → Bool
is_interrupted (os code) = code == eintr
is_interrupted unexpected_eof = false
is_interrupted unsupported = false
is_interrupted not_power_of_two = false
is_interrupted invalid_data = false
