-- ===== src/EhFrame.antt =====
-- include/notdec-bin2llvm/NativeAnalysis.h and lib/NativeAnalysis.cpp: the statistics that the reader
-- of `.eh_frame` and `.eh_frame_hdr` keeps, and the results of its reads.
pub mod Bytes
pub mod Encodings
pub mod Records
pub mod Frames
pub mod Header
pub mod Compare
pub mod Rounds
pub mod Events
pub mod Validity
pub mod Ledger
pub mod Relative
pub mod Leb
mod Examples
use not_dec_bin2llvm.Common.{
  ℕ, ◌+◌, List, [], ◌∷◌, ◌++◌, Bool, false, ltb, if◌then◌else◌, Text, codes, length, ◌≡◌, ◌⊎◌, inl,
  inr, refl,
}
use not_dec_bin2llvm.Program.{ProgramState}

-- `NativeEhFrameFdeInfo`.
pub record EhFrameFdeInfo : Type 0 where
  pub pc_begin : ℕ
  pub fde_address : ℕ

-- `NativeEhFrameHdrEntry`.
pub record EhFrameHdrEntry : Type 0 where
  pub initial_location : ℕ
  pub entry_fde_address : ℕ

-- `NativeEhFrameStats`.
pub record EhFrameStats : Type 0 where
  pub has_eh_frame_hdr : Bool
  pub has_eh_frame : Bool
  pub parsed_eh_frame_hdr : Bool
  pub cie_count : ℕ
  pub fde_count : ℕ
  pub parsed_fde_count : ℕ
  pub added_seed_count : ℕ
  pub overlapped_seed_count : ℕ
  pub hdr_fde_count : ℕ
  pub hdr_table_entries : ℕ
  pub hdr_matched_starts : ℕ
  pub hdr_missing_in_frame : ℕ
  pub hdr_extra_frame_fdes : ℕ
  pub hdr_fde_address_matches : ℕ
  pub hdr_fde_address_mismatches : ℕ
  pub hdr_invalid_count : ℕ
  pub hdr_unsupported_count : ℕ
  pub invalid_count : ℕ
  pub unsupported_count : ℕ
  pub frame_fdes : List EhFrameFdeInfo
  pub hdr_entries : List EhFrameHdrEntry
  pub hdr_mismatch_samples : List Text
  pub unsupported_samples : List Text

abbrev pub no_stats : EhFrameStats
no_stats = record {
  has_eh_frame_hdr = false;
  has_eh_frame = false;
  parsed_eh_frame_hdr = false;
  cie_count = 0;
  fde_count = 0;
  parsed_fde_count = 0;
  added_seed_count = 0;
  overlapped_seed_count = 0;
  hdr_fde_count = 0;
  hdr_table_entries = 0;
  hdr_matched_starts = 0;
  hdr_missing_in_frame = 0;
  hdr_extra_frame_fdes = 0;
  hdr_fde_address_matches = 0;
  hdr_fde_address_mismatches = 0;
  hdr_invalid_count = 0;
  hdr_unsupported_count = 0;
  invalid_count = 0;
  unsupported_count = 0;
  frame_fdes = [];
  hdr_entries = [];
  hdr_mismatch_samples = [];
  unsupported_samples = [];
}

-- The program state and the statistics that the source keeps inside it.
pub record EhFrameState : Type 0 where
  pub program : ProgramState
  pub stats : EhFrameStats

-- At most eight samples are kept.
unfoldable pub add_sample : List Text → Text → List Text
add_sample samples sample = if ltb (length samples) 8 then samples ++ sample ∷ [] else samples

-- `addUnsupportedEhFrameSample`.
unfoldable pub add_unsupported_sample : EhFrameStats → Text → EhFrameStats
unfolding add_sample
add_unsupported_sample stats sample = record stats {
  unsupported_count = stats.unsupported_count + 1;
  unsupported_samples = add_sample stats.unsupported_samples sample;
}

-- `addEhFrameHdrUnsupportedSample`.
unfoldable pub add_hdr_unsupported_sample : EhFrameStats → Text → EhFrameStats
unfolding add_sample
add_hdr_unsupported_sample stats sample = record stats {
  hdr_unsupported_count = stats.hdr_unsupported_count + 1;
  unsupported_samples = add_sample stats.unsupported_samples (codes ".eh_frame_hdr " ++ sample);
}

-- `addEhFrameHdrMismatchSample`.
unfoldable pub add_hdr_mismatch_sample : EhFrameStats → Text → EhFrameStats
unfolding add_sample
add_hdr_mismatch_sample stats sample = record stats {
  hdr_mismatch_samples = add_sample stats.hdr_mismatch_samples sample;
}

-- Why a read fails: the bytes do not hold it, or the reader does not support the encoding and adds
-- a sample that says so.
pub data Failure : Type 0 where
  malformed : Failure
  unsupported : Text → Failure

pub data Result {ℓ} (A : Type ℓ) : Type ℓ where
  ok : A → Result A
  err : Failure → Result A

-- The next read starts only if this one succeeds.
module _ {ℓ κ} {A : Type ℓ} {B : Type κ} where
  infixl 10 ◌>>=◌
  abbrev pub ◌>>=◌ : Result A → (A → Result B) → Result B
  err failure >>= next = err failure
  ok read >>= next = next read

-- To split on a read and keep the equation.
pub Result-cases {ℓ} :
    {A : Type ℓ} (r : Result A) → ((e : Failure) × (r ≡ err e)) ⊎ ((a : A) × (r ≡ ok a))
Result-cases (err e) = inl (e, refl)
Result-cases (ok a) = inr (a, refl)
