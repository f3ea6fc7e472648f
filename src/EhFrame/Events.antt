-- ===== src/EhFrame/Events.antt =====
-- What `EhFrameReader` does to its state, as a sequence of elementary changes: an invariant of the
-- reader is shown for each of them once.
pub mod Run
use not_dec_bin2llvm.Common.{
  ℕ, zero, suc, ◌+◌, ◌-◌, ◌≤◌, List, [], ◌∷◌, Option, none, some, Bool, true, false, not, ltb, ◌==◌,
  ◌||◌, Text, length, max_u64, add64, ◌≡◌, ◌≢◌, refl, arith, Bool-cases, Option-cases, inl, inr,
  subst,
}
use not_dec_bin2llvm.OrderedMap
use not_dec_bin2llvm.Memory.{is_executable_address, executable_range_contains}
use not_dec_bin2llvm.EhFrame.{
  EhFrameStats, add_unsupported_sample, Failure, malformed, unsupported, Result, ok, err,
  Result-cases,
}
use not_dec_bin2llvm.EhFrame.Bytes.{read_unsigned, read_u8, read_uleb128}
use not_dec_bin2llvm.EhFrame.Records.{
  Reader, SectionBytes, CieInfo, count_invalid, count_cie, note_failure, record_address, parse_cie,
  cie_head, cie_encoding, augmentation_loop, personality, augmentation_sample, store_cie,
}
use not_dec_bin2llvm.EhFrame.Frames.{
  reject, reject_with, accept, use_range, fde_range, count_fde, decode_fde, find_fde, parse_fde,
  parse_content, parse_record, parse_eh_frame, long_record,
}
use not_dec_bin2llvm.EhFrame.Rounds.{Walk, at_end, returns, goes_on, parse_eh_frame-Walk}

-- The tests that the function of an FDE passed.
pub record IsAcceptable (r : Reader) (pc_begin pc_range : ℕ) : Type 0 where
  pub begin_nonzero : pc_begin ≢ 0
  pub range_nonzero : pc_range ≢ 0
  pub begin_executable : is_executable_address r.program.memory_ranges pc_begin ≡ true
  pub end_fits : pc_begin + pc_range ≤ max_u64
  pub range_inside :
      executable_range_contains r.program.memory_ranges pc_begin (pc_begin + pc_range) ≡ true

pub data Event (section : SectionBytes) : Reader → Reader → Type 0 where
  invalid : {r : Reader} → Event section r (reject r)
  noted : {r : Reader} (note : Text) → Event section r (reject_with r note)
  sampled :
      {r : Reader} (sample : Text)
      → Event section r (record r { stats = add_unsupported_sample r.stats sample })
  cie_counted : {r : Reader} → Event section r (record r { stats = count_cie r.stats })
  cie_stored : {r : Reader} (cies : List (ℕ × CieInfo)) → Event section r (record r { cies = cies })
  fde_counted : {r : Reader} → Event section r (count_fde r)
  accepted :
      {r : Reader} (record_offset pc_begin pc_range : ℕ)
      → IsAcceptable r pc_begin pc_range
      → Event section r (accept section r record_offset pc_begin pc_range)

infixr 20 ◌then◌
pub data Events (section : SectionBytes) : Reader → Reader → Type 0 where
  nothing : {r : Reader} → Events section r r
  ◌then◌ : {r t u : Reader} → Event section r t → Events section t u → Events section r u

pub Events-append :
    {section : SectionBytes} {r t u : Reader}
    → Events section r t
    → Events section t u
    → Events section r u
Events-append nothing later = later
Events-append (e then es) later = e then Events-append es later

-- What every event keeps, every sequence of events keeps.
pub Events-invariant :
    (P : Reader → Type 0) {section : SectionBytes} {r t : Reader}
    → ((u v : Reader) → Event section u v → P u → P v)
    → Events section r t
    → P r
    → P t
Events-invariant P keeps nothing p = p
Events-invariant P keeps (e then es) p = Events-invariant P keeps es (keeps _ _ e p)
