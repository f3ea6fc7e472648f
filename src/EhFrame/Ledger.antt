-- ===== src/EhFrame/Ledger.antt =====
-- The statistics of the eh-frame reader agree with what it did to the program.
use not_dec_bin2llvm.Common.{
  ℕ, [], ◌∷◌, ◌+◌, List, Bool, true, some, Text, min, length, ltb, length-append, Option-cases,
  Bool-cases, inl, inr, ◌==◌, ◌≡◌, ◌⊎◌, refl, ◌∙◌, ap, arith, All, All-append, All-imp, leb,
  contains, text_eq,
}
use not_dec_bin2llvm.OrderedMap
use not_dec_bin2llvm.OrderedMap.Laws.{find-insert}
use not_dec_bin2llvm.Memory.{is_executable_address}
use not_dec_bin2llvm.Program.{ProgramState, FunctionSeed, high, add_note}
use not_dec_bin2llvm.Program.Seeds.{add_function_seed, add_function_range, set_range, ranged_seed}
use not_dec_bin2llvm.Analyzers.Entries.Arrays.{
  IsReported, seed-IsReported, add_function_seed-SameInput,
}
use not_dec_bin2llvm.EhFrame.{EhFrameStats, EhFrameFdeInfo, add_sample, add_unsupported_sample}
use not_dec_bin2llvm.EhFrame.Records.{
  Reader, SectionBytes, count_invalid, count_cie, record_address,
}
use not_dec_bin2llvm.EhFrame.Frames.{
  reject, reject_with, accept, count_fde, parse_eh_frame, eh_frame, count_function,
}
use not_dec_bin2llvm.EhFrame.Events.{
  Event, IsAcceptable, invalid, noted, sampled, cie_counted, cie_stored, fde_counted, accepted,
  Events-invariant,
}
use not_dec_bin2llvm.EhFrame.Events.Run.{parse_eh_frame-Events}

-- The start of an FDE's function: executable, and an entry that `.eh_frame` was reported for.
abbrev pub IsFound : ProgramState → EhFrameFdeInfo → Type 0
IsFound s fde =
    (is_executable_address s.memory_ranges fde.pc_begin ≡ true) × IsReported eh_frame fde.pc_begin s

abbrev pub CountsAgree : EhFrameStats → Type 0
CountsAgree stats =
    (stats.parsed_fde_count ≡ stats.added_seed_count + stats.overlapped_seed_count)
    × (length stats.frame_fdes ≡ stats.parsed_fde_count)
    × (length stats.unsupported_samples
        ≡ min 8 (stats.unsupported_count + stats.hdr_unsupported_count))

pub record IsAccounted (r : Reader) : Type 0 where
  pub counts : CountsAgree r.stats
  pub found : All (IsFound r.program) r.stats.frame_fdes

ranged-IsReported :
    (s : ProgramState) (seed old : FunctionSeed) (address target start end : ℕ) (source : Text)
    → OrderedMap.find address s.function_seeds ≡ some old
    → OrderedMap.find target s.function_seeds ≡ some seed
    → seed.is_entry ≡ true
    → contains seed.sources eh_frame ≡ true
    → IsReported eh_frame target (set_range s old address start end source)
unfolding set_range ranged_seed
ranged-IsReported s seed old address target start end source there found entry named =
    elim (Bool-cases (address == target)) [
      | inl same ↦
          let eq : seed ≡ old = ground (arith, same, there, found) in
          (
            ranged_seed old start end source,
            rw
                (
                  find-insert address target (ranged_seed old start end source) s.function_seeds,
                  same,
                )
                refl,
            ground (arith, entry, eq),
            ground (arith, named, eq),
          )
      | inr other ↦ (
        seed,
        rw (find-insert address target (ranged_seed old start end source) s.function_seeds, other)
            found,
        entry,
        named,
      )
    ]

-- A range that is added forgets no report.
range-IsReported :
    (s : ProgramState) (address target start end : ℕ) (source : Text)
    → IsReported eh_frame target s
    → IsReported eh_frame target (add_function_range s address start end source)
unfolding add_function_range
range-IsReported s address target start end source (seed, found, entry, named) =
    elim (Option-cases (OrderedMap.find address s.function_seeds)) [
      | inl missing ↦ rw (missing, add_function_range) (seed, found, entry, named)
      | inr (old, there) ↦ elim (Bool-cases (leb end start)) [
        | inl empty ↦ rw (there, empty, add_function_range) (seed, found, entry, named)
        | inr proper ↦
            rw (there, proper, add_function_range)
              (ranged-IsReported s seed old address target start end source there found entry named)
      ]
    ]

range-memory :
    (s : ProgramState) (address start end : ℕ) (source : Text)
    → (add_function_range s address start end source).memory_ranges ≡ s.memory_ranges
unfolding add_function_range set_range
range-memory s address start end source =
    elim (Option-cases (OrderedMap.find address s.function_seeds)) [
      | inl missing ↦ rw (missing, add_function_range) refl
      | inr (old, there) ↦ rw (there, add_function_range) (ground arith)
    ]

sample_count :
    (samples : List Text) (sample : Text) (n : ℕ)
    → length samples ≡ min 8 n
    → length (add_sample samples sample) ≡ min 8 (n + 1)
unfolding add_sample
sample_count samples sample n h = elim (Bool-cases (ltb (length samples) 8)) [
  | inl few ↦ rw few (ground (arith, length-append samples (sample ∷ [])))
  | inr many ↦ rw many (ground arith)
]

module _ (section : SectionBytes) (r : Reader) (a : IsAccounted r) where
  sampled-IsAccounted :
      (sample : Text) → IsAccounted (record r { stats = add_unsupported_sample r.stats sample })
  unfolding add_unsupported_sample
  sampled-IsAccounted sample =
      let (sum, count, samples) = a.counts in
      let n = r.stats.unsupported_count + r.stats.hdr_unsupported_count in
      let more = sample_count r.stats.unsupported_samples sample n samples in
      let moved : n + 1 ≡ r.stats.unsupported_count + 1 + r.stats.hdr_unsupported_count =
        omega arith in
      record { counts = (sum, count, more ∙ ap (min 8) moved); found = a.found }

  module _ (record_offset pc_begin pc_range : ℕ) (ok : IsAcceptable r pc_begin pc_range) where
    -- What the accepted function does to the other functions, and to itself.
    accepted-IsFound :
        (fde : EhFrameFdeInfo)
        → (is_executable_address r.program.memory_ranges fde.pc_begin ≡ true)
        → ((pc_begin ≡ fde.pc_begin) ⊎ IsReported eh_frame fde.pc_begin r.program)
        → IsFound (accept section r record_offset pc_begin pc_range).program fde
    unfolding accept
    accepted-IsFound fde executable reason =
        let seeded = add_function_seed r.program pc_begin 0 [] eh_frame high in
        let ranges = range-memory seeded.0 pc_begin pc_begin (pc_begin + pc_range) eh_frame in
        let same = (add_function_seed-SameInput r.program pc_begin 0 [] eh_frame high).0 in
        (
          rw (ranges, same) executable,
          range-IsReported seeded.0 pc_begin fde.pc_begin pc_begin (pc_begin + pc_range) eh_frame
              (seed-IsReported r.program pc_begin fde.pc_begin eh_frame ok.begin_nonzero reason),
        )

    counted :
        (stats : EhFrameStats) (fde_address : ℕ) (inserted : Bool)
        → CountsAgree stats
        → CountsAgree (count_function stats pc_begin fde_address inserted)
    unfolding count_function
    counted stats fde_address inserted (sum, count, samples) = (
      ground arith,
      ground (
        arith,
        length-append stats.frame_fdes
            (record { pc_begin = pc_begin; fde_address = fde_address } ∷ []),
      ),
      samples,
    )

    accepted-IsAccounted : IsAccounted (accept section r record_offset pc_begin pc_range)
    unfolding accept count_function
    accepted-IsAccounted =
        let seeded = add_function_seed r.program pc_begin 0 [] eh_frame high in
        let fde : EhFrameFdeInfo = record {
          pc_begin = pc_begin;
          fde_address = record_address section record_offset;
        } in
        record {
          counts = counted r.stats (record_address section record_offset) seeded.1 a.counts;
          found =
              All-append (IsFound (accept section r record_offset pc_begin pc_range).program)
                r.stats.frame_fdes (fde ∷ [])
                (All-imp (IsFound r.program) _ r.stats.frame_fdes
                  (λ fde h. accepted-IsFound fde h.0 (inr h.1)) a.found)
                (accepted-IsFound fde ok.begin_executable (inl refl), tt);
        }

Event-IsAccounted :
    (section : SectionBytes) (r t : Reader) → Event section r t → IsAccounted r → IsAccounted t
unfolding reject reject_with count_fde count_invalid count_cie add_note
Event-IsAccounted section r _ invalid a = record { counts = a.counts; found = a.found }
Event-IsAccounted section r _ (noted note) a = record { counts = a.counts; found = a.found }
Event-IsAccounted section r _ (sampled sample) a = sampled-IsAccounted section r a sample
Event-IsAccounted section r _ cie_counted a = record { counts = a.counts; found = a.found }
Event-IsAccounted section r _ (cie_stored cies) a = record { counts = a.counts; found = a.found }
Event-IsAccounted section r _ fde_counted a = record { counts = a.counts; found = a.found }
Event-IsAccounted section r _ (accepted record_offset pc_begin pc_range ok) a =
    accepted-IsAccounted section r a record_offset pc_begin pc_range ok

-- If the FDE counters agree, and every recorded FDE starts at an executable address that is an
-- entry reported for eh-frame, then this holds after the records are read: parsed FDEs are the
-- new and the overlapping ones and as many as are recorded, and there are as many samples as
-- unsupported cases, but at most eight.
pub parse_eh_frame-IsAccounted :
    (section : SectionBytes) (r : Reader) → IsAccounted r → IsAccounted (parse_eh_frame section r)
parse_eh_frame-IsAccounted section r =
    Events-invariant IsAccounted (Event-IsAccounted section) (parse_eh_frame-Events section r)
