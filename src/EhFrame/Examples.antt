-- ===== src/EhFrame/Examples.antt =====
-- Tests of the eh-frame reader on a section of one CIE and one FDE, and the witnesses.
use not_dec_bin2llvm.Common.{
  ℕ, suc, List, [], ◌∷◌, ◌++◌, ◌+◌, ◌-◌, ◌*◌, ◌%◌, ◌^◌, ◌<◌, ◌≤◌, some, true, false, codes, ◌≡◌,
  ◌↔◌, refl, arith, length, All, add64, sub64, text_beq,
}
use not_dec_bin2llvm.OrderedMap
use not_dec_bin2llvm.Memory.{MemoryRange, read_bytes}
use not_dec_bin2llvm.Program.Seeds.{insert_seed, set_range, push_work}
use not_dec_bin2llvm.Program.{initial_state, x86_64}
use not_dec_bin2llvm.Program.Calls.Invariant.{IsValid, initial_state-IsValid}
use not_dec_bin2llvm.EhFrame.Validity.{run_eh_frame-IsValid}
use not_dec_bin2llvm.EhFrame.{EhFrameState, EhFrameStats, no_stats, ok}
use not_dec_bin2llvm.EhFrame.Bytes.{read_uleb128}
use not_dec_bin2llvm.EhFrame.Encodings.{apply_delta, decode_encoded_address}
use not_dec_bin2llvm.EhFrame.Records.{Reader, SectionBytes, store_cie}
use not_dec_bin2llvm.EhFrame.Frames.{parse_rounds, parse_eh_frame}
use not_dec_bin2llvm.EhFrame.Header.{table_loop}
use not_dec_bin2llvm.EhFrame.Header.Table.{TableOutcome, table_loop-bounded}
use not_dec_bin2llvm.EhFrame.Compare.{compare_eh_frame_hdr, run_eh_frame}
use not_dec_bin2llvm.EhFrame.Compare.Laws.{
  Tallies, faults, NamesItsFde, HasRow, compare_eh_frame_hdr-Agrees,
}
use not_dec_bin2llvm.EhFrame.Rounds.{Walk, parse_eh_frame-Walk}
use not_dec_bin2llvm.EhFrame.Ledger.{IsAccounted, parse_eh_frame-IsAccounted}
use not_dec_bin2llvm.EhFrame.Relative.{IsSum, apply_delta_iff, four_bytes, decode_four_bytes}
use not_dec_bin2llvm.EhFrame.Leb.{uleb128, read_uleb128-uleb128}

abbrev cie_bytes : List ℕ
cie_bytes = 13 ∷ 0 ∷ 0 ∷ 0 ∷ 0 ∷ 0 ∷ 0 ∷ 0 ∷ 1 ∷ b'z' ∷ b'R' ∷ 0 ∷ 1 ∷ 0x78 ∷ 16 ∷ 1 ∷ 0x1b ∷ []

abbrev fde_bytes : List ℕ
fde_bytes =
    12 ∷ 0 ∷ 0 ∷ 0 ∷ 21 ∷ 0 ∷ 0 ∷ 0 ∷ 0xe7 ∷ 0xef ∷ 0xff ∷ 0xff ∷ 0x10 ∷ 0 ∷ 0 ∷ 0 ∷ 0 ∷ 0 ∷ 0 ∷ 0
    ∷ []

-- Version 1, a pointer to the frame, one row, and its two numbers relative to the section.
abbrev hdr_bytes : List ℕ
hdr_bytes =
    1 ∷ 0x1b ∷ 0x03 ∷ 0x3b ∷ 0xfc ∷ 0xef ∷ 0xff ∷ 0xff ∷ 1 ∷ 0 ∷ 0 ∷ 0 ∷ 0 ∷ 0xe0 ∷ 0xff ∷ 0xff
    ∷ 0x11 ∷ 0xf0 ∷ 0xff ∷ 0xff ∷ []

abbrev ranges : List MemoryRange
ranges =
    record {
      start = 0x1000;
      size = 0x100;
      readable = true;
      writable = false;
      executable = true;
      bytes = [];
    }
    ∷ record {
      start = 0x2000;
      size = 0x100;
      readable = true;
      writable = false;
      executable = false;
      bytes = cie_bytes ++ fde_bytes;
    }
    ∷ record {
      start = 0x3000;
      size = 0x100;
      readable = true;
      writable = false;
      executable = false;
      bytes = hdr_bytes;
    }
    ∷ []

abbrev start_state : EhFrameState
start_state = record {
  program = initial_state x86_64 8 ranges (
      record { name = codes ".eh_frame"; address = 0x2000; size = 37; executable = false }
      ∷ record { name = codes ".eh_frame_hdr"; address = 0x3000; size = 20; executable = false }
      ∷ []);
  stats = no_stats;
}

run_sample :
    let t = run_eh_frame start_state in
    (t.stats.frame_fdes ≡ record { pc_begin = 0x1000; fde_address = 0x2011 } ∷ [])
    × (t.stats.hdr_entries ≡ record { initial_location = 0x1000; entry_fde_address = 0x2011 } ∷ [])
    × (t.stats.hdr_fde_address_matches ≡ 1)
    × (t.program.function_worklist ≡ record { address = 0x1000; source = codes "eh-frame" } ∷ [])
unfolding run_eh_frame initial_state text_beq read_bytes OrderedMap.find store_cie OrderedMap.insert
    insert_seed set_range compare_eh_frame_hdr push_work
run_sample = (refl, refl, refl, refl)

abbrev section : SectionBytes
section = record { section_address = 0x2000; bytes = cie_bytes ++ fde_bytes }

abbrev reader : Reader
reader = record { program = start_state.program; stats = no_stats; cies = [] }

parse_eh_frame-Walk_example :
    let rounds = parse_rounds (suc (length section.bytes) + 5) section reader 0 in
    (rounds ≡ (parse_eh_frame section reader, true))
    × ((t : Reader) → Walk section reader 0 t ↔ (parse_eh_frame section reader ≡ t))
parse_eh_frame-Walk_example = parse_eh_frame-Walk section reader 5

parse_eh_frame-IsAccounted_example : IsAccounted (parse_eh_frame section reader)
parse_eh_frame-IsAccounted_example =
    parse_eh_frame-IsAccounted section reader (record { counts = (refl, refl, refl); found = tt })

apply_delta_iff_example :
    (apply_delta 0x1000 (2 ^ 64 - 0x10) ≡ some 0xff0)
    ↔ ((0xff0 < 2 ^ 64) × IsSum 0x1000 (2 ^ 64 - 0x10) 0xff0)
apply_delta_iff_example = apply_delta_iff 0x1000 (2 ^ 64 - 0x10) 0xff0 (omega arith) (omega arith)

decode_four_bytes_example :
    decode_encoded_address 8 0x2000
      ((7 ∷ 7 ∷ []) ++ (four_bytes (sub64 0x1000 (add64 0x2000 2) % 2 ^ 32) ++ 9 ∷ []))
      2
      7
      0x1b
    ≡ ok (6, 0x1000)
decode_four_bytes_example =
    decode_four_bytes 8 0x2000 0x1000 7 (7 ∷ 7 ∷ []) (9 ∷ []) (omega arith) (omega arith)
      (omega arith) (omega arith)

read_uleb128-uleb128_example :
    read_uleb128 ((5 ∷ []) ++ (uleb128 300 ++ 1 ∷ [])) 1 4 ≡ ok (1 + length (uleb128 300), 300)
unfolding uleb128
read_uleb128-uleb128_example =
    read_uleb128-uleb128 (5 ∷ []) (1 ∷ []) 300 4 (omega arith) (unfold uleb128 in omega arith)

-- Two rows, of which the second has no FDE.
abbrev two_rows : EhFrameStats
two_rows = record no_stats {
  frame_fdes = record { pc_begin = 0x1000; fde_address = 0x2011 } ∷ [];
  hdr_entries =
      record { initial_location = 0x1000; entry_fde_address = 0x2011 }
      ∷ record { initial_location = 0x1010; entry_fde_address = 0x2022 }
      ∷ [];
}

compare_eh_frame_hdr-Agrees_example :
    let t = compare_eh_frame_hdr two_rows in
    Tallies two_rows t 2
    × (((faults t ≡ 0) × (t.hdr_extra_frame_fdes ≡ 0)) ↔ (
        All (NamesItsFde two_rows.frame_fdes) two_rows.hdr_entries
        × All (HasRow two_rows.hdr_entries) two_rows.frame_fdes))
compare_eh_frame_hdr-Agrees_example = compare_eh_frame_hdr-Agrees two_rows

abbrev hdr_section : SectionBytes
hdr_section = record { section_address = 0x3000; bytes = hdr_bytes }

table_loop-bounded_example :
    let t = table_loop 3 8 hdr_section 0x3b 12 no_stats in
    TableOutcome no_stats t 3 × (8 * length t.hdr_entries + 12 ≤ 20)
table_loop-bounded_example = table_loop-bounded 3 8 hdr_section 0x3b 12 no_stats (omega arith)

run_eh_frame-IsValid_example : IsValid (run_eh_frame start_state).program
unfolding initial_state
run_eh_frame-IsValid_example =
    run_eh_frame-IsValid start_state
      (initial_state-IsValid x86_64 8 ranges start_state.program.sections)
