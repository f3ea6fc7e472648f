-- ===== src/EhFrame/Compare/Laws.antt =====
-- What the counters of `compareEhFrameHdr` say of the two tables.
use not_dec_bin2llvm.Common.{
  ℕ, [], ◌∷◌, ◌+◌, ◌<◌, List, true, none, some, Option, length, Option-cases, Bool-cases, inl, inr,
  ◌==◌, ◌≡◌, ◌≢◌, ◌↔◌, ◌⊎◌, ==_iff, refl, ◌∙◌, ap, arith, All, All-imp, contains, nat_eq,
  if◌then◌else◌,
}
use not_dec_bin2llvm.OrderedMap
use not_dec_bin2llvm.OrderedMap.Laws.{find-insert}
use not_dec_bin2llvm.EhFrame.{
  EhFrameStats, EhFrameFdeInfo, EhFrameHdrEntry, add_hdr_mismatch_sample,
}
use not_dec_bin2llvm.EhFrame.Compare.{
  fde_by_start, count_missing, count_matched, count_address, compare_found, compare_entries,
  hdr_starts, count_extra, compare_frames, compare_eh_frame_hdr,
}

-- The address of the last FDE that starts there.
unfoldable pub last_fde : List EhFrameFdeInfo → ℕ → Option ℕ
last_fde [] start = none
last_fde (fde ∷ fdes) start = elim (last_fde fdes start) [
  | none ↦ if fde.pc_begin == start then some fde.fde_address else none
  | some address ↦ some address
]

-- The row names the FDE of the function that it starts.
abbrev pub NamesItsFde : List EhFrameFdeInfo → EhFrameHdrEntry → Type 0
NamesItsFde fdes entry = last_fde fdes entry.initial_location ≡ some entry.entry_fde_address

abbrev pub HasRow : List EhFrameHdrEntry → EhFrameFdeInfo → Type 0
HasRow entries fde = contains (hdr_starts entries) fde.pc_begin ≡ true

or_else : Option ℕ → Option ℕ → Option ℕ
or_else none o = o
or_else (some a) o = some a

by_start-last_fde :
    (fdes : List EhFrameFdeInfo) (m : List (ℕ × ℕ)) (start : ℕ)
    → OrderedMap.find start (fde_by_start fdes m)
      ≡ or_else (last_fde fdes start) (OrderedMap.find start m)
unfolding fde_by_start last_fde or_else
by_start-last_fde [] m start = refl
by_start-last_fde (fde ∷ fdes) m start =
    let later = by_start-last_fde fdes (OrderedMap.insert fde.pc_begin fde.fde_address m) start in
    elim (Option-cases (last_fde fdes start)) [
      | inl absent ↦
          rw (absent, last_fde, later, absent)
            (rw (find-insert fde.pc_begin start fde.fde_address m) (ground arith))
      | inr (address, found) ↦ rw (found, last_fde, later, found) refl
    ]

pub found_last :
    (fdes : List EhFrameFdeInfo) (start : ℕ)
    → OrderedMap.find start (fde_by_start fdes []) ≡ last_fde fdes start
unfolding or_else OrderedMap.find
found_last fdes start = elim (Option-cases (last_fde fdes start)) [
  | inl absent ↦ rw (by_start-last_fde fdes [] start, absent) refl
  | inr (address, found) ↦ rw (by_start-last_fde fdes [] start, found) refl
]

-- Rows without their FDE, or with another address.
abbrev pub faults : EhFrameStats → ℕ
faults stats = stats.hdr_missing_in_frame + stats.hdr_fde_address_mismatches

-- Every row is matched or missing, and every match has the address or another one.
abbrev pub Tallies : EhFrameStats → EhFrameStats → ℕ → Type 0
Tallies stats t rows =
    (t.hdr_matched_starts + t.hdr_missing_in_frame
      ≡ stats.hdr_matched_starts + stats.hdr_missing_in_frame + rows)
    × (t.hdr_fde_address_matches + t.hdr_fde_address_mismatches + stats.hdr_matched_starts
        ≡ stats.hdr_fde_address_matches + stats.hdr_fde_address_mismatches + t.hdr_matched_starts)

-- The counters of one round.
found_counts :
    (stats : EhFrameStats) (entry : EhFrameHdrEntry) (o : Option ℕ)
    → let t = compare_found stats entry o in
      Tallies stats t 1
      × (t.hdr_extra_frame_fdes ≡ stats.hdr_extra_frame_fdes)
      × (((o ≡ some entry.entry_fde_address) × (faults t ≡ faults stats))
          ⊎ ((o ≢ some entry.entry_fde_address) × (faults t ≡ faults stats + 1)))
unfolding compare_found count_missing count_matched count_address add_hdr_mismatch_sample
found_counts stats entry none = ((omega arith, omega arith), refl, inr (λ e. cc, omega arith))
found_counts stats entry (some frame) = elim (Bool-cases (frame == entry.entry_fde_address)) [
  | inl same ↦ rw same ((omega arith, omega arith), refl, inl (ap some ((==_iff _ _).0 same), refl))
  | inr other ↦
      rw other ((omega arith, omega arith), refl, inr (λ e. ground (arith, other), omega arith))
]

-- The loop over the rows, for the map of the FDEs by their starts.
entries_counts :
    (m : List (ℕ × ℕ)) (entries : List EhFrameHdrEntry) (stats : EhFrameStats)
    → let t = compare_entries m entries stats in
      let Names =
        All
          (λ (e : EhFrameHdrEntry). OrderedMap.find e.initial_location m ≡ some e.entry_fde_address)
          entries in
      Tallies stats t (length entries)
      × (t.hdr_extra_frame_fdes ≡ stats.hdr_extra_frame_fdes)
      × ((Names × (faults t ≡ faults stats)) ⊎ ((¬ Names) × (faults stats < faults t)))
unfolding compare_entries
entries_counts m [] stats = ((omega arith, omega arith), refl, inl (tt, refl))
entries_counts m (entry ∷ entries) stats =
    let o = OrderedMap.find entry.initial_location m in
    let u = compare_found stats entry o in
    let ((a, b), c, d) = found_counts stats entry o in
    let ((a', b'), c', d') = entries_counts m entries u in
    (
      (omega arith, omega arith),
      c' ∙ c,
      elim d [
        | inl (here, kept) ↦ elim d' [
          | inl (there, same) ↦ inl ((here, there), same ∙ kept)
          | inr (none_there, more) ↦ inr (λ h. none_there h.1, omega arith)
        ]
        | inr (not_here, raised) ↦ elim d' [
          | inl (there, same) ↦ inr (λ h. not_here h.0, omega arith)
          | inr (none_there, more) ↦ inr (λ h. not_here h.0, omega arith)
        ]
      ],
    )

SameRows : EhFrameStats → EhFrameStats → Type 0
SameRows stats t =
    (t.hdr_matched_starts ≡ stats.hdr_matched_starts)
    × (t.hdr_missing_in_frame ≡ stats.hdr_missing_in_frame)
    × (t.hdr_fde_address_matches ≡ stats.hdr_fde_address_matches)
    × (t.hdr_fde_address_mismatches ≡ stats.hdr_fde_address_mismatches)

-- The loop over the FDEs.
frames_counts :
    (starts : List ℕ) (fdes : List EhFrameFdeInfo) (stats : EhFrameStats)
    → let t = compare_frames starts fdes stats in
      let Rows = All (λ (fde : EhFrameFdeInfo). contains starts fde.pc_begin ≡ true) fdes in
      SameRows stats t
      × ((Rows × (t.hdr_extra_frame_fdes ≡ stats.hdr_extra_frame_fdes))
          ⊎ ((¬ Rows) × (stats.hdr_extra_frame_fdes < t.hdr_extra_frame_fdes)))
unfolding compare_frames SameRows count_extra add_hdr_mismatch_sample
frames_counts starts [] stats = ((refl, refl, refl, refl), inl (tt, refl))
frames_counts starts (fde ∷ fdes) stats = elim (Bool-cases (contains starts fde.pc_begin)) [
  | inl there ↦
      let (same, rows) = frames_counts starts fdes stats in
      rw (there, compare_frames)
        (same, elim rows [ inl (h, e) ↦ inl ((refl, h), e) | inr (h, e) ↦ inr (λ k. h k.1, e) ])
  | inr absent ↦
      let (same, rows) = frames_counts starts fdes (count_extra stats fde.pc_begin) in
      rw (absent, compare_frames)
        (
          same,
          elim rows [
            | inl (h, e) ↦ inr (λ k. cc, omega arith)
            | inr (h, e) ↦ inr (λ k. cc, omega arith)
          ],
        )
]

Names-last :
    (fdes : List EhFrameFdeInfo) (entries : List EhFrameHdrEntry)
    → All
        (λ (e : EhFrameHdrEntry).
          OrderedMap.find e.initial_location (fde_by_start fdes []) ≡ some e.entry_fde_address)
        entries
      ↔ All (NamesItsFde fdes) entries
Names-last fdes entries = (
  All-imp _ (NamesItsFde fdes) entries (λ e h. rw (← found_last fdes e.initial_location) h),
  All-imp (NamesItsFde fdes) _ entries (λ e h. rw (found_last fdes e.initial_location) h),
)

-- Every row of the search table is counted as matched or missing and every match as one with the
-- same address or another one; and nothing is counted as missing, mismatched or extra exactly if
-- every row names the last FDE with its start and the start of every FDE has a row.
pub compare_eh_frame_hdr-Agrees :
    (stats : EhFrameStats)
    → let t = compare_eh_frame_hdr stats in
      Tallies stats t (length stats.hdr_entries)
      × (((faults t ≡ faults stats) × (t.hdr_extra_frame_fdes ≡ stats.hdr_extra_frame_fdes)) ↔ (
          All (NamesItsFde stats.frame_fdes) stats.hdr_entries
          × All (HasRow stats.hdr_entries) stats.frame_fdes))
unfolding compare_eh_frame_hdr SameRows
compare_eh_frame_hdr-Agrees stats =
    let m = fde_by_start stats.frame_fdes [] in
    let u = compare_entries m stats.hdr_entries stats in
    let names = Names-last stats.frame_fdes stats.hdr_entries in
    let ((a, b), c, d) = entries_counts m stats.hdr_entries stats in
    let ((p, q, x, y), rows) = frames_counts (hdr_starts stats.hdr_entries) stats.frame_fdes u in
    (
      (omega arith, omega arith),
      (
        λ (faulty, extra). (
          elim d [ inl (all, e) ↦ names.0 all | inr (fails, more) ↦ absurd (omega arith) ],
          elim rows [ inl (all, e) ↦ all | inr (fails, more) ↦ absurd (omega arith) ],
        ),
        λ (all_names, all_rows). (
          elim d [
            | inl (all, e) ↦ omega arith
            | inr (fails, more) ↦ absurd (fails (names.1 all_names))
          ],
          elim rows [ inl (all, e) ↦ e ∙ c | inr (fails, more) ↦ absurd (fails all_rows) ],
        ),
      ),
    )
