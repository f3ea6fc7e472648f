-- ===== src/Analyzers/Relocations/Validity.antt =====
-- `RelocationPltAnalyzer` keeps the state well formed.
use not_dec_bin2llvm.Common.{
  ℕ, List, [], ◌∷◌, ◌++◌, Option, none, some, ◌==◌, Text, codes, add64, Bool-cases, inl, inr,
}
use not_dec_bin2llvm.Memory.{is_mapped_address}
use not_dec_bin2llvm.Numbers.{hex_address}
use not_dec_bin2llvm.Program.{x86_64, i386, other, RelocationInfo, Xref, ProgramState, add_note}
use not_dec_bin2llvm.Program.Xrefs.{add_xref}
use not_dec_bin2llvm.Program.Flows.{add_relocation, add_relocated_pointer}
use not_dec_bin2llvm.Program.Calls.{step, adds_relocation, adds_relocated_pointer, adds_xref}
use not_dec_bin2llvm.Program.Calls.Invariant.{IsValid, step-IsValid}
use not_dec_bin2llvm.Analyzers.Relocations.Plt.{add_plt_entries, add_plt_got_entries}
use not_dec_bin2llvm.Analyzers.Relocations.{
  Relocation, Collected, relocation_info, relocation_addend_for_pointer_value,
  is_relative_relocation, is_glob_dat_relocation, is_jump_slot_relocation,
  is_absolute_external_function_pointer_relocation, is_i_relative_relocation, symbol_value,
  with_state, collect_relative, glob_dat_info, collect_glob_dat, collect_jump_slot,
  collect_i_relative, absolute_status, collect, collect_all, pointer_kind, add_pointer_xrefs,
  add_relocation_pointer_xrefs, finish_relocations, run_relocation_plt,
  supports_relocation_plt_analysis,
}
use not_dec_bin2llvm.Analyzers.Entries.Validity.{note-IsValid}
use not_dec_bin2llvm.Analyzers.Relocations.Tables.{plt_entries-IsValid, got_entries-IsValid}

relocation-IsValid :
    (s : ProgramState) (info : RelocationInfo) → IsValid s → IsValid (add_relocation s info)
unfolding step
relocation-IsValid s info v = step-IsValid s (adds_relocation info) tt v

pointer-IsValid :
    (s : ProgramState) (address value : ℕ)
    → IsValid s
    → IsValid (add_relocated_pointer s address value)
unfolding step
pointer-IsValid s address value v = step-IsValid s (adds_relocated_pointer address value) tt v

relative-IsValid :
    (c : Collected) (r : Relocation) (addend : Option ℕ)
    → IsValid c.state
    → IsValid (collect_relative c r addend).state
unfolding collect_relative with_state
relative-IsValid c r none v =
    relocation-IsValid
      (add_note c.state
        (codes "could not read implicit relocation addend at " ++ hex_address r.address))
      (relocation_info r (codes "unsupported") r.addend none)
      (note-IsValid c.state
        (codes "could not read implicit relocation addend at " ++ hex_address r.address) v)
relative-IsValid c r (some addend) v =
    relocation-IsValid (add_relocated_pointer c.state r.address addend)
      (relocation_info r (codes "applied") addend (some addend))
      (pointer-IsValid c.state r.address addend v)

i_relative-IsValid :
    (c : Collected) (r : Relocation) (addend : Option ℕ)
    → IsValid c.state
    → IsValid (collect_i_relative c r addend).state
unfolding collect_i_relative with_state
i_relative-IsValid c r none v =
    relocation-IsValid
      (add_note c.state
        (codes "could not read implicit resolver addend at " ++ hex_address r.address))
      (relocation_info r (codes "unsupported") r.addend none)
      (note-IsValid c.state
        (codes "could not read implicit resolver addend at " ++ hex_address r.address) v)
i_relative-IsValid c r (some addend) v =
    relocation-IsValid c.state (relocation_info r (codes "resolver") addend (some addend)) v

glob_dat-IsValid :
    (c : Collected) (r : Relocation) → IsValid c.state → IsValid (collect_glob_dat c r).state
unfolding collect_glob_dat
glob_dat-IsValid c r v =
    let moved = add_relocated_pointer c.state r.address (add64 (symbol_value r.symbol) r.addend) in
    elim (Bool-cases (symbol_value r.symbol == 0)) [
      | inl external ↦ rw external (relocation-IsValid c.state (glob_dat_info r) v)
      | inr local ↦ rw local (
          relocation-IsValid moved (glob_dat_info r)
            (pointer-IsValid c.state r.address (add64 (symbol_value r.symbol) r.addend) v))
    ]

collect-IsValid : (c : Collected) (r : Relocation) → IsValid c.state → IsValid (collect c r).state
unfolding collect collect_jump_slot with_state
collect-IsValid c r v =
    let addend = relocation_addend_for_pointer_value c.state r in
    let plain =
      λ (status : Text). relocation-IsValid c.state (relocation_info r status r.addend none) v in
    let absolute = plain (absolute_status r) in
    let slot = plain (codes "external") in
    let unsupported = plain (codes "unsupported") in
    elim (Bool-cases (is_relative_relocation c.state.machine r.type)) [
      | inl a ↦ rw a (relative-IsValid c r addend v)
      | inr a ↦ elim (Bool-cases (is_glob_dat_relocation c.state.machine r.type)) [
        | inl b ↦ rw (a, b) (glob_dat-IsValid c r v)
        | inr b ↦ elim (Bool-cases (is_jump_slot_relocation c.state.machine r.type)) [
          | inl d ↦ rw (a, b, d) slot
          | inr d ↦
              elim (Bool-cases
                (is_absolute_external_function_pointer_relocation c.state.machine r.type)) [
                  | inl e ↦ rw (a, b, d, e) absolute
                  | inr e ↦ elim (Bool-cases (is_i_relative_relocation c.state.machine r.type)) [
                    | inl f ↦ rw (a, b, d, e, f) (i_relative-IsValid c r addend v)
                    | inr f ↦ rw (a, b, d, e, f) unsupported
                  ]
                ]
        ]
      ]
    ]

collect_all-IsValid :
    (c : Collected) (rs : List Relocation) → IsValid c.state → IsValid (collect_all c rs).state
unfolding collect_all
collect_all-IsValid c [] v = v
collect_all-IsValid c (r ∷ rs) v = collect_all-IsValid (collect c r) rs (collect-IsValid c r v)

pointer_xrefs-IsValid :
    (s : ProgramState) (pointers : List (ℕ × ℕ))
    → IsValid s
    → IsValid (add_pointer_xrefs s pointers)
unfolding add_pointer_xrefs step
pointer_xrefs-IsValid s [] v = v
pointer_xrefs-IsValid s ((address, target) ∷ pointers) v =
    let xref : Xref = record {
      from = address;
      to = target;
      kind = (pointer_kind s target).0;
      source = (pointer_kind s target).1;
    } in
    elim (Bool-cases (is_mapped_address s.memory_ranges target)) [
      | inl mapped ↦
          rw mapped (
            pointer_xrefs-IsValid (add_xref s xref) pointers (step-IsValid s (adds_xref xref) tt v))
      | inr unmapped ↦ rw unmapped (pointer_xrefs-IsValid s pointers v)
    ]

finish-IsValid : (c : Collected) → IsValid c.state → IsValid (finish_relocations c)
unfolding finish_relocations add_relocation_pointer_xrefs
finish-IsValid c v =
    let rest = λ (s : ProgramState) (w : IsValid s).
      let t = add_plt_entries s c.jump_slots in
      pointer_xrefs-IsValid t t.relocated_pointers (plt_entries-IsValid s c.jump_slots w) in
    elim c.state.machine
      as (λ m.
        let t : ProgramState = elim m [
          | x86_64 ↦ add_plt_got_entries c.state c.glob_dat_functions
          | _ ↦ c.state
        ] in
        IsValid (
          add_pointer_xrefs (add_plt_entries t c.jump_slots)
            (add_plt_entries t c.jump_slots).relocated_pointers)) [
              | x86_64 ↦
                  rest (add_plt_got_entries c.state c.glob_dat_functions)
                    (got_entries-IsValid c.state c.glob_dat_functions v)
              | i386 ↦ rest c.state v
              | other ↦ rest c.state v
            ]

-- The relocation and PLT analyzer keeps a well-formed state well formed, whatever relocations the
-- file has.
pub relocation_plt-IsValid :
    (architecture : Text) (relocations : List Relocation) (s : ProgramState)
    → IsValid s
    → IsValid (run_relocation_plt architecture relocations s)
unfolding run_relocation_plt
relocation_plt-IsValid architecture relocations s v =
    let first : Collected = record { state = s; jump_slots = []; glob_dat_functions = [] } in
    elim (Bool-cases (supports_relocation_plt_analysis s.machine)) [
      | inl supported ↦
          rw supported (
            finish-IsValid (collect_all first relocations)
              (collect_all-IsValid first relocations v))
      | inr unsupported ↦ rw unsupported (
          note-IsValid s
            (codes "relocation/PLT analysis currently supports x86-64 and i386 ELF only; got "
              ++ architecture)
            v)
    ]
