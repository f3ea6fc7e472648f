-- ===== src/Program/Flows.antt =====
-- lib/NativeAnalysis.cpp: computed control flow that is not resolved yet, the authority over control
-- flow, relocations and PLT stubs.
pub mod Pending
use not_dec_bin2llvm.Common.{
  ℕ, List, [], ◌∷◌, ◌++◌, Option, none, some, Bool, true, false, not, ◌==◌, if◌then◌else◌, ◌&&◌,
  ◌||◌, Text, codes, keep_if, length,
}
use not_dec_bin2llvm.Memory.{read_raw_pointer}
use not_dec_bin2llvm.OrderedMap
use not_dec_bin2llvm.Program.{
  UnresolvedFlow, UnresolvedFlowKind, indirect_call, indirect_branch, indirect_tail_branch,
  ControlFlowAuthority, unknown, gtirb, RelocationInfo, PltEntry, ProgramState, add_note,
}

unfoldable pub flow_kind_beq : UnresolvedFlowKind → UnresolvedFlowKind → Bool
flow_kind_beq indirect_call indirect_call = true
flow_kind_beq indirect_branch indirect_branch = true
flow_kind_beq indirect_tail_branch indirect_tail_branch = true
flow_kind_beq _ _ = false

-- The flow is at the address and of the kind.
unfoldable pub is_flow_at : ℕ → UnresolvedFlowKind → UnresolvedFlow → Bool
unfolding flow_kind_beq
is_flow_at address kind existing = existing.address == address && flow_kind_beq existing.kind kind

unfoldable pub has_flow : List UnresolvedFlow → ℕ → UnresolvedFlowKind → Bool
unfolding is_flow_at
has_flow [] address kind = false
has_flow (existing ∷ flows) address kind =
    is_flow_at address kind existing || has_flow flows address kind

-- `addUnresolvedFlow`.
unfoldable pub add_unresolved_flow : ProgramState → UnresolvedFlow → ProgramState × Bool
add_unresolved_flow s flow =
    if flow.address == 0
    then (s, false)
    else if has_flow s.unresolved_flows flow.address flow.kind
    then (s, false)
    else (record s { unresolved_flows = s.unresolved_flows ++ flow ∷ [] }, true)

-- What `remove_if` leaves.
unfoldable pub other_flows : List UnresolvedFlow → ℕ → UnresolvedFlowKind → List UnresolvedFlow
other_flows [] address kind = []
other_flows (existing ∷ flows) address kind =
    if is_flow_at address kind existing
    then other_flows flows address kind
    else existing ∷ other_flows flows address kind

-- `removeUnresolvedFlow`.
unfoldable pub remove_unresolved_flow : ProgramState → ℕ → UnresolvedFlowKind → ProgramState × Bool
remove_unresolved_flow s address kind =
    let rest = other_flows s.unresolved_flows address kind in
    (record s { unresolved_flows = rest }, not (length rest == length s.unresolved_flows))

unfoldable pub authority_beq : ControlFlowAuthority → ControlFlowAuthority → Bool
authority_beq unknown unknown = true
authority_beq gtirb gtirb = true
authority_beq _ _ = false

-- `setControlFlowAuthority`: the first known authority stays.
unfoldable pub set_control_flow_authority : ProgramState → ControlFlowAuthority → ProgramState
unfolding authority_beq
set_control_flow_authority s authority =
    if authority_beq authority unknown || authority_beq s.control_flow_authority authority
    then s
    else if not (authority_beq s.control_flow_authority unknown)
    then add_note s (codes "native control-flow authority already set")
    else record s { control_flow_authority = authority }

-- `addRelocation`, `addRelocatedPointer` and `addPltEntry`.
unfoldable pub add_relocation : ProgramState → RelocationInfo → ProgramState
add_relocation s relocation = record s { relocations = s.relocations ++ relocation ∷ [] }

unfoldable pub add_relocated_pointer : ProgramState → ℕ → ℕ → ProgramState
add_relocated_pointer s address value = record s {
  relocated_pointers = OrderedMap.insert address value s.relocated_pointers;
}

unfoldable pub add_plt_entry : ProgramState → PltEntry → ProgramState
add_plt_entry s entry = record s { plt_entries = s.plt_entries ++ entry ∷ [] }

-- `readPointer`: a relocated pointer wins over the bytes of the file.
unfoldable pub read_pointer : ProgramState → ℕ → Option ℕ
read_pointer s address = elim (OrderedMap.find address s.relocated_pointers) [
  | some value ↦ some value
  | none ↦ read_raw_pointer s.pointer_size s.memory_ranges address
]

plt_lookup : List PltEntry → ℕ → Option Text
plt_lookup [] address = none
plt_lookup (entry ∷ entries) address =
    if entry.stub_address == address then some entry.symbol_name else plt_lookup entries address

-- `lookupPltExternal`.
unfoldable pub lookup_plt_external : ProgramState → ℕ → Option Text
unfolding plt_lookup
lookup_plt_external s address = plt_lookup s.plt_entries address
