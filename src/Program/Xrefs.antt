-- ===== src/Program/Xrefs.antt =====
-- lib/NativeAnalysis.cpp: cross references, with an index of places by source and one by target.
pub mod Index
use not_dec_bin2llvm.Common.{
  ℕ, List, [], ◌∷◌, ◌++◌, Option, none, some, Bool, true, false, ◌==◌, if◌then◌else◌, ◌&&◌, ◌||◌,
  length, get_elem?, text_beq,
}
use not_dec_bin2llvm.OrderedMap
use not_dec_bin2llvm.Program.{Xref, XrefKind, flow, call, data_reference, string, ProgramState}

unfoldable pub kind_beq : XrefKind → XrefKind → Bool
kind_beq flow flow = true
kind_beq call call = true
kind_beq data_reference data_reference = true
kind_beq string string = true
kind_beq _ _ = false

-- The places under a key; a missing key is an empty vector.
unfoldable pub places : List (ℕ × List ℕ) → ℕ → List ℕ
places index key = elim (OrderedMap.find key index) [ none ↦ [] | some found ↦ found ]

-- `index[key].push_back(place)`.
unfoldable pub add_place : List (ℕ × List ℕ) → ℕ → ℕ → List (ℕ × List ℕ)
add_place index key place = OrderedMap.insert key (places index key ++ place ∷ []) index

-- The xrefs at the places; every place is in range.
unfoldable pub at_places : List Xref → List ℕ → List Xref
at_places xrefs [] = []
at_places xrefs (place ∷ rest) = elim (get_elem? xrefs place) [
  | none ↦ at_places xrefs rest
  | some xref ↦ xref ∷ at_places xrefs rest
]

-- `xrefsFrom` and `xrefsTo`.
unfoldable pub xrefs_from : ProgramState → ℕ → List Xref
xrefs_from s address = at_places s.xrefs (places s.xrefs_by_from address)

unfoldable pub xrefs_to : ProgramState → ℕ → List Xref
xrefs_to s address = at_places s.xrefs (places s.xrefs_by_to address)

-- The test of the loop over the xrefs with the same source.
unfoldable pub same_xref : Xref → Xref → Bool
unfolding kind_beq text_beq
same_xref existing xref =
    existing.to == xref.to
    && (kind_beq existing.kind xref.kind && text_beq existing.source xref.source)

unfoldable pub has_same_xref : List Xref → Xref → Bool
has_same_xref [] xref = false
has_same_xref (existing ∷ rest) xref = same_xref existing xref || has_same_xref rest xref

-- `addXref`.
unfoldable pub add_xref : ProgramState → Xref → ProgramState
add_xref s xref =
    if xref.from == 0 || xref.to == 0
    then s
    else if has_same_xref (xrefs_from s xref.from) xref
    then s
    else record s {
      xrefs = s.xrefs ++ xref ∷ [];
      xrefs_by_from = add_place s.xrefs_by_from xref.from (length s.xrefs);
      xrefs_by_to = add_place s.xrefs_by_to xref.to (length s.xrefs);
    }
