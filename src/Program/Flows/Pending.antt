-- ===== src/Program/Flows/Pending.antt =====
-- The list of unresolved flows: adding and removing, and no flow twice.
use not_dec_bin2llvm.Common.{
  ℕ, ◌≤◌, List, [], ◌∷◌, ◌++◌, some, Bool, true, false, not, ◌==◌, ◌||◌, ◌&&◌, if◌then◌else◌,
  length, ◌≡◌, ◌≢◌, refl, arith, inl, inr, Bool-cases,
}
use not_dec_bin2llvm.OrderedMap.Laws.{find-insert}
use not_dec_bin2llvm.Program.{UnresolvedFlow, UnresolvedFlowKind, ProgramState}
use not_dec_bin2llvm.Program.Flows.{
  flow_kind_beq, is_flow_at, has_flow, add_unresolved_flow, other_flows, remove_unresolved_flow,
  add_relocated_pointer, read_pointer,
}

flow_kind_beq_refl : (k : UnresolvedFlowKind) → flow_kind_beq k k ≡ true
unfolding flow_kind_beq
flow_kind_beq_refl k = ground arith

has_flow-append :
    (xs ys : List UnresolvedFlow) (a : ℕ) (k : UnresolvedFlowKind)
    → has_flow (xs ++ ys) a k ≡ has_flow xs a k || has_flow ys a k
unfolding has_flow
has_flow-append [] ys a k = refl
has_flow-append (x ∷ xs) ys a k = ground (arith, has_flow-append xs ys a k)

-- A flow with an address is pending once it was added, whether or not it was before; the result
-- says whether it is new.
pub add_unresolved_flow_effect :
    (s : ProgramState) (flow : UnresolvedFlow)
    → flow.address ≢ 0
    → let r = add_unresolved_flow s flow in
      (has_flow r.0.unresolved_flows flow.address flow.kind ≡ true)
      × (r.1 ≡ not (has_flow s.unresolved_flows flow.address flow.kind))
unfolding add_unresolved_flow has_flow is_flow_at
add_unresolved_flow_effect s flow h = ground (
  arith,
  has_flow-append s.unresolved_flows (flow ∷ []) flow.address flow.kind,
  flow_kind_beq_refl flow.kind,
)

flow_kind_beq_trans :
    (j k l : UnresolvedFlowKind) → flow_kind_beq j k ≡ true → flow_kind_beq j l ≡ flow_kind_beq k l
unfolding flow_kind_beq
flow_kind_beq_trans j k l h = ground arith

-- The same place and kind.
abbrev pub same_key : ℕ → UnresolvedFlowKind → ℕ → UnresolvedFlowKind → Bool
same_key a k b l = a == b && flow_kind_beq k l

is_flow_at_hit :
    (x : UnresolvedFlow) (a b : ℕ) (k l : UnresolvedFlowKind)
    → is_flow_at a k x ≡ true
    → is_flow_at b l x ≡ same_key a k b l
unfolding is_flow_at
is_flow_at_hit x a b k l h = ground (arith, flow_kind_beq_trans x.kind k l)

is_flow_at_same :
    (x : UnresolvedFlow) (a b : ℕ) (k l : UnresolvedFlowKind)
    → same_key a k b l ≡ true
    → is_flow_at b l x ≡ is_flow_at a k x
unfolding is_flow_at flow_kind_beq
is_flow_at_same x a b k l h = ground arith

-- Removing takes away the flows at the address of the kind, and no other.
has_flow-other_flows :
    (xs : List UnresolvedFlow) (a b : ℕ) (k l : UnresolvedFlowKind)
    → has_flow (other_flows xs a k) b l ≡ has_flow xs b l && not (same_key a k b l)
unfolding has_flow other_flows
has_flow-other_flows [] a b k l = refl
has_flow-other_flows (x ∷ xs) a b k l = elim (Bool-cases (is_flow_at a k x)) [
  | inl hit ↦
      rw (hit, other_flows, has_flow-other_flows xs a b k l)
        (ground (arith, is_flow_at_hit x a b k l hit))
  | inr miss ↦
      rw (miss, other_flows, has_flow, has_flow-other_flows xs a b k l)
        (ground (arith, is_flow_at_same x a b k l))
]

length-other_flows :
    (xs : List UnresolvedFlow) (a : ℕ) (k : UnresolvedFlowKind)
    → (length (other_flows xs a k) ≤ length xs)
      × ((length (other_flows xs a k) == length xs) ≡ not (has_flow xs a k))
unfolding has_flow other_flows
length-other_flows [] a k = (omega arith, refl)
length-other_flows (x ∷ xs) a k = ground (arith, length-other_flows xs a k)

-- After a removal a flow is pending exactly if it was and is not the one removed; the result says
-- whether one was removed.
pub remove_unresolved_flow_effect :
    (s : ProgramState) (a b : ℕ) (k l : UnresolvedFlowKind)
    → let r = remove_unresolved_flow s a k in
      (has_flow r.0.unresolved_flows b l
        ≡ has_flow s.unresolved_flows b l && not (same_key a k b l))
      × (r.1 ≡ has_flow s.unresolved_flows a k)
unfolding remove_unresolved_flow
remove_unresolved_flow_effect s a b k l = (
  has_flow-other_flows s.unresolved_flows a b k l,
  ground (arith, length-other_flows s.unresolved_flows a k),
)

-- No two pending flows have one address and one kind.
abbrev pub IsDistinct : List UnresolvedFlow → Type 0
IsDistinct [] = Unit
IsDistinct (x ∷ xs) = (has_flow xs x.address x.kind ≡ false) × IsDistinct xs

IsDistinct-append :
    (xs : List UnresolvedFlow) (y : UnresolvedFlow)
    → IsDistinct xs
    → has_flow xs y.address y.kind ≡ false
    → IsDistinct (xs ++ y ∷ [])
unfolding has_flow is_flow_at
IsDistinct-append [] y d h = (refl, tt)
IsDistinct-append (x ∷ xs) y (d, ds) h = ground (
  arith,
  has_flow-append xs (y ∷ []) x.address x.kind,
  IsDistinct-append xs y ds,
  flow_kind_beq_trans y.kind x.kind x.kind,
  flow_kind_beq_refl x.kind,
  flow_kind_beq_trans y.kind x.kind y.kind,
  flow_kind_beq_refl y.kind,
)

pub add_unresolved_flow-IsDistinct :
    (s : ProgramState) (flow : UnresolvedFlow)
    → IsDistinct s.unresolved_flows
    → IsDistinct (add_unresolved_flow s flow).0.unresolved_flows
unfolding add_unresolved_flow
add_unresolved_flow-IsDistinct s flow d =
    ground (arith, IsDistinct-append s.unresolved_flows flow d)

IsDistinct-others :
    (xs : List UnresolvedFlow) (a : ℕ) (k : UnresolvedFlowKind)
    → IsDistinct xs
    → IsDistinct (other_flows xs a k)
unfolding other_flows
IsDistinct-others [] a k d = tt
IsDistinct-others (x ∷ xs) a k (d, ds) =
    ground (arith, IsDistinct-others xs a k ds, has_flow-other_flows xs a x.address k x.kind)

pub remove_unresolved_flow-IsDistinct :
    (s : ProgramState) (a : ℕ) (k : UnresolvedFlowKind)
    → IsDistinct s.unresolved_flows
    → IsDistinct (remove_unresolved_flow s a k).0.unresolved_flows
unfolding remove_unresolved_flow
remove_unresolved_flow-IsDistinct s a k d = IsDistinct-others s.unresolved_flows a k d

-- A pointer reads as its last relocated value, and elsewhere as before.
pub read_pointer-add_relocated_pointer :
    (s : ProgramState) (address value j : ℕ)
    → read_pointer (add_relocated_pointer s address value) j
      ≡ (if address == j then some value else read_pointer s j)
unfolding read_pointer add_relocated_pointer
read_pointer-add_relocated_pointer s address value j =
    ground (arith, find-insert address j value s.relocated_pointers)
