-- ===== src/Lowering/Refinement.antt =====
-- The lowering of operations on temporaries refines p-code: what is cached for a temporary denotes
-- what p-code leaves in it.
use not_dec_bin2llvm.Common.{◌^◌, ◌<◌, some, ◌≡◌, All}
use not_dec_bin2llvm.Pcode
use not_dec_bin2llvm.Lowering.{VarnodeView, PcodeOpView}

-- Sizes that a type of LLVM can have.
abbrev pub SizesAreOk : PcodeOpView → Type 0
SizesAreOk op =
    ((output : VarnodeView) → op.output ≡ some output → output.size < 2 ^ 29)
    × All (λ (v : VarnodeView). v.size < 2 ^ 29) op.inputs
