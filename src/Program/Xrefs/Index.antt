-- ===== src/Program/Xrefs/Index.antt =====
-- The indexes are faithful: a query by source or target returns exactly the matching xrefs, in the
-- order in which they were added, and no xref is stored twice.
use not_dec_bin2llvm.Common.{
  ℕ, ◌+◌, List, [], ◌∷◌, ◌++◌, some, Bool, true, false, All, ◌==◌, if◌then◌else◌, ◌&&◌, ◌||◌,
  length, get_elem?, keep_if, ◌≡◌, ◌≢◌, refl, arith, inl, inr, Bool-cases, length-append,
  All-append, append-nil, append_assoc,
}
use not_dec_bin2llvm.OrderedMap.Laws.{find-insert}
use not_dec_bin2llvm.Program.{Xref, ProgramState}
use not_dec_bin2llvm.Program.Xrefs.{
  places, add_place, at_places, xrefs_from, xrefs_to, same_xref, has_same_xref, add_xref,
}

-- The places, from `first` on, of the xrefs that pass the test.
unfoldable pub places_of : (Xref → Bool) → List Xref → ℕ → List ℕ
places_of p [] first = []
places_of p (x ∷ xs) first =
    if p x then first ∷ places_of p xs (first + 1) else places_of p xs (first + 1)

abbrev pub is_from : ℕ → Xref → Bool
is_from key x = x.from == key

abbrev pub is_to : ℕ → Xref → Bool
is_to key x = x.to == key

-- Each index lists, under every key, the places of the xrefs with that key.
pub record IndexIsFaithful (s : ProgramState) : Type 0 where
  pub by_from : (key : ℕ) → places s.xrefs_by_from key ≡ places_of (is_from key) s.xrefs 0
  pub by_to : (key : ℕ) → places s.xrefs_by_to key ≡ places_of (is_to key) s.xrefs 0

places-add_place :
    (index : List (ℕ × List ℕ)) (key place j : ℕ)
    → places (add_place index key place) j
      ≡ (if key == j then places index j ++ place ∷ [] else places index j)
unfolding places add_place
places-add_place index key place j =
    ground (arith, find-insert key j (places index key ++ place ∷ []) index)

places_of-append :
    (p : Xref → Bool) (xs : List Xref) (x : Xref) (first : ℕ)
    → places_of p (xs ++ x ∷ []) first
      ≡ places_of p xs first ++ (if p x then (first + length xs) ∷ [] else [])
unfolding places_of
places_of-append p [] x first = ground arith
places_of-append p (y ∷ xs) x first = ground (arith, places_of-append p xs x (first + 1))

get_elem?-append_right :
    (done : List Xref) (x : Xref) (xs : List Xref)
    → get_elem? (done ++ x ∷ xs) (length done) ≡ some x
get_elem?-append_right [] x xs = refl
get_elem?-append_right (y ∷ done) x xs = get_elem?-append_right done x xs

-- Looking the places up gives the xrefs that pass the test, in order.
at_places-places_of :
    (p : Xref → Bool) (done xs : List Xref)
    → at_places (done ++ xs) (places_of p xs (length done)) ≡ keep_if p xs
unfolding at_places places_of
at_places-places_of p done [] = refl
at_places-places_of p done (x ∷ xs) =
    let next = at_places-places_of p (done ++ x ∷ []) xs in
    ground (
      arith,
      get_elem?-append_right done x xs,
      append_assoc done (x ∷ []) xs,
      length-append done (x ∷ []),
      next,
    )

-- With faithful indexes a query by source returns the xrefs with that source, in the order in
-- which they were added, and a query by target those with that target.
pub xrefs_by_index :
    (s : ProgramState) (address : ℕ)
    → IndexIsFaithful s
    → (xrefs_from s address ≡ keep_if (is_from address) s.xrefs)
      × (xrefs_to s address ≡ keep_if (is_to address) s.xrefs)
unfolding xrefs_from xrefs_to
xrefs_by_index s address v = (
  rw (v.by_from address) (at_places-places_of (is_from address) [] s.xrefs),
  rw (v.by_to address) (at_places-places_of (is_to address) [] s.xrefs),
)

-- One more place under its key follows one more xref.
add_place_faithful :
    (p : Xref → Bool) (index : List (ℕ × List ℕ)) (xs : List Xref) (x : Xref) (key j : ℕ)
    → p x ≡ (key == j)
    → places index j ≡ places_of p xs 0
    → places (add_place index key (length xs)) j ≡ places_of p (xs ++ x ∷ []) 0
add_place_faithful p index xs x key j same h = ground (
  arith,
  places-add_place index key (length xs) j,
  places_of-append p xs x 0,
  append-nil (places_of p xs 0),
)

-- `addXref` keeps both indexes faithful, whether it stores the xref or not.
pub add_xref-IndexIsFaithful :
    (s : ProgramState) (x : Xref) → IndexIsFaithful s → IndexIsFaithful (add_xref s x)
unfolding add_xref
add_xref-IndexIsFaithful s x v = elim (Bool-cases (x.from == 0 || x.to == 0)) [
  | inl null ↦ rw (null, add_xref) v
  | inr shape ↦ elim (Bool-cases (has_same_xref (xrefs_from s x.from) x)) [
    | inl known ↦ rw (shape, known, add_xref) v
    | inr new ↦
        rw (shape, new, add_xref)
          (record {
            by_from = λ key.
                add_place_faithful (is_from key) s.xrefs_by_from s.xrefs x x.from key refl
                  (v.by_from key);
            by_to = λ key.
                add_place_faithful (is_to key) s.xrefs_by_to s.xrefs x x.to key refl (v.by_to key);
          })
  ]
]

keep_if-append :
    (p : Xref → Bool) (xs ys : List Xref) → keep_if p (xs ++ ys) ≡ keep_if p xs ++ keep_if p ys
keep_if-append p [] ys = refl
keep_if-append p (x ∷ xs) ys = ground (arith, keep_if-append p xs ys)

module _ (s : ProgramState) (x : Xref) where
  add_xref_known : has_same_xref (xrefs_from s x.from) x ≡ true → add_xref s x ≡ s
  unfolding add_xref
  add_xref_known e = ground arith

  add_xref_new :
      x.from ≢ 0
      → x.to ≢ 0
      → has_same_xref (xrefs_from s x.from) x ≡ false
      → (add_xref s x).xrefs ≡ s.xrefs ++ x ∷ []
  unfolding add_xref
  add_xref_new from_ok to_ok e = ground arith

-- With faithful indexes an xref with both ends is added behind those of its source unless the
-- source has it already; the queries at other sources do not change.
pub add_xref_effect :
    (s : ProgramState) (x : Xref) (address : ℕ)
    → IndexIsFaithful s
    → x.from ≢ 0
    → x.to ≢ 0
    → xrefs_from (add_xref s x) address ≡ (
        if has_same_xref (xrefs_from s x.from) x
        then xrefs_from s address
        else xrefs_from s address ++ (if x.from == address then x ∷ [] else []))
add_xref_effect s x address v from_ok to_ok =
    elim (Bool-cases (has_same_xref (xrefs_from s x.from) x)) [
      | inl known ↦ rw (known, add_xref_known s x known) refl
      | inr new ↦
          rw
            (
              new,
              (xrefs_by_index (add_xref s x) address (add_xref-IndexIsFaithful s x v)).0,
              (xrefs_by_index s address v).0,
              add_xref_new s x from_ok to_ok new,
              keep_if-append (is_from address) s.xrefs (x ∷ []),
            )
            refl
    ]

-- Two xrefs agree in source, target, kind and reporter.
abbrev pub twins : Xref → Xref → Bool
twins x y = x.from == y.from && same_xref x y

abbrev pub HasNoTwins : List Xref → Type 0
HasNoTwins [] = Unit
HasNoTwins (x ∷ xs) = All (λ y. twins x y ≡ false) xs × HasNoTwins xs

no_twin :
    (xs : List Xref) (x : Xref)
    → has_same_xref (keep_if (is_from x.from) xs) x ≡ false
    → All (λ y. twins y x ≡ false) xs
unfolding has_same_xref
no_twin [] x h = tt
no_twin (y ∷ xs) x h = ground (arith, no_twin xs x)

HasNoTwins-append :
    (xs : List Xref) (x : Xref)
    → HasNoTwins xs
    → All (λ y. twins y x ≡ false) xs
    → HasNoTwins (xs ++ x ∷ [])
HasNoTwins-append [] x h k = (tt, tt)
HasNoTwins-append (y ∷ xs) x (h, hs) (k, ks) =
    (All-append (λ z. twins y z ≡ false) xs (x ∷ []) h (k, tt), HasNoTwins-append xs x hs ks)

-- No xref is stored twice: with faithful indexes the look-up by source finds every earlier copy.
pub add_xref-HasNoTwins :
    (s : ProgramState) (x : Xref)
    → IndexIsFaithful s
    → HasNoTwins s.xrefs
    → HasNoTwins (add_xref s x).xrefs
unfolding add_xref
add_xref-HasNoTwins s x v h = elim (Bool-cases (x.from == 0 || x.to == 0)) [
  | inl null ↦ rw (null, add_xref) h
  | inr shape ↦ elim (Bool-cases (has_same_xref (xrefs_from s x.from) x)) [
    | inl known ↦ rw (shape, known, add_xref) h
    | inr new ↦
        let fresh = rw (xrefs_by_index s x.from v).0 at new in
        rw (shape, new, add_xref) (HasNoTwins-append s.xrefs x h (no_twin s.xrefs x fresh))
  ]
]
