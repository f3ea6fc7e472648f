-- ===== src/EhFrame/Rounds.antt =====
-- The loop of `EhFrameReader::parse` as a relation, and that the loop ends.
use not_dec_bin2llvm.Common.{
  ℕ, zero, suc, ◌+◌, ◌<◌, ◌≤◌, none, some, Bool, true, false, ltb, length, ◌≡◌, ◌↔◌, refl, ap,
  arith, Bool-cases, Option-cases, inl, inr, subst,
}
use not_dec_bin2llvm.EhFrame.{ok, Result-cases}
use not_dec_bin2llvm.EhFrame.Bytes.{read_unsigned}
use not_dec_bin2llvm.EhFrame.Records.{Reader, SectionBytes}
use not_dec_bin2llvm.EhFrame.Frames.{parse_content, parse_record, parse_rounds, parse_eh_frame}

-- `Walk section r offset t`: the loop, begun at `offset`, ends and leaves `t`.
pub data Walk (section : SectionBytes) : Reader → ℕ → Reader → Type 0 where
  at_end : {r : Reader} {offset : ℕ} → length section.bytes < offset + 4 → Walk section r offset r
  returns :
      {r t : Reader} {offset : ℕ}
      → offset + 4 ≤ length section.bytes
      → (parse_record section r offset).1 ≡ none
      → (parse_record section r offset).0 ≡ t
      → Walk section r offset t
  goes_on :
      {r t : Reader} {offset next : ℕ}
      → offset + 4 ≤ length section.bytes
      → (parse_record section r offset).1 ≡ some next
      → Walk section (parse_record section r offset).0 next t
      → Walk section r offset t

read_unsigned-next :
    (section : SectionBytes) (offset : ℕ) {p : ℕ × ℕ}
    → read_unsigned section.bytes offset 4 ≡ ok p
    → p.0 ≡ offset + 4
unfolding read_unsigned
read_unsigned-next section offset h = ground arith

content_next :
    (section : SectionBytes) (r : Reader) (record_offset offset size : ℕ) {next : ℕ}
    → (parse_content section r record_offset offset size).1 ≡ some next
    → (next ≡ offset + size) × (next ≤ length section.bytes)
unfolding parse_content
content_next section r record_offset offset size h =
    elim (Result-cases (read_unsigned section.bytes offset 4)) [
      | inl (e, bad) ↦ absurd (ground (arith, bad))
      | inr (p, good) ↦ ground (arith, good)
    ]

-- A record is at least five bytes long and ends within the section.
record_next :
    (section : SectionBytes) (r : Reader) (offset : ℕ) {next : ℕ}
    → (parse_record section r offset).1 ≡ some next
    → (offset + 4 < next) × (next ≤ length section.bytes)
unfolding parse_record
record_next section r offset h = elim (Result-cases (read_unsigned section.bytes offset 4)) [
  | inl (e, bad) ↦ absurd (ground (arith, bad))
  | inr (p, good) ↦
      ground
        (arith, good, read_unsigned-next section offset good, content_next section r offset p.0 p.1)
]

-- With a round for every byte that is left the loop ends by itself.
rounds-Walk :
    (n : ℕ) (section : SectionBytes) (r : Reader) (offset : ℕ)
    → length section.bytes < n + offset
    → Walk section r offset (parse_rounds n section r offset).0
unfolding parse_rounds
rounds-Walk zero section r offset h = at_end (omega arith)
rounds-Walk (suc n) section r offset h =
    elim (Bool-cases (ltb (length section.bytes) (offset + 4))) [
      | inl short ↦ rw short (at_end (ground (arith, short)))
      | inr long ↦
          let inside : offset + 4 ≤ length section.bytes = ground (arith, long) in
          elim (Option-cases (parse_record section r offset).1) [
            | inl last ↦ rw (long, last, parse_rounds) (returns inside last refl)
            | inr (next, more) ↦
                let later = record_next section r offset more in
                rw (long, more, parse_rounds)
                  (goes_on inside more
                    (rounds-Walk n section (parse_record section r offset).0 next (omega arith)))
          ]
    ]

-- A walk is what the rounds compute, and they stop by themselves.
Walk-rounds :
    (n : ℕ) {section : SectionBytes} {r t : Reader} {offset : ℕ}
    → Walk section r offset t
    → offset ≤ length section.bytes
    → length section.bytes < n + offset
    → parse_rounds n section r offset ≡ (t, true)
unfolding parse_rounds
Walk-rounds zero w fits h = absurd (omega arith)
Walk-rounds (suc n) (at_end short) fits h = ground arith
Walk-rounds (suc n) {section} {r} {t} {offset} (returns inside last e) fits h =
    let long : ltb (length section.bytes) (offset + 4) ≡ false = ground arith in
    rw (long, last, parse_rounds) (ap (λ (u : Reader). (u, true)) e)
Walk-rounds (suc n) {section} {r} {t} {offset} (goes_on {next = next} inside more w) fits h =
    let long : ltb (length section.bytes) (offset + 4) ≡ false = ground arith in
    let later = record_next section r offset more in
    rw (long, more, parse_rounds) (Walk-rounds n w later.1 (omega arith))

-- The loop over the records of .eh_frame ends on every section, however its lengths are set: with
-- more rounds than bytes it stops by its own tests and more rounds change nothing, and the reader
-- that is returned is the one state that the relation of the loop leads to.
pub parse_eh_frame-Walk :
    (section : SectionBytes) (r : Reader) (more : ℕ)
    → let rounds = parse_rounds (suc (length section.bytes) + more) section r 0 in
      (rounds ≡ (parse_eh_frame section r, true))
      × ((t : Reader) → Walk section r 0 t ↔ (parse_eh_frame section r ≡ t))
unfolding parse_eh_frame
parse_eh_frame-Walk section r more =
    let n = suc (length section.bytes) in
    let walk = rounds-Walk n section r 0 (omega arith) in
    (
      Walk-rounds (n + more) walk (omega arith) (omega arith),
      λ t. (
        λ w. ap (λ (p : Reader × Bool). p.0) (Walk-rounds n w (omega arith) (omega arith)),
        λ e. subst (Walk section r 0) e walk,
      ),
    )
