-- ===== src/Bytecode/Verify/Scan.antt =====
-- crates/fcb_core/src/bytecode.rs: one round of each loop of `validate_bytecode`, and the loops by
-- induction.
use fl_codepush_box.Prelude.{
  ℕ, zero, suc, ◌≤◌, ◌<◌, ◌≡◌, ◌≢◌, refl, ◌⊎◌, inl, inr, true, Option, none, some, List, ◌∷◌, ◌==◌,
  arith, length, get_elem?, get_elem?-lt, get_elem?-none_ge, contains, ok, >>=-eq-ok, Option-cases,
  ok_or, ok_or-eq-ok, refuse_if, ltb, Bool-cases, subst,
}
use fl_codepush_box.Bytecode.OpCode.{OpCode, from_byte}
use fl_codepush_box.Bytecode.Format.{BytecodeFunction, invalid_opcode, missing_operands}
use fl_codepush_box.Bytecode.Verify.{check_operand, scan, check_branch, scan_branches}
use fl_codepush_box.Bytecode.Verify.Operands.{check_operand-ValidOperands}
use fl_codepush_box.Bytecode.Verify.Flow.{fetch, next, Chain, here, step, IsInstruction}

-- What a successful round of the first loop has found.
record Round (f : BytecodeFunction) (fuel pos : ℕ) (starts out : List ℕ) : Type 0 where
  op : OpCode
  fetched : fetch f pos ≡ some op
  fits : next pos op ≤ length f.code
  checked : check_operand f pos op ≡ ok tt
  rest : scan fuel f (next pos op) (pos ∷ starts) ≡ ok out

scan-Round :
    (f : BytecodeFunction) (fuel pos : ℕ) (starts : List ℕ) {out : List ℕ} (o : Option ℕ)
    → get_elem? f.code pos ≡ o
    → scan (suc fuel) f pos starts ≡ ok out
    → (length f.code ≤ pos) × (out ≡ starts) ⊎ Round f fuel pos starts out
unfolding scan
scan-Round f fuel pos starts none e h =
    let h' = rw (e, scan) at h in inl (get_elem?-none_ge f.code pos e, cc h')
scan-Round f fuel pos starts (some b) e h =
    let h' = rw (e, scan) at h in
    let (op, known, h₁) = >>=-eq-ok (ok_or (from_byte b) (invalid_opcode b pos)) _ h' in
    let decoded = ok_or-eq-ok (from_byte b) (invalid_opcode b pos) known in
    let (_, fitting, h₂) =
      >>=-eq-ok (refuse_if (ltb (length f.code) (next pos op)) (missing_operands op pos)) _ h₁ in
    let (_, checked, h₃) = >>=-eq-ok (check_operand f pos op) _ h₂ in
    inr (record {
      op = op;
      fetched = rw e decoded;
      fits = ground arith;
      checked = checked;
      rest = h₃;
    })

-- A start that was collected before is still there at the end.
scan-keeps :
    (fuel : ℕ) (f : BytecodeFunction) (pos : ℕ) (starts : List ℕ) {out : List ℕ} (x : ℕ)
    → scan fuel f pos starts ≡ ok out
    → contains starts x ≡ true
    → contains out x ≡ true
unfolding scan
scan-keeps zero f pos starts x h c = cc h
scan-keeps (suc fuel) f pos starts {out} x h c = elim (scan-Round f fuel pos starts _ refl h) [
  | inl (_, same) ↦ rw same c
  | inr r ↦ scan-keeps fuel f (next pos r.op) (pos ∷ starts) x r.rest (ground arith)
]

fetch-beyond :
    (f : BytecodeFunction) (p : ℕ) {op : OpCode} → length f.code ≤ p → fetch f p ≢ some op
fetch-beyond f p beyond e = elim (Option-cases (get_elem? f.code p)) [
  | inl missing ↦ cc (rw missing at e)
  | inr (b, there) ↦ absurd (omega (arith, get_elem?-lt f.code p there))
]

-- Each position that straight-line decoding arrives at holds an instruction and is collected.
pub scan-Chain :
    (fuel : ℕ) (f : BytecodeFunction) (pos : ℕ) (starts : List ℕ) {out : List ℕ} {q : ℕ}
    → scan fuel f pos starts ≡ ok out
    → Chain f pos q
    → q < length f.code
    → IsInstruction f q × (contains out q ≡ true)
unfolding scan
scan-Chain zero f pos starts h c lt = cc h
scan-Chain (suc fuel) f pos starts h here lt = elim (scan-Round f fuel pos starts _ refl h) [
  | inl (beyond, _) ↦ absurd (omega arith)
  | inr r ↦ (
    record {
      opcode = r.op;
      fetched = r.fetched;
      fits = r.fits;
      operands = check_operand-ValidOperands f pos r.op r.checked;
    },
    scan-keeps fuel f (next pos r.op) (pos ∷ starts) pos r.rest (ground arith),
  )
]
scan-Chain (suc fuel) f pos starts h (step op e c) lt =
    elim (scan-Round f fuel pos starts _ refl h) [
      | inl (beyond, _) ↦ absurd (fetch-beyond f pos beyond e)
      | inr r ↦
          let same : op ≡ r.op = cc (e, r.fetched) in
          scan-Chain fuel f (next pos r.op) (pos ∷ starts) r.rest
            (subst (λ k. Chain f (next pos k) _) same c) lt
    ]

-- Straight-line decoding does not run past the end of the code.
pub scan-le :
    (fuel : ℕ) (f : BytecodeFunction) (pos : ℕ) (starts : List ℕ) {out : List ℕ} {q : ℕ}
    → scan fuel f pos starts ≡ ok out
    → Chain f pos q
    → pos ≤ length f.code
    → q ≤ length f.code
unfolding scan
scan-le zero f pos starts h c le = cc h
scan-le (suc fuel) f pos starts h here le = le
scan-le (suc fuel) f pos starts h (step op e c) le = elim (scan-Round f fuel pos starts _ refl h) [
  | inl (beyond, _) ↦ absurd (fetch-beyond f pos beyond e)
  | inr r ↦
      let same : op ≡ r.op = cc (e, r.fetched) in
      scan-le fuel f (next pos r.op) (pos ∷ starts) r.rest
        (subst (λ k. Chain f (next pos k) _) same c) r.fits
]

-- What is collected was there before, or is arrived at.
pub scan-collects :
    (fuel : ℕ) (f : BytecodeFunction) (pos : ℕ) (starts : List ℕ) {out : List ℕ} (x : ℕ)
    → scan fuel f pos starts ≡ ok out
    → contains out x ≡ true
    → (contains starts x ≡ true) ⊎ Chain f pos x
unfolding scan
scan-collects zero f pos starts x h c = cc h
scan-collects (suc fuel) f pos starts x h c = elim (scan-Round f fuel pos starts _ refl h) [
  | inl (_, same) ↦ inl (rw (← same) c)
  | inr r ↦ elim (scan-collects fuel f (next pos r.op) (pos ∷ starts) x r.rest c) [
    | inl old ↦ elim (Bool-cases (pos == x)) [
      | inl same ↦ inr (subst (λ k. Chain f pos k) (ground arith) here)
      | inr other ↦ inl (ground arith)
    ]
    | inr chain ↦ inr (step r.op r.fetched chain)
  ]
]

branches_round :
    (f : BytecodeFunction) (fuel pos : ℕ) (starts : List ℕ) {op : OpCode}
    → fetch f pos ≡ some op
    → scan_branches (suc fuel) f starts pos ≡ ok tt
    → (check_branch f starts pos op ≡ ok tt) × (scan_branches fuel f starts (next pos op) ≡ ok tt)
unfolding scan_branches
branches_round f fuel pos starts {op} e h = elim (Option-cases (get_elem? f.code pos)) [
  | inl missing ↦ cc (rw missing at e)
  | inr (b, there) ↦
      let e' : from_byte b ≡ some op = rw there at e in
      let h' = rw (there, scan_branches, e') at h in
      let (_, checked, rest) = >>=-eq-ok (check_branch f starts pos op) _ h' in (checked, rest)
]

-- The second loop checks the branch at each position that straight-line decoding arrives at.
pub scan_branches-Chain :
    (fuel : ℕ) (f : BytecodeFunction) (starts : List ℕ) (pos : ℕ) {q : ℕ} {op : OpCode}
    → scan_branches fuel f starts pos ≡ ok tt
    → Chain f pos q
    → fetch f q ≡ some op
    → check_branch f starts q op ≡ ok tt
unfolding scan_branches
scan_branches-Chain zero f starts pos h c e = cc h
scan_branches-Chain (suc fuel) f starts pos h here e = (branches_round f fuel pos starts e h).0
scan_branches-Chain (suc fuel) f starts pos h (step op e' c) e =
    scan_branches-Chain fuel f starts (next pos op) (branches_round f fuel pos starts e' h).1 c e
