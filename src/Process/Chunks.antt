-- ===== src/Process/Chunks.antt =====
-- The chunks of the output of the child process (Process): what is logged of a stream with each.
use mathlib.Core.List.{append_assoc, append-nil}
use reticle.Common.{
  ℕ, Text, List, [], ◌∷◌, ◌++◌, filter, filter-append, Bool, true, false, if◌then◌else◌, ◌≡◌, refl,
  sym, ap, subst, ◌∙◌, arith, Bool-cases, inl, inr,
}
use reticle.Common.Lines.{split_lines, is_filled}
use reticle.Process.{
  ForgeProcess, ForgeOutputChunk, OutputStream, stdout, stderr, emit_line, emit_lines, tail_of,
  set_tail, last_line, but_last, consume,
}
use reticle.Process.Laws.{split_lines-append}

abbrev pub same_stream : OutputStream → OutputStream → Bool
same_stream stdout stdout = true
same_stream stderr stderr = true
same_stream _ _ = false

-- The lines that were logged of a stream.
pub lines_of : OutputStream → List ForgeOutputChunk → List Text
lines_of stream [] = []
lines_of stream (o ∷ os) =
    if same_stream stream o.stream then o.line ∷ lines_of stream os else lines_of stream os

lines_of-append :
    (stream : OutputStream) (xs ys : List ForgeOutputChunk)
    → lines_of stream (xs ++ ys) ≡ lines_of stream xs ++ lines_of stream ys
unfolding lines_of
lines_of-append stream [] ys = refl
lines_of-append stream (x ∷ xs) ys = ground (arith, lines_of-append stream xs ys)

-- A chunk of a stream, and when it arrives.
pub record Chunk : Type 0 where
  pub at : ℕ
  pub stream : OutputStream
  pub text : Text

unfoldable pub consume_all : List Chunk → ForgeProcess → ForgeProcess
consume_all [] p = p
consume_all (c ∷ cs) p = consume_all cs (consume c.at c.stream c.text p)

-- The whole text of a stream.
pub text_of : OutputStream → List Chunk → Text
text_of stream [] = []
text_of stream (c ∷ cs) =
    if same_stream stream c.stream then c.text ++ text_of stream cs else text_of stream cs

pub emit_lines-lines_of :
    (at : ℕ) (stream st : OutputStream) (ls : List Text) (p : ForgeProcess)
    → lines_of st (emit_lines at stream ls p).outputs
      ≡ lines_of st p.outputs ++ (if same_stream st stream then filter is_filled ls else [])
unfolding emit_lines emit_line lines_of
emit_lines-lines_of at stream st [] p = elim (Bool-cases (same_stream st stream)) [
  | inl e ↦ rw e (sym (append-nil (lines_of st p.outputs)))
  | inr e ↦ rw e (sym (append-nil (lines_of st p.outputs)))
]
emit_lines-lines_of at stream st ([] ∷ ls) p = emit_lines-lines_of at stream st ls p
emit_lines-lines_of at stream st ((c ∷ s) ∷ ls) p =
    let o : ForgeOutputChunk = record { stream = stream; line = c ∷ s; at = at } in
    emit_lines-lines_of at stream st ls (emit_line at stream (c ∷ s) p)
    ∙ ap (λ ms. ms ++ (if same_stream st stream then filter is_filled ls else []))
        (lines_of-append st p.outputs (o ∷ []))
    ∙ append_assoc (lines_of st p.outputs) (lines_of st (o ∷ []))
        (if same_stream st stream then filter is_filled ls else [])
    ∙ ap (λ ms. lines_of st p.outputs ++ ms) (ground arith)

pub emit_lines-tail_of :
    (at : ℕ) (stream st : OutputStream) (ls : List Text) (p : ForgeProcess)
    → tail_of st (emit_lines at stream ls p) ≡ tail_of st p
unfolding emit_lines emit_line
emit_lines-tail_of at stream st [] p = refl
emit_lines-tail_of at stream st ([] ∷ ls) p = emit_lines-tail_of at stream st ls p
emit_lines-tail_of at stream stdout ((c ∷ s) ∷ ls) p =
    emit_lines-tail_of at stream stdout ls (emit_line at stream (c ∷ s) p)
emit_lines-tail_of at stream stderr ((c ∷ s) ∷ ls) p =
    emit_lines-tail_of at stream stderr ls (emit_line at stream (c ∷ s) p)

-- What is logged of a stream, with what is not complete yet and a rest behind it.
abbrev pub logged : OutputStream → ForgeProcess → Text → List Text
logged st p rest = lines_of st p.outputs ++ filter is_filled (split_lines (tail_of st p ++ rest))

pub set_tail-same :
    (st : OutputStream) (s : Text) (p : ForgeProcess) → tail_of st (set_tail st s p) ≡ s
set_tail-same stdout s p = refl
set_tail-same stderr s p = refl

set_tail-outputs :
    (st : OutputStream) (s : Text) (p : ForgeProcess) → (set_tail st s p).outputs ≡ p.outputs
set_tail-outputs stdout s p = refl
set_tail-outputs stderr s p = refl

logged-consume_self :
    (at : ℕ) (st : OutputStream) (text rest : Text) (p : ForgeProcess)
    → same_stream st st ≡ true
    → logged st (consume at st text p) rest ≡ logged st p (text ++ rest)
unfolding consume
logged-consume_self at st text rest p e =
    let lines = split_lines (tail_of st p ++ text) in
    let q = set_tail st (last_line lines) p in
    let seen = lines_of st p.outputs in
    let t : tail_of st (emit_lines at st (but_last lines) q) ≡ last_line lines =
      emit_lines-tail_of at st st (but_last lines) q ∙ set_tail-same st (last_line lines) p in
    ap
      (λ u.
        lines_of st (emit_lines at st (but_last lines) q).outputs
        ++ filter is_filled (split_lines (u ++ rest)))
      t
    ∙ ap (λ ms. ms ++ filter is_filled (split_lines (last_line lines ++ rest)))
        (emit_lines-lines_of at st st (but_last lines) q
          ∙ ap
              (λ (b : Bool).
                lines_of st q.outputs ++ (if b then filter is_filled (but_last lines) else []))
              e
          ∙ ap (λ os. lines_of st os ++ filter is_filled (but_last lines))
              (set_tail-outputs st (last_line lines) p))
    ∙ append_assoc seen (filter is_filled (but_last lines))
        (filter is_filled (split_lines (last_line lines ++ rest)))
    ∙ ap (λ ms. seen ++ ms)
        (sym (filter-append is_filled (but_last lines) (split_lines (last_line lines ++ rest)))
          ∙ ap (filter is_filled) (sym (split_lines-append (tail_of st p ++ text) rest))
          ∙ ap (λ u. filter is_filled (split_lines u)) (append_assoc (tail_of st p) text rest))

pub set_tail-other :
    (st other : OutputStream) (s : Text) (p : ForgeProcess)
    → same_stream st other ≡ false
    → tail_of st (set_tail other s p) ≡ tail_of st p
set_tail-other stdout stdout s p e = cc
set_tail-other stderr stderr s p e = cc
set_tail-other stdout stderr s p e = refl
set_tail-other stderr stdout s p e = refl

logged-consume_other :
    (at : ℕ) (st other : OutputStream) (text rest : Text) (p : ForgeProcess)
    → same_stream st other ≡ false
    → logged st (consume at other text p) rest ≡ logged st p rest
unfolding consume
logged-consume_other at st other text rest p e =
    let lines = split_lines (tail_of other p ++ text) in
    let q = set_tail other (last_line lines) p in
    ap
      (λ u.
        lines_of st (emit_lines at other (but_last lines) q).outputs
        ++ filter is_filled (split_lines (u ++ rest)))
      (emit_lines-tail_of at other st (but_last lines) q
        ∙ set_tail-other st other (last_line lines) p e)
    ∙ ap (λ ms. ms ++ filter is_filled (split_lines (tail_of st p ++ rest)))
        (emit_lines-lines_of at other st (but_last lines) q
          ∙ ap
              (λ (b : Bool).
                lines_of st q.outputs ++ (if b then filter is_filled (but_last lines) else []))
              e
          ∙ append-nil (lines_of st q.outputs)
          ∙ ap (lines_of st) (set_tail-outputs other (last_line lines) p))

pub same_stream_eq : (st other : OutputStream) → same_stream st other ≡ true → st ≡ other
same_stream_eq stdout stdout e = refl
same_stream_eq stderr stderr e = refl
same_stream_eq stdout stderr e = cc
same_stream_eq stderr stdout e = cc

same_stream_refl : (st : OutputStream) → same_stream st st ≡ true
same_stream_refl stdout = refl
same_stream_refl stderr = refl

logged-consume :
    (st : OutputStream) (c : Chunk) (rest : Text) (p : ForgeProcess)
    → logged st (consume c.at c.stream c.text p) rest
      ≡ logged st p (if same_stream st c.stream then c.text ++ rest else rest)
logged-consume st c rest p = elim (Bool-cases (same_stream st c.stream)) [
  | inl e ↦
      let q = same_stream_eq st c.stream e in
      rw e (
        subst (λ o. logged st (consume c.at o c.text p) rest ≡ logged st p (c.text ++ rest)) q
          (logged-consume_self c.at st c.text rest p (same_stream_refl st)))
  | inr e ↦ rw e (logged-consume_other c.at st c.stream c.text rest p e)
]

pub logged-consume_all :
    (st : OutputStream) (cs : List Chunk) (p : ForgeProcess)
    → logged st (consume_all cs p) [] ≡ logged st p (text_of st cs)
unfolding consume_all text_of
logged-consume_all st [] p = refl
logged-consume_all st (c ∷ cs) p =
    logged-consume_all st cs (consume c.at c.stream c.text p)
    ∙ logged-consume st c (text_of st cs) p
