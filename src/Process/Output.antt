-- ===== src/Process/Output.antt =====
-- The output of the child process (Process) is logged line by line, however it is cut into chunks.
use mathlib.Core.List.{append-nil}
use reticle.Common.{
  ℕ, ◌==◌, Text, List, [], ◌∷◌, ◌++◌, filter, Option, none, some, true, false, ◌≡◌, refl, sym, ap,
  subst, ◌∙◌, Bool-cases, inl, inr,
}
use reticle.Common.Lines.{split_lines, is_filled}
use reticle.Process.{
  ForgeProcess, OutputStream, stdout, stderr, emit_line, emit_lines, tail_of, set_tail, last_line,
  but_last, consume, on_close, is_child,
}
use reticle.Process.Laws.{split_lines-last_line}
use reticle.Process.Chunks.{
  Chunk, consume_all, emit_lines-lines_of, emit_lines-tail_of, lines_of, logged, logged-consume_all,
  same_stream, same_stream_eq, set_tail-other, set_tail-same, text_of,
}

-- What is carried forward is one line, so the last flush splits nothing.
abbrev IsCarried : ForgeProcess → Type 0
IsCarried p = (st : OutputStream) → split_lines (tail_of st p) ≡ tail_of st p ∷ []

consume-IsCarried :
    (c : Chunk) (p : ForgeProcess) → IsCarried p → IsCarried (consume c.at c.stream c.text p)
unfolding consume
consume-IsCarried c p h st =
    let lines = split_lines (tail_of c.stream p ++ c.text) in
    let q = set_tail c.stream (last_line lines) p in
    let same_tail = emit_lines-tail_of c.at c.stream st (but_last lines) q in
    elim (Bool-cases (same_stream st c.stream)) [
      | inl e ↦
          subst (λ u. split_lines u ≡ u ∷ [])
            (sym (
              same_tail
              ∙ ap (λ o. tail_of o q) (same_stream_eq st c.stream e)
              ∙ set_tail-same c.stream (last_line lines) p))
            (split_lines-last_line (tail_of c.stream p ++ c.text))
      | inr e ↦
          subst (λ u. split_lines u ≡ u ∷ [])
            (sym (same_tail ∙ set_tail-other st c.stream (last_line lines) p e)) (h st)
    ]

consume_all-IsCarried :
    (cs : List Chunk) (p : ForgeProcess) → IsCarried p → IsCarried (consume_all cs p)
unfolding consume_all
consume_all-IsCarried [] p h = h
consume_all-IsCarried (c ∷ cs) p h =
    consume_all-IsCarried cs (consume c.at c.stream c.text p) (consume-IsCarried c p h)

emit_lines-child :
    (at : ℕ) (stream : OutputStream) (ls : List Text) (p : ForgeProcess)
    → (emit_lines at stream ls p).child ≡ p.child
unfolding emit_lines emit_line
emit_lines-child at stream [] p = refl
emit_lines-child at stream ([] ∷ ls) p = emit_lines-child at stream ls p
emit_lines-child at stream ((c ∷ s) ∷ ls) p =
    emit_lines-child at stream ls (emit_line at stream (c ∷ s) p)

set_tail-child :
    (st : OutputStream) (s : Text) (p : ForgeProcess) → (set_tail st s p).child ≡ p.child
set_tail-child stdout s p = refl
set_tail-child stderr s p = refl

consume-child : (c : Chunk) (p : ForgeProcess) → (consume c.at c.stream c.text p).child ≡ p.child
unfolding consume
consume-child c p =
    let lines = split_lines (tail_of c.stream p ++ c.text) in
    emit_lines-child c.at c.stream (but_last lines) (set_tail c.stream (last_line lines) p)
    ∙ set_tail-child c.stream (last_line lines) p

consume_all-child : (cs : List Chunk) (p : ForgeProcess) → (consume_all cs p).child ≡ p.child
unfolding consume_all
consume_all-child [] p = refl
consume_all-child (c ∷ cs) p =
    consume_all-child cs (consume c.at c.stream c.text p) ∙ consume-child c p

flush-lines_of :
    (at : ℕ) (st : OutputStream) (p : ForgeProcess)
    → lines_of st (emit_line at stderr p.stderr_tail (emit_line at stdout p.stdout_tail p)).outputs
      ≡ lines_of st p.outputs ++ filter is_filled (tail_of st p ∷ [])
unfolding emit_lines
flush-lines_of at stdout p =
    let q = emit_line at stdout p.stdout_tail p in
    emit_lines-lines_of at stderr stdout (p.stderr_tail ∷ []) q
    ∙ append-nil (lines_of stdout q.outputs)
    ∙ emit_lines-lines_of at stdout stdout (p.stdout_tail ∷ []) p
flush-lines_of at stderr p =
    let q = emit_line at stdout p.stdout_tail p in
    emit_lines-lines_of at stderr stderr (p.stderr_tail ∷ []) q
    ∙ ap (λ ms. ms ++ filter is_filled (p.stderr_tail ∷ []))
        (emit_lines-lines_of at stdout stderr (p.stdout_tail ∷ []) p
          ∙ append-nil (lines_of stderr p.outputs))

-- The close logs what is left of both streams.
on_close-logged :
    (at id : ℕ) (code : Option ℕ) (st : OutputStream) (p : ForgeProcess)
    → is_child id p ≡ true
    → IsCarried p
    → lines_of st (on_close at id code p).outputs ≡ logged st p []
unfolding on_close
on_close-logged at id code st p k h = rw k (
    flush-lines_of at st p
    ∙ ap (λ ms. lines_of st p.outputs ++ filter is_filled ms)
        (sym (h st) ∙ ap split_lines (sym (append-nil (tail_of st p)))))

nil_line : split_lines [] ≡ [] ∷ []
unfolding split_lines
nil_line = refl

empty-IsCarried : (p : ForgeProcess) → p.stdout_tail ≡ [] → p.stderr_tail ≡ [] → IsCarried p
empty-IsCarried p a b stdout = rw a nil_line
empty-IsCarried p a b stderr = rw b nil_line

empty-logged :
    (st : OutputStream) (p : ForgeProcess) (rest : Text)
    → p.stdout_tail ≡ []
    → p.stderr_tail ≡ []
    → logged st p rest ≡ lines_of st p.outputs ++ filter is_filled (split_lines rest)
empty-logged stdout p rest a b = rw a refl
empty-logged stderr p rest a b = rw b refl

-- However the output of a child is cut into chunks, and however those of its two streams alternate,
-- when it has closed the lines that were logged of a stream since it began are the lines of the
-- stream's whole text that are not empty, the last one too where no line end follows it.
pub on_close-lines_of :
    (at id : ℕ) (code : Option ℕ) (st : OutputStream) (cs : List Chunk) (p : ForgeProcess)
    → is_child id p ≡ true
    → p.stdout_tail ≡ []
    → p.stderr_tail ≡ []
    → lines_of st (on_close at id code (consume_all cs p)).outputs
      ≡ lines_of st p.outputs ++ filter is_filled (split_lines (text_of st cs))
on_close-lines_of at id code st cs p k a b =
    on_close-logged at id code st (consume_all cs p)
      (ap (λ c. elim c [ none ↦ false | some d ↦ d.id == id ]) (consume_all-child cs p) ∙ k)
      (consume_all-IsCarried cs p (empty-IsCarried p a b))
    ∙ logged-consume_all st cs p
    ∙ empty-logged st p (text_of st cs) a b
