-- ===== src/Unit/Blocks.antt =====
-- The blocks that the reader of src/unit/reader.go cuts out of a stream.
use fec.Prelude.{
  ℕ, zero, suc, ◌+◌, ◌-◌, ◌*◌, ◌≤◌, ◌≡◌, refl, sym, ap, ap₂, ◌∙◌, true, List, [], ◌∷◌, ◌++◌,
  append_assoc, arith, ltb-false, lt→ltb, ◌==◌, ==_refl, ==_false, dec_lt, length, length-append,
  length-take, take, take_all, take-append, take-append-drop, drop, drop_all, drop-append,
}
use fec.Io.{Got, got, read_error}
use fec.Unit.{Reader, Returns, returns, filled, fill, ReadCall, finish, read, read_all}

-- The bytes that the answers bring.
abbrev pub arrived : List Got → List ℕ
arrived [] = []
arrived (got x ∷ answers) = x ++ arrived answers
arrived (read_error k ∷ answers) = arrived answers

-- No answer is an error.
abbrev pub NoError : List Got → Type 0
NoError [] = Unit
NoError (got x ∷ answers) = NoError answers
NoError (read_error k ∷ answers) = ⊥

-- The loop ends with enough bytes, and none is lost.
record Fills (size n : ℕ) (buf : List ℕ) (answers : List Got) : Type 0 where
  after : List ℕ
  left : List Got
  ends : fill size n buf answers ≡ filled after left
  kept : after ++ arrived left ≡ buf ++ arrived answers
  enough : length buf + size ≤ n + length after
  no_error : NoError left

fill-Fills :
    (answers : List Got) (size n : ℕ) (buf : List ℕ)
    → NoError answers
    → size ≤ n + length (arrived answers)
    → Fills size n buf answers
unfolding fill
fill-Fills [] size n buf ok enough = record {
  after = buf;
  left = [];
  ends = rw (ltb-false n size (omega arith)) refl;
  kept = refl;
  enough = omega arith;
  no_error = tt;
}
fill-Fills (read_error k ∷ answers) size n buf ok enough = absurd ok
fill-Fills (got x ∷ answers) size n buf ok enough = elim (dec_lt n size) [
  | yes p ↦
      let f =
        fill-Fills answers size (n + length x) (buf ++ x) ok
          (omega (arith, length-append x (arrived answers))) in
      record {
        after = f.after;
        left = f.left;
        ends = rw (lt→ltb n size p) f.ends;
        kept = f.kept ∙ append_assoc buf x (arrived answers);
        enough = omega (arith, f.enough, length-append buf x);
        no_error = f.no_error;
      }
  | no p ↦ record {
    after = buf;
    left = got x ∷ answers;
    ends = rw (ltb-false n size (omega arith)) refl;
    kept = refl;
    enough = omega arith;
    no_error = ok;
  }
]

-- A call puts the next block of the stream.
record Reads (r : Reader) (answers : List Got) (c : ReadCall) : Type 0 where
  answer : c.answer ≡ returns r.size
  put_len : length c.put ≡ r.size
  kept : c.put ++ (c.reader.buf ++ arrived c.left) ≡ r.buf ++ arrived answers
  no_error : NoError c.left
  same_size : c.reader.size ≡ r.size
  still_complete : c.reader.complete ≡ true

read-Reads :
    (r : Reader) (answers : List Got)
    → r.complete ≡ true
    → NoError answers
    → r.size ≤ length (r.buf ++ arrived answers)
    → Reads r answers (read r answers)
unfolding read finish
read-Reads r answers complete ok enough = elim (dec_lt (length r.buf) r.size) [
  | yes short ↦
      let f =
        fill-Fills answers r.size (length r.buf) [] ok
          (omega (arith, length-append r.buf (arrived answers))) in
      let m = r.size - length r.buf in
      rw
        (
          take_all r.size r.buf (omega arith),
          drop_all r.size r.buf (omega arith),
          ==_false (length r.buf) r.size (omega arith),
          complete,
          f.ends,
        )
        (record {
          answer = refl;
          put_len =
              omega (arith, length-append r.buf (take m f.after), length-take m f.after, f.enough);
          kept =
              append_assoc r.buf (take m f.after) (drop m f.after ++ arrived f.left)
              ∙ ap (λ xs. r.buf ++ xs)
                  (sym (append_assoc (take m f.after) (drop m f.after) (arrived f.left))
                    ∙ ap (λ xs. xs ++ arrived f.left) (take-append-drop m f.after)
                    ∙ f.kept);
          no_error = f.no_error;
          same_size = refl;
          still_complete = refl;
        })
  | no long ↦
      let full : length (take r.size r.buf) ≡ r.size = omega (arith, length-take r.size r.buf) in
      rw (ap (λ n. n == r.size) full ∙ ==_refl r.size) (record {
        answer = ap returns full;
        put_len = full;
        kept =
            sym (append_assoc (take r.size r.buf) (drop r.size r.buf) (arrived answers))
            ∙ ap (λ xs. xs ++ arrived answers) (take-append-drop r.size r.buf);
        no_error = ok;
        same_size = refl;
        still_complete = complete;
      })
]

-- A stream in blocks.
unfoldable pub blocks : ℕ → ℕ → List ℕ → List (Returns × List ℕ)
blocks size zero stream = []
blocks size (suc n) stream = (returns size, take size stream) ∷ blocks size n (drop size stream)

mul-suc_le : (n size : ℕ) → size + n * size ≡ suc n * size
mul-suc_le n size = omega arith

-- A reader that waits for complete blocks, over a stream that brings no error and at least `n`
-- blocks, in pieces of any sizes: `n` calls return without an error or a wait, and put the first
-- `n` blocks of what the buffer held and the stream brought, in order, each of the full size.
pub read_all-blocks :
    (n : ℕ) (r : Reader) (answers : List Got)
    → r.complete ≡ true
    → NoError answers
    → n * r.size ≤ length (r.buf ++ arrived answers)
    → read_all n r answers ≡ blocks r.size n (r.buf ++ arrived answers)
unfolding read_all blocks
read_all-blocks zero r answers complete ok enough = refl
read_all-blocks (suc n) r answers complete ok enough =
    let c = read r answers in
    let h = read-Reads r answers complete ok (omega (arith, mul-suc_le n r.size)) in
    let first : take r.size (r.buf ++ arrived answers) ≡ c.put =
      ap (take r.size) (sym h.kept)
      ∙ take-append r.size c.put (c.reader.buf ++ arrived c.left) h.put_len in
    let others : drop r.size (r.buf ++ arrived answers) ≡ c.reader.buf ++ arrived c.left =
      ap (drop r.size) (sym h.kept)
      ∙ drop-append r.size c.put (c.reader.buf ++ arrived c.left) h.put_len in
    let ih = read_all-blocks n c.reader c.left h.still_complete h.no_error (
      omega (
        arith,
        ap (λ s. n * s) h.same_size,
        mul-suc_le n r.size,
        ap length h.kept,
        length-append c.put (c.reader.buf ++ arrived c.left),
        h.put_len,
      )) in
    ap₂ (λ x xs. x ∷ xs) (ap₂ (λ a b. (a, b)) h.answer (sym first))
      (ih ∙ ap₂ (λ s xs. blocks s n xs) h.same_size (sym others))
