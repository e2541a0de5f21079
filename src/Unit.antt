-- ===== src/Unit.antt =====
-- src/unit: a reader that cuts a stream into blocks of a fixed size, and a writer of such blocks.
pub mod Blocks
pub mod Repeats
use fec.Prelude.{
  ℕ, zero, suc, ◌+◌, ◌-◌, Bool, not, Option, none, some, ◌&&◌, ◌||◌, List, [], ◌∷◌, ◌++◌,
  if◌then◌else◌, ltb, ◌==◌, length, min, take, drop,
}
use fec.Io.{Got, got, read_error, Wrote, wrote, write_error}

-- `Reader`, without the stream below; `buf` is what its buffer holds. `adaptive` bounds what one
-- read of the stream may give, which is up to the answers.
pub record Reader : Type 0 where
  pub buf : List ℕ
  pub size : ℕ
  pub complete : Bool
  pub adaptive : Bool

unfoldable pub new_reader : ℕ → Bool → Bool → Reader
new_reader size complete adaptive = record {
  buf = [];
  size = size;
  complete = complete;
  adaptive = adaptive;
}

-- How a call ends: a number of bytes, without an error or with one; or it waits for the stream
-- below, which has given no more answers.
pub data Returns : Type 0 where
  returns fails : ℕ → Returns
  pending : Returns

-- `for r.n < r.size` of `Read`: the buffer behind the loop, and the answers that are left.
pub data Filled : Type 0 where
  filled : List ℕ → List Got → Filled
  broken : ℕ → List ℕ → List Got → Filled
  starved : List ℕ → Filled

unfoldable pub fill : ℕ → ℕ → List ℕ → List Got → Filled
fill size n buf [] = if ltb n size then starved buf else filled buf []
fill size n buf (read_error k ∷ answers) =
    if ltb n size then broken n buf answers else filled buf (read_error k ∷ answers)
fill size n buf (got x ∷ answers) =
    let rest = fill size (n + length x) (buf ++ x) answers in
    if ltb n size then rest else filled buf (got x ∷ answers)

-- A call of `Read`, whose argument has room for a block: the answer, the bytes that it puts at the
-- front of its argument, the reader, and the answers of the stream that are left.
pub record ReadCall : Type 0 where
  pub answer : Returns
  pub put : List ℕ
  pub reader : Reader
  pub left : List Got

-- The call behind the loop; `front` is what the first read of the buffer gave.
unfoldable pub finish : Reader → List ℕ → Filled → ReadCall
finish r front (filled buf answers) =
    let m = r.size - length front in
    record {
      answer = returns r.size;
      put = front ++ take m buf;
      reader = record r { buf = drop m buf };
      left = answers;
    }
finish r front (broken n buf answers) = record {
  answer = fails n;
  put = front;
  reader = record r { buf = buf };
  left = answers;
}
finish r front (starved buf) = record {
  answer = pending;
  put = front;
  reader = record r { buf = buf };
  left = [];
}

unfoldable pub read : Reader → List Got → ReadCall
read r answers =
    let front = take r.size r.buf in
    let rest = drop r.size r.buf in
    if (length front == r.size) || not r.complete
    then record {
      answer = returns (length front);
      put = front;
      reader = record r { buf = rest };
      left = answers;
    }
    else finish r front (fill r.size (length front) rest answers)

-- With an argument of which `room` bytes can be sliced; `none` is a panic.
unfoldable pub read_into : ℕ → Reader → List Got → Option ReadCall
read_into room r answers = if ltb room r.size then none else some (read r answers)

-- `Close`; the stream below is closed too.
unfoldable pub close_reader : Reader → Reader
close_reader r = record r { buf = [] }

-- A sequence of `n` calls: the answers, and what each puts.
unfoldable pub read_all : ℕ → Reader → List Got → List (Returns × List ℕ)
read_all zero r answers = []
read_all (suc n) r answers =
    let c = read r answers in (c.answer, c.put) ∷ read_all n c.reader c.left

-- `Writer`, without the stream below.
pub record Writer : Type 0 where
  pub size : ℕ
  pub fixed : Bool
  pub complete : Bool

unfoldable pub new_writer : ℕ → Bool → Bool → Writer
new_writer size fixed complete = record { size = size; fixed = fixed; complete = complete }

-- `for r.n < r.size` of `Write`, which hands the same bytes to the stream in each round: the
-- answer, and what the stream was handed.
unfoldable pub write_loop : ℕ → ℕ → List ℕ → List Wrote → Returns × List (List ℕ)
write_loop size n part [] = if ltb n size then (pending, []) else (returns size, [])
write_loop size n part (write_error k ∷ answers) =
    if ltb n size then (fails n, part ∷ []) else (returns size, [])
write_loop size n part (wrote k ∷ answers) =
    let rest = write_loop size (n + k) part answers in
    if ltb n size then (rest.0, part ∷ rest.1) else (returns size, [])

unfoldable pub begin_write : Writer → List ℕ → List Wrote → Returns × List (List ℕ)
begin_write w b [] = (pending, b ∷ [])
begin_write w b (write_error n ∷ answers) =
    let rest = write_loop w.size n (drop n b) answers in
    if (n == w.size) || not w.complete then (fails n, b ∷ []) else (rest.0, b ∷ rest.1)
begin_write w b (wrote n ∷ answers) =
    let rest = write_loop w.size n (drop n b) answers in
    if (n == w.size) || not w.complete then (returns n, b ∷ []) else (rest.0, b ∷ rest.1)

unfoldable pub write : Writer → List ℕ → List Wrote → Returns × List (List ℕ)
write w b answers =
    if w.fixed && not (length b == w.size) then (fails 0, []) else begin_write w b answers
