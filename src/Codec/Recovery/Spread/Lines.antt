-- ===== src/Codec/Recovery/Spread/Lines.antt =====
-- Batches of interleaved chunks in `assembly` and `restore` of src/codec/decoder.go.
use mathlib.Core.Path.{subst}
use fec.Prelude.{
  ℕ, suc, ◌+◌, ◌*◌, ◌^◌, ◌≤◌, ◌<◌, ◌≡◌, refl, sym, ap, ◌∙◌, Option, some, List, [], ◌∷◌, ◌++◌, map,
  length-map, arith, length, length-append, append_assoc, All, Option-cases, inl, inr, none≢some,
  some-injective,
}
use fec.Codec.Packet.{PacketV2}
use fec.Codec.Chunk.{Chunk}
use fec.Codec.Encoder.{Coder}
use fec.Codec.Decoder.{Assembler, Restorer}
use fec.Codec.Decoder.Assembly.{assemble_all}
use fec.Codec.Decoder.Assembly.Round.{rounds_of}
use fec.Codec.Decoder.Assembly.Late.{assemble_all-append}
use fec.Codec.Decoder.Assembly.Interleaved.{Between, assemble_all-interleaved}
use fec.Codec.Decoder.Restore.{restore, restore_all}
use fec.Codec.Recovery.Packets.{Carries}
use fec.Codec.Recovery.Restored.{restorer_of, IsCoder, Fits}
use fec.Codec.Recovery.Stream.{InTurn}
use fec.Codec.Recovery.Spread.Rounds.{Numbers, round, rounds, rounds-IsRound, restore_all-lists_of}

-- One sequence of lists behind another.
restore_all-append :
    (r s t : Restorer) (xs ys : List (List (Option PacketV2))) (before behind : List Chunk)
    → restore_all r xs ≡ some (before, s)
    → restore_all s ys ≡ some (behind, t)
    → restore_all r (xs ++ ys) ≡ some (before ++ behind, t)
unfolding restore_all
restore_all-append r s t [] ys before behind e f = ground (arith, e, f)
restore_all-append r s t (x ∷ xs) ys before behind e f = elim (Option-cases (restore r x)) [
  | inl g ↦ absurd (none≢some (before, s) (sym (rw (g, restore_all) refl) ∙ e))
  | inr ((chunks, r'), g) ↦ elim (Option-cases (restore_all r' xs)) [
    | inl h ↦ absurd (none≢some (before, s) (sym (rw (g, restore_all, h) refl) ∙ e))
    | inr ((later, s'), h) ↦
        let same : (chunks ++ later, s') ≡ (before, s) =
          some-injective (chunks ++ later, s') (before, s)
            (sym (rw (g, restore_all, h) refl) ∙ e) in
        let ih =
          restore_all-append r' s' t xs ys later behind h
            (ap (λ x. restore_all x ys) (ap (λ x. x.1) same) ∙ f) in
        rw (g, restore_all, ih)
          (ap (λ zs. some (zs, t))
            (sym (append_assoc chunks later behind) ∙ ap (λ x. x.0 ++ behind) same))
  ]
]

InTurn-append :
    (src : ℕ → List ℕ) (c : ℕ) (xs ys : List Chunk)
    → InTurn src c xs
    → InTurn src (c + length xs) ys
    → InTurn src c (xs ++ ys)
InTurn-append src c [] ys h k = subst (λ n. InTurn src n ys) {x = c + 0} {y = c} (omega arith) k
InTurn-append src c (x ∷ xs) ys (a, b, h) k = (
  a,
  b,
  InTurn-append src (c + 1) xs ys h (
      subst (λ n. InTurn src n ys) {x = c + suc (length xs)} {y = c + 1 + length xs} (omega arith)
        k),
)

pub times_le : (x y t : ℕ) → x ≤ y → x * t ≤ y * t
times_le x y t h = grind arith

times_suc : (n m : ℕ) → n * suc m ≡ n + n * m
times_suc n m = grind arith

-- The first batch, and the others.
pub split_small :
    (t c n m : ℕ)
    → (c + n * suc m) * t < 2 ^ 64
    → ((c + n) * t < 2 ^ 64) × ((c + n + n * m) * t < 2 ^ 64)
split_small t c n m small = (
  omega (arith, small, times_le (c + n) (c + n * suc m) t (omega (arith, times_suc n m))),
  subst (λ x. x * t < 2 ^ 64) {x = c + n * suc m} {y = c + n + n * m} (omega (arith, times_suc n m))
      small,
)

-- What comes of a batch: the numbers of the rounds that come first, and packets behind them.
pub record Heard : Type 0 where
  pub numbers : List ℕ
  pub late : List PacketV2

module _ (e : Coder) (src : ℕ → List ℕ) (n : ℕ) where
  -- As many rounds as there are data shards, and behind them packets of chunks that are over.
  pub record IsHeard (c : ℕ) (h : Heard) : Type 0 where
    pub different : Numbers e.total h.numbers
    pub enough : length h.numbers ≡ e.parts
    pub behind : All (λ q. q.csn < c + n) h.late

  abbrev pub AreHeard : ℕ → List Heard → Type 0
  AreHeard c [] = Unit
  AreHeard c (h ∷ hs) = IsHeard c h × AreHeard (c + n) hs

  module _ (v : IsCoder e) (fits : (k : ℕ) → Fits e (src k)) (few : e.total ≤ 2 ^ 32) where
    module _ (f : PacketV2 → PacketV2) (carries : (q : PacketV2) → Carries q (f q))
        (keeps : (q : PacketV2) → (f q).psn ≡ q.psn) where
      -- The packets, as they come.
      unfoldable pub arrivals : ℕ → List Heard → List PacketV2
      arrivals c [] = []
      arrivals c (h ∷ hs) =
          rounds_of n (rounds e src v fits few f carries keeps c h.numbers)
          ++ (map f h.late ++ arrivals (c + n) hs)

      late-csn :
          (m : ℕ) (qs : List PacketV2) → All (λ q. q.csn < m) qs → All (λ q. q.csn < m) (map f qs)
      late-csn m [] h = tt
      late-csn m (q ∷ qs) (lt, h) = (omega (arith, (carries q).0), late-csn m qs h)

      -- The first batch. Its rounds are not none.
      spread_batch :
          (lines : ℕ) (room : n ≤ lines) (a : Assembler) (c ok err : ℕ) (numbers : List ℕ)
          (late : List PacketV2)
          → 0 < n
          → 2 ≤ e.parts
          → Between a lines e.total e.parts c
          → (c + n) * e.total < 2 ^ 64
          → IsHeard c (record { numbers = numbers; late = late })
          → (sent : List (List (Option PacketV2))) × (b : Assembler) × (chunks : List Chunk)
            × (ok' : ℕ) × (assemble_all a
                  (rounds_of n (rounds e src v fits few f carries keeps c numbers) ++ map f late)
                ≡ some (sent, b))
            × (restore_all (restorer_of e ok err) sent ≡ some (chunks, restorer_of e ok' err))
            × Between b lines e.total e.parts (c + n)
            × InTurn src c chunks
            × (length chunks ≡ n)
      spread_batch lines room a c ok err [] late some_chunks two s small i =
          absurd (omega (arith, i.enough))
      spread_batch lines room a c ok err (r ∷ rs) late some_chunks two s small i =
          let all = rounds_of n (rounds e src v fits few f carries keeps c (r ∷ rs)) in
          let (b, sent, between) =
            assemble_all-interleaved lines e.total e.parts c n room a
              (round e src v fits few f carries keeps c r)
              (rounds e src v fits few f carries keeps c rs) (map f late) some_chunks two
              (length-map (round e src v fits few f carries keeps c) (r ∷ rs) ∙ i.enough) s
              (rounds-IsRound e src v fits few f carries keeps lines c n (r ∷ rs) room small
                i.different)
              (late-csn (c + n) late i.behind) in
          let (chunks, ok', restored, numbered, counted) =
            restore_all-lists_of e src v fits few f carries keeps c (r ∷ rs) 0 n ok err i.different
              (omega (arith, i.enough))
              (subst (λ x. (c + x) * e.total < 2 ^ 64) {x = n} {y = 0 + n} (omega arith) small) in
          (
            _,
            b,
            chunks,
            ok',
            sent,
            restored,
            between,
            subst (λ x. InTurn src x chunks) {x = c + 0} {y = c} (omega arith) numbered,
            counted,
          )

      pub spread_lem :
          (lines : ℕ) (room : n ≤ lines) (a : Assembler) (c ok err : ℕ) (hs : List Heard)
          → 0 < n
          → 2 ≤ e.parts
          → Between a lines e.total e.parts c
          → (c + n * length hs) * e.total < 2 ^ 64
          → AreHeard c hs
          → (sent : List (List (Option PacketV2))) × (b : Assembler) × (chunks : List Chunk)
            × (ok' : ℕ) × (assemble_all a (arrivals c hs) ≡ some (sent, b))
            × (restore_all (restorer_of e ok err) sent ≡ some (chunks, restorer_of e ok' err))
            × InTurn src c chunks
            × (length chunks ≡ n * length hs)
      unfolding arrivals assemble_all restore_all
      spread_lem lines room a c ok err [] some_chunks two s small h =
          ([], a, [], ok, refl, refl, tt, omega arith)
      spread_lem lines room a c ok err (h ∷ hs) some_chunks two s small (i, is) =
          let (first, later) = split_small e.total c n (length hs) small in
          let (sent, b, chunks, ok', e1, e2, between, numbered, counted) =
            spread_batch lines room a c ok err h.numbers h.late some_chunks two s first i in
          let (sent', z, chunks', ok'', e1', e2', numbered', counted') =
            spread_lem lines room b (c + n) ok' err hs some_chunks two between later is in
          (
            sent ++ sent',
            z,
            chunks ++ chunks',
            ok'',
            ap (assemble_all a) (
                  sym (
                    append_assoc (rounds_of n (rounds e src v fits few f carries keeps c h.numbers))
                      (map f h.late) (arrivals (c + n) hs)))
                ∙ assemble_all-append a b z
                    (rounds_of n (rounds e src v fits few f carries keeps c h.numbers)
                      ++ map f h.late)
                    (arrivals (c + n) hs) sent sent' e1 e1',
            restore_all-append (restorer_of e ok err) (restorer_of e ok' err)
                (restorer_of e ok'' err) sent sent' chunks chunks' e2 e2',
            InTurn-append src c chunks chunks' numbered
                (subst (λ x. InTurn src (c + x) chunks') (sym counted) numbered'),
            length-append chunks chunks'
                ∙ omega (arith, counted, counted', times_suc n (length hs)),
          )
