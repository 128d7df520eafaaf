-- ===== src/Network/Frames.antt =====
-- The messages in a buffer, apart from what handling them does, and how they add up.
use raft_ebpf.Prelude.{
  ℕ, zero, suc, ◌≤◌, ◌<◌, Option, none, some, List, [], ◌∷◌, ◌++◌, ◌≡◌, refl, sym, ap, ◌∙◌, length,
  length-append, take, ltb, false, Bool-cases, inl, inr, arith,
}
use raft_ebpf.Network.Framing.{from_be_bytes, drop}
use raft_ebpf.Network.Connection.{
  max_message_size, Frame, too_large, wait, complete, frame_at, next_frame,
}

-- the payloads in a buffer, and what is left
abbrev pub Frames : Type 0
Frames = List (List ℕ) × Option (List ℕ)

abbrev pub cons_frame : List ℕ → Frames → Frames
cons_frame payload (ps, left) = (payload ∷ ps, left)

abbrev pub on_next : Frame → List ℕ → (List ℕ → Frames) → Frames
on_next too_large buf rest = ([], none)
on_next wait buf rest = ([], some buf)
on_next (complete payload left) buf rest = cons_frame payload (rest left)

unfoldable pub frames : ℕ → List ℕ → Frames
unfolding next_frame
frames zero buf = ([], some buf)
frames (suc fuel) buf = on_next (next_frame buf) buf (frames fuel)

-- what is left, with more bytes after it
abbrev pub glue : Frames → (List ℕ → Frames) → Frames
glue (ps, none) rest = (ps, none)
glue (ps, some left) rest = let (qs, last) = rest left in (ps ++ qs, last)

length-drop : (n : ℕ) (xs : List ℕ) → length (drop n xs) ≤ length xs
length-drop zero xs = omega arith
length-drop (suc n) [] = omega arith
length-drop (suc n) (x ∷ xs) = omega (arith, length-drop n xs)

take-more : (n : ℕ) (xs ys : List ℕ) → n ≤ length xs → take n (xs ++ ys) ≡ take n xs
take-more zero xs ys enough = refl
take-more (suc n) [] ys enough = absurd (omega arith)
take-more (suc n) (x ∷ xs) ys enough = ap (λ (l : List ℕ). x ∷ l) (take-more n xs ys (omega arith))

drop-more : (n : ℕ) (xs ys : List ℕ) → n ≤ length xs → drop n (xs ++ ys) ≡ drop n xs ++ ys
drop-more zero xs ys enough = refl
drop-more (suc n) [] ys enough = absurd (omega arith)
drop-more (suc n) (x ∷ xs) ys enough = drop-more n xs ys (omega arith)

-- What a buffer starts with is so whatever follows it, but for a message that is not complete.
data Start (buf more : List ℕ) : Frame → Frame → Type 0 where
  large : Start buf more too_large too_large
  waits : (f : Frame) → Start buf more wait f
  whole :
      (p left : List ℕ)
      → length left < length buf
      → Start buf more (complete p left) (complete p (left ++ more))

frame_at-Start :
    (size : ℕ) (buf rest more : List ℕ)
    → length rest < length buf
    → Start buf more (frame_at size rest) (frame_at size (rest ++ more))
frame_at-Start size buf rest more shorter = elim (Bool-cases (ltb max_message_size size)) [
  | inl big ↦ rw big large
  | inr fits ↦ elim (Bool-cases (ltb (length rest) size)) [
    | inl short ↦ rw (fits, short) (waits _)
    | inr enough ↦
        let n : size ≤ length rest = ground arith in
        let again : ltb (length (rest ++ more)) size ≡ false =
          ground (arith, length-append rest more) in
        rw (fits, enough, again, take-more size rest more n, drop-more size rest more n)
          (whole (take size rest) (drop size rest) (omega (arith, length-drop size rest)))
  ]
]

next_frame-Start : (buf more : List ℕ) → Start buf more (next_frame buf) (next_frame (buf ++ more))
unfolding next_frame
next_frame-Start (a ∷ b ∷ c ∷ d ∷ rest) more =
    frame_at-Start (from_be_bytes a b c d) _ rest more (omega arith)
next_frame-Start [] more = waits _
next_frame-Start (a ∷ []) more = waits _
next_frame-Start (a ∷ b ∷ []) more = waits _
next_frame-Start (a ∷ b ∷ c ∷ []) more = waits _

on_next_same :
    {buf more : List ℕ} {f g : Frame} (k k' : List ℕ → Frames)
    → Start buf more f g
    → ((left : List ℕ) → length left < length buf → k left ≡ k' left)
    → on_next f buf k ≡ on_next f buf k'
on_next_same k k' large same = refl
on_next_same k k' (waits f) same = refl
on_next_same k k' (whole p left shorter) same = ap (cons_frame p) (same left shorter)

frames_more :
    (fuel : ℕ) (buf : List ℕ) → length buf ≤ fuel → frames (suc fuel) buf ≡ frames fuel buf
unfolding frames next_frame
frames_more zero [] enough = refl
frames_more zero (b ∷ bs) enough = absurd (omega arith)
frames_more (suc fuel) buf enough =
    on_next_same (frames (suc fuel)) (frames fuel) (next_frame-Start buf [])
      λ left shorter. frames_more fuel left (omega arith)

-- fuel for the length of the buffer gives what more fuel gives
pub frames_enough :
    (fuel : ℕ) (buf : List ℕ) → length buf ≤ fuel → frames fuel buf ≡ frames (length buf) buf
frames_enough zero [] enough = refl
frames_enough zero (b ∷ bs) enough = absurd (omega arith)
frames_enough (suc fuel) buf enough = elim (Bool-cases (ltb fuel (length buf))) [
  | inl exact ↦ let e : suc fuel ≡ length buf = ground arith in ap (λ (k : ℕ). frames k buf) e
  | inr less ↦ frames_more fuel buf (ground arith) ∙ frames_enough fuel buf (ground arith)
]

-- what is left is no longer than the buffer, and starts no complete message
pub record IsLeft (buf : List ℕ) (x : Frames) : Type 0 where
  pub shorter : (r : List ℕ) → x.1 ≡ some r → length r ≤ length buf
  pub waiting : (r : List ℕ) → x.1 ≡ some r → next_frame r ≡ wait

on_next-IsLeft :
    {buf more : List ℕ} {g : Frame} (f : Frame) (k : List ℕ → Frames)
    → Start buf more f g
    → next_frame buf ≡ f
    → ((left : List ℕ) → length left < length buf → IsLeft left (k left))
    → IsLeft buf (on_next f buf k)
on_next-IsLeft f k large e rest = record {
  shorter = λ r at. absurd cc;
  waiting = λ r at. absurd cc;
}
on_next-IsLeft {buf} f k (waits g) e rest = record {
  shorter = λ r at. let same : buf ≡ r = cc in ground (arith, same);
  waiting = λ r at. let same : buf ≡ r = cc in cc;
}
on_next-IsLeft f k (whole p left less) e rest =
    let below = rest left less in
    record { shorter = λ r at. omega (arith, below.shorter r at); waiting = below.waiting }

pub frames-IsLeft : (fuel : ℕ) (buf : List ℕ) → length buf ≤ fuel → IsLeft buf (frames fuel buf)
unfolding frames next_frame
frames-IsLeft zero [] enough = record {
  shorter = λ r at. let same : [] ≡ r = cc in ground (arith, same);
  waiting = λ r at. let same : [] ≡ r = cc in rw⁻¹ same refl;
}
frames-IsLeft zero (b ∷ bs) enough = absurd (omega arith)
frames-IsLeft (suc fuel) buf enough =
    on_next-IsLeft (next_frame buf) (frames fuel) (next_frame-Start buf []) refl
      λ left shorter. frames-IsLeft fuel left (omega arith)

glue_cons :
    (p : List ℕ) (x : Frames) (k : List ℕ → Frames)
    → glue (cons_frame p x) k ≡ cons_frame p (glue x k)
glue_cons p (ps, none) k = refl
glue_cons p (ps, some r) k = refl

glue_same :
    (x : Frames) (k k' : List ℕ → Frames)
    → ((r : List ℕ) → x.1 ≡ some r → k r ≡ k' r)
    → glue x k ≡ glue x k'
glue_same (ps, none) k k' same = refl
glue_same (ps, some r) k k' same = ap (λ (y : Frames). (ps ++ y.0, y.1)) (same r refl)

-- one round on the longer buffer, and on the two parts
glue_round :
    (fuel : ℕ) (buf more : List ℕ) (f g : Frame)
    → Start buf more f g
    → length (buf ++ more) ≤ suc fuel
    → frames (suc fuel) (buf ++ more) ≡ on_next g (buf ++ more) (frames fuel)
    → ((left : List ℕ)
        → length left < length buf
        → frames fuel (left ++ more) ≡ glue (frames fuel left) (λ r. frames fuel (r ++ more)))
    → on_next g (buf ++ more) (frames fuel)
      ≡ glue (on_next f buf (frames fuel)) (λ r. frames (suc fuel) (r ++ more))
glue_round fuel buf more f g large enough e ih = refl
glue_round fuel buf more f g (waits _) enough e ih = sym e
glue_round fuel buf more f g (whole p left shorter) enough e ih =
    let l1 = length-append buf more in
    let all = frames-IsLeft fuel left (omega (arith, l1)) in
    ap (cons_frame p) (
      ih left shorter
      ∙ glue_same (frames fuel left) (λ r. frames fuel (r ++ more))
          (λ r. frames (suc fuel) (r ++ more))
          (λ r at. sym (
            frames_more fuel (r ++ more)
              (omega (arith, l1, length-append r more, all.shorter r at)))))
    ∙ sym (glue_cons p (frames fuel left) (λ r. frames (suc fuel) (r ++ more)))

-- The messages of a buffer that grows are those of its first part, and then those of what was left
-- and the rest.
pub frames-glue :
    (fuel : ℕ) (buf more : List ℕ)
    → length (buf ++ more) ≤ fuel
    → frames fuel (buf ++ more) ≡ glue (frames fuel buf) (λ r. frames fuel (r ++ more))
unfolding frames
frames-glue zero buf more enough = refl
frames-glue (suc fuel) buf more enough =
    glue_round fuel buf more (next_frame buf) (next_frame (buf ++ more)) (next_frame-Start buf more)
      enough refl
      λ left shorter.
        frames-glue fuel left more (omega (arith, length-append buf more, length-append left more))
