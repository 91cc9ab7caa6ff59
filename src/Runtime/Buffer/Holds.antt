-- ===== src/Runtime/Buffer/Holds.antt =====
-- What a workspace holds: a value, and the room for bytes before it and behind it.
use entid_go.Prelude.{
  ℕ, ◌+◌, ◌-◌, ◌≡◌, refl, sym, ap, ◌∙◌, true, false, List, [], ◌∷◌, ◌++◌, Option, some, arith,
  length, take, drop, Bytes, slice, length-append, length-drop, length-take, take-append-drop,
}
use entid_go.Runtime.Buffer.{Buf, str, string, overwrite, copy_to, load}

-- The value lies in the scratch bytes, between `pre` and `post`.
pub record Owns (w : Buf) (pre s post : Bytes) : Type 0 where
  pub in_scratch : w.loaded ≡ true
  pub bytes : w.b ≡ pre ++ (s ++ post)
  pub from : w.lo ≡ length pre
  pub until : w.hi ≡ length pre + length s

-- The value is still the input, and the scratch has room for it.
pub record Shares (w : Buf) (s : Bytes) (l r : ℕ) : Type 0 where
  pub in_input : w.loaded ≡ false
  pub input : w.src ≡ s
  pub margin : w.left ≡ l
  pub room : length w.b ≡ l + length s + r

-- `w` holds the value `s`, with room for `l` bytes before it and `r` behind it.
pub data Holds (w : Buf) (s : Bytes) (l r : ℕ) : Type 0 where
  shares : Shares w s l r → Holds w s l r
  owns : (pre post : Bytes) → length pre ≡ l → length post ≡ r → Owns w pre s post → Holds w s l r

pub drop-append_length {ℓ} : {A : Type ℓ} (xs ys : List A) → drop (length xs) (xs ++ ys) ≡ ys
drop-append_length [] ys = refl
drop-append_length (x ∷ xs) ys = drop-append_length xs ys

pub take-append_length {ℓ} : {A : Type ℓ} (xs ys : List A) → take (length xs) (xs ++ ys) ≡ xs
take-append_length [] ys = refl
take-append_length (x ∷ xs) ys = ap (λ t. x ∷ t) (take-append_length xs ys)

-- The bytes between the edges are the value.
pub slice_middle :
    (pre s post : Bytes) → slice (pre ++ (s ++ post)) (length pre) (length pre + length s) ≡ s
slice_middle pre s post =
    ap (λ t. take (length pre + length s - length pre) t) (drop-append_length pre (s ++ post))
    ∙ ap (λ n. take n (s ++ post)) same
    ∙ take-append_length s post
  where
    same : length pre + length s - length pre ≡ length s
    same = omega arith

-- Writing `t` over the `u` of the same length that stands behind `pre`.
pub overwrite_middle :
    (pre u post t : Bytes)
    → length t ≡ length u
    → overwrite (pre ++ (u ++ post)) (length pre) t ≡ pre ++ (t ++ post)
overwrite_middle [] [] [] [] h = refl
overwrite_middle [] [] (x ∷ post) [] h = refl
overwrite_middle [] [] post (y ∷ t) h = absurd (omega arith)
overwrite_middle [] (x ∷ u) post [] h = absurd (omega arith)
overwrite_middle [] (x ∷ u) post (y ∷ t) h =
    ap (λ r. y ∷ r) (overwrite_middle [] u post t (omega arith))
overwrite_middle (x ∷ pre) u post t h = ap (λ r. x ∷ r) (overwrite_middle pre u post t h)

pub str-Owns : (w : Buf) (pre s post : Bytes) → Owns w pre s post → str w ≡ s
unfolding str
str-Owns w pre [] post o = ground arith
str-Owns w pre (x ∷ s) post o =
    let body : slice w.b w.lo w.hi ≡ x ∷ s =
      rw (o.bytes, o.from, o.until) (slice_middle pre (x ∷ s) post) in
    ground arith

pub string-Owns : (w : Buf) (pre s post : Bytes) → Owns w pre s post → string w ≡ s
unfolding string
string-Owns w pre s post o = rw (o.bytes, o.from, o.until) (slice_middle pre s post)

pub str-Holds : {w : Buf} {s : Bytes} {l r : ℕ} → Holds w s l r → str w ≡ s
str-Holds {w} (shares sh) = unfold str in ground arith
str-Holds {w} {s} (owns pre post hl hr o) = str-Owns w pre s post o

-- A copy over bytes that are there.
pub copy_middle :
    (b pre u post t : Bytes) (at : ℕ)
    → b ≡ pre ++ (u ++ post)
    → at ≡ length pre
    → length t ≡ length u
    → copy_to b at t ≡ some (length t, pre ++ (t ++ post))
unfolding copy_to
copy_middle b pre u post t at e f h =
    let len : length b ≡ length pre + (length u + length post) =
      ap length e
      ∙ length-append pre (u ++ post)
      ∙ ap (λ n. length pre + n) (length-append u post) in
    let body : overwrite b at t ≡ pre ++ (t ++ post) =
      rw (e, f) (overwrite_middle pre u post t h) in
    ground arith

-- A string cut in three.
pub cut_three : (b : Bytes) (n m : ℕ) → b ≡ take n b ++ (take m (drop n b) ++ drop m (drop n b))
cut_three b n m =
    sym (ap (λ t. take n b ++ t) (take-append-drop m (drop n b)) ∙ take-append-drop n b)

-- What `load` leaves: the value in the scratch bytes, with the room that it had.
abbrev pub Loads : Option Buf → Bytes → ℕ → ℕ → Type 0
Loads o s l r =
    (w : Buf) × (pre : Bytes) × (post : Bytes) × (o ≡ some w)
    × (length pre ≡ l)
    × (length post ≡ r)
    × Owns w pre s post

load_shared : (w : Buf) (s : Bytes) (l r : ℕ) → Shares w s l r → Loads (load w) s l r
unfolding load
load_shared w s l r sh =
    let pre = take l w.b in
    let mid = take (length s) (drop l w.b) in
    let post = drop (length s) (drop l w.b) in
    let pre_len : length pre ≡ l = omega (arith, length-take l w.b, sh.room) in
    let mid_len : length s ≡ length mid =
      omega (arith, length-take (length s) (drop l w.b), length-drop l w.b, sh.room) in
    let post_len : length post ≡ r =
      omega (arith, length-drop (length s) (drop l w.b), length-drop l w.b, sh.room) in
    let copied =
      copy_middle w.b pre mid post s l (cut_three w.b l (length s)) (sym pre_len) mid_len in
    (
      record w { lo = w.left; hi = w.left + length s; b = pre ++ (s ++ post); loaded = true },
      pre,
      post,
      ground (arith, copied, sh.input, sh.margin, sh.in_input),
      pre_len,
      post_len,
      record {
        in_scratch = refl;
        bytes = refl;
        from = omega (arith, sh.margin);
        until = omega (arith, sh.margin);
      },
    )

pub load-Holds : (w : Buf) (s : Bytes) (l r : ℕ) → Holds w s l r → Loads (load w) s l r
load-Holds w s l r (shares sh) = load_shared w s l r sh
load-Holds w s l r (owns pre post hl hr o) =
    (w, pre, post, unfold load in rw (o.in_scratch), hl, hr, o)

-- The same room, counted another way.
pub resize :
    {w : Buf} {s : Bytes} {l r l' r' : ℕ} → l ≡ l' → r ≡ r' → Holds w s l r → Holds w s l' r'
resize e f (shares sh) = shares (record {
  in_input = sh.in_input;
  input = sh.input;
  margin = sh.margin ∙ e;
  room = omega (arith, sh.room);
})
resize e f (owns pre post hl hr o) = owns pre post (hl ∙ e) (hr ∙ f) o
