-- ===== src/Gen/Decode/Encoding/Segments.antt =====
-- internal/gen/decode.go: the decoders' loop over one encoded field, with any bytes behind it.
use entid_go.Prelude.{
  ◌>>=◌, bind_on, ℕ, ◌+◌, ◌^◌, ◌≤◌, ◌<◌, ◌≡◌, refl, sym, ap, ◌∙◌, true, List, [], ◌∷◌, ◌++◌, Option,
  none, some, arith, length, length-append, length-drop, append_assoc, Option-cases, inl, inr,
  append-nil, Bytes,
}
use mathlib.Core.Path.{subst}
use mathlib.Core.List.{Memᴰ}
use entid_go.Utf8.{valid_string}
use entid_go.Wire.{Reader, WireType, wire_bytes, done, mark, text}
use entid_go.Wire.Bounds.{next-Advances}
use entid_go.Wire.Encoding.{put_tag, put_bytes}
use entid_go.Wire.Encoding.RoundTrip.{ahead, forward, ahead-forward, next-put}
use entid_go.Gen.Decode.{Field, marked, store, update}
use entid_go.Gen.Decode.Runs.{Runs, step, stop}
use entid_go.Gen.Decode.Encoding.{put_text, put_each}
use entid_go.Gen.Decode.Encoding.Reads.{ReadsBack, text-ReadsBack}
use entid_go.Gen.Decode.Encoding.{put_option}

-- A field that is there or not.
abbrev pub marks : ℕ → Option Bytes → List ℕ → List ℕ
marks num none seen = seen
marks num (some b) seen = num ∷ seen

module _ {ℓ} {M : Type ℓ} {field : Field M} {t : M × List ℕ} {end : Reader} where
  -- One field: its tag, and a payload that its case reads.
  pub run-field :
      {s : M × List ℕ} (s' : M × List ℕ) (r : Reader) (num : ℕ) (wire : WireType)
      (payload rest : Bytes)
      → 0 < num
      → num < 2 ^ 29
      → ahead r ≡ (put_tag num wire ++ payload) ++ rest
      → ((r₁ : Reader)
          → ahead r₁ ≡ payload ++ rest
          → r₁.buf ≡ r.buf
          → r₁.depth ≡ r.depth
          → r₁.at ≤ length r₁.buf
          → field num wire s r₁ ≡ some (s', forward r₁ (length payload)))
      → Runs field t end s' (forward r (length (put_tag num wire ++ payload)))
      → Runs field t end s r
  run-field {s = s} s' r num wire payload rest some_number small h reads on =
      let tag = put_tag num wire in
      let whole : ahead r ≡ tag ++ (payload ++ rest) = h ∙ append_assoc tag payload rest in
      let r₁ : Reader = forward r (length tag) in
      let read = next-put r num wire (payload ++ rest) some_number small whole in
      let (_, more, inside, _, _) = next-Advances r r₁ (num, wire) read in
      let given = reads r₁ (ahead-forward r tag (payload ++ rest) whole) refl refl inside in
      let moved : r.at + length (tag ++ payload) ≡ r₁.at + length payload =
        (let parts = length-append tag payload in omega (arith, parts)) in
      step num wire (ground (arith, more, inside)) read given
        (subst (λ k. Runs field t end s' (record r { at = k })) moved on)

-- A case that stores what it reads and refuses nothing.
pub store-read {ℓ κ} :
    {M : Type ℓ} {A : Type κ} (read : Reader → Option (A × Reader)) (set : M → A → M) (num : ℕ)
    (wire : WireType) (m : M) (seen : List ℕ) (r : Reader)
    → store read (λ m v. some (set m v)) num wire (m, seen) r
      ≡ (read r >>= λ (v, r'). some ((set m v, seen), r'))
unfolding store update
store-read read set num wire m seen r = elim (Option-cases (read r)) [
  | inl failed ↦ rw failed refl
  | inr ((v, r'), given) ↦ rw given refl
]

pub marked-read {ℓ κ} :
    {M : Type ℓ} {A : Type κ} (read : Reader → Option (A × Reader)) (set : M → A → M) (num : ℕ)
    (wire : WireType) (m : M) (seen : List ℕ) (r : Reader)
    → marked (store read (λ m v. some (set m v))) num wire (m, seen) r
      ≡ (mark seen num >>= λ seen'. read r >>= λ (v, r'). some ((set m v, seen'), r'))
unfolding marked
marked-read read set num wire m seen r = elim (Option-cases (mark seen num)) [
  | inl taken ↦ rw taken refl
  | inr (seen', free) ↦ rw free (store-read read set num wire m seen' r)
]

-- The loop runs to the end of the body, and leaves the message `m`.
abbrev pub Reaches {ℓ} : {M : Type ℓ} → Field M → M → M × List ℕ → Reader → Type ℓ
Reaches field m s r =
    (seen : List ℕ) × (end : Reader) × (done end ≡ true) × Runs field (m, seen) end s r

pub Reaches-stop {ℓ} :
    {M : Type ℓ} (field : Field M) (m : M) (seen : List ℕ) (r : Reader)
    → ahead r ≡ []
    → Reaches field m (m, seen) r
Reaches-stop field m seen r h =
    let left = length-drop r.at r.buf in
    let end : done r ≡ true = ground (arith, left, ap length h) in (seen, r, end, stop end)

module _ {ℓ} {M : Type ℓ} {field : Field M} {end_m : M} where
  -- A singular field, of a case that marks it, reads it and stores what it read.
  pub run-singular {κ} :
      {A : Type κ} (m : M) (seen : List ℕ) (r : Reader) (num : ℕ) (wire : WireType)
      (read : Reader → Option (A × Reader)) (set : M → A → M) (payload rest : Bytes) (v : A)
      → ((r₁ : Reader)
          → field num wire (m, seen) r₁
            ≡ (mark seen num >>= λ seen'. read r₁ >>= λ (v, r'). some ((set m v, seen'), r')))
      → mark seen num ≡ some (num ∷ seen)
      → 0 < num
      → num < 2 ^ 29
      → ReadsBack read r.depth payload v
      → length r.buf < 2 ^ 64
      → ahead r ≡ (put_tag num wire ++ payload) ++ rest
      → Reaches field end_m (set m v, num ∷ seen) (forward r (length (put_tag num wire ++ payload)))
      → Reaches field end_m (m, seen) r
  run-singular m seen r num wire read set payload rest v case_eq free some_number low back small h
        (marks, end, finished, run) =
      (
        marks,
        end,
        finished,
        run-field (set m v, num ∷ seen) r num wire payload rest some_number low h
            (λ r₁ next_ahead same deep inside.
              case_eq r₁
              ∙ bind_on _ _ _ _ free (
                  bind_on _ _ _ _
                    (back r₁ rest deep (inside, omega (arith, small, ap length same)) next_ahead)
                    refl))
            run,
      )

  -- A field that comes once for each element, with its own accessors.
  pub run-each {κ} :
      {A : Type κ} (seen : List ℕ) (num : ℕ) (read : Reader → Option (A × Reader))
      (get : M → List A) (set : M → List A → M) (encode : A → Bytes) (xs : List A)
      → ((m : M) (r₁ : Reader)
          → field num wire_bytes (m, seen) r₁
            ≡ (read r₁ >>= λ (v, r'). some ((set m (get m ++ v ∷ []), seen), r')))
      → ((m : M) (vs : List A) → get (set m vs) ≡ vs)
      → ((m : M) (us vs : List A) → set (set m us) vs ≡ set m vs)
      → ((m : M) → set m (get m) ≡ m)
      → 0 < num
      → num < 2 ^ 29
      → (m : M) (r : Reader) (rest : Bytes)
      → ((x : A) → Memᴰ x xs → ReadsBack read r.depth (put_bytes (encode x)) x)
      → length r.buf < 2 ^ 64
      → ahead r ≡ put_each encode num xs ++ rest
      → Reaches field end_m
          (set m (get m ++ xs), seen)
          (forward r (length (put_each encode num xs)))
      → Reaches field end_m (m, seen) r
  unfolding put_each put_text
  run-each seen num read get set encode [] case_eq get_set set_set set_get pos low m r rest back
        small h on =
      let same : set m (get m ++ []) ≡ m = ap (set m) (append-nil (get m)) ∙ set_get m in
      let still : r.at + 0 ≡ r.at = omega arith in
      subst (λ k. Reaches field end_m (m, seen) (record r { at = k })) still
        (subst (λ n. Reaches field end_m (n, seen) (forward r 0)) same on)
  run-each seen num read get set encode (x ∷ xs) case_eq get_set set_set set_get pos low m r rest
        back small h on =
      let seg = put_tag num wire_bytes ++ put_bytes (encode x) in
      let tail = put_each encode num xs in
      let m₁ = set m (get m ++ x ∷ []) in
      let r₁ : Reader = forward r (length seg) in
      let here : ahead r ≡ seg ++ (tail ++ rest) = h ∙ append_assoc seg tail rest in
      let joined : set m (get m ++ x ∷ xs) ≡ set m₁ (get m₁ ++ xs) =
        ap (set m) (sym (append_assoc (get m) (x ∷ []) xs))
        ∙ sym (set_set m (get m ++ x ∷ []) _)
        ∙ ap (λ vs. set m₁ (vs ++ xs)) (sym (get_set m (get m ++ x ∷ []))) in
      let moved : r.at + length (seg ++ tail) ≡ r₁.at + length tail =
        (let parts = length-append seg tail in omega (arith, parts)) in
      let on₁ =
        subst (λ k. Reaches field end_m (set m₁ (get m₁ ++ xs), seen) (record r { at = k })) moved
          (subst (λ n. Reaches field end_m (n, seen) (forward r (length (seg ++ tail)))) joined
            on) in
      let (marks, end, finished, run) =
        run-each seen num read get set encode xs case_eq get_set set_set set_get pos low m₁ r₁ rest
          (λ y among. back y (Memᴰ.tail among)) small (ahead-forward r seg (tail ++ rest) here)
          on₁ in
      (
        marks,
        end,
        finished,
        run-field (m₁, seen) r num wire_bytes (put_bytes (encode x)) (tail ++ rest) pos low here
            (λ r₂ next_ahead same deep inside.
              case_eq m r₂
              ∙ bind_on _ _ _ _
                  (back x (Memᴰ.head refl) r₂ (tail ++ rest) deep
                    (inside, omega (arith, small, ap length same)) next_ahead)
                  refl)
            run,
      )

  -- An optional text.
  pub run-option :
      (m : M) (seen : List ℕ) (r : Reader) (num : ℕ) (set : M → Option Bytes → M) (o : Option Bytes)
      (rest : Bytes)
      → ((r₁ : Reader)
          → field num wire_bytes (m, seen) r₁ ≡ (
              mark seen num >>= λ seen'. text r₁ >>= λ (v, r'). some ((set m (some v), seen'), r')))
      → mark seen num ≡ some (num ∷ seen)
      → 0 < num
      → num < 2 ^ 29
      → ((b : Bytes) → o ≡ some b → valid_string b ≡ true)
      → set m none ≡ m
      → length r.buf < 2 ^ 64
      → ahead r ≡ put_option num o ++ rest
      → Reaches field end_m (set m o, marks num o seen) (forward r (length (put_option num o)))
      → Reaches field end_m (m, seen) r
  unfolding put_option put_text
  run-option m seen r num set none rest case_eq free pos low valid unset small h on =
      subst (λ k. Reaches field end_m (m, seen) (record r { at = k })) (omega arith)
        (subst (λ n. Reaches field end_m (n, seen) (forward r 0)) unset on)
  run-option m seen r num set (some b) rest case_eq free pos low valid unset small h on =
      run-singular m seen r num wire_bytes text (λ n v. set n (some v)) (put_bytes b) rest b case_eq
        free pos low (text-ReadsBack r.depth b (valid b refl)) small h on
