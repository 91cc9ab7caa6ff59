-- ===== src/Runtime/View/Prefixes.antt =====
-- `PrefixInSorted`: the groups of accepted prefixes, and the search of `slices.BinarySearch` in them.
use entid_go.Prelude.{
  ap, eq→beq, sym, ◌∙◌, has_prefix-take, length-has_prefix, inr, inl, Bool-cases, beq→eq, beq_refl,
  ℕ, zero, suc, ◌+◌, ◌/◌, ◌≤◌, ◌<◌, ◌≡◌, refl, Bool, true, false, not, ◌&&◌, ◌||◌, List, [], ◌∷◌,
  arith, ltb, if◌then◌else◌, length, take, get_or, Bytes, beq, less,
  has_prefix as string_has_prefix,
}
use mathlib.Core.Bool.{false≢true}
use entid_go.Runtime.View.{View}

pub record PrefixGroup : Type 0 where
  pub length_of : ℕ
  pub values : List Bytes

-- The loop of `slices.BinarySearch` on [i, j); the fuel bounds its rounds.
unfoldable pub search_from : ℕ → List Bytes → Bytes → ℕ → ℕ → ℕ
search_from zero xs target i j = i
search_from (suc f) xs target i j =
    let h = (i + j) / 2 in
    let right = search_from f xs target (h + 1) j in
    let left = search_from f xs target i h in
    if not (ltb i j) then i else if less (get_or xs h []) target then right else left

unfoldable pub binary_search : List Bytes → Bytes → Bool
unfolding search_from beq less
binary_search xs target =
    let i = search_from (length xs) xs target 0 (length xs) in
    ltb i (length xs) && beq (get_or xs i []) target

unfoldable pub prefix_in_groups : Bytes → List PrefixGroup → Bool
unfolding binary_search
prefix_in_groups s [] = false
prefix_in_groups s (g ∷ groups) =
    if ltb (length s) g.length_of
    then prefix_in_groups s groups
    else if binary_search g.values (take g.length_of s)
    then true
    else prefix_in_groups s groups

unfoldable pub prefix_in_sorted : View → List PrefixGroup → Bool
unfolding prefix_in_groups
prefix_in_sorted v groups = if not v.present then false else prefix_in_groups v.s groups

-- What the generator promises of the values of a group: strictly ascending, and of one length.
abbrev pub Ascending : List Bytes → Type 0
Ascending xs = (i j : ℕ) → i < j → j < length xs → less (get_or xs i []) (get_or xs j []) ≡ true

abbrev pub OfLength : ℕ → List Bytes → Type 0
OfLength n [] = Unit {0}
OfLength n (x ∷ xs) = (length x ≡ n) × OfLength n xs

abbrev pub WellFormed : List PrefixGroup → Type 0
WellFormed [] = Unit {0}
WellFormed (g ∷ gs) = Ascending g.values × OfLength g.length_of g.values × WellFormed gs

-- The reference definition: a scan of every value of every group.
abbrev pub some_prefix : Bytes → List Bytes → Bool
some_prefix s [] = false
some_prefix s (p ∷ ps) = string_has_prefix s p || some_prefix s ps

abbrev pub scan_groups : Bytes → List PrefixGroup → Bool
scan_groups s [] = false
scan_groups s (g ∷ gs) = some_prefix s g.values || scan_groups s gs

less_irrefl : (a : Bytes) → less a a ≡ false
unfolding less
less_irrefl [] = refl
less_irrefl (x ∷ a) = ground (arith, less_irrefl a)

less_asymm : (a b : Bytes) → less a b ≡ true → less b a ≡ false
unfolding less
less_asymm [] [] h = refl
less_asymm [] (y ∷ b) h = refl
less_asymm (x ∷ a) [] h = cc
less_asymm (x ∷ a) (y ∷ b) h = ground (arith, less_asymm a b)

-- The search ends at the place of the value that it looks for.
search_from-finds :
    (f : ℕ) (xs : List Bytes) (i j m : ℕ)
    → Ascending xs
    → i ≤ m
    → m ≤ j
    → m < length xs
    → j ≤ length xs
    → j ≤ f + i
    → search_from f xs (get_or xs m []) i j ≡ m
unfolding search_from
search_from-finds zero xs i j m up h k l n e = omega arith
search_from-finds (suc f) xs i j m up h k l n e =
    let mid = (i + j) / 2 in
    let lo : m < mid → mid < length xs → less (get_or xs mid []) (get_or xs m []) ≡ false =
      λ p q. less_asymm (get_or xs m []) (get_or xs mid []) (up m mid p q) in
    let hi : mid < m → less (get_or xs mid []) (get_or xs m []) ≡ true = λ p. up mid m p l in
    ground (
      arith,
      lo,
      hi,
      less_irrefl (get_or xs m []),
      search_from-finds f xs (mid + 1) j m up,
      search_from-finds f xs i mid m up,
    )

some_prefix-get :
    (s : Bytes) (xs : List Bytes)
    → some_prefix s xs ≡ true
    → (m : ℕ) × (m < length xs) × (string_has_prefix s (get_or xs m []) ≡ true)
some_prefix-get s [] h = absurd (false≢true h)
some_prefix-get s (x ∷ xs) h = elim (Bool-cases (string_has_prefix s x)) [
  | inl here ↦ (0, omega arith, here)
  | inr there ↦ let (m, lt, e) = some_prefix-get s xs (rw there at h) in (suc m, omega arith, e)
]

get-some_prefix :
    (s : Bytes) (xs : List Bytes) (m : ℕ)
    → m < length xs
    → string_has_prefix s (get_or xs m []) ≡ true
    → some_prefix s xs ≡ true
get-some_prefix s [] m h e = elim h [ ]
get-some_prefix s (x ∷ xs) zero h e = rw e
get-some_prefix s (x ∷ xs) (suc m) h e = ground (arith, get-some_prefix s xs m (omega arith) e)

OfLength-get :
    (n : ℕ) (xs : List Bytes) (m : ℕ) → OfLength n xs → m < length xs → length (get_or xs m []) ≡ n
OfLength-get n [] m h l = elim l [ ]
OfLength-get n (x ∷ xs) zero h l = h.0
OfLength-get n (x ∷ xs) (suc m) h l = OfLength-get n xs m h.1 (omega arith)

-- A value that the search finds is one of the values.
binary_search_sound :
    (xs : List Bytes) (t : Bytes)
    → binary_search xs t ≡ true
    → (m : ℕ) × (m < length xs) × (get_or xs m [] ≡ t)
unfolding binary_search
binary_search_sound xs t h =
    let m = search_from (length xs) xs t 0 (length xs) in
    (m, ground arith, beq→eq (get_or xs m []) t (ground arith))

-- Every one of the values is found.
binary_search_complete :
    (xs : List Bytes) (m : ℕ)
    → Ascending xs
    → m < length xs
    → binary_search xs (get_or xs m []) ≡ true
unfolding binary_search
binary_search_complete xs m up h =
    ground (arith, search_from-finds (length xs) xs 0 (length xs) m up, beq_refl (get_or xs m []))

-- At one length, starting with a value is equalling the opening of that length.
opening :
    (s p : Bytes) (n : ℕ) → length p ≡ n → n ≤ length s → string_has_prefix s p ≡ beq (take n s) p
opening s p n e h =
    let le : length p ≤ length s = omega arith in
    has_prefix-take s p le ∙ ap (λ k. beq (take k s) p) e

group_hit :
    (s : Bytes) (n : ℕ) (xs : List Bytes)
    → Ascending xs
    → OfLength n xs
    → n ≤ length s
    → some_prefix s xs ≡ true
    → binary_search xs (take n s) ≡ true
group_hit s n xs up of h hit =
    let (m, lt, e) = some_prefix-get s xs hit in
    let open_eq = opening s (get_or xs m []) n (OfLength-get n xs m of lt) h in
    let same = beq→eq (take n s) (get_or xs m []) (sym open_eq ∙ e) in
    ap (binary_search xs) same ∙ binary_search_complete xs m up lt

group_sound :
    (s : Bytes) (n : ℕ) (xs : List Bytes)
    → OfLength n xs
    → n ≤ length s
    → binary_search xs (take n s) ≡ true
    → some_prefix s xs ≡ true
group_sound s n xs of h found =
    let (m, lt, e) = binary_search_sound xs (take n s) found in
    get-some_prefix s xs m lt (
      opening s (get_or xs m []) n (OfLength-get n xs m of lt) h
      ∙ eq→beq (take n s) (get_or xs m []) (sym e))

group_search :
    (s : Bytes) (n : ℕ) (xs : List Bytes)
    → Ascending xs
    → OfLength n xs
    → n ≤ length s
    → binary_search xs (take n s) ≡ some_prefix s xs
group_search s n xs up of h = ground (arith, group_hit s n xs up of h, group_sound s n xs of h)

-- A string shorter than the values starts with none of them.
short_group :
    (s : Bytes) (n : ℕ) (xs : List Bytes) → OfLength n xs → length s < n → some_prefix s xs ≡ false
short_group s n [] of h = refl
short_group s n (x ∷ xs) of h = ground (arith, length-has_prefix s x, short_group s n xs of.1 h)

prefix_in_groups-scan :
    (s : Bytes) (gs : List PrefixGroup) → WellFormed gs → prefix_in_groups s gs ≡ scan_groups s gs
unfolding prefix_in_groups
prefix_in_groups-scan s [] w = refl
prefix_in_groups-scan s (g ∷ gs) (up, of, w) = ground (
  arith,
  prefix_in_groups-scan s gs w,
  group_search s g.length_of g.values up of,
  short_group s g.length_of g.values of,
)

-- On groups that the generator builds (each ascending, and of its own length), the binary searches of
-- `PrefixInSorted` answer what a scan of every value would answer.
pub prefix_in_sorted-scan :
    (v : View) (gs : List PrefixGroup)
    → WellFormed gs
    → prefix_in_sorted v gs ≡ (v.present && scan_groups v.s gs)
unfolding prefix_in_sorted
prefix_in_sorted-scan v gs w = ground (arith, prefix_in_groups-scan v.s gs w)
