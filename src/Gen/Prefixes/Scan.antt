-- ===== src/Gen/Prefixes/Scan.antt =====
-- The groups of `emitPrefixSets` against the values that they are made of.
use mathlib.Core.Path.{subst}
use mathlib.Core.List.{Memᴰ}
use entid_go.Prelude.{
  ||-left, ||-right, ℕ, ◌≡◌, refl, sym, ap, ◌∙◌, Bool, true, false, ◌&&◌, List, [], ◌∷◌, arith, leb,
  ◌==◌, ==_iff, length, Bytes, Bool-cases, inl, inr, ◌⊎◌, ||-inv, has_prefix as string_has_prefix,
}
use entid_go.Gen.Limits.{member}
use entid_go.Gen.Load.Nodes.{ascending_strings}
use entid_go.Runtime.View.{View}
use entid_go.Runtime.View.Prefixes.{
  some_prefix, scan_groups, prefix_in_sorted, prefix_in_sorted-scan,
}
use entid_go.Gen.Prefixes.{of_length, lengths_of, insert_int, sort_ints, groups_of, prefix_groups}
use entid_go.Gen.Prefixes.Groups.{of_length-member, groups_of-WellFormed, ascending_strings-Rising}

-- A value, found by a scan.
some_prefix-inv :
    (s : Bytes) (vs : List Bytes)
    → some_prefix s vs ≡ true
    → (v : Bytes) × Memᴰ v vs × (string_has_prefix s v ≡ true)
some_prefix-inv s [] h = absurd (ground arith)
some_prefix-inv s (x ∷ vs) h = elim (||-inv (string_has_prefix s x) (some_prefix s vs) h) [
  | inl here ↦ (x, Memᴰ.head refl, here)
  | inr later ↦ let (v, m, e) = some_prefix-inv s vs later in (v, Memᴰ.tail m, e)
]

some_prefix-member :
    (s v : Bytes) (vs : List Bytes)
    → Memᴰ v vs
    → string_has_prefix s v ≡ true
    → some_prefix s vs ≡ true
some_prefix-member s v [] m h = elim m [ ]
some_prefix-member s v (x ∷ vs) m h = elim m [
  | Memᴰ.head same ↦ ||-left _ _ (ap (string_has_prefix s) (sym same) ∙ h)
  | Memᴰ.tail m' ↦ ||-right _ _ (some_prefix-member s v vs m' h)
]

-- A scan of the groups finds nothing that is not a value.
scan_groups_sound :
    (s : Bytes) (vs : List Bytes) (ns : List ℕ)
    → scan_groups s (groups_of vs ns) ≡ true
    → some_prefix s vs ≡ true
unfolding groups_of
scan_groups_sound s vs [] h = absurd (ground arith)
scan_groups_sound s vs (n ∷ ns) h =
    elim (||-inv (some_prefix s (of_length n vs)) (scan_groups s (groups_of vs ns)) h) [
      | inl here ↦
          let (v, m, e) = some_prefix-inv s (of_length n vs) here in
          some_prefix-member s v vs (of_length-member n vs v m) e
      | inr later ↦ scan_groups_sound s vs ns later
    ]

member-of_length : (vs : List Bytes) (v : Bytes) → Memᴰ v vs → Memᴰ v (of_length (length v) vs)
unfolding of_length
member-of_length [] v m = m
member-of_length (x ∷ vs) v m = elim m [
  | Memᴰ.head same ↦ rw ((==_iff (length x) (length v)).1 (ap length (sym same))) (Memᴰ.head same)
  | Memᴰ.tail m' ↦ elim (Bool-cases (length x == length v)) [
    | inl here ↦ rw here (Memᴰ.tail (member-of_length vs v m'))
    | inr other ↦ rw other (member-of_length vs v m')
  ]
]

scan_groups_complete :
    (s v : Bytes) (vs : List Bytes) (ns : List ℕ)
    → Memᴰ v vs
    → string_has_prefix s v ≡ true
    → member (length v) ns ≡ true
    → scan_groups s (groups_of vs ns) ≡ true
unfolding groups_of
scan_groups_complete s v vs [] m h k = absurd (ground arith)
scan_groups_complete s v vs (n ∷ ns) m h k =
    elim (||-inv (n == length v) (member (length v) ns) k) [
      | inl here ↦ ||-left _ _ (
          some_prefix-member s v (of_length n vs)
            (subst (λ i. Memᴰ v (of_length i vs)) (sym ((==_iff n (length v)).0 here))
              (member-of_length vs v m))
            h)
      | inr later ↦ ||-right _ _ (scan_groups_complete s v vs ns m h later)
    ]

insert_int-member :
    (a k : ℕ) (xs : List ℕ) → (member k (a ∷ xs) ≡ true) → member k (insert_int a xs) ≡ true
unfolding insert_int
insert_int-member a k [] h = h
insert_int-member a k (x ∷ xs) h = elim (Bool-cases (leb a x)) [
  | inl here ↦ rw here h
  | inr later ↦
      let front : member k (a ∷ xs) ≡ true → member k (x ∷ insert_int a xs) ≡ true =
        λ m. ||-right _ _ (insert_int-member a k xs m) in
      rw later (elim (||-inv (a == k) (member k (x ∷ xs)) h) [
        | inl new ↦ front (||-left _ _ new)
        | inr old ↦ elim (||-inv (x == k) (member k xs) old) [
          | inl first ↦ ||-left _ _ first
          | inr rest ↦ front (||-right _ _ rest)
        ]
      ])
]

sort_ints-member : (k : ℕ) (xs : List ℕ) → member k xs ≡ true → member k (sort_ints xs) ≡ true
unfolding sort_ints
sort_ints-member k [] h = h
sort_ints-member k (x ∷ xs) h =
    insert_int-member x k (sort_ints xs) (elim (||-inv (x == k) (member k xs) h) [
      | inl here ↦ ||-left _ _ here
      | inr later ↦ ||-right _ _ (sort_ints-member k xs later)
    ])

lengths_of-member :
    (seen : List ℕ) (vs : List Bytes) (v : Bytes)
    → Memᴰ v vs
    → (member (length v) seen ≡ true) ⊎ (member (length v) (lengths_of seen vs) ≡ true)
unfolding lengths_of
lengths_of-member seen [] v m = elim m [ ]
lengths_of-member seen (x ∷ vs) v m =
    let n = length x in
    let same_length : v ≡ x → (n == length v) ≡ true =
      λ e. (==_iff n (length v)).1 (ap length (sym e)) in
    elim (Bool-cases (member n seen)) [
      | inl old ↦ elim m [
        | Memᴰ.head e ↦ inl (ap (λ u. member (length u) seen) e ∙ old)
        | Memᴰ.tail m' ↦ rw old (lengths_of-member seen vs v m')
      ]
      | inr new ↦ rw new (elim m [
        | Memᴰ.head e ↦ inr (||-left _ _ (same_length e))
        | Memᴰ.tail m' ↦ elim (lengths_of-member (n ∷ seen) vs v m') [
          | inl before ↦ elim (||-inv (n == length v) (member (length v) seen) before) [
            | inl now ↦ inr (||-left _ _ now)
            | inr older ↦ inl older
          ]
          | inr later ↦ inr (||-right _ _ later)
        ]
      ])
    ]

Bool-iff : (a b : Bool) → (a ≡ true → b ≡ true) → (b ≡ true → a ≡ true) → a ≡ b
Bool-iff true b f g = sym (f refl)
Bool-iff false true f g = g refl
Bool-iff false false f g = refl

-- A scan of the groups is a scan of the values.
scan_groups-some_prefix :
    (s : Bytes) (vs : List Bytes) → scan_groups s (prefix_groups vs) ≡ some_prefix s vs
unfolding prefix_groups
scan_groups-some_prefix s vs =
    let ns = sort_ints (lengths_of [] vs) in
    Bool-iff _ _ (scan_groups_sound s vs ns) (λ h.
      let (v, m, e) = some_prefix-inv s vs h in
      elim (lengths_of-member [] vs v m) [
        | inl never ↦ absurd (ground arith)
        | inr listed ↦
            scan_groups_complete s v vs ns m e
              (sort_ints-member (length v) (lengths_of [] vs) listed)
      ])

-- On the values of a `prefix_in` that the loader accepts, strictly ascending, the groups that the generator
-- writes and the binary searches that run on them answer what a scan of the values would answer.
pub prefix_in_sorted-prefix_groups :
    (v : View) (values : List Bytes)
    → ascending_strings values ≡ true
    → prefix_in_sorted v (prefix_groups values) ≡ (v.present && some_prefix v.s values)
unfolding prefix_groups
prefix_in_sorted-prefix_groups v values up =
    let ns = sort_ints (lengths_of [] values) in
    prefix_in_sorted-scan v (groups_of values ns)
      (groups_of-WellFormed values ns (ascending_strings-Rising values up))
    ∙ ap (λ b. v.present && b) (scan_groups-some_prefix v.s values)
