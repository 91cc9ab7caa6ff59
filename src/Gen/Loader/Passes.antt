-- ===== src/Gen/Loader/Passes.antt =====
-- internal/gen/load.go: the two passes of `Load`.
use entid_go.Prelude.{
  ℕ, ltb, true, false, not, List, Option, none, some, length, Bytes, ◌≡◌, refl, ◌↔◌, ◌≤◌, arith,
  Option-cases, Bool-cases, inl, inr, ap, ◌∙◌, sym, some-eq, ◌≢◌, then_taken, else_taken,
}
use entid_go.Wire.{Reader, done, new_reader}
use entid_go.Wire.Reads.{in_lenient}
use entid_go.Gen.Limits.{max_bundle_bytes}
use entid_go.Gen.Model.{Bundle}
use entid_go.Gen.Decode.Bundles.{decode_bundle, no_bundle}
use entid_go.Gen.Decode.Cases.{decode_bundle-Agrees}
use entid_go.Gen.Decode.Ends.{decode-done}
use entid_go.Gen.Load.{
  Verdict, invalid_ruleset, incompatible_ruleset, accepted, check_versions, run_checks,
}
use entid_go.Gen.Load.Versions.{LacksSupport, check_versions-LacksSupport}
use entid_go.Gen.Load.Calls.{Depths}
use entid_go.Gen.Loader.{
  Loaded, refused_invalid, refused_incompatible, loaded, validated, strict_pass, declared_pass,
  scout_pass, load,
}

-- A decode that succeeds has read its whole slice: no bytes are left behind the root message.
decode_bundle-done : (r r' : Reader) (b : Bundle) → decode_bundle r ≡ some (b, r') → done r' ≡ true
unfolding decode_bundle
decode_bundle-done r r' b h = decode-done _ no_bundle r r' b h

-- The specification: one strict pass, and every check on what it reads.
pub record Accepts (raw : Bytes) (b : Bundle) : Type 0 where
  pub small : length raw ≤ max_bundle_bytes
  pub end : Reader
  pub decoded : decode_bundle (new_reader raw) ≡ some (b, end)
  pub declared : List ℕ
  pub versions : check_versions b ≡ accepted declared
  pub depths : Depths
  pub checked : run_checks b declared ≡ some depths

validated-inv :
    (b b' : Bundle) (o : Option Depths)
    → validated b o ≡ loaded b'
    → (b ≡ b') × (depths : Depths) × (o ≡ some depths)
unfolding validated
validated-inv b b' none h = absurd (ground arith)
validated-inv b b' (some depths) h = (ground arith, depths, refl)

strict_pass-inv :
    (declared : List ℕ) (o : Option (Bundle × Reader)) (b : Bundle)
    → strict_pass declared o ≡ loaded b
    → (end : Reader) × (o ≡ some (b, end))
      × (depths : Depths) × (run_checks b declared ≡ some depths)
unfolding strict_pass
strict_pass-inv declared none b h = absurd (ground arith)
strict_pass-inv declared (some (b', r)) b h = elim (Bool-cases (done r)) [
  | inl end ↦
      let valid = else_taken (not (done r)) _ _ (loaded b) (ap not end) h in
      let (same, depths, checked) = validated-inv b' b (run_checks b' declared) valid in
      (r, ap (λ x. some (x, r)) same, depths, ap (λ x. run_checks x declared) (sym same) ∙ checked)
  | inr more ↦
      absurd (
        refused_ne_loaded b
          (then_taken (not (done r)) refused_invalid _ (loaded b) (ap not more) h))
]
  where
    refused_ne_loaded : (b : Bundle) → refused_invalid ≢ loaded b
    refused_ne_loaded b h = ground arith

declared_pass-inv :
    (raw : Bytes) (v : Verdict) (b : Bundle)
    → declared_pass raw v ≡ loaded b
    → (declared : List ℕ) × (v ≡ accepted declared)
      × (strict_pass declared (decode_bundle (new_reader raw)) ≡ loaded b)
unfolding declared_pass
declared_pass-inv raw invalid_ruleset b h = absurd (ground arith)
declared_pass-inv raw incompatible_ruleset b h = absurd (ground arith)
declared_pass-inv raw (accepted declared) b h = (declared, refl, h)

-- Where the size fits and the lenient pass reads a bundle, checks 3 and 4 of it decide what follows.
scouted :
    (raw : Bytes) (scout : Bundle) (r : Reader)
    → length raw ≤ max_bundle_bytes
    → decode_bundle (in_lenient (new_reader raw)) ≡ some (scout, r)
    → load raw ≡ declared_pass raw (check_versions scout)
unfolding load scout_pass
scouted raw scout r small read =
    let size : ltb max_bundle_bytes (length raw) ≡ false = ground (arith, small) in
    let end : not (done r) ≡ false = ap not (decode_bundle-done _ r scout read) in
    rw size (rw read (rw end refl))

load-inv :
    (raw : Bytes) (l : Loaded)
    → load raw ≡ l
    → l ≢ refused_invalid
    → (length raw ≤ max_bundle_bytes)
      × (scout : Bundle) × (r : Reader) × (decode_bundle (in_lenient (new_reader raw))
          ≡ some (scout, r))
      × (declared_pass raw (check_versions scout) ≡ l)
unfolding load scout_pass
load-inv raw l h valid = elim (Bool-cases (ltb max_bundle_bytes (length raw))) [
  | inl large ↦ absurd (valid (sym (then_taken _ refused_invalid _ l large h)))
  | inr small ↦
      let fits : length raw ≤ max_bundle_bytes = ground (arith, small) in
      elim (Option-cases (decode_bundle (in_lenient (new_reader raw)))) [
        | inl failed ↦ absurd (
            valid
              (sym (sym (ap (scout_pass raw) failed) ∙ else_taken _ refused_invalid _ l small h)))
        | inr ((scout, r), read) ↦ (fits, scout, r, read, sym (scouted raw scout r fits read) ∙ h)
      ]
]

strictly :
    (raw : Bytes) (b : Bundle) (a : Accepts raw b)
    → done a.end ≡ true
    → declared_pass raw (accepted a.declared) ≡ loaded b
unfolding declared_pass strict_pass validated
strictly raw b a end = rw a.decoded (rw end (rw a.checked refl))

-- The loader gives a bundle exactly where one strict pass reads it and every check accepts what the pass
-- read: the lenient pass, and the checks that run on its bundle, neither let a bundle in nor keep one out.
pub load_lem : (raw : Bytes) (b : Bundle) → (load raw ≡ loaded b) ↔ Accepts raw b
load_lem raw b = (accepts, loads)
  where
    accepts : load raw ≡ loaded b → Accepts raw b
    accepts h =
        let (fits, scout, r, scout_read, passed) = load-inv raw (loaded b) h (ground arith) in
        let (declared, versions, strict) = declared_pass-inv raw (check_versions scout) b passed in
        let (end, read, depths, checked) = strict_pass-inv declared _ b strict in
        let again = decode_bundle-Agrees.agree (new_reader raw) end b read in
        let same =
          ap (λ p. p.0) (some-eq (scout, r) (b, in_lenient end) (sym scout_read ∙ again)) in
        record {
          small = fits;
          end = end;
          decoded = read;
          declared = declared;
          versions = ap check_versions (sym same) ∙ versions;
          depths = depths;
          checked = checked;
        }

    loads : Accepts raw b → load raw ≡ loaded b
    loads a =
        let again = decode_bundle-Agrees.agree (new_reader raw) a.end b a.decoded in
        scouted raw b (in_lenient a.end) a.small again
        ∙ ap (declared_pass raw) a.versions
        ∙ strictly raw b a (decode_bundle-done _ a.end b a.decoded)

validated-compatible : (b : Bundle) (o : Option Depths) → validated b o ≢ refused_incompatible
unfolding validated
validated-compatible b none h = ground arith
validated-compatible b (some depths) h = ground arith

strict_pass-compatible :
    (declared : List ℕ) (o : Option (Bundle × Reader))
    → strict_pass declared o ≢ refused_incompatible
unfolding strict_pass
strict_pass-compatible declared none h = ground arith
strict_pass-compatible declared (some (b, r)) h =
    let valid = validated-compatible b (run_checks b declared) in ground (arith, valid)

declared_pass-incompatible :
    (raw : Bytes) (v : Verdict)
    → declared_pass raw v ≡ refused_incompatible
    → v ≡ incompatible_ruleset
unfolding declared_pass
declared_pass-incompatible raw invalid_ruleset h = absurd (ground arith)
declared_pass-incompatible raw incompatible_ruleset h = refl
declared_pass-incompatible raw (accepted declared) h =
    absurd (strict_pass-compatible declared (decode_bundle (new_reader raw)) h)

refusal : (raw : Bytes) → declared_pass raw incompatible_ruleset ≡ refused_incompatible
unfolding declared_pass
refusal raw = refl

-- The loader answers that the bundle is incompatible exactly where its size fits, a lenient pass reads it
-- whole, and of what that pass read the format's version is not the supported one, or a capability is not
-- supported up to which the list of capabilities is strictly ascending.
pub load-incompatible :
    (raw : Bytes)
    → (load raw ≡ refused_incompatible) ↔ (
        (length raw ≤ max_bundle_bytes)
        × (scout : Bundle) × (end : Reader) × (decode_bundle (in_lenient (new_reader raw))
            ≡ some (scout, end))
        × LacksSupport scout)
load-incompatible raw = (
  λ h.
      let (fits, scout, r, read, passed) = load-inv raw refused_incompatible h (ground arith) in
      let versions = declared_pass-incompatible raw (check_versions scout) passed in
      (fits, scout, r, read, (check_versions-LacksSupport scout).0 versions),
  λ (fits, scout, end, read, why).
      let versions = (check_versions-LacksSupport scout).1 why in
      scouted raw scout end fits read ∙ ap (declared_pass raw) versions ∙ refusal raw,
)
