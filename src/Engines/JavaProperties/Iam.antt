-- ===== src/Engines/JavaProperties/Iam.antt =====
-- The translation of the signal for MSK IAM.
use text.Mathlib.TextEquality.{eq_iff}
use text.Mathlib.Text.{◌==◌ as str_eq}
use lakehouse_ingest_bench.Result.{ok, ok_injective}
use lakehouse_ingest_bench.Prelude.{
  String, ◌≡◌, refl, sym, ◌∙◌, ◌⊎◌, inl, inr, true, false, Option, none, some, [], ◌∷◌, ◌++◌, arith,
  if◌then◌else◌, Bool-cases, Option-cases,
}
use lakehouse_ingest_bench.Prelude.Strings.{
  among, lookup, keys, without, lookup-append, lookup-without,
}
use lakehouse_ingest_bench.Engines.JavaProperties.{
  Props, region_key, msk_iam_props, signals_iam, refuse_java_oauth, has_explicit_oauth,
  kafka_properties,
}

-- What a translated property is: the module's own, none of the region, or the site's.
abbrev pub or_else : Option String → Option String → Option String
or_else (some value) other = some value
or_else none other = other

lookup-keys :
    (key : String) (props : Props) → lookup key props ≡ none → among key (keys props) ≡ false
lookup-keys key [] h = refl
lookup-keys key ((k, v) ∷ props) h =
    ground (arith, eq_iff k key, eq_iff key k, lookup-keys key props)

abbrev pub translated : Props → String → Option String
translated security key =
    or_else (lookup key msk_iam_props) (if str_eq key region_key then none else lookup key security)

lookup-replaced :
    (own security : Props) (key region : String)
    → lookup key (own ++ without (region ∷ keys own) security)
      ≡ or_else (lookup key own) (if str_eq key region then none else lookup key security)
lookup-replaced own security key region = elim (Option-cases (lookup key own)) [
  | inr (value, found) ↦ lookup-append key own _ ∙ rw found refl
  | inl other ↦
      let alone = lookup-keys key own other in
      lookup-append key own _
      ∙ rw other (lookup-without (region ∷ keys own) key security ∙ ground (arith, alone))
]

-- Properties that choose an OAuth token source of their own are refused. The harness's signal for MSK IAM is
-- translated: each property of the Java module has the module's value, the region is left out and
-- every other property is the site's. Without the signal the properties stay as they are.
pub kafka_properties-translated :
    (security p : Props)
    → kafka_properties security ≡ ok p
    → (has_explicit_oauth security ≡ false)
      × (((signals_iam security ≡ true) × ((key : String) → lookup key p ≡ translated security key))
          ⊎ ((signals_iam security ≡ false) × (p ≡ security)))
unfolding kafka_properties refuse_java_oauth
kafka_properties-translated security p h = elim (Bool-cases (has_explicit_oauth security)) [
  | inl own ↦ absurd (cc (rw own at h))
  | inr none_own ↦ (
    none_own,
    elim (Bool-cases (signals_iam security)) [
      | inl iam ↦ inl (
        iam,
        λ key.
            rw (← ok_injective (rw (none_own, iam) at h))
              (lookup-replaced msk_iam_props security key region_key),
      )
      | inr other ↦ inr (other, sym (ok_injective (rw (none_own, other) at h)))
    ],
  )
]
